-- ===== src/Ntfs/Bitmap/Laws.antt =====
-- bitmap.c: setting a bit sets that bit and no other, and the toggling routine does the same.
use rohos_disk_browser.Prelude.{
  ℕ, zero, suc, ◌*◌, ◌/◌, ◌%◌, ◌^◌, ◌<◌, ◌≡◌, ◌≢◌, refl, sym, ap, ◌∙◌, ◌⊎◌, inl, inr, List, [], ◌∷◌,
  some, true, false, ltb, ◌==◌, ==_iff, Bool-cases, length, get_elem?, set, arith,
}
use rohos_disk_browser.Prelude.Store.{store_lem, get_elem?-set, get_elem?-set_other, get_elem?_in}
use rohos_disk_browser.Crypto.Bytes.{IsBytes}
use rohos_disk_browser.Ntfs.Bitmap.{bit_of, with_bit, bit_set, bit_get, bit_get_and_set}
use rohos_disk_browser.Ntfs.Bitmap.Byte.{bit_of-with_bit, toggled_lem}

byte_in : (m : List ℕ) (i x : ℕ) → IsBytes m → get_elem? m i ≡ some x → x < 256
byte_in [] i x p e = absurd (ground (arith, e))
byte_in (y ∷ m) zero x p e = ground (arith, p.0, e)
byte_in (y ∷ m) (suc i) x p e = byte_in m i x (p.1) e

bit_set_run :
    (m : List ℕ) (bit v x : ℕ)
    → v < 2
    → bit / 2 ^ 3 < length m
    → get_elem? m (bit / 2 ^ 3) ≡ some x
    → bit_set (some m) bit v ≡ some (some (set m (bit / 2 ^ 3) (with_bit x (bit % 8) v)))
unfolding bit_set
bit_set_run m bit v x hv h e =
    let valid : ltb 1 v ≡ false = ground (arith, hv) in
    rw (valid, e, store_lem m (bit / 2 ^ 3) (with_bit x (bit % 8) v) h)

bit_get_run :
    (m : List ℕ) (bit x : ℕ)
    → get_elem? m (bit / 2 ^ 3) ≡ some x
    → bit_get (some m) bit ≡ some (some (bit_of x (bit % 8)))
unfolding bit_get
bit_get_run m bit x e = rw e

-- After a bit of a bitmap was set to 0 or 1, that bit has this value, and any other bit `j` of the
-- bitmap the value that it had.
pub bit_get-bit_set :
    (m : List ℕ) (bit j v : ℕ)
    → IsBytes m
    → v < 2
    → bit < 8 * length m
    → j < 8 * length m
    → (m' : List ℕ) × ((bit_set (some m) bit v ≡ some (some m'))
        × ((bit_get (some m') bit ≡ some (some v))
            × ((j ≡ bit) ⊎ (bit_get (some m') j ≡ bit_get (some m) j))))
bit_get-bit_set m bit j v bytes hv h hj =
    let at = bit / 2 ^ 3 in
    let inside : at < length m = omega (arith, h) in
    let (x, e) = get_elem?_in m at inside in
    let small = byte_in m at x bytes e in
    let y = with_bit x (bit % 8) v in
    let same : (bit % 8 == bit % 8) ≡ true = (==_iff (bit % 8) (bit % 8)).1 refl in
    (
      set m at y,
      (
        bit_set_run m bit v x hv inside e,
        (
          bit_get_run (set m at y) bit y (get_elem?-set m at y inside)
              ∙ ap (λ b. some (some b))
                  (bit_of-with_bit x (bit % 8) (bit % 8) v small (omega arith) (omega arith) hv
                    ∙ rw same),
          elim (Bool-cases (j / 2 ^ 3 == at)) [
            | inl q ↦ elim (Bool-cases (j % 8 == bit % 8)) [
              | inl r ↦ inl (ground (arith, q, r))
              | inr r ↦
                  let byte : j / 2 ^ 3 ≡ at = (==_iff (j / 2 ^ 3) at).0 q in
                  inr (
                    bit_get_run (set m at y) j y
                      (ap (get_elem? (set m at y)) byte ∙ get_elem?-set m at y inside)
                    ∙ ap (λ b. some (some b))
                        (bit_of-with_bit x (bit % 8) (j % 8) v small (omega arith) (omega arith) hv
                          ∙ rw r)
                    ∙ sym (bit_get_run m j x (ap (get_elem? m) byte ∙ e)))
            ]
            | inr q ↦
                let apart : at ≢ j / 2 ^ 3 = ground (arith, q) in
                let (z, f) = get_elem?_in m (j / 2 ^ 3) (omega (arith, hj)) in
                inr (
                  bit_get_run (set m at y) j z (get_elem?-set_other m at (j / 2 ^ 3) y apart ∙ f)
                  ∙ sym (bit_get_run m j z f))
          ],
        ),
      ),
    )

-- Reading and setting a bit in one gives the bit that was there and the bitmap that setting it gives.
pub bit_get_and_set_lem :
    (m : List ℕ) (bit v : ℕ)
    → IsBytes m
    → v < 2
    → bit < 8 * length m
    → (old : ℕ) × ((m' : List ℕ) × ((bit_get_and_set (some m) bit v ≡ some (some (old, m')))
          × ((bit_get (some m) bit ≡ some (some old)) × (bit_set (some m) bit v ≡ some (some m')))))
unfolding bit_get_and_set
bit_get_and_set_lem m bit v bytes hv h =
    let at = bit / 2 ^ 3 in
    let inside : at < length m = omega (arith, h) in
    let (x, e) = get_elem?_in m at inside in
    let small = byte_in m at x bytes e in
    let y = with_bit x (bit % 8) v in
    let valid : ltb 1 v ≡ false = ground (arith, hv) in
    let turned = toggled_lem x (bit % 8) v small (omega arith) hv in
    (
      bit_of x (bit % 8),
      (
        set m at y,
        (
          rw (valid, e, turned, store_lem m at y inside),
          (bit_get_run m bit x e, bit_set_run m bit v x hv inside e),
        ),
      ),
    )
