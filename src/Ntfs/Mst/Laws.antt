-- ===== src/Ntfs/Mst/Laws.antt =====
-- mst.c: writing and reading a record undo one another, and the two ways to take the protection off.
use rohos_disk_browser.Prelude.{
  ℕ, suc, ◌+◌, ◌*◌, ◌/◌, ◌%◌, ◌^◌, ◌≤◌, ◌<◌, ◌≡◌, ◌≢◌, sym, ap, ◌∙◌, ◌⊎◌, inl, inr, List, [], ◌∷◌,
  some, true, false, ltb, ◌==◌, ==_iff, length, get_elem?, get_or, set, arith,
}
use rohos_disk_browser.Prelude.Store.{
  store_lem, length-set, get_elem?-set, get_elem?-set_other, get_elem?-get_or,
}
use rohos_disk_browser.Ntfs.Mst.{
  ok, fixups, next_usn, bad_size, is_unprotectable, protect, post_read_fixup, pre_write_fixup,
}
use rohos_disk_browser.Ntfs.Mst.Loops.{
  Unsaved, protected-cases, before-Unprotected, check_loop-whole, Restored, restore_loop_lem,
  Protected, protect_loop_lem,
}

-- The header of a record of `n` blocks whose update sequence array begins at word `u`.
abbrev pub HasHeader : List ℕ → ℕ → ℕ → Type 0
HasHeader b n u =
    (get_elem? b 2 ≡ some (2 * u))
    × ((get_elem? b 3 ≡ some (suc n)) × ((suc n < 2 ^ 16) × (length b ≡ 256 * n)))

-- The array stands between the header and the last word of the first block.
abbrev pub Placed : ℕ → ℕ → Type 0
Placed n u = (4 ≤ u) × (u + n < 255)

abbrev pub IsProtectable : List ℕ → Type 0
IsProtectable b = is_unprotectable (get_or b 0 0) (get_or b 1 0) ≡ false

pub bad_size_lem :
    (n u : ℕ) → suc n < 2 ^ 16 → 2 * u + 2 * n ≤ 512 * n → bad_size (512 * n) (2 * u) n ≡ false
unfolding bad_size
bad_size_lem n u lt h =
    let aligned : (512 * n % 512 == 0) ≡ true = (==_iff (512 * n % 512) 0).1 (omega arith) in
    let short : ltb (512 * n) ((2 * u + n * 2) % 2 ^ 32) ≡ false = ground (arith, h) in
    let blocks : (512 * n / 2 ^ 9 == n) ≡ true = (==_iff (512 * n / 2 ^ 9) n).1 (omega arith) in
    rw (aligned, short, blocks)

pub fixups-suc : (n : ℕ) → suc n < 2 ^ 16 → fixups (suc n) ≡ n
fixups-suc n h = omega (arith, h)

pub half : (u : ℕ) → 2 * u / 2 ≡ u
half u = omega arith

-- The update sequence number of a write is none of the reserved 0 and 0xffff, and differs from the
-- one of the write before.
pub next_usn_lem :
    (old : ℕ) → old < 2 ^ 16 → (next_usn old ≢ 0) × ((next_usn old ≢ 65535) × (next_usn old ≢ old))
unfolding next_usn
next_usn_lem old h = ground (arith, h)

-- A read of a record whose blocks all carry the number gives it back with the saved words in place.
pub post_read-ok :
    (b : List ℕ) (n u usn : ℕ)
    → HasHeader b n u
    → 0 < n
    → u + n < 255
    → get_elem? b u ≡ some usn
    → ((k : ℕ) → k < n → get_elem? b (255 + 256 * k) ≡ some usn)
    → (b' : List ℕ) × ((post_read_fixup b (512 * n) ≡ some (ok, b')) × Restored n u 255 b b')
unfolding post_read_fixup
post_read-ok b n u usn (ofs, (cnt, (lt, size))) pos fit number all =
    let (b', (run, r)) = restore_loop_lem n u 255 b (omega (arith, size)) (omega (arith, fit)) in
    (
      b',
      (
        rw (
          ofs,
          cnt,
          fixups-suc n lt,
          bad_size_lem n u lt (omega (arith, pos, fit)),
          half u,
          number,
          check_loop-whole n 255 usn b all,
          run,
        ),
        r,
      ),
    )

pub even : (u : ℕ) → (2 * u % 2 == 0) ≡ true
even u = (==_iff (2 * u % 2) 0).1 (omega arith)

nonempty : (b : List ℕ) (n i v : ℕ) → length b ≡ 256 * n → get_elem? b i ≡ some v → 0 < n
nonempty [] n i v size at = absurd (ground (arith, at))
nonempty (x ∷ b) n i v size at = omega (arith, size)

-- A write of a record in place of which the array stands behind the header.
pub pre_write-ok :
    (b : List ℕ) (n u old : ℕ)
    → HasHeader b n u
    → IsProtectable b
    → Placed n u
    → get_elem? b u ≡ some old
    → (b' : List ℕ) × ((pre_write_fixup (some b) (512 * n) ≡ some (ok, b'))
        × Protected n u 255 (next_usn old) (set b u (next_usn old)) b')
unfolding pre_write_fixup protect
pre_write-ok b n u old (ofs, (cnt, (lt, size))) free (low, fit) number =
    let pos : 0 < n = nonempty b n 2 (2 * u) size ofs in
    let at_u : u < length b = omega (arith, size, fit, pos) in
    let b1 = set b u (next_usn old) in
    let size1 : length b1 ≡ length b = length-set b u (next_usn old) in
    let (b', (run, r)) =
      protect_loop_lem n u 255 (next_usn old) b1 (omega (arith, size, size1))
        (omega (arith, fit)) in
    (
      b',
      (
        rw (
          get_elem?-get_or b 0 0 (omega (arith, at_u)),
          get_elem?-get_or b 1 0 (omega (arith, size, pos)),
          ofs,
          cnt,
          fixups-suc n lt,
          free,
          even u,
          bad_size_lem n u lt (omega (arith, pos, fit)),
          half u,
          number,
          store_lem b u (next_usn old) at_u,
          run,
        ),
        r,
      ),
    )

-- What is written over the array and the last words of the blocks leaves the header as it is.
header_kept :
    (b b' : List ℕ) (n u usn i : ℕ)
    → i < 4
    → Placed n u
    → Protected n u 255 usn (set b u usn) b'
    → get_elem? b' i ≡ get_elem? b i
header_kept b b' n u usn i h (low, fit) (size, (kept, (marked, others))) =
    others i (inl (omega (arith, h, low))) (before-Unprotected n 255 i (omega (arith, h)))
    ∙ get_elem?-set_other b u i usn (λ e. omega (arith, h, low, e))

-- A word outside the array is what it was before the write.
word_kept :
    (b disk again : List ℕ) (n u usn : ℕ)
    → u + n < 255
    → Protected n u 255 usn (set b u usn) disk
    → Restored n u 255 disk again
    → (i : ℕ) → (i < u) ⊎ (u + n < i)
    → get_elem? again i ≡ get_elem? b i
word_kept b disk again n u usn fit (len, (kept, (marked, others))) (len2, (back, rest)) i out =
    elim (protected-cases n 255 i) [
      | inl (k, (lt, e)) ↦
          ap (get_elem? again) e
          ∙ back k lt
          ∙ kept k lt
          ∙ get_elem?-set_other b u (255 + 256 * k) usn (λ q. omega (arith, fit, q))
          ∙ sym (ap (get_elem? b) e)
      | inr f ↦
          rest i f
          ∙ others i (unsaved u n i out) f
          ∙ get_elem?-set_other b u i usn (apart u n i out)
    ]
  where
    unsaved : (u n i : ℕ) → (i < u) ⊎ (u + n < i) → Unsaved n u i
    unsaved u n i (inl h) = inl (omega (arith, h))
    unsaved u n i (inr h) = inr h

    apart : (u n i : ℕ) → (i < u) ⊎ (u + n < i) → u ≢ i
    apart u n i (inl h) e = omega (arith, h, e)
    apart u n i (inr h) e = omega (arith, h, e)

-- A record that was written with its protection and read again has no error, its length, and outside
-- the update sequence array, where its number counts up, each word `i` of it: when the array has a place
-- between the header and the end of the first block, and the record is not marked BAAD or HOLE.
pub post_read-pre_write :
    (b : List ℕ) (n u old i : ℕ)
    → HasHeader b n u
    → IsProtectable b
    → Placed n u
    → get_elem? b u ≡ some old
    → (i < u) ⊎ (u + n < i)
    → (disk : List ℕ) × ((again : List ℕ) × ((pre_write_fixup (some b) (512 * n) ≡ some (ok, disk))
          × ((post_read_fixup disk (512 * n) ≡ some (ok, again))
              × ((length again ≡ length b)
                  × ((get_elem? again u ≡ some (next_usn old))
                      × (get_elem? again i ≡ get_elem? b i))))))
post_read-pre_write b n u old i head free place number out =
    let (ofs, (cnt, (lt, size))) = head in
    let (low, fit) = place in
    let pos : 0 < n = nonempty b n u old size number in
    let (disk, (run, prot)) = pre_write-ok b n u old head free place number in
    let len : length disk ≡ length b = prot.0 ∙ length-set b u (next_usn old) in
    let mark : get_elem? disk u ≡ some (next_usn old) =
      prot.1.1.1 u (inl (omega arith)) (before-Unprotected n 255 u (omega (arith, fit)))
      ∙ get_elem?-set b u (next_usn old) (omega (arith, size, fit, pos)) in
    let head' : HasHeader disk n u = (
      header_kept b disk n u (next_usn old) 2 (omega arith) place prot ∙ ofs,
      (header_kept b disk n u (next_usn old) 3 (omega arith) place prot ∙ cnt, (lt, len ∙ size)),
    ) in
    let (again, (run2, back)) =
      post_read-ok disk n u (next_usn old) head' pos fit mark prot.1.1.0 in
    (
      disk,
      (
        again,
        (
          run,
          (
            run2,
            (
              back.0 ∙ len,
              (
                back.1.1 u (before-Unprotected n 255 u (omega (arith, fit))) ∙ mark,
                word_kept b disk again n u (next_usn old) fit prot back i out,
              ),
            ),
          ),
        ),
      ),
    )
