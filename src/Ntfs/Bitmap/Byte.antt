-- ===== src/Ntfs/Bitmap/Byte.antt =====
-- bitmap.c: the operations on one byte, checked for each byte and each bit.
use rohos_disk_browser.Prelude.{
  ℕ, ◌<◌, ◌≡◌, refl, Bool, true, false, ◌&&◌, if◌then◌else◌, ltb, ◌==◌, ==_iff, arith,
}
use rohos_disk_browser.Ntfs.Boot.Powers.{below_all, below_all_lem}
use rohos_disk_browser.Ntfs.Bitmap.{bit_of, with_bit, toggled}

-- Of a byte with one bit set to `v`: the bits, the toggling form, and that it is a byte.
byte_ok : ℕ → ℕ → ℕ → ℕ → Bool
byte_ok x k j v =
    (bit_of (with_bit x k v) j == (if j == k then v else bit_of x j))
    && ((toggled x k v == with_bit x k v) && ltb (with_bit x k v) 256)

checked :
    below_all 256 (λ x. below_all 8 (λ k. below_all 8 (λ j. below_all 2 (λ v. byte_ok x k j v))))
    ≡ true
unfolding below_all byte_ok
checked = refl

and_split : (a b : Bool) → (a && b) ≡ true → (a ≡ true) × (b ≡ true)
and_split true b h = (refl, h)
and_split false b h = absurd (ground (arith, h))

byte_lem : (x k j v : ℕ) → x < 256 → k < 8 → j < 8 → v < 2 → byte_ok x k j v ≡ true
byte_lem x k j v hx hk hj hv =
    below_all_lem 2 v (λ v. byte_ok x k j v)
      (below_all_lem 8 j (λ j. below_all 2 (λ v. byte_ok x k j v))
        (below_all_lem 8 k (λ k. below_all 8 (λ j. below_all 2 (λ v. byte_ok x k j v)))
          (below_all_lem 256 x
            (λ x. below_all 8 (λ k. below_all 8 (λ j. below_all 2 (λ v. byte_ok x k j v)))) checked
            hx)
          hk)
        hj)
      hv

-- The bits of a byte after one was set.
pub bit_of-with_bit :
    (x k j v : ℕ)
    → x < 256
    → k < 8
    → j < 8
    → v < 2
    → bit_of (with_bit x k v) j ≡ (if j == k then v else bit_of x j)
unfolding byte_ok
bit_of-with_bit x k j v hx hk hj hv = (==_iff _ _).0 (
    (and_split (bit_of (with_bit x k v) j == (if j == k then v else bit_of x j))
      ((toggled x k v == with_bit x k v) && ltb (with_bit x k v) 256)
      (byte_lem x k j v hx hk hj hv)).0)

pub toggled_lem : (x k v : ℕ) → x < 256 → k < 8 → v < 2 → toggled x k v ≡ with_bit x k v
unfolding byte_ok
toggled_lem x k v hx hk hv = (==_iff (toggled x k v) (with_bit x k v)).0 (
    (and_split (toggled x k v == with_bit x k v) (ltb (with_bit x k v) 256) (
      (and_split (bit_of (with_bit x k v) 0 == (if 0 == k then v else bit_of x 0))
        ((toggled x k v == with_bit x k v) && ltb (with_bit x k v) 256)
        (byte_lem x k 0 v hx hk (omega arith) hv)).1)).0)
