-- ===== src/Ntfs/Compress/Bounds.antt =====
-- The decompression ends, and stays near its two buffers, whatever the block holds.
use rohos_disk_browser.Prelude.{
  ℕ, zero, suc, ◌+◌, ◌-◌, ◌*◌, ◌/◌, ◌%◌, ◌<◌, ◌≤◌, ◌≡◌, refl, List, [], ◌∷◌, Option, none, some,
  inl, inr, Bool, true, false, ◌||◌, ltb, ◌==◌, length, take, drop, length-append, length-drop,
  length-take, arith, Bool-cases,
}
use rohos_disk_browser.Crypto.Bytes.{read}
use rohos_disk_browser.Ntfs.Compress.{
  Step, next, overflow, sb_size, tags, sub_block, stored, sub_blocks, on_return, decompress,
}
use rohos_disk_browser.Ntfs.Compress.Steps.{sub_blocks_done, sub_blocks_more, sub_blocks_end}
use rohos_disk_browser.Ntfs.Compress.Within.{Within, Within-wider}
use rohos_disk_browser.Ntfs.Compress.Tags.{tags-Within}

read-take : (n : ℕ) (buf : List ℕ) → n ≤ length buf → read n buf ≡ some (take n buf)
unfolding read
read-take n buf h = ground arith

stored-Within :
    (dest_size size sb_end cb : ℕ) (mem out : List ℕ)
    → sb_end ≤ size
    → cb < sb_end
    → size < cb + length mem
    → length out + sb_size ≤ dest_size
    → Within size (cb + 1) size 0 (dest_size + 1) (stored sb_end cb mem out)
unfolding stored
stored-Within dest_size size sb_end cb mem out inside pos m fits =
    elim (Bool-cases (sb_end == cb + 2 + sb_size)) [
      | inl full ↦
          let end : sb_end ≡ cb + 2 + sb_size = ground arith in
          let n : length (drop 2 mem) ≡ length mem - 2 = length-drop 2 mem in
          let k : length (drop (2 + sb_size) mem) ≡ length mem - (2 + sb_size) =
            length-drop (2 + sb_size) mem in
          rw (full, read-take sb_size (drop 2 mem) (omega arith))
            (
              omega arith,
              omega arith,
              omega arith,
              omega arith,
              omega (
                arith,
                length-append out (take sb_size (drop 2 mem)),
                length-take sb_size (drop 2 mem),
              ),
            )
      | inr short ↦ rw short (omega arith)
    ]

-- A sub-block that is not refused ends inside the compression block.
module _ (dest_size size head cb : ℕ) (mem out : List ℕ) where
  sub_block-Within :
      size < cb + length mem
      → length out ≤ dest_size + 1
      → Within size (cb + 1) size 0 (dest_size + 1) (sub_block dest_size size head cb mem out)
  unfolding sub_block
  sub_block-Within m hi = elim (Bool-cases (ltb dest_size (length out + sb_size))) [
    | inl full ↦ rw full hi
    | inr room ↦ elim (Bool-cases (ltb size (cb + 6))) [
      | inl short ↦ rw (room, short) hi
      | inr six ↦ elim (Bool-cases (ltb size (cb + head % 4096 + 3))) [
        | inl past ↦ rw (room, six, past) hi
        | inr inside ↦ elim (Bool-cases (head / 0x8000 % 2 == 0)) [
          | inl plain ↦
              rw (room, six, inside, plain)
                (stored-Within dest_size size (cb + head % 4096 + 3) cb mem out (ground arith)
                  (omega arith) m (ground arith))
          | inr packed ↦ rw (room, six, inside, packed) (inner (ground arith) (ground arith))
        ]
      ]
    ]
  ]
    where
      inner :
          cb + head % 4096 + 3 ≤ size
          → length out + sb_size ≤ dest_size
          → Within size (cb + 1) size 0 (dest_size + 1) (
              tags
                (cb + head % 4096 + 3 - cb)
                (length out)
                (cb + head % 4096 + 3)
                (cb + 2)
                (drop 2 mem)
                out)
      inner inside fits =
          let end = cb + head % 4096 + 3 in
          let n = length-drop 2 mem in
          Within-wider size end end (length out + sb_size) (length out + sb_size + 1) (cb + 1) size
            0 (dest_size + 1) (tags (end - cb) (length out) end (cb + 2) (drop 2 mem) out)
            (omega arith) inside (omega arith) (omega arith)
            (tags-Within size (length out) end inside (end - cb) (cb + 2) (drop 2 mem) out
              (omega arith) (omega arith) (omega arith) (omega arith) (omega arith))

-- A return of the routine with at most `most` bytes written.
abbrev Returns : ℕ → Option (Bool × List ℕ) → Type 0
Returns most r = (done : Bool) × (out : List ℕ) × (r ≡ some (done, out)) × (length out ≤ most)

on_return-Returns :
    (size lo hi least most : ℕ) (r : Option Step) (f : ℕ → List ℕ → List ℕ → Option (Bool × List ℕ))
    → Within size lo hi least most r
    → ((cb : ℕ) (mem out : List ℕ)
        → lo ≤ cb
        → cb ≤ hi
        → size < cb + length mem
        → length out ≤ most
        → Returns most (f cb mem out))
    → Returns most (on_return r f)
on_return-Returns size lo hi least most none f w k = absurd w
on_return-Returns size lo hi least most (some (overflow out)) f w k = (false, out, refl, w)
on_return-Returns size lo hi least most (some (next cb mem out)) f (a, b, c, d, e) k =
    k cb mem out a b c e

module _ (dest_size size : ℕ) where
  sub_blocks-Returns :
      (fuel cb : ℕ) (mem out : List ℕ)
      → cb ≤ size
      → size < cb + fuel
      → size < cb + length mem
      → length out ≤ dest_size + 1
      → Returns (dest_size + 1) (sub_blocks fuel dest_size size cb mem out)
  sub_blocks-Returns zero cb mem out h few m hi = absurd (omega arith)
  sub_blocks-Returns (suc fuel) cb [] out h few m hi = absurd (omega arith)
  sub_blocks-Returns (suc fuel) cb (x ∷ []) out h few m hi =
      let last : cb ≡ size = omega arith in
      (true, out, rw last (sub_blocks_end dest_size size fuel (x ∷ []) out), hi)
  sub_blocks-Returns (suc fuel) cb (x ∷ y ∷ mem) out h few m hi =
      elim (Bool-cases ((x + 256 * y == 0) || (length out == dest_size))) [
        | inl done ↦ (true, out, sub_blocks_done dest_size size fuel cb x y mem out done, hi)
        | inr on ↦ elim (Bool-cases (cb == size)) [
          | inl end ↦
              let last : cb ≡ size = ground arith in
              (true, out, rw last (sub_blocks_end dest_size size fuel (x ∷ y ∷ mem) out), hi)
          | inr more ↦ rw (sub_blocks_more dest_size size fuel cb x y mem out (ground arith) on) (
              on_return-Returns size (cb + 1) size 0 (dest_size + 1)
                (sub_block dest_size size (x + 256 * y) cb (x ∷ y ∷ mem) out)
                (sub_blocks fuel dest_size size)
                (sub_block-Within dest_size size (x + 256 * y) cb (x ∷ y ∷ mem) out m hi)
                (λ cb' mem' out' a b c e.
                  sub_blocks-Returns fuel cb' mem' out' b (omega arith) c e))
        ]
      ]

-- Whatever a compression block holds, its decompression ends: with the memory readable one byte past
-- the block, it never reads further, it returns, and it has then written at most one byte past the
-- destination.
pub decompress-returns :
    (dest_size cb_size : ℕ) (mem : List ℕ)
    → cb_size < length mem
    → (done : Bool) × (out : List ℕ) × (decompress dest_size cb_size mem ≡ some (done, out))
      × (length out ≤ dest_size + 1)
unfolding decompress
decompress-returns dest_size cb_size mem h =
    sub_blocks-Returns dest_size cb_size (suc cb_size) 0 mem [] (omega arith) (omega arith)
      (omega arith) (omega arith)
