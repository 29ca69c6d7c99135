-- ===== src/Ntfs/Mst.antt =====
-- filesys/ntfs/mst.c: the protection of a record against incomplete multi sector transfers. The
-- record is the list of its u16 words from `b` on: words 0 and 1 are the magic, 2 is usa_ofs, 3 is
-- usa_count. `none` is an access past the end of the record's memory.
pub mod Loops
pub mod Laws
pub mod Faults
mod Tests
use rohos_disk_browser.Prelude.{
  ℕ, zero, suc, ◌+◌, ◌*◌, ◌/◌, ◌%◌, ◌^◌, List, [], ◌∷◌, Option, none, some, Bool, true, false, not,
  ◌&&◌, ◌||◌, if◌then◌else◌, ltb, ◌==◌, ◌>>=◌, get_elem?,
}
use rohos_disk_browser.Prelude.Store.{store}

-- 0, -1 with EINVAL, -1 with EIO.
pub data Status : Type 0 where
  ok : Status
  einval : Status
  eio : Status

-- `usa_count - 1` on a u16: the number of sectors to fix.
abbrev pub fixups : ℕ → ℕ
fixups usa_count = (usa_count + 65535) % 2 ^ 16

-- `usn + 1`, skipping 0 and 0xffff.
unfoldable pub next_usn : ℕ → ℕ
next_usn usn = let n = (usn + 1) % 2 ^ 16 in if (n == 65535) || (n == 0) then 1 else n

-- The size check that both functions share: `size` whole blocks, an array that ends inside.
unfoldable pub bad_size : ℕ → ℕ → ℕ → Bool
bad_size size usa_ofs n =
    not (size % 512 == 0) || (ltb size ((usa_ofs + n * 2) % 2 ^ 32) || not (size / 2 ^ 9 == n))

-- `while (usa_count--) if (*data_pos != usn) ...`: whether every sector carries the number.
unfoldable pub check_loop : ℕ → ℕ → ℕ → List ℕ → Option Bool
check_loop zero data_pos usn b = some true
check_loop (suc n) data_pos usn b = get_elem? b data_pos >>= λ w.
    if w == usn then check_loop n (data_pos + 256) usn b else some false

-- `while (usa_count--) *data_pos = *(++usa_pos)`.
unfoldable pub restore_loop : ℕ → ℕ → ℕ → List ℕ → Option (List ℕ)
restore_loop zero usa_pos data_pos b = some b
restore_loop (suc n) usa_pos data_pos b = do
  w ← get_elem? b (suc usa_pos)
  b1 ← store b data_pos w
  restore_loop n (suc usa_pos) (data_pos + 256) b1

-- `while (usa_count--) { *(++usa_pos) = *data_pos; *data_pos = usn; }`.
unfoldable pub protect_loop : ℕ → ℕ → ℕ → ℕ → List ℕ → Option (List ℕ)
protect_loop zero usa_pos data_pos usn b = some b
protect_loop (suc n) usa_pos data_pos usn b = do
  w ← get_elem? b data_pos
  b1 ← store b (suc usa_pos) w
  b2 ← store b1 data_pos usn
  protect_loop n (suc usa_pos) (data_pos + 256) usn b2

-- `b->magic = magic_BAAD`.
unfoldable pub set_baad : List ℕ → Option (List ℕ)
set_baad b = do b1 ← store b 0 16706; store b1 1 17473

-- `ntfs_is_baad_record` and `ntfs_is_hole_record` of the two words of a magic.
unfoldable pub is_unprotectable : ℕ → ℕ → Bool
is_unprotectable m0 m1 = (m0 == 16706) && (m1 == 17473) || (m0 == 20296) && (m1 == 17740)

unfoldable pub post_read_fixup : List ℕ → ℕ → Option (Status × List ℕ)
post_read_fixup b size = do
  usa_ofs ← get_elem? b 2
  usa_count ← get_elem? b 3
  let n = fixups usa_count
  if bad_size size usa_ofs n
      then some (einval, b)
      else (get_elem? b (usa_ofs / 2) >>= λ usn. check_loop n 255 usn b >>= λ whole.
          if whole
          then (restore_loop n (usa_ofs / 2) 255 b >>= λ b'. some (ok, b'))
          else (set_baad b >>= λ b'. some (eio, b')))

-- The part of `ntfs_mst_pre_write_fixup` below its checks.
unfoldable pub protect : List ℕ → ℕ → ℕ → Option (Status × List ℕ)
protect b usa_ofs n = do
  old ← get_elem? b (usa_ofs / 2)
  b1 ← store b (usa_ofs / 2) (next_usn old)
  b2 ← protect_loop n (usa_ofs / 2) 255 (next_usn old) b1
  some (ok, b2)

-- The argument is `none` where the pointer is null, and the returned memory then is nothing.
unfoldable pub pre_write_fixup : Option (List ℕ) → ℕ → Option (Status × List ℕ)
unfolding protect
pre_write_fixup none size = some (einval, [])
pre_write_fixup (some b) size = do
  m0 ← get_elem? b 0
  m1 ← get_elem? b 1
  usa_ofs ← get_elem? b 2
  usa_count ← get_elem? b 3
  if is_unprotectable m0 m1 || (not (usa_ofs % 2 == 0) || bad_size size usa_ofs (fixups usa_count))
      then some (einval, b)
      else protect b usa_ofs (fixups usa_count)

unfoldable pub post_write_fixup : List ℕ → Option (List ℕ)
post_write_fixup b = do
  usa_ofs ← get_elem? b 2
  usa_count ← get_elem? b 3
  restore_loop (fixups usa_count) (usa_ofs / 2) 255 b
