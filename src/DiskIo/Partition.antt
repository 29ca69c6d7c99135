-- ===== src/DiskIo/Partition.antt =====
-- CDiskRepartition of CDiskRepartition.cpp, as far as it gives access to the hidden partition: reads
-- and writes of the whole drive at an offset.
pub mod Offset
pub mod Access
mod Tests
use rohos_disk_browser.Prelude.{
  ℕ, ◌+◌, ◌-◌, ◌%◌, ◌^◌, Bool, false, not, List, ◌++◌, if◌then◌else◌, leb, ◌==◌, length, take, drop,
}
use rohos_disk_browser.DiskIo.Host.{Host, file_begin}

-- An offset is a LARGE_INTEGER, kept as 64 bits. `device` is hDevice with `opened` false for
-- INVALID_HANDLE_VALUE.
pub record Partition (Handle : Type 0) : Type 0 where
  pub device : Handle
  pub opened : Bool
  pub part_offset : ℕ
  pub part_offset2 : ℕ
  pub partitioned_space : ℕ

abbrev pub u64 : ℕ → ℕ
u64 n = n % 2 ^ 64

-- Where ReadData and WriteData put the pointer of the drive. `%` is that of a LONGLONG: the remainder of
-- a negative sum is not positive.
unfoldable pub device_offset : ℕ → ℕ → ℕ → ℕ
device_offset offset partitioned_space part_offset2 =
    let li_offset = u64 (u64 (offset + partitioned_space) + part_offset2) in
    if li_offset % 512 == 0
    then li_offset
    else (if leb (2 ^ 63) li_offset
        then 512 + (2 ^ 64 - li_offset) % 512
        else 512 - li_offset % 512)

module _ (h : Host) where
  unfoldable pub set_file_pointer2 : Partition h.Handle → ℕ → Partition h.Handle
  set_file_pointer2 p offset = record p { part_offset = offset }

  -- SetFilePointer returns the low DWORD of the new position, and -1 on failure.
  unfoldable pub set_file_pointer : h.Handle → ℕ → ℕ × h.Handle
  set_file_pointer d p =
      let (moved, d') = h.set_pointer d p file_begin in
      (if moved then p % 2 ^ 32 else 2 ^ 32 - 1, d')

  -- `buffer` is the memory that the bytes read go to.
  unfoldable pub read_data :
      Partition h.Handle → List ℕ → ℕ → ℕ → Bool × List ℕ × Partition h.Handle
  read_data p buffer len offset =
      if not (len % 512 == 0)
      then (false, buffer, p)
      else if not p.opened
      then (false, buffer, p)
      else let (low, d) =
          set_file_pointer p.device (device_offset offset p.partitioned_space p.part_offset2) in
        if low == 0
        then (false, buffer, record p { device = d })
        else let (_ret, bytes, d') = h.read_file d len in
          (length bytes == len, bytes ++ drop (length bytes) buffer, record p { device = d' })

  unfoldable pub write_data : Partition h.Handle → List ℕ → ℕ → ℕ → Bool × Partition h.Handle
  write_data p buffer len offset =
      if not (len % 512 == 0)
      then (false, p)
      else if not p.opened
      then (false, p)
      else let (low, d) =
          set_file_pointer p.device (device_offset offset p.partitioned_space p.part_offset2) in
        if low == 0
        then (false, record p { device = d })
        else let (_ret, written, d') = h.write_file d (take len buffer) in
          (written == len, record p { device = d' })
