-- ===== src/DiskIo/Partition/Offset.antt =====
-- Where ReadData and WriteData of CDiskRepartition put the pointer of the drive.
use rohos_disk_browser.Prelude.{ℕ, ◌+◌, ◌%◌, ◌^◌, ◌<◌, ◌≡◌, ◌≢◌, arith}
use rohos_disk_browser.DiskIo.Partition.{device_offset}

-- A sum of the three offsets that is a multiple of 512 is the place in the drive. Any other sum
-- below 2^63 leads into the first 512 bytes of the drive.
pub device_offset_lem :
    (offset space offset2 : ℕ)
    → offset + space + offset2 < 2 ^ 64
    → ((offset + space + offset2) % 512 ≡ 0
        → device_offset offset space offset2 ≡ offset + space + offset2)
      × ((offset + space + offset2) % 512 ≢ 0
          → offset + space + offset2 < 2 ^ 63
          → device_offset offset space offset2 < 512)
unfolding device_offset
device_offset_lem offset space offset2 small = ground arith
