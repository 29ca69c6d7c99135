-- ===== src/DiskIo/Disc.antt =====
-- _FAT_disc_readSectors and _FAT_disc_writeSectors of filesys/fat/disc.cpp, and
-- CFsys::ReadDiskData of Fsys.cpp on an open volume.
pub mod Laws
pub mod Frame
pub mod Plain
mod Tests
use rohos_disk_browser.Prelude.{ℕ, ◌+◌, ◌*◌, ◌/◌, ◌%◌, ◌^◌, List, Option, some, ◌>>=◌}
use rohos_disk_browser.Crypto.Cipher.{Cipher}
use rohos_disk_browser.DiskIo.Host.{Host, file_begin}
use rohos_disk_browser.DiskIo.Layer.{
  Layer, ReadReply, WriteReply, crypt_set_file_pointer, crypt_read_file, crypt_write_file,
}

abbrev pub bytes_per_read : ℕ
bytes_per_read = 512

-- `numSectors * BYTES_PER_READ` on a u32
abbrev pub byte_count : ℕ → ℕ
byte_count num_sectors = num_sectors * bytes_per_read % 2 ^ 32

module _ (h : Host) (c : Cipher) where
  -- The seek of both functions, `(INT64)sector * BYTES_PER_READ` in two halves.
  unfoldable pub seek_offset : Layer h.Handle → ℕ → Option (Layer h.Handle)
  seek_offset l offset = do
    (_ret, _high, l') ←
        crypt_set_file_pointer h l (offset % 2 ^ 32) (some (offset / 2 ^ 32)) file_begin
    some l'

  -- `result` is the local `dwResult` as the seek leaves it, which is passed on as *sz.
  unfoldable pub read_sectors : Layer h.Handle → ℕ → ℕ → List ℕ → Option (ReadReply h.Handle)
  read_sectors l sector num_sectors buffer = do
    (result, _high, l') ←
        crypt_set_file_pointer h l (sector * bytes_per_read % 2 ^ 32)
          (some (sector * bytes_per_read / 2 ^ 32)) file_begin
    crypt_read_file h c l' buffer (byte_count num_sectors) result

  unfoldable pub write_sectors :
      Layer h.Handle → ℕ → ℕ → List ℕ → List ℕ → Option (WriteReply h.Handle)
  unfolding seek_offset
  write_sectors l sector num_sectors buffer spare = do
    l' ← seek_offset l (sector * bytes_per_read)
    crypt_write_file h c l' buffer (byte_count num_sectors) spare

  -- The reading part of ReadDiskData, whose `dwRead` starts at 0; it returns `dwRead`.
  unfoldable pub read_disk_data : Layer h.Handle → List ℕ → ℕ → ℕ → Option (ReadReply h.Handle)
  unfolding seek_offset
  read_disk_data l buff size offset = do
    l' ← seek_offset l offset
    crypt_read_file h c l' buff size 0
