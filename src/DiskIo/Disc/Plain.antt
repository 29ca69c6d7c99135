-- ===== src/DiskIo/Disc/Plain.antt =====
-- The byte count that CFsys::ReadDiskData returns.
use rohos_disk_browser.Prelude.{
  ℕ, ◌+◌, ◌*◌, ◌/◌, ◌%◌, ◌^◌, ◌≤◌, ◌<◌, ◌≡◌, refl, Bool, true, List, ◌++◌, some, length, drop,
  if◌then◌else◌, arith,
}
use rohos_disk_browser.Crypto.Cipher.{Cipher, IsCipher}
use rohos_disk_browser.DiskIo.Host.{Host, IsHost, file_begin, bytes_from}
use rohos_disk_browser.DiskIo.Layer.{ReadReply}
use rohos_disk_browser.DiskIo.Layer.Image.{image, opened, seek_image, read_image}
use rohos_disk_browser.DiskIo.Disc.{read_disk_data}

module _ (h : Host) (laws : IsHost h) (c : Cipher) (ok : IsCipher c) (off : ℕ) (key iv : List ℕ)
    (iv_size : length iv ≡ 64) where
  -- On an image file ReadDiskData of whole sectors inside the file fills the buffer from the file,
  -- decrypted if the disk is encrypted. It returns the number of bytes if the disk is encrypted, and
  -- 0 if it is not.
  pub read_disk_data_count :
      (enc : Bool) (d : h.Handle) (pos offset n : ℕ) (buff : List ℕ)
      → off + offset + 512 * n ≤ laws.size d
      → laws.size d < 2 ^ 64
      → (r : ReadReply h.Handle) × (read_disk_data h c
            (image enc off key iv d pos)
            buff
            (512 * n)
            offset
          ≡ some r)
        × (r.ret ≡ true)
        × (r.buf
            ≡ opened h c ok off key iv iv_size enc
                (offset / 512)
                n
                (bytes_from (laws.byte_at d) (offset + off) (512 * n) ++ drop (512 * n) buff))
        × (r.sz ≡ (if enc then 512 * n else 0))
  unfolding read_disk_data
  read_disk_data_count enc d pos offset n buff inside size =
      let there = (h.set_pointer d (offset + off) file_begin).1 in
      let found = bytes_from (laws.byte_at d) (offset + off) (512 * n) in
      (
        record {
          ret = true;
          buf =
              opened h c ok off key iv iv_size enc (offset / 512) n (found ++ drop (512 * n) buff);
          sz = if enc then 512 * n else 0;
          layer = image enc off key iv (h.read_file there (512 * n)).2 offset;
        },
        rw (
          seek_image h c ok off key iv iv_size enc d pos offset (offset % 2 ^ 32) (offset / 2 ^ 32)
              (omega arith) (omega arith),
          read_image h c ok off key iv iv_size laws enc there offset n 0 buff (
              omega (
                arith,
                laws.seek_position d (offset + off) (omega (arith, inside)),
                laws.seek_size d (offset + off),
              )),
          laws.seek_position d (offset + off) (omega (arith, inside)),
          laws.seek_bytes d (offset + off),
        ),
        refl,
        refl,
        refl,
      )
