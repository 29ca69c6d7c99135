-- ===== src/DiskIo/Disc/Laws.antt =====
-- What a write and a read of sectors do to an image file.
use rohos_disk_browser.Prelude.{
  ℕ, ◌+◌, ◌*◌, ◌/◌, ◌%◌, ◌^◌, ◌≤◌, ◌<◌, ◌≡◌, refl, ◌∙◌, Bool, true, false, List, ◌++◌, some, length,
  take, drop, if◌then◌else◌, length-append, drop-append, arith,
}
use rohos_disk_browser.Crypto.Bytes.{IsBytes}
use rohos_disk_browser.Crypto.Cipher.{Cipher, IsCipher}
use rohos_disk_browser.Crypto.Sectors.Chain.{sectors_encrypt, length-sectors_encrypt}
use rohos_disk_browser.Crypto.Sectors.Laws.{sectors_decrypt-encrypt}
use rohos_disk_browser.DiskIo.Host.{Host, IsHost, file_begin, bytes_from, overwrite}
use rohos_disk_browser.DiskIo.Layer.Image.{
  image, sealed, opened, length-sealed, seek_image, write_image, read_image,
}
use rohos_disk_browser.DiskIo.Disc.{byte_count, read_sectors, write_sectors}

module _ (h : Host) (laws : IsHost h) (c : Cipher) (ok : IsCipher c) (off : ℕ) (key iv : List ℕ)
    (iv_size : length iv ≡ 64) where
  pub opened-sealed :
      (enc : Bool) (s n : ℕ) (buf rest : List ℕ)
      → 512 * n ≤ length buf
      → IsBytes iv
      → IsBytes buf
      → opened h c ok off key iv iv_size enc s n
          (sealed h c ok off key iv iv_size enc s n buf ++ rest)
        ≡ take (512 * n) buf ++ rest
  opened-sealed true s n buf rest fits p q = rw (
    sectors_decrypt-encrypt c ok key iv iv_size n s buf rest fits p q,
    drop-append (512 * n) (sectors_encrypt c key iv n s buf) rest
        (length-sectors_encrypt c key iv ok iv_size n s buf fits),
  )
  opened-sealed false s n buf rest fits p q = refl

  module _ (enc : Bool) (d : h.Handle) (pos sector n : ℕ) (small : sector < 2 ^ 32)
      (count : 512 * n < 2 ^ 32) (inside : off + 512 * (sector + n) ≤ laws.size d)
      (size : laws.size d < 2 ^ 64) where
    abbrev pub place : ℕ
    place = sector * 512 + off

    in_file : place ≤ laws.size d
    in_file = omega (arith, inside)

    abbrev pub there : h.Handle
    there = (h.set_pointer d place file_begin).1

    abbrev pub after_read : h.Handle
    after_read = (h.read_file there (512 * n)).2

    pub read_sectors_lem :
        (scratch : List ℕ)
        → read_sectors h c (image enc off key iv d pos) sector n scratch
          ≡ some (record {
            ret = true;
            buf =
                opened h c ok off key iv iv_size enc sector n
                  (bytes_from (laws.byte_at d) place (512 * n) ++ drop (512 * n) scratch);
            sz = if enc then 512 * n else 1;
            layer = image enc off key iv after_read (sector * 512);
          })
    unfolding read_sectors
    read_sectors_lem scratch =
        let bytes : byte_count n ≡ 512 * n = omega arith in
        let number : sector * 512 / 512 ≡ sector = omega arith in
        rw (
          seek_image h c ok off key iv iv_size enc d pos (sector * 512) (sector * 512 % 2 ^ 32)
              (sector * 512 / 2 ^ 32) (omega arith) (omega arith),
          laws.seek_ok d place in_file,
          bytes,
          read_image h c ok off key iv iv_size laws enc there (sector * 512) n 1 scratch
              (omega (arith, laws.seek_position d place in_file, laws.seek_size d place)),
          laws.seek_position d place in_file,
          laws.seek_bytes d place,
          number,
        )

    module _ (buffer spare : List ℕ) (len : length buffer ≡ 512 * n) where
      abbrev pub data_written : List ℕ
      data_written = sealed h c ok off key iv iv_size enc sector n (buffer ++ spare)

      abbrev pub after_write : h.Handle
      after_write = (h.write_file there data_written).2

      pub fits : 512 * n ≤ length (buffer ++ spare)
      fits = omega (arith, length-append buffer spare)

      written_inside : laws.position there + length data_written ≤ laws.size there
      written_inside = omega (
        arith,
        laws.seek_position d place in_file,
        laws.seek_size d place,
        length-sealed h c ok off key iv iv_size enc sector n (buffer ++ spare) fits,
      )

      pub write_sectors_lem :
          write_sectors h c (image enc off key iv d pos) sector n buffer spare
          ≡ some (record {
            ret = true;
            sz = 512 * n;
            layer = image enc off key iv after_write (sector * 512);
          })
      unfolding write_sectors
      write_sectors_lem =
          let bytes : byte_count n ≡ 512 * n = omega arith in
          let number : sector * 512 / 512 ≡ sector = omega arith in
          rw (
            seek_image h c ok off key iv iv_size enc d pos (sector * 512) (sector * 512 % 2 ^ 32)
                (sector * 512 / 2 ^ 32) (omega arith) (omega arith),
            bytes,
            write_image h c ok off key iv iv_size enc there (sector * 512) n buffer spare len,
            number,
            laws.write_ok there data_written written_inside,
          )

      pub after_write_size : laws.size after_write ≡ laws.size d
      after_write_size = laws.write_size there data_written ∙ laws.seek_size d place

      pub after_write_bytes :
          laws.byte_at after_write ≡ overwrite (laws.byte_at d) place data_written
      after_write_bytes =
          laws.write_bytes there data_written written_inside
          ∙ rw (laws.seek_position d place in_file, laws.seek_bytes d place) refl
