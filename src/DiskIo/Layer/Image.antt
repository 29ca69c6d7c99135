-- ===== src/DiskIo/Layer/Image.antt =====
-- The layer over an image file, where theDiskPartition is null: what a seek, a write and a read of
-- whole sectors do.
use rohos_disk_browser.Prelude.{
  ℕ, ◌+◌, ◌*◌, ◌/◌, ◌^◌, ◌≤◌, ◌<◌, ◌≡◌, Bool, true, false, List, ◌++◌, none, some, length, take,
  drop, if◌then◌else◌, length-append, length-take, take-append, take-length, arith,
}
use rohos_disk_browser.Crypto.Bytes.{read_lem}
use rohos_disk_browser.Crypto.Cipher.{Cipher, IsCipher}
use rohos_disk_browser.Crypto.Sectors.{encrypt, decrypt}
use rohos_disk_browser.Crypto.Sectors.Chain.{
  sectors_encrypt, sectors_decrypt, length-sectors_encrypt, encrypt_loop_lem, decrypt_loop_lem,
}
use rohos_disk_browser.Crypto.Sectors.Laws.{rounds-sectors}
use rohos_disk_browser.DiskIo.Host.{Host, IsHost, file_begin, bytes_from}
use rohos_disk_browser.DiskIo.Host.Bytes.{length-bytes_from}
use rohos_disk_browser.DiskIo.Partition.{u64}
use rohos_disk_browser.DiskIo.Layer.{
  Layer, crypt_set_file_pointer, crypt_read_file, crypt_write_file,
}

-- An open image, with the same globals but for the handle's state and filePos.
abbrev pub image :
    {Handle : Type 0} (enc : Bool) (off : ℕ) (key iv : List ℕ) → Handle → ℕ → Layer Handle
image enc off key iv d pos = record {
  file = d;
  file_pos = pos;
  data_offset = off;
  encrypted = enc;
  partition = none;
  key = key;
  iv = iv;
}

module _ (h : Host) (c : Cipher) (ok : IsCipher c) (off : ℕ) (key iv : List ℕ)
    (iv_size : length iv ≡ 64) where
  -- The bytes that a write of `n` sectors of `buf` sends to the file.
  abbrev pub sealed : Bool → ℕ → ℕ → List ℕ → List ℕ
  sealed true s n buf = sectors_encrypt c key iv n s buf
  sealed false s n buf = take (512 * n) buf

  -- What a read of `n` sectors makes of the buffer with the file's bytes in front.
  abbrev pub opened : Bool → ℕ → ℕ → List ℕ → List ℕ
  opened true s n buf = sectors_decrypt c key iv n s buf ++ drop (512 * n) buf
  opened false s n buf = buf

  pub length-sealed :
      (enc : Bool) (s n : ℕ) (buf : List ℕ)
      → 512 * n ≤ length buf
      → length (sealed enc s n buf) ≡ 512 * n
  length-sealed true s n buf fits = length-sectors_encrypt c key iv ok iv_size n s buf fits
  length-sealed false s n buf fits = omega (arith, length-take (512 * n) buf)

  pub seek_image :
      (enc : Bool) (d : h.Handle) (pos p low high : ℕ)
      → low + 2 ^ 32 * high ≡ p
      → p + off < 2 ^ 64
      → crypt_set_file_pointer h (image enc off key iv d pos) low (some high) file_begin
        ≡ some (
          if (h.set_pointer d (p + off) file_begin).0 then 1 else 0,
          some high,
          image enc off key iv (h.set_pointer d (p + off) file_begin).1 p,
        )
  unfolding crypt_set_file_pointer
  seek_image enc d pos p low high e small =
      let whole : u64 (low + 2 ^ 32 * high + off) ≡ p + off = omega arith in rw (whole, e)

  pub write_image :
      (enc : Bool) (d : h.Handle) (pos n : ℕ) (buf spare : List ℕ)
      → length buf ≡ 512 * n
      → let w = h.write_file d (sealed enc (pos / 2 ^ 9) n (buf ++ spare)) in
        crypt_write_file h c (image enc off key iv d pos) buf (512 * n) spare
        ≡ some (record { ret = w.0; sz = 512 * n; layer = image enc off key iv w.2 pos })
  unfolding crypt_write_file encrypt
  write_image true d pos n buf spare len =
      let fits : 512 * n ≤ length (buf ++ spare) = omega (arith, length-append buf spare) in
      let s = pos / 2 ^ 9 in
      let out = sectors_encrypt c key iv n s (buf ++ spare) in
      rw (
        read_lem (512 * n) buf (omega arith),
        take-length (512 * n) buf len,
        rounds-sectors n,
        encrypt_loop_lem c key iv ok iv_size n s (buf ++ spare) fits,
        take-append (512 * n) out (drop (512 * n) (buf ++ spare))
            (length-sectors_encrypt c key iv ok iv_size n s (buf ++ spare) fits),
      )
  write_image false d pos n buf spare len =
      rw (read_lem (512 * n) buf (omega arith), take-length (512 * n) buf len)

  pub read_image :
      (laws : IsHost h) (enc : Bool) (d : h.Handle) (pos n sz : ℕ) (buf : List ℕ)
      → laws.position d + 512 * n ≤ laws.size d
      → let r = h.read_file d (512 * n) in
        let found = bytes_from (laws.byte_at d) (laws.position d) (512 * n) in
        crypt_read_file h c (image enc off key iv d pos) buf (512 * n) sz
        ≡ some (record {
          ret = true;
          buf = opened enc (pos / 2 ^ 9) n (found ++ drop (512 * n) buf);
          sz = if enc then 512 * n else sz;
          layer = image enc off key iv r.2 pos;
        })
  unfolding crypt_read_file decrypt
  read_image laws true d pos n sz buf inside =
      let s = pos / 2 ^ 9 in
      let found = bytes_from (laws.byte_at d) (laws.position d) (512 * n) in
      let len = length-bytes_from (laws.byte_at d) (laws.position d) (512 * n) in
      rw (
        laws.read_ok d (512 * n) inside,
        laws.read_bytes d (512 * n) inside,
        len,
        rounds-sectors n,
        decrypt_loop_lem c key iv ok iv_size n s (found ++ drop (512 * n) buf)
            (omega (arith, length-append found (drop (512 * n) buf))),
      )
  read_image laws false d pos n sz buf inside =
      let len = length-bytes_from (laws.byte_at d) (laws.position d) (512 * n) in
      rw (laws.read_ok d (512 * n) inside, laws.read_bytes d (512 * n) inside, len)
