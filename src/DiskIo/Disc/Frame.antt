-- ===== src/DiskIo/Disc/Frame.antt =====
-- A write of sectors of an image against a later read.
use rohos_disk_browser.Prelude.{
  ℕ, ◌+◌, ◌*◌, ◌^◌, ◌≤◌, ◌<◌, ◌≡◌, ◌⊎◌, refl, sym, ap, ◌∙◌, Bool, true, List, ◌++◌, some, length,
  drop, take-append, length-append, arith,
}
use rohos_disk_browser.Crypto.Bytes.{IsBytes, IsBytes-append}
use rohos_disk_browser.Crypto.Cipher.{Cipher, IsCipher}
use rohos_disk_browser.DiskIo.Host.{Host, IsHost, bytes_from, overwrite}
use rohos_disk_browser.DiskIo.Host.Bytes.{bytes_from-overwrite, bytes_from_ext}
use rohos_disk_browser.DiskIo.Layer.{ReadReply, WriteReply}
use rohos_disk_browser.DiskIo.Layer.Image.{image, opened, length-sealed}
use rohos_disk_browser.DiskIo.Disc.{read_sectors, write_sectors}
use rohos_disk_browser.DiskIo.Disc.Laws.{
  opened-sealed, after_write, data_written, read_sectors_lem, write_sectors_lem, after_write_size,
  after_write_bytes,
}

overwrite_outside :
    (f : ℕ → ℕ) (p i : ℕ) (bs : List ℕ) → (i < p) ⊎ (p + length bs ≤ i) → overwrite f p bs i ≡ f i
overwrite_outside f p i bs o = ground arith

module _ (h : Host) (laws : IsHost h) (c : Cipher) (ok : IsCipher c) (off : ℕ) (key iv : List ℕ)
    (iv_size : length iv ≡ 64) (enc : Bool) (d : h.Handle) (pos : ℕ)
    (size : laws.size d < 2 ^ 64) where
  -- Sectors of an image, encrypted or not, that lie inside the file: _FAT_disc_writeSectors succeeds,
  -- and _FAT_disc_readSectors of the same sectors then succeeds and puts the data that was written at
  -- the front of its buffer.
  pub read-write_sectors :
      (sector n : ℕ) (buffer spare scratch : List ℕ)
      → sector < 2 ^ 32
      → 512 * n < 2 ^ 32
      → off + 512 * (sector + n) ≤ laws.size d
      → length buffer ≡ 512 * n
      → IsBytes iv
      → IsBytes buffer
      → IsBytes spare
      → (w : WriteReply h.Handle) × (r : ReadReply h.Handle) × (write_sectors h c
            (image enc off key iv d pos)
            sector
            n
            buffer
            spare
          ≡ some w)
        × (w.ret ≡ true)
        × (read_sectors h c w.layer sector n scratch ≡ some r)
        × (r.ret ≡ true)
        × (r.buf ≡ buffer ++ drop (512 * n) scratch)
  read-write_sectors sector n buffer spare scratch small count inside len p q sp =
      let W =
        data_written h laws c ok off key iv iv_size enc d pos sector n small count inside size
          buffer spare len in
      let d2 =
        after_write h laws c ok off key iv iv_size enc d pos sector n small count inside size buffer
          spare len in
      let same_size =
        after_write_size h laws c ok off key iv iv_size enc d pos sector n small count inside size
          buffer spare len in
      let fit : 512 * n ≤ length (buffer ++ spare) = omega (arith, length-append buffer spare) in
      let len_w : length W ≡ 512 * n =
        length-sealed h c ok off key iv iv_size enc sector n (buffer ++ spare) fit in
      let found : bytes_from (laws.byte_at d2) (sector * 512 + off) (512 * n) ≡ W =
        ap (λ f. bytes_from f (sector * 512 + off) (512 * n))
          (after_write_bytes h laws c ok off key iv iv_size enc d pos sector n small count inside
            size buffer spare len)
        ∙ ap (bytes_from (overwrite (laws.byte_at d) (sector * 512 + off) W) (sector * 512 + off))
            (sym len_w)
        ∙ bytes_from-overwrite (laws.byte_at d) (sector * 512 + off) W in
      (
        _,
        _,
        write_sectors_lem h laws c ok off key iv iv_size enc d pos sector n small count inside size
            buffer spare len,
        refl,
        read_sectors_lem h laws c ok off key iv iv_size enc d2 (sector * 512) sector n small count
            (omega (arith, same_size)) (omega (arith, same_size)) scratch,
        refl,
        ap (λ t. opened h c ok off key iv iv_size enc sector n (t ++ drop (512 * n) scratch)) found
            ∙ opened-sealed h laws c ok off key iv iv_size enc sector n (buffer ++ spare)
                (drop (512 * n) scratch) fit p (IsBytes-append buffer spare q sp)
            ∙ ap (λ t. t ++ drop (512 * n) scratch) (take-append (512 * n) buffer spare len),
      )

  -- A successful _FAT_disc_writeSectors does not change what _FAT_disc_readSectors returns of sectors
  -- inside the file that do not overlap the sectors written.
  pub read-write_sectors_apart :
      (sector n t k : ℕ) (buffer spare scratch : List ℕ)
      → sector < 2 ^ 32
      → 512 * n < 2 ^ 32
      → off + 512 * (sector + n) ≤ laws.size d
      → length buffer ≡ 512 * n
      → t < 2 ^ 32
      → 512 * k < 2 ^ 32
      → off + 512 * (t + k) ≤ laws.size d
      → (t + k ≤ sector) ⊎ (sector + n ≤ t)
      → (w : WriteReply h.Handle) × (r : ReadReply h.Handle) × (r' : ReadReply h.Handle)
        × (write_sectors h c (image enc off key iv d pos) sector n buffer spare ≡ some w)
        × (read_sectors h c (image enc off key iv d pos) t k scratch ≡ some r)
        × (read_sectors h c w.layer t k scratch ≡ some r')
        × (r'.ret ≡ r.ret)
        × (r'.buf ≡ r.buf)
        × (r'.sz ≡ r.sz)
  read-write_sectors_apart sector n t k buffer spare scratch small count inside len small' count'
        inside' apart =
      let W =
        data_written h laws c ok off key iv iv_size enc d pos sector n small count inside size
          buffer spare len in
      let d2 =
        after_write h laws c ok off key iv iv_size enc d pos sector n small count inside size buffer
          spare len in
      let same_size =
        after_write_size h laws c ok off key iv iv_size enc d pos sector n small count inside size
          buffer spare len in
      let len_w : length W ≡ 512 * n =
        length-sealed h c ok off key iv iv_size enc sector n (buffer ++ spare)
          (omega (arith, length-append buffer spare)) in
      let found : bytes_from (laws.byte_at d2) (t * 512 + off) (512 * k)
          ≡ bytes_from (laws.byte_at d) (t * 512 + off) (512 * k) =
        ap (λ f. bytes_from f (t * 512 + off) (512 * k))
          (after_write_bytes h laws c ok off key iv iv_size enc d pos sector n small count inside
            size buffer spare len)
        ∙ bytes_from_ext (overwrite (laws.byte_at d) (sector * 512 + off) W) (laws.byte_at d)
            (t * 512 + off) (512 * k)
            (λ i low high.
              overwrite_outside (laws.byte_at d) (sector * 512 + off) i W
                (ground (arith, apart, len_w))) in
      (
        _,
        _,
        _,
        write_sectors_lem h laws c ok off key iv iv_size enc d pos sector n small count inside size
            buffer spare len,
        read_sectors_lem h laws c ok off key iv iv_size enc d pos t k small' count' inside' size
            scratch,
        read_sectors_lem h laws c ok off key iv iv_size enc d2 (sector * 512) t k small' count'
            (omega (arith, same_size)) (omega (arith, same_size)) scratch,
        refl,
        ap (λ b. opened h c ok off key iv iv_size enc t k (b ++ drop (512 * k) scratch)) found,
        refl,
      )
