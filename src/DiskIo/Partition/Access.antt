-- ===== src/DiskIo/Partition/Access.antt =====
-- ReadData after WriteData at the same offset of an open drive.
use rohos_disk_browser.Prelude.{
  ℕ, ◌+◌, ◌%◌, ◌^◌, ◌≤◌, ◌<◌, ◌≡◌, ◌≢◌, true, false, List, ◌++◌, length, drop, ◌==◌, refl, sym, ap,
  ◌∙◌, take-length, arith,
}
use rohos_disk_browser.DiskIo.Host.{Host, IsHost, file_begin, bytes_from, overwrite}
use rohos_disk_browser.DiskIo.Host.Bytes.{length-bytes_from, bytes_from-overwrite}
use rohos_disk_browser.DiskIo.Partition.{
  Partition, device_offset, set_file_pointer, read_data, write_data,
}
use rohos_disk_browser.DiskIo.Partition.Offset.{device_offset_lem}

-- An open drive.
abbrev pub drive :
    {Handle : Type 0} (part_offset part_offset2 space : ℕ) → Handle → Partition Handle
drive part_offset part_offset2 space d = record {
  device = d;
  opened = true;
  part_offset = part_offset;
  part_offset2 = part_offset2;
  partitioned_space = space;
}

module _ (h : Host) (laws : IsHost h) (part_offset part_offset2 space offset len : ℕ)
    (whole : len % 512 ≡ 0) (aligned : (offset + space + part_offset2) % 512 ≡ 0)
    (low : (offset + space + part_offset2) % 2 ^ 32 ≢ 0)
    (small : offset + space + part_offset2 < 2 ^ 64) where
  abbrev at : ℕ
  at = offset + space + part_offset2

  moved : (d : h.Handle) → h.Handle
  moved d = (h.set_pointer d at file_begin).1

  pointer :
      (d : h.Handle)
      → at + len ≤ laws.size d
      → set_file_pointer h d (device_offset offset space part_offset2) ≡ (at % 2 ^ 32, moved d)
  unfolding set_file_pointer moved
  pointer d inside = rw (
    (device_offset_lem offset space part_offset2 small).0 aligned,
    laws.seek_ok d at (omega (arith, inside)),
  )

  read_data_lem :
      (d : h.Handle) (buffer : List ℕ)
      → at + len ≤ laws.size d
      → read_data h (drive part_offset part_offset2 space d) buffer len offset ≡ (
        true,
        bytes_from (laws.byte_at d) at len ++ drop len buffer,
        drive part_offset part_offset2 space (h.read_file (moved d) len).2,
      )
  unfolding read_data moved
  read_data_lem d buffer inside =
      let w : (len % 512 == 0) ≡ true = ground arith in
      let l : (at % 2 ^ 32 == 0) ≡ false = ground arith in
      let same : (len == len) ≡ true = ground arith in
      rw (
        w,
        pointer d inside,
        l,
        laws.read_bytes (moved d) len
            (omega (arith, laws.seek_position d at (omega (arith, inside)), laws.seek_size d at)),
        laws.seek_position d at (omega (arith, inside)),
        laws.seek_bytes d at,
        length-bytes_from (laws.byte_at d) at len,
        same,
      )

  -- Whole sectors at a place that is a multiple of 512 and whose low 32 bits are not 0, inside an
  -- open drive: WriteData succeeds, and ReadData at the same offset then succeeds and puts the data
  -- that was written at the front of its buffer.
  pub read_data-write_data :
      (d : h.Handle) (bytes buffer : List ℕ)
      → length bytes ≡ len
      → at + len ≤ laws.size d
      → (w : Partition h.Handle) × (r : Partition h.Handle) × (write_data h
            (drive part_offset part_offset2 space d)
            bytes
            len
            offset
          ≡ (true, w))
        × (read_data h w buffer len offset ≡ (true, bytes ++ drop len buffer, r))
  unfolding write_data moved
  read_data-write_data d bytes buffer size inside =
      let w : (len % 512 == 0) ≡ true = ground arith in
      let l : (at % 2 ^ 32 == 0) ≡ false = ground arith in
      let count : (length bytes == len) ≡ true = ground arith in
      let d1 = moved d in
      let d2 = (h.write_file d1 bytes).2 in
      let fits : laws.position d1 + length bytes ≤ laws.size d1 =
        omega (arith, laws.seek_position d at (omega (arith, inside)), laws.seek_size d at) in
      let found : bytes_from (laws.byte_at d2) at len ≡ bytes =
        ap (λ f. bytes_from f at len)
          (laws.write_bytes d1 bytes fits
            ∙ rw (laws.seek_position d at (omega (arith, inside)), laws.seek_bytes d at) refl)
        ∙ ap (bytes_from (overwrite (laws.byte_at d) at bytes) at) (sym size)
        ∙ bytes_from-overwrite (laws.byte_at d) at bytes in
      let same_size : laws.size d2 ≡ laws.size d = laws.write_size d1 bytes ∙ laws.seek_size d at in
      (
        drive part_offset part_offset2 space d2,
        drive part_offset part_offset2 space (h.read_file (moved d2) len).2,
        rw (
          w,
          pointer d inside,
          l,
          take-length len bytes size,
          laws.write_count d1 bytes fits,
          count,
        ),
        read_data_lem d2 buffer (omega (arith, same_size)) ∙ rw found refl,
      )
