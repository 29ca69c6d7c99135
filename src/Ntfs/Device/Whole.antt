-- ===== src/Ntfs/Device/Whole.antt =====
-- filesys/ntfs/device.c: ntfs_pread and ntfs_pwrite as wholes, on any device that keeps its promises.
use mathlib.Core.Option.{some-injective}
use mathlib.Core.Path.{subst}
use rohos_disk_browser.Prelude.{
  ℕ, zero, suc, ◌+◌, ◌^◌, ◌≤◌, ◌<◌, ◌≡◌, refl, sym, ap, ◌∙◌, true, false, ◌==◌, Bool-cases, inl,
  inr, some, List, [], length, get_elem?, arith,
}
use rohos_disk_browser.DiskIo.Host.{bytes_from}
use rohos_disk_browser.Ntfs.Device.{
  Count, done, failed, Got, got, Operations, Device, left, ntfs_pread, ntfs_pwrite,
}
use rohos_disk_browser.Ntfs.Number.{negative}
use rohos_disk_browser.Ntfs.Device.Laws.{IsDevice, if-false}
use rohos_disk_browser.Ntfs.Device.Reading.{IsRead, read_loop_lem}
use rohos_disk_browser.Ntfs.Device.Writing.{Stays, IsWritten, write_loop_lem}

pub not_negative : (a : ℕ) → a < 2 ^ 63 → negative a ≡ false
not_negative a h = ground arith

module _ (d_ops : Operations) (h : IsDevice d_ops) where
  -- For `count` bytes of a buffer that has them, at a place with all of them below 2^63, and with
  -- count + 1 turns allowed, ntfs_pwrite returns. It changes no byte outside
  -- the `count` bytes from `pos` on. If it returns a number, the number is not above `count`, and
  -- that many bytes are on the device as they are in the buffer.
  pub ntfs_pwrite-returns :
      (dev : Device d_ops) (pos count : ℕ) (b : List ℕ)
      → count ≤ length b
      → pos + count < 2 ^ 63
      → (r : Count) × (dev' : Device d_ops) × (ntfs_pwrite d_ops (suc count) dev pos count (some b)
          ≡ some (r, dev'))
        × Stays d_ops h dev.private dev'.private pos count
        × IsWritten d_ops h dev'.private pos b count 0 r
  unfolding ntfs_pwrite
  ntfs_pwrite-returns dev pos count b enough small = elim (Bool-cases (count == 0)) [
    | inl empty ↦ (
      done 0,
      dev,
      rw (not_negative count (omega arith), not_negative pos (omega arith), empty),
      λ j out. refl,
      (omega arith, omega arith, λ i l u. absurd (omega arith)),
    )
    | inr some_left ↦ elim (Bool-cases dev.read_only) [
      | inl locked ↦ (
        failed 0,
        dev,
        rw (not_negative count (omega arith), not_negative pos (omega arith), some_left, locked),
        λ j out. refl,
        refl,
      )
      | inr unlocked ↦
          let (r, s', e, stays, written) =
            write_loop_lem d_ops h count pos b dev.private count 0 (omega arith) (omega arith)
              (omega arith) in
          let dev' = record dev { dirty = true; private = s' } in
          (
            r,
            dev',
            rw (not_negative count (omega arith), not_negative pos (omega arith), some_left)
                (if-false dev.read_only _ _ unlocked
                  ∙ ap (left d_ops (record dev { dirty = true })) e),
            (λ j out. stays j (elim out [ inl l ↦ inl (omega arith) | inr u ↦ inr (omega arith) ])),
            written,
          )
    ]
  ]

  -- For `n` bytes at a place with all of them below 2^63, and with n + 1 turns allowed,
  -- ntfs_pread returns and leaves the bytes of the device alone. What it stores are bytes of the
  -- device from `pos` on, at most `n`.
  pub ntfs_pread-returns :
      (dev : Device d_ops) (pos n : ℕ)
      → pos + n < 2 ^ 63
      → (r : Got) × (dev' : Device d_ops) × (ntfs_pread d_ops (suc n) dev pos n false
          ≡ some (r, dev'))
        × (h.byte_at dev'.private ≡ h.byte_at dev.private)
        × IsRead d_ops h dev.private pos [] n r
  unfolding ntfs_pread
  ntfs_pread-returns dev pos n small = elim (Bool-cases (n == 0)) [
    | inl empty ↦ (
      got [],
      dev,
      rw (not_negative n (omega arith), not_negative pos (omega arith), empty),
      refl,
      (omega arith, omega arith, refl),
    )
    | inr some_left ↦
        let (r, s', e, stays, read) =
          read_loop_lem d_ops h n pos dev.private n [] (omega arith) (omega arith) refl in
        (
          r,
          record dev { private = s' },
          rw (not_negative n (omega arith), not_negative pos (omega arith), some_left)
              (ap (left d_ops dev) e),
          stays,
          read,
        )
  ]

  get_elem?-bytes_from :
      (f : ℕ → ℕ) (p n i : ℕ) → i < n → get_elem? (bytes_from f p n) i ≡ some (f (p + i))
  get_elem?-bytes_from f p zero i lt = absurd (omega arith)
  get_elem?-bytes_from f p (suc n) zero lt = ap (λ q. some (f q)) (omega arith)
  get_elem?-bytes_from f p (suc n) (suc i) lt =
      get_elem?-bytes_from f (p + 1) n i (omega arith) ∙ ap (λ q. some (f q)) place
    where
      place : p + 1 + i ≡ p + suc i
      place = omega arith

  -- Where ntfs_pwrite of `count` bytes (that the buffer has, at a place with all of them below
  -- 2^63, with count + 1 turns allowed) returned the number `t`, and ntfs_pread of `n` bytes at the
  -- same place (all of them below 2^63, with n + 1 turns) then gave the bytes `bs`, each of the
  -- first `t` bytes that was read is the byte of the buffer that was written, in however many
  -- pieces the device made the two transfers.
  pub ntfs_pread-ntfs_pwrite :
      (dev dev' dev'' : Device d_ops) (pos count n t : ℕ) (b bs : List ℕ)
      → count ≤ length b
      → pos + count < 2 ^ 63
      → pos + n < 2 ^ 63
      → ntfs_pwrite d_ops (suc count) dev pos count (some b) ≡ some (done t, dev')
      → ntfs_pread d_ops (suc n) dev' pos n false ≡ some (got bs, dev'')
      → (i : ℕ) → i < t
      → i < length bs
      → get_elem? bs i ≡ get_elem? b i
  ntfs_pread-ntfs_pwrite dev dev' dev'' pos count n t b bs enough small small' wrote read i lt
        in_bs =
      let (r, d1, e, stays, written) = ntfs_pwrite-returns dev pos count b enough small in
      let (l, u, puts) =
        subst (λ (x : Count × Device d_ops). IsWritten d_ops h x.1.private pos b count 0 x.0)
          (some-injective _ _ (sym e ∙ wrote)) written in
      let (r', d2, f, same, is_read) = ntfs_pread-returns dev' pos n small' in
      let (l', u', are) =
        subst (λ (x : Got × Device d_ops). IsRead d_ops h dev'.private pos [] n x.0)
          (some-injective _ _ (sym f ∙ read)) is_read in
      ap (λ xs. get_elem? xs i) are
      ∙ get_elem?-bytes_from (h.byte_at dev'.private) pos (length bs) i in_bs
      ∙ sym (puts i (omega arith) lt)
