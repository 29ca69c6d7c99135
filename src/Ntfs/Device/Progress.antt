-- ===== src/Ntfs/Device/Progress.antt =====
-- filesys/ntfs/device.c: ntfs_pwrite on a device whose operations move at least one byte each.
use rohos_disk_browser.Prelude.{
  ℕ, zero, suc, ◌+◌, ◌-◌, ◌^◌, ◌≤◌, ◌<◌, ◌≡◌, ap, ◌∙◌, true, false, ◌==◌, Bool-cases, inl, inr,
  Option, some, List, length, length-take, length-drop, take, drop, arith,
}
use rohos_disk_browser.Ntfs.Device.{
  Count, done, Operations, Device, left, write_turn, write_loop, ntfs_pwrite,
}
use rohos_disk_browser.Ntfs.Device.Laws.{
  IsDevice, if-false, add64_small, sub64_small, write_loop_end, write_loop_turn,
}
use rohos_disk_browser.Ntfs.Device.Whole.{not_negative}

module _ {S : Type 0} (k : S → ℕ → ℕ → Option (Count × S)) where
  turn_on :
      (count total m : ℕ) (s : S)
      → count < 2 ^ 63
      → total + count < 2 ^ 63
      → 0 < m
      → m ≤ count
      → write_turn k count total (done m, s) ≡ k s (count - m) (total + m)
  unfolding write_turn
  turn_on count total zero s small fits more few = absurd (omega arith)
  turn_on count total (suc m) s small fits more few =
      rw (sub64_small count (suc m) small few, add64_small total (suc m) (omega (arith, few)))

  turn_with :
      (count total m : ℕ) (x : Count × S)
      → x.0 ≡ done m
      → count < 2 ^ 63
      → total + count < 2 ^ 63
      → 0 < m
      → m ≤ count
      → write_turn k count total x ≡ k x.1 (count - m) (total + m)
  turn_with count total m (c, s) e small fits more few =
      ap (λ r. write_turn k count total (r, s)) e ∙ turn_on count total m s small fits more few

module _ (d_ops : Operations) (h : IsDevice d_ops) where
  -- Each write of some bytes writes one of them at least.
  abbrev pub Progresses : Type 0
  Progresses =
      (s : d_ops.Private) (bs : List ℕ) (p : ℕ)
      → 0 < length bs
      → (k : ℕ) × ((d_ops.pwrite s bs p).0 ≡ done k) × (0 < k)

  whole_step :
      (n p : ℕ) (b : List ℕ) (s : d_ops.Private) (count total k : ℕ) (s' : d_ops.Private)
      → 0 < count
      → p + (total + count) < 2 ^ 63
      → (d_ops.pwrite s (take count (drop total b)) (p + total)).0 ≡ done k
      → 0 < k
      → k ≤ count
      → write_loop d_ops
          (suc n)
          p
          b
          (d_ops.pwrite s (take count (drop total b)) (p + total)).1
          (count - k)
          (total + k)
        ≡ some (done (total + k + (count - k)), s')
      → write_loop d_ops (suc (suc n)) p b s count total ≡ some (done (total + count), s')
  whole_step n p b s count total k s' some_left small e more few f =
      write_loop_turn d_ops (suc n) p b s count total some_left (omega arith)
      ∙ turn_with (write_loop d_ops (suc n) p b) count total k
          (d_ops.pwrite s (take count (drop total b)) (p + total)) e (omega arith) (omega arith)
          more few
      ∙ f
      ∙ ap (λ t. some (done t, s')) (omega arith)

  write_loop_whole :
      (n p : ℕ) (b : List ℕ) (s : d_ops.Private) (count total : ℕ)
      → Progresses
      → count ≤ n
      → total + count ≤ length b
      → p + (total + count) < 2 ^ 63
      → (s' : d_ops.Private) × (write_loop d_ops (suc n) p b s count total
          ≡ some (done (total + count), s'))
  write_loop_whole n p b s zero total on fuel enough small =
      (s, write_loop_end d_ops n p b s total ∙ ap (λ t. some (done t, s)) (omega arith))
  write_loop_whole zero p b s (suc c) total on fuel enough small = absurd (omega arith)
  write_loop_whole (suc n) p b s (suc c) total on fuel enough small =
      let bs = take (suc c) (drop total b) in
      let all : length bs ≡ suc c =
        omega (arith, length-take (suc c) (drop total b), length-drop total b) in
      let (k, e, more) = on s bs (p + total) (omega (arith, all)) in
      let x = d_ops.pwrite s bs (p + total) in
      let few : k ≤ suc c = omega (arith, h.write_count s bs (p + total) k e, all) in
      let (s', f) =
        write_loop_whole n p b x.1 (suc c - k) (total + k) on (omega (arith, more))
          (omega (arith, few)) (omega (arith, few)) in
      (s', whole_step n p b s (suc c) total k s' (omega arith) small e more few f)

  -- On a device that is not read-only and whose every write of some bytes writes one of them at
  -- least, ntfs_pwrite of `count` bytes that the buffer has, at a place with all of them below
  -- 2^63, returns `count` within count + 1 turns.
  pub ntfs_pwrite-whole :
      (dev : Device d_ops) (pos count : ℕ) (b : List ℕ)
      → Progresses
      → dev.read_only ≡ false
      → count ≤ length b
      → pos + count < 2 ^ 63
      → (dev' : Device d_ops) × (ntfs_pwrite d_ops (suc count) dev pos count (some b)
          ≡ some (done count, dev'))
  unfolding ntfs_pwrite
  ntfs_pwrite-whole dev pos count b on unlocked enough small = elim (Bool-cases (count == 0)) [
    | inl empty ↦ (
      dev,
      rw (not_negative count (omega arith), not_negative pos (omega arith), empty)
          (ap (λ t. some (done t, dev)) (ground arith)),
    )
    | inr some_left ↦
        let (s', e) =
          write_loop_whole count pos b dev.private count 0 on (omega arith) (omega arith)
            (omega arith) in
        (
          record dev { dirty = true; private = s' },
          rw (not_negative count (omega arith), not_negative pos (omega arith), some_left)
              (if-false dev.read_only _ _ unlocked
                ∙ ap (left d_ops (record dev { dirty = true }))
                    (e ∙ ap (λ t. some (done t, s')) (omega arith))),
        )
  ]
