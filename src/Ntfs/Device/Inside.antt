-- ===== src/Ntfs/Device/Inside.antt =====
-- filesys/ntfs/device.c: what ntfs_cluster_write may change of the device.
use native.Mathlib.Nat.{mul-le-mul_right, mul_comm, mul-add}
use rohos_disk_browser.Prelude.{
  ℕ, suc, ◌+◌, ◌*◌, ◌/◌, ◌%◌, ◌^◌, ◌≤◌, ◌<◌, ◌≡◌, ◌⊎◌, refl, ap, ◌∙◌, inl, inr, Bool-cases, false,
  some, List, length, arith,
}
use rohos_disk_browser.Ntfs.Runs.{add64, slt}
use rohos_disk_browser.Ntfs.Device.{Count, done, failed, Operations, Device, ntfs_pwrite}
use rohos_disk_browser.Ntfs.Number.{negative}
use rohos_disk_browser.Ntfs.Device.Laws.{IsDevice, if-false, if-true}
use rohos_disk_browser.Ntfs.Device.Whole.{ntfs_pwrite-returns, not_negative}
use rohos_disk_browser.Ntfs.Device.Clusters.{NtfsVolume, shl64, cluster_written, ntfs_cluster_write}

-- The bytes of the clusters of a range, where the range is below the end.
clusters_below : (q lcn count nr : ℕ) → lcn + count ≤ nr → lcn * q + count * q ≤ nr * q
clusters_below q lcn count nr h = omega (
  arith,
  mul-le-mul_right q h,
  mul-add q lcn count,
  mul_comm (lcn + count) q,
  mul_comm lcn q,
  mul_comm count q,
)

not_less : (nr a b : ℕ) → nr < 2 ^ 63 → a + b < 2 ^ 63 → slt nr (add64 a b) ≡ false → a + b ≤ nr
not_less nr a b h k e = ground arith

shl64_small : (a n : ℕ) → a * 2 ^ n < 2 ^ 63 → shl64 a n ≡ a * 2 ^ n
shl64_small a n h = modulo (a * 2 ^ n) h
  where
    modulo : (x : ℕ) → x < 2 ^ 63 → x % 2 ^ 64 ≡ x
    modulo x h = omega arith

module _ (d_ops : Operations) (h : IsDevice d_ops) where
  -- The bytes that a transfer of `count` clusters from `lcn` on may not change: those outside these
  -- clusters, and those behind the last cluster of the volume.
  abbrev pub IsOutside : NtfsVolume d_ops → ℕ → ℕ → ℕ → Type 0
  IsOutside vol lcn count j =
      (j < lcn * 2 ^ vol.cluster_size_bits)
      ⊎ ((lcn * 2 ^ vol.cluster_size_bits + count * 2 ^ vol.cluster_size_bits ≤ j)
          ⊎ (vol.nr_clusters * 2 ^ vol.cluster_size_bits ≤ j))

  outside_range :
      (q lcn count nr j : ℕ)
      → lcn + count ≤ nr
      → (j < lcn * q) ⊎ ((lcn * q + count * q ≤ j) ⊎ (nr * q ≤ j))
      → (j < lcn * q) ⊎ (lcn * q + count * q ≤ j)
  outside_range q lcn count nr j h (inl l) = inl l
  outside_range q lcn count nr j h (inr (inl r)) = inr r
  outside_range q lcn count nr j h (inr (inr r)) =
      inr (omega (arith, clusters_below q lcn count nr h, r))

  number_of :
      (vol : NtfsVolume d_ops) (r : Count) (dev : Device d_ops)
      → (c : Count) × (cluster_written d_ops vol (some (r, dev))
          ≡ some (c, record vol { dev = dev }))
  number_of vol (done n) dev = (done (n / 2 ^ vol.cluster_size_bits), refl)
  number_of vol (failed e) dev = (failed e, refl)

  -- A call that is let through returns what ntfs_pwrite makes of it.
  written_inside :
      (vol : NtfsVolume d_ops) (lcn count : ℕ) (b : List ℕ) (r : Count) (dev : Device d_ops)
      → lcn < 2 ^ 63
      → count < 2 ^ 63
      → slt vol.nr_clusters (add64 lcn count) ≡ false
      → shl64 lcn vol.cluster_size_bits ≡ lcn * 2 ^ vol.cluster_size_bits
      → shl64 count vol.cluster_size_bits ≡ count * 2 ^ vol.cluster_size_bits
      → vol.read_only ≡ false
      → ntfs_pwrite d_ops
          (suc (count * 2 ^ vol.cluster_size_bits))
          vol.dev
          (lcn * 2 ^ vol.cluster_size_bits)
          (count * 2 ^ vol.cluster_size_bits)
          (some b)
        ≡ some (r, dev)
      → (c : Count) × (ntfs_cluster_write d_ops
            (suc (count * 2 ^ vol.cluster_size_bits))
            vol
            lcn
            count
            (some b)
          ≡ some (c, record vol { dev = dev }))
  unfolding ntfs_cluster_write
  written_inside vol lcn count b r dev l_small c_small inside l_at c_at unlocked e =
      let (c, f) = number_of vol r dev in
      (
        c,
        rw (not_negative lcn l_small, not_negative count c_small, inside, l_at, c_at)
            (ap (cluster_written d_ops vol) (if-false vol.read_only _ _ unlocked ∙ e) ∙ f),
      )

  -- For a volume whose size in bytes and in clusters is below 2^63, a range whose end is below
  -- 2^63, and a buffer of its bytes, ntfs_cluster_write returns within a turn for each byte and one
  -- more, and every byte of the device outside the clusters of the range, and every byte
  -- behind the last cluster of the volume, is what it was.
  pub ntfs_cluster_write_keeps :
      (vol : NtfsVolume d_ops) (lcn count : ℕ) (b : List ℕ)
      → vol.nr_clusters < 2 ^ 63
      → vol.nr_clusters * 2 ^ vol.cluster_size_bits < 2 ^ 63
      → lcn + count < 2 ^ 63
      → count * 2 ^ vol.cluster_size_bits ≤ length b
      → (r : Count) × (vol' : NtfsVolume d_ops) × (ntfs_cluster_write d_ops
            (suc (count * 2 ^ vol.cluster_size_bits))
            vol
            lcn
            count
            (some b)
          ≡ some (r, vol'))
        × ((j : ℕ)
            → IsOutside vol lcn count j
            → h.byte_at vol'.dev.private j ≡ h.byte_at vol.dev.private j)
  unfolding ntfs_cluster_write
  ntfs_cluster_write_keeps vol lcn count b few small range enough =
      let q = 2 ^ vol.cluster_size_bits in
      let l_ok = not_negative lcn (omega arith) in
      let c_ok = not_negative count (omega arith) in
      elim (Bool-cases (slt vol.nr_clusters (add64 lcn count))) [
        | inl beyond ↦ (failed 0, vol, rw (l_ok, c_ok, beyond), λ j out. refl)
        | inr inside ↦
            let fits = not_less vol.nr_clusters lcn count few range inside in
            let below = clusters_below q lcn count vol.nr_clusters fits in
            let l_at = shl64_small lcn vol.cluster_size_bits (omega (arith, below, small)) in
            let c_at = shl64_small count vol.cluster_size_bits (omega (arith, below, small)) in
            elim (Bool-cases vol.read_only) [
              | inl locked ↦ (
                done (count * q / q),
                vol,
                rw (l_ok, c_ok, inside, l_at, c_at)
                    (ap (cluster_written d_ops vol) (
                      if-true vol.read_only _ _ locked
                      ∙ ap (λ c. some (c, vol.dev))
                          (if-false (negative (count * q)) _ _
                            (not_negative (count * q) (omega (arith, below, small)))))),
                λ j out. refl,
              )
              | inr unlocked ↦
                  let (r, dev', e, stays, written) =
                    ntfs_pwrite-returns d_ops h vol.dev (lcn * q) (count * q) b enough
                      (omega (arith, below, small)) in
                  let (c, f) =
                    written_inside vol lcn count b r dev' (omega arith) (omega arith) inside l_at
                      c_at unlocked e in
                  (
                    c,
                    record vol { dev = dev' },
                    f,
                    λ j out. stays j (outside_range q lcn count vol.nr_clusters j fits out),
                  )
            ]
      ]
