-- ===== src/Ntfs/Device/Tests.antt =====
-- filesys/ntfs/device.c on a device that moves two bytes at most in one operation.
use rohos_disk_browser.Prelude.{
  ℕ, ◌^◌, ◌≡◌, refl, true, false, some, List, [], ◌∷◌, get_elem?, length, min, arith,
}
use rohos_disk_browser.DiskIo.Host.{overwrite}
use rohos_disk_browser.Ntfs.Device.{
  Count, done, failed, got, unread, Device, read_turn, write_turn, read_loop, write_loop,
  ntfs_pread, ntfs_pwrite,
}
use rohos_disk_browser.Ntfs.Device.Clusters.{NtfsVolume, ntfs_cluster_write}
use rohos_disk_browser.Ntfs.Device.Whole.{ntfs_pread-ntfs_pwrite}
use rohos_disk_browser.Ntfs.Device.Inside.{IsOutside, ntfs_cluster_write_keeps}
use rohos_disk_browser.Ntfs.Device.Progress.{Progresses, ntfs_pwrite-whole}
use rohos_disk_browser.Ntfs.Device.Pieces.{pieces, pieces-IsDevice}

abbrev blank : Device pieces
blank = record { read_only = false; dirty = false; private = λ i. i }

abbrev buffer : List ℕ
buffer = 9 ∷ 8 ∷ 7 ∷ 6 ∷ 5 ∷ []

-- Five bytes are written in three turns, and read in three.
abbrev written : Device pieces
written = record blank {
  dirty = true;
  private =
      overwrite (overwrite (overwrite (λ i. i) 100 (9 ∷ 8 ∷ [])) 102 (7 ∷ 6 ∷ [])) 104 (5 ∷ []);
}

write_five : ntfs_pwrite pieces 6 blank 100 5 (some buffer) ≡ some (done 5, written)
unfolding ntfs_pwrite write_loop write_turn
write_five = refl

read_five : ntfs_pread pieces 6 written 100 5 false ≡ some (got buffer, written)
unfolding ntfs_pread read_loop read_turn
read_five = refl

negative_count : ntfs_pread pieces 6 blank 100 (2 ^ 63) false ≡ some (unread 0, blank)
unfolding ntfs_pread
negative_count = refl

ntfs_pread-ntfs_pwrite_example : get_elem? buffer 3 ≡ get_elem? buffer 3
ntfs_pread-ntfs_pwrite_example =
    ntfs_pread-ntfs_pwrite pieces pieces-IsDevice blank written written 100 5 5 5 buffer buffer
      (omega arith) (omega arith) (omega arith) write_five read_five 3 (omega arith) (omega arith)

pieces-Progresses : Progresses pieces pieces-IsDevice
pieces-Progresses s bs p some_left = (min (length bs) 2, refl, omega arith)

ntfs_pwrite-whole_example :
    (dev' : Device pieces) × (ntfs_pwrite pieces 6 blank 100 5 (some buffer) ≡ some (done 5, dev'))
ntfs_pwrite-whole_example =
    ntfs_pwrite-whole pieces pieces-IsDevice blank 100 5 buffer pieces-Progresses refl (omega arith)
      (omega arith)

-- A volume of four clusters of eight bytes.
abbrev volume : NtfsVolume pieces
volume = record { nr_clusters = 4; cluster_size_bits = 3; read_only = false; dev = blank }

past_the_end : ntfs_cluster_write pieces 9 volume 4 1 (some buffer) ≡ some (failed 0, volume)
unfolding ntfs_cluster_write
past_the_end = refl

abbrev cluster : List ℕ
cluster = 1 ∷ 2 ∷ 3 ∷ 4 ∷ 5 ∷ 6 ∷ 7 ∷ 8 ∷ []

ntfs_cluster_write_keeps_example :
    (r : Count) × (vol' : NtfsVolume pieces) × (ntfs_cluster_write pieces 9 volume 2 1
        (some cluster)
      ≡ some (r, vol'))
    × ((j : ℕ)
        → IsOutside pieces pieces-IsDevice volume 2 1 j
        → vol'.dev.private j ≡ volume.dev.private j)
ntfs_cluster_write_keeps_example =
    ntfs_cluster_write_keeps pieces pieces-IsDevice volume 2 1 cluster (omega arith) (omega arith)
      (omega arith) (omega arith)
