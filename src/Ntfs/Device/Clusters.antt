-- ===== src/Ntfs/Device/Clusters.antt =====
-- filesys/ntfs/device.c: ntfs_cluster_read and ntfs_cluster_write, the transfers of whole clusters of
-- a volume.
use rohos_disk_browser.Prelude.{
  ℕ, ◌-◌, ◌*◌, ◌/◌, ◌%◌, ◌^◌, Bool, ◌||◌, if◌then◌else◌, Option, none, some, List, [], length,
}
use rohos_disk_browser.Ntfs.Runs.{add64, slt}
use rohos_disk_browser.Ntfs.Device.{
  Count, done, failed, Got, got, unread, Operations, Device, ntfs_pread, ntfs_pwrite,
}
use rohos_disk_browser.Ntfs.Number.{negative}

-- The fields of ntfs_volume that the two functions use.
pub record NtfsVolume (d_ops : Operations) : Type 0 where
  pub nr_clusters : ℕ
  pub cluster_size_bits : ℕ
  pub read_only : Bool
  pub dev : Device d_ops

-- `a << n` on s64.
abbrev pub shl64 : ℕ → ℕ → ℕ
shl64 a n = (a * 2 ^ n) % 2 ^ 64

-- An s64 as what a transfer returns.
abbrev pub as_count : ℕ → Count
as_count n = if negative n then failed (2 ^ 64 - 1 - n) else done n

module _ (d_ops : Operations) where
  -- The number of clusters read and the bytes that the buffer got.
  abbrev pub cluster_read :
      NtfsVolume d_ops → Option (Got × Device d_ops) → Option (Count × List ℕ × NtfsVolume d_ops)
  cluster_read vol none = none
  cluster_read vol (some (got bs, dev)) =
      some (done (length bs / 2 ^ vol.cluster_size_bits), bs, record vol { dev = dev })
  cluster_read vol (some (unread e, dev)) = some (failed e, [], record vol { dev = dev })

  abbrev pub cluster_written :
      NtfsVolume d_ops → Option (Count × Device d_ops) → Option (Count × NtfsVolume d_ops)
  cluster_written vol none = none
  cluster_written vol (some (done n, dev)) =
      some (done (n / 2 ^ vol.cluster_size_bits), record vol { dev = dev })
  cluster_written vol (some (failed e, dev)) = some (failed e, record vol { dev = dev })

  -- For a volume pointer that is not null. `null` says whether the buffer's pointer is.
  unfoldable pub ntfs_cluster_read :
      ℕ → NtfsVolume d_ops → ℕ → ℕ → Bool → Option (Count × List ℕ × NtfsVolume d_ops)
  ntfs_cluster_read fuel vol lcn count null =
      if negative lcn || negative count
      then some (failed 0, [], vol)
      else (if slt vol.nr_clusters (add64 lcn count)
          then some (failed 0, [], vol)
          else cluster_read vol (
              ntfs_pread d_ops fuel vol.dev (shl64 lcn vol.cluster_size_bits)
                (shl64 count vol.cluster_size_bits) null))

  unfoldable pub ntfs_cluster_write :
      ℕ → NtfsVolume d_ops → ℕ → ℕ → Option (List ℕ) → Option (Count × NtfsVolume d_ops)
  ntfs_cluster_write fuel vol lcn count b =
      if negative lcn || negative count
      then some (failed 0, vol)
      else (if slt vol.nr_clusters (add64 lcn count)
          then some (failed 0, vol)
          else cluster_written vol (
              if vol.read_only
              then some (as_count (shl64 count vol.cluster_size_bits), vol.dev)
              else ntfs_pwrite d_ops fuel vol.dev (shl64 lcn vol.cluster_size_bits)
                  (shl64 count vol.cluster_size_bits) b))
