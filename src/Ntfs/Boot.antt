-- ===== src/Ntfs/Boot.antt =====
-- filesys/ntfs/bootsect.c: the check of a boot sector and the sizes that it gives a volume, and `ffs`
-- of compat.c. The fields of the sector are the numbers of their bytes in little endian: a signed
-- byte is a number below 256, an s64 a two's complement word. `seek` is the device's d_ops->seek from
-- the start: whether it succeeds. When ntfs_boot_sector_parse fails, the volume is given up, and so
-- are the values it has by then.
pub mod Powers
pub mod Laws
mod Tests
use rohos_disk_browser.Prelude.{
  ℕ, zero, suc, ◌+◌, ◌-◌, ◌*◌, ◌/◌, ◌%◌, ◌^◌, Option, none, some, Bool, true, false, not, ◌&&◌,
  ◌||◌, if◌then◌else◌, ltb, leb, ◌==◌, ◌>>=◌, bit_and,
}
use rohos_disk_browser.Ntfs.Runs.{slt, sub64}
use rohos_disk_browser.Ntfs.Unpack.{sar_bits}

pub record BootSector : Type 0 where
  pub oem_id : ℕ
  pub bytes_per_sector : ℕ
  pub sectors_per_cluster : ℕ
  pub reserved_sectors : ℕ
  pub fats : ℕ
  pub root_entries : ℕ
  pub sectors : ℕ
  pub sectors_per_fat : ℕ
  pub large_sectors : ℕ
  pub number_of_sectors : ℕ
  pub mft_lcn : ℕ
  pub mftmirr_lcn : ℕ
  pub clusters_per_mft_record : ℕ
  pub clusters_per_index_record : ℕ

-- What the parser sets of an ntfs_volume.
pub record Geometry : Type 0 where
  pub sector_size : ℕ
  pub sector_size_bits : ℕ
  pub nr_clusters : ℕ
  pub mft_lcn : ℕ
  pub mftmirr_lcn : ℕ
  pub cluster_size : ℕ
  pub cluster_size_bits : ℕ
  pub mft_record_size : ℕ
  pub mft_record_size_bits : ℕ
  pub indx_record_size : ℕ
  pub indx_record_size_bits : ℕ
  pub mftmirr_size : ℕ

-- A step of ffs: where the low `n` bits are 0, they are shifted out.
abbrev pub ffs_step : ℕ → ℕ × ℕ → ℕ × ℕ
ffs_step n (x, r) = if x % 2 ^ n == 0 then (x / 2 ^ n, r + n) else (x, r)

unfoldable pub ffs : ℕ → ℕ
ffs x =
    if x == 0 then 0 else (ffs_step 1 (ffs_step 2 (ffs_step 4 (ffs_step 8 (ffs_step 16 (x, 1)))))).1

-- `case 1: case 2: case 4: ...` of a sector's two switches, up to the `n`-th power of two.
abbrev pub one_of_powers : ℕ → ℕ → Bool
one_of_powers zero x = x == 2 ^ 0
one_of_powers (suc n) x = one_of_powers n x || (x == 2 ^ suc n)

-- The clusters per mft record or index block: a negative logarithm, or a power of two.
abbrev pub record_clusters_ok : ℕ → Bool
record_clusters_ok c = not (ltb c 225 || ltb 247 c) || one_of_powers 6 c

abbrev pub reserved_ok : BootSector → Bool
reserved_ok b =
    (b.reserved_sectors == 0)
    && ((b.root_entries == 0)
        && ((b.sectors == 0)
            && ((b.sectors_per_fat == 0) && ((b.large_sectors == 0) && (b.fats == 0)))))

unfoldable pub boot_sector_is_ntfs : BootSector → Bool
boot_sector_is_ntfs b =
    if not (b.oem_id == 2314885531676595278)
    then false
    else (if ltb b.bytes_per_sector 256 || ltb 4096 b.bytes_per_sector
        then false
        else (if not (one_of_powers 7 b.sectors_per_cluster)
            then false
            else (if ltb 65536 (b.bytes_per_sector * b.sectors_per_cluster)
                then false
                else (if not (reserved_ok b)
                    then false
                    else (if not (record_clusters_ok b.clusters_per_mft_record)
                        then false
                        else record_clusters_ok b.clusters_per_index_record)))))

-- `c < 0 ? 1 << -c : c << cluster_size_bits` of a signed byte.
abbrev pub record_size : ℕ → ℕ → ℕ
record_size c bits = if leb 128 c then 2 ^ (256 - c) % 2 ^ 32 else c * 2 ^ bits % 2 ^ 32

-- `x & (x - 1)` is not 0.
abbrev pub not_power : ℕ → Bool
not_power x = not (bit_and x (x - 1) == 0)

abbrev pub mirror_size : ℕ → ℕ → ℕ
mirror_size cluster_size mft_record_size =
    if leb cluster_size (4 * mft_record_size % 2 ^ 32) then 4 else cluster_size / mft_record_size

abbrev pub bs_cluster_size : BootSector → ℕ
bs_cluster_size bs = bs.sectors_per_cluster * bs.bytes_per_sector

-- The size of an mft record or an index block of `c` clusters.
abbrev pub bs_record_size : BootSector → ℕ → ℕ
bs_record_size bs c = record_size c (ffs (bs_cluster_size bs) - 1)

-- The values that the volume is given in all.
abbrev pub geometry : BootSector → ℕ → Geometry
geometry bs nr_clusters =
    let mft_size = bs_record_size bs bs.clusters_per_mft_record in
    let indx_size = bs_record_size bs bs.clusters_per_index_record in
    record {
      sector_size = bs.bytes_per_sector;
      sector_size_bits = ffs bs.bytes_per_sector - 1;
      nr_clusters = nr_clusters;
      mft_lcn = bs.mft_lcn;
      mftmirr_lcn = bs.mftmirr_lcn;
      cluster_size = bs_cluster_size bs;
      cluster_size_bits = ffs (bs_cluster_size bs) - 1;
      mft_record_size = mft_size;
      mft_record_size_bits = ffs mft_size - 1;
      indx_record_size = indx_size;
      indx_record_size_bits = ffs indx_size - 1;
      mftmirr_size = mirror_size (bs_cluster_size bs) mft_size;
    }

-- The part of the parser from the cluster size on.
unfoldable pub parse_sizes : BootSector → ℕ → Option Geometry
parse_sizes bs nr_clusters =
    if not_power (bs_cluster_size bs)
    then none
    else (if not_power (bs_record_size bs bs.clusters_per_mft_record)
        then none
        else some (geometry bs nr_clusters))

unfoldable pub boot_sector_parse : (ℕ → Bool) → BootSector → Option Geometry
unfolding parse_sizes
boot_sector_parse seek bs =
    let sector_size_bits = ffs bs.bytes_per_sector - 1 in
    let nr_clusters = sar_bits bs.number_of_sectors (ffs bs.sectors_per_cluster - 1) in
    if not_power bs.sectors_per_cluster
    then none
    else (if bs.number_of_sectors == 0
        then none
        else (if not (seek (sub64 bs.number_of_sectors 1 * 2 ^ sector_size_bits % 2 ^ 64))
            then none
            else (if slt nr_clusters bs.mft_lcn || slt nr_clusters bs.mftmirr_lcn
                then none
                else parse_sizes bs nr_clusters)))
