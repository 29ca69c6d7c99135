-- ===== src/Ntfs/Boot/Tests.antt =====
-- The boot sector of a volume of 1 GiB with clusters of 4096 bytes.
use rohos_disk_browser.Prelude.{◌≡◌, refl, some, true, arith}
use rohos_disk_browser.Ntfs.Boot.{
  BootSector, ffs, geometry, boot_sector_is_ntfs, parse_sizes, boot_sector_parse,
}
use rohos_disk_browser.Ntfs.Boot.Laws.{IsGeometry, parse-geometry}

abbrev boot : BootSector
boot = record {
  oem_id = 2314885531676595278;
  bytes_per_sector = 512;
  sectors_per_cluster = 8;
  reserved_sectors = 0;
  fats = 0;
  root_entries = 0;
  sectors = 0;
  sectors_per_fat = 0;
  large_sectors = 0;
  number_of_sectors = 2097152;
  mft_lcn = 4;
  mftmirr_lcn = 2;
  clusters_per_mft_record = 246;
  clusters_per_index_record = 1;
}

checked : boot_sector_is_ntfs boot ≡ true
unfolding boot_sector_is_ntfs
checked = refl

parsed : boot_sector_parse (λ _. true) boot ≡ some (geometry boot 262144)
unfolding boot_sector_parse parse_sizes ffs
parsed = refl

parse-geometry_example : IsGeometry boot (geometry boot 262144)
parse-geometry_example =
    parse-geometry (λ _. true) boot (geometry boot 262144) checked (omega arith) (omega arith)
      parsed
