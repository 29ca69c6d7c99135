-- ===== src/DiskIo/Partition/Tests.antt =====
use rohos_disk_browser.Prelude.{
  ℕ, ◌-◌, ◌%◌, ◌^◌, ◌≡◌, refl, true, false, List, [], ◌++◌, drop, replicate, length-replicate,
  arith,
}
use rohos_disk_browser.DiskIo.Ram.{Ram, ram, ram-IsHost}
use rohos_disk_browser.DiskIo.Partition.{
  Partition, device_offset, set_file_pointer, read_data, write_data,
}
use rohos_disk_browser.DiskIo.Partition.Access.{drive, read_data-write_data}

abbrev disk : Ram
disk = record { size = 2 ^ 33; position = 0; cell = λ i. i % 256 }

abbrev sector : List ℕ
sector = replicate 512 66

-- A sum of 1 modulo 512 leads to byte 511 of the drive.
misaligned : device_offset 1 1024 512 ≡ 511
unfolding device_offset
misaligned = refl

abbrev wrapped : Partition Ram
wrapped = drive 0 512 1024 disk

-- At 4 GiB the low DWORD of the new position is 0, which counts as a failure of the seek.
at_4gib : (read_data ram wrapped sector 512 (2 ^ 32 - 1536)).0 ≡ false
unfolding read_data set_file_pointer device_offset
at_4gib = refl

read_data-write_data_example :
    (w : Partition Ram) × (r : Partition Ram) × (write_data ram
        (drive 0 512 1024 disk)
        sector
        512
        2048
      ≡ (true, w))
    × (read_data ram w [] 512 2048 ≡ (true, sector ++ drop 512 [], r))
read_data-write_data_example =
    read_data-write_data ram ram-IsHost 0 512 1024 2048 512 refl refl (omega arith) (omega arith)
      disk sector [] (length-replicate {A = ℕ} 512 66) (omega arith)
