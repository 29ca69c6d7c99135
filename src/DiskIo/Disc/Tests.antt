-- ===== src/DiskIo/Disc/Tests.antt =====
use rohos_disk_browser.Prelude.{
  ℕ, ◌+◌, ◌*◌, ◌/◌, ◌%◌, ◌≡◌, inl, true, false, List, [], ◌∷◌, ◌++◌, some, length, drop, replicate,
  if◌then◌else◌, length-replicate, arith,
}
use rohos_disk_browser.Crypto.Bytes.{replicate-IsBytes}
use rohos_disk_browser.Crypto.Toy.{toy, toy-IsCipher}
use rohos_disk_browser.DiskIo.Host.{bytes_from}
use rohos_disk_browser.DiskIo.Ram.{Ram, ram, ram-IsHost}
use rohos_disk_browser.DiskIo.Layer.{ReadReply, WriteReply}
use rohos_disk_browser.DiskIo.Layer.Image.{image, opened}
use rohos_disk_browser.DiskIo.Disc.{read_sectors, write_sectors, read_disk_data}
use rohos_disk_browser.DiskIo.Disc.Frame.{read-write_sectors, read-write_sectors_apart}
use rohos_disk_browser.DiskIo.Disc.Plain.{read_disk_data_count}

abbrev disk : Ram
disk = record { size = 8192; position = 0; cell = λ i. i % 256 }

abbrev key : List ℕ
key = 5 ∷ replicate 31 9

abbrev iv : List ℕ
iv = replicate 64 0

abbrev sectors : List ℕ
sectors = replicate 1024 66

abbrev spare : List ℕ
spare = replicate 32 0

iv-length : length iv ≡ 64
iv-length = length-replicate {A = ℕ} 64 0

sectors-length : length sectors ≡ 512 * 2
sectors-length = length-replicate {A = ℕ} 1024 66

read-write_sectors_example :
    (w : WriteReply Ram) × (r : ReadReply Ram) × (write_sectors ram toy
        (image true 1024 key iv disk 0)
        3
        2
        sectors
        spare
      ≡ some w)
    × (w.ret ≡ true)
    × (read_sectors ram toy w.layer 3 2 [] ≡ some r)
    × (r.ret ≡ true)
    × (r.buf ≡ sectors ++ drop (512 * 2) [])
read-write_sectors_example =
    read-write_sectors ram ram-IsHost toy toy-IsCipher 1024 key iv iv-length true disk 0
      (omega arith) 3 2 sectors spare [] (omega arith) (omega arith) (omega arith) sectors-length
      (replicate-IsBytes 64 0 (omega arith)) (replicate-IsBytes 1024 66 (omega arith))
      (replicate-IsBytes 32 0 (omega arith))

read-write_sectors_apart_example :
    (w : WriteReply Ram) × (r : ReadReply Ram) × (r' : ReadReply Ram) × (write_sectors ram toy
        (image true 1024 key iv disk 0)
        3
        2
        sectors
        spare
      ≡ some w)
    × (read_sectors ram toy (image true 1024 key iv disk 0) 2 1 [] ≡ some r)
    × (read_sectors ram toy w.layer 2 1 [] ≡ some r')
    × (r'.ret ≡ r.ret)
    × (r'.buf ≡ r.buf)
    × (r'.sz ≡ r.sz)
read-write_sectors_apart_example =
    read-write_sectors_apart ram ram-IsHost toy toy-IsCipher 1024 key iv iv-length true disk 0
      (omega arith) 3 2 2 1 sectors spare [] (omega arith) (omega arith) (omega arith)
      sectors-length (omega arith) (omega arith) (omega arith) (inl (omega arith))

read_disk_data_count_example :
    (r : ReadReply Ram) × (read_disk_data ram toy (image false 1024 key iv disk 0) [] (512 * 1) 512
      ≡ some r)
    × (r.ret ≡ true)
    × (r.buf
        ≡ opened ram toy toy-IsCipher 1024 key iv iv-length false
            (512 / 512)
            1
            (bytes_from disk.cell (512 + 1024) (512 * 1) ++ drop (512 * 1) []))
    × (r.sz ≡ (if false then 512 * 1 else 0))
read_disk_data_count_example =
    read_disk_data_count ram ram-IsHost toy toy-IsCipher 1024 key iv iv-length false disk 0 512 1 []
      (omega arith) (omega arith)
