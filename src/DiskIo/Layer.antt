-- ===== src/DiskIo/Layer.antt =====
-- crypt_SetFilePointer, crypt_ReadFile and crypt_WriteFile of Fsys.cpp. `none` is an access outside a
-- memory object.
pub mod Image
use rohos_disk_browser.Prelude.{
  ℕ, ◌+◌, ◌-◌, ◌*◌, ◌/◌, ◌%◌, ◌^◌, Bool, true, false, List, ◌++◌, Option, none, some, ◌>>=◌,
  if◌then◌else◌, ◌==◌, length, take, drop,
}
use rohos_disk_browser.Crypto.Bytes.{read}
use rohos_disk_browser.Crypto.Cipher.{Cipher}
use rohos_disk_browser.Crypto.Sectors.{encrypt, decrypt}
use rohos_disk_browser.DiskIo.Host.{Host, Method, file_begin, file_current, file_end}
use rohos_disk_browser.DiskIo.Partition
use rohos_disk_browser.DiskIo.Partition.{Partition, u64}

-- The globals of the layer, with the handle of the open image: filePos, diskDataOffset,
-- is_encrypted_partition, theDiskPartition, and Key and IV of crypt.cpp.
pub record Layer (Handle : Type 0) : Type 0 where
  pub file : Handle
  pub file_pos : ℕ
  pub data_offset : ℕ
  pub encrypted : Bool
  pub partition : Option (Partition Handle)
  pub key : List ℕ
  pub iv : List ℕ

-- What a read leaves behind: the result, the buffer, *sz and the globals.
pub record ReadReply (Handle : Type 0) : Type 0 where
  pub ret : Bool
  pub buf : List ℕ
  pub sz : ℕ
  pub layer : Layer Handle

pub record WriteReply (Handle : Type 0) : Type 0 where
  pub ret : Bool
  pub sz : ℕ
  pub layer : Layer Handle

-- `QuadPart` of a LARGE_INTEGER whose high half is set only if the pointer is not null.
abbrev pub quad : ℕ → Option ℕ → ℕ
quad low none = low
quad low (some high) = low + 2 ^ 32 * high

abbrev pub is_current : Method → Bool
is_current file_begin = false
is_current file_current = true
is_current file_end = false

module _ (h : Host) where
  -- The DWORD returned, *lpDistanceToMoveHigh after the call, and the globals.
  unfoldable pub crypt_set_file_pointer :
      Layer h.Handle → ℕ → Option ℕ → Method → Option (ℕ × Option ℕ × Layer h.Handle)
  crypt_set_file_pointer l low high method = elim (l.partition) [
    | some p ↦
        if is_current method
        then if low == 0
          then elim high [
            | none ↦ none
            | some _ ↦ some (p.part_offset % 2 ^ 32, some (p.part_offset / 2 ^ 32), l)
          ]
          else some (low, high, moved p)
        else some (low, high, moved p)
    | none ↦
        let pos = quad low high in
        let (ret, d) = h.set_pointer l.file (u64 (pos + l.data_offset)) method in
        some (if ret then 1 else 0, high, record l { file = d; file_pos = pos })
  ]
    where
      moved : Partition h.Handle → Layer h.Handle
      moved p = record l { partition = some (Partition.set_file_pointer2 h p (quad low high)) }

  -- `filePos` or `partOffset`, from which the number of the first sector is taken.
  abbrev pub position : Layer h.Handle → ℕ
  position l = elim (l.partition) [ some p ↦ p.part_offset | none ↦ l.file_pos ]

  -- The read below the encryption: the result, the buffer, how many bytes count as read.
  unfoldable pub raw_read : Layer h.Handle → List ℕ → ℕ → Bool × List ℕ × ℕ × Layer h.Handle
  raw_read l buf psz = elim (l.partition) [
    | some p ↦
        let (ret, buf', p') = Partition.read_data h p buf psz p.part_offset in
        (ret, buf', psz, record l { partition = some p' })
    | none ↦
        let (ret, bytes, d) = h.read_file l.file psz in
        (ret, bytes ++ drop (length bytes) buf, length bytes, record l { file = d })
  ]

  unfoldable pub raw_write : Layer h.Handle → List ℕ → ℕ → Bool × Layer h.Handle
  raw_write l n_buf psz = elim (l.partition) [
    | some p ↦
        let (ret, p') = Partition.write_data h p n_buf psz p.part_offset in
        (ret, record l { partition = some p' })
    | none ↦
        let (ret, _written, d) = h.write_file l.file (take psz n_buf) in
        (ret, record l { file = d })
  ]

  module _ (c : Cipher) where
    -- `sz` is *sz before the call. It is stored only on the encrypted path.
    unfoldable pub crypt_read_file : Layer h.Handle → List ℕ → ℕ → ℕ → Option (ReadReply h.Handle)
    unfolding raw_read
    crypt_read_file l buf psz sz =
        let pos = position l in
        let (ret, buf', nr_sz, l') = raw_read l buf psz in
        if l.encrypted
        then (decrypt c l.key l.iv buf' (pos / 2 ^ 9) nr_sz >>= λ out.
            some (record { ret = ret; buf = out; sz = nr_sz; layer = l' }))
        else some (record { ret = ret; buf = buf'; sz = sz; layer = l' })

    -- The encryption of the copy, where the disk is encrypted.
    unfoldable pub encrypt_copy : Layer h.Handle → List ℕ → ℕ → Option (List ℕ)
    encrypt_copy l n_buf psz =
        if l.encrypted then encrypt c l.key l.iv n_buf (position l / 2 ^ 9) psz else some n_buf

    -- `spare` are the 32 bytes that malloc(psz + 32) leaves behind the copy of the data.
    unfoldable pub crypt_write_file :
        Layer h.Handle → List ℕ → ℕ → List ℕ → Option (WriteReply h.Handle)
    unfolding raw_write encrypt_copy
    crypt_write_file l buf psz spare = do
      copy ← read psz buf
      let n_buf = copy ++ spare
      out ← encrypt_copy l n_buf psz
      let (ret, l') = raw_write l out psz
      some (record { ret = ret; sz = psz; layer = l' })
