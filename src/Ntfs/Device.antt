-- ===== src/Ntfs/Device.antt =====
-- filesys/ntfs/device.c: ntfs_pread, ntfs_pwrite, ntfs_cluster_read and ntfs_cluster_write over the
-- operations of a device, which device.h declares as function pointers. An s64 is a two's complement
-- word. The loops run on fuel, one unit a turn, and `none` is a loop that is out of it; what a
-- function returns also says which bytes it left in the buffer.
pub mod Laws
pub mod Reading
pub mod Writing
pub mod Whole
pub mod Clusters
pub mod Inside
pub mod Progress
mod Pieces
mod Tests
use rohos_disk_browser.Prelude.{
  ℕ, zero, suc, ◌+◌, ◌*◌, ◌/◌, ◌%◌, ◌^◌, Bool, true, false, ◌||◌, if◌then◌else◌, ltb, leb, ◌==◌,
  Option, none, some, List, [], ◌∷◌, ◌++◌, length, take, drop,
}
use rohos_disk_browser.Ntfs.Runs.{add64, sub64}
use rohos_disk_browser.Ntfs.Number.{negative}

-- What an operation returns: a number of bytes, or the negative number `- 1 - code`.
pub data Count : Type 0 where
  done : (n : ℕ) → Count
  failed : (code : ℕ) → Count

-- What a read returns: the bytes that it stored, or a negative number.
pub data Got : Type 0 where
  got : (bytes : List ℕ) → Got
  unread : (code : ℕ) → Got

-- struct ntfs_device_operations, of which device.c calls the two positioned transfers. A read is
-- given a count and a place, a write its bytes and a place.
pub record Operations : Type 1 where
  pub Private : Type 0
  pub pread : Private → ℕ → ℕ → Got × Private
  pub pwrite : Private → List ℕ → ℕ → Count × Private

-- struct ntfs_device: the flags of d_state that are used here, and d_private.
pub record Device (d_ops : Operations) : Type 0 where
  pub read_only : Bool
  pub dirty : Bool
  pub private : d_ops.Private

-- What a turn makes of `br`, where `k` is the rest of the loop.
unfoldable pub read_turn :
    {S : Type 0} → (S → ℕ → List ℕ → Option (Got × S)) → ℕ → List ℕ → Got × S → Option (Got × S)
read_turn k count b (got (c ∷ cs), s) = k s (sub64 count (length (c ∷ cs))) (b ++ (c ∷ cs))
read_turn k count b (got [], s) = some (got b, s)
read_turn k count [] (unread e, s) = some (unread e, s)
read_turn k count (c ∷ cs) (unread e, s) = some (got (c ∷ cs), s)

unfoldable pub write_turn :
    {S : Type 0} → (S → ℕ → ℕ → Option (Count × S)) → ℕ → ℕ → Count × S → Option (Count × S)
write_turn k count total (done (suc n), s) = k s (sub64 count (suc n)) (add64 total (suc n))
write_turn k count total (done zero, s) = some (done total, s)
write_turn k count zero (failed e, s) = some (failed e, s)
write_turn k count (suc total) (failed e, s) = some (done (suc total), s)

module _ (d_ops : Operations) where
  -- `for (total = 0; count; count -= br, total += br)`, where `b` is what the buffer has so far.
  unfoldable pub read_loop : ℕ → ℕ → d_ops.Private → ℕ → List ℕ → Option (Got × d_ops.Private)
  read_loop zero pos s count b = none
  read_loop (suc n) pos s count b = elim (count == 0) [
    | true ↦ some (got b, s)
    | false ↦ read_turn (read_loop n pos) count b (d_ops.pread s count (add64 pos (length b)))
  ]

  unfoldable pub write_loop :
      ℕ → ℕ → List ℕ → d_ops.Private → ℕ → ℕ → Option (Count × d_ops.Private)
  write_loop zero pos b s count total = none
  write_loop (suc n) pos b s count total = elim (count == 0) [
    | true ↦ some (done total, s)
    | false ↦
        write_turn (write_loop n pos b) count total
          (d_ops.pwrite s (take count (drop total b)) (add64 pos total))
  ]

  -- The device after its operations left it as `s`.
  abbrev pub left :
      {R : Type 0} → Device d_ops → Option (R × d_ops.Private) → Option (R × Device d_ops)
  left dev none = none
  left dev (some (r, s)) = some (r, record dev { private = s })

  -- `null` says whether the pointer to the buffer is null.
  unfoldable pub ntfs_pread : ℕ → Device d_ops → ℕ → ℕ → Bool → Option (Got × Device d_ops)
  ntfs_pread fuel dev pos count null =
      if null || negative count || negative pos
      then some (unread 0, dev)
      else (if count == 0
          then some (got [], dev)
          else left dev (read_loop fuel pos dev.private count []))

  -- The buffer is none where the pointer is null.
  unfoldable pub ntfs_pwrite :
      ℕ → Device d_ops → ℕ → ℕ → Option (List ℕ) → Option (Count × Device d_ops)
  ntfs_pwrite fuel dev pos count none = some (failed 0, dev)
  ntfs_pwrite fuel dev pos count (some b) =
      if negative count || negative pos
      then some (failed 0, dev)
      else (if count == 0
          then some (done 0, dev)
          else (if dev.read_only
              then some (failed 0, dev)
              else left (record dev { dirty = true }) (write_loop fuel pos b dev.private count 0)))
