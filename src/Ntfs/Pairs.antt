-- ===== src/Ntfs/Pairs.antt =====
-- The mapping pairs array, the on-disk form of a runlist, in filesys/ntfs/runlist.c:
-- ntfs_mapping_pairs_build, ntfs_get_size_for_mapping_pairs and ntfs_mapping_pairs_decompress_i.
-- The destination of a build is the room from dst to dst_max, and what is kept of it is the bytes up
-- to the terminator: what a pair without room leaves behind it is told by `stored_bytes` of Ntfs/Number
-- alone. The source of a decompression is the memory at `buf` and `left`, how many bytes
-- attr_end lies ahead. `none` is an access outside of memory.
pub mod Size
pub mod Short
pub mod Whole
pub mod Tests
use rohos_disk_browser.Prelude.{
  ℕ, zero, suc, ◌+◌, ◌-◌, ◌*◌, ◌/◌, ◌%◌, ◌^◌, List, [], ◌∷◌, ◌++◌, Option, none, some, Bool, true,
  false, not, ◌&&◌, ◌||◌, if◌then◌else◌, ltb, leb, ◌==◌, ◌>>=◌, length, get_elem?, take, drop,
}
use rohos_disk_browser.Crypto.Bytes.{read}
use rohos_disk_browser.Ntfs.Number.{
  negative, get_nr_significant_bytes, write_significant_bytes, read_number,
}
use rohos_disk_browser.Ntfs.Runs.{Run, lcn_hole, lcn_rl_not_mapped, slt, add64, sub64}

pub data PairStatus : Type 0 where
  done : PairStatus
  invalid : PairStatus
  corrupt : PairStatus
  no_space : PairStatus

-- What a build returns, the bytes at dst, and what it stores to *stop_vcn.
pub record Built : Type 0 where
  pub ret : PairStatus
  pub bytes : List ℕ
  pub stop_vcn : Option ℕ

-- `rl->lcn >= 0 || vol->major_ver < 3`: whether an lcn change is written for the run.
abbrev pub stores_lcn : ℕ → Run → Bool
stores_lcn major r = not (negative r.lcn) || ltb major 3

-- `rl->length < 0 || rl->lcn < LCN_HOLE`.
abbrev pub bad_run : Run → Bool
bad_run r = negative r.length || slt r.lcn lcn_hole

-- The error of a bad run.
abbrev pub run_error : Run → PairStatus
run_error r = if r.lcn == lcn_rl_not_mapped then invalid else corrupt

-- `while (rl->length && start_vcn >= rl[1].vcn) rl++`.
unfoldable pub skip : ℕ → List Run → Option (List Run)
skip start [] = none
skip start (r ∷ []) = if r.length == 0 then some (r ∷ []) else none
skip start (r ∷ s ∷ rl) =
    let rest = skip start (s ∷ rl) in
    if not (r.length == 0) && not (slt start s.vcn) then rest else some (r ∷ s ∷ rl)

-- The part of a run from `start` on, where the run begins before it.
abbrev pub cut : ℕ → Run → Run
cut start r = record r {
  length = sub64 r.length (sub64 start r.vcn);
  lcn = if negative r.lcn then r.lcn else add64 r.lcn (sub64 start r.vcn);
}

-- The bytes of an lcn change, and the new prev_lcn.
unfoldable pub lcn_change : ℕ → ℕ → ℕ → Run → Option (List ℕ × ℕ)
lcn_change major room prev r =
    if stores_lcn major r
    then (write_significant_bytes room (sub64 r.lcn prev) >>= λ bs. some (bs, r.lcn))
    else some ([], prev)

-- One pair: header byte, length, lcn change. `none` is the jump to size_err.
unfoldable pub encode_pair : ℕ → ℕ → ℕ → Run → Option (List ℕ × ℕ)
unfolding lcn_change
encode_pair major room prev r = do
  len ← write_significant_bytes (room - 1) r.length
  (change, prev') ← lcn_change major (room - 1 - length len) prev r
  if ltb (length len + length change + 1) room
      then some ((length change * 2 ^ 4 + length len) ∷ (len ++ change), prev')
      else none

-- `*dst = 0`, which lies outside where there is no room at all.
unfoldable pub terminate : ℕ → PairStatus → ℕ → Option Built
terminate room ret stop =
    if room == 0 then none else some (record { ret = ret; bytes = 0 ∷ []; stop_vcn = some stop })

abbrev pub prepend : List ℕ → Built → Option Built
prepend pair b = some (record b { bytes = pair ++ b.bytes })

-- `for (; rl->length; rl++)`.
unfoldable pub build_runs : ℕ → ℕ → ℕ → List Run → Option Built
build_runs major room prev [] = none
build_runs major room prev (r ∷ rl) =
    if r.length == 0
    then terminate room done r.vcn
    else (if bad_run r
        then some (record { ret = run_error r; bytes = []; stop_vcn = none })
        else elim (encode_pair major room prev r) [
          | none ↦ terminate room no_space r.vcn
          | some pair ↦ build_runs major (room - length (pair.0)) (pair.1) rl >>= prepend (pair.0)
        ])

-- What follows the skip: the cut first run if there is one, and the full runs.
unfoldable pub build_from : ℕ → ℕ → ℕ → List Run → Option Built
build_from major room start [] = none
build_from major room start (r ∷ rl) =
    if (r.length == 0) && slt r.vcn start || slt start r.vcn
    then some (record { ret = invalid; bytes = []; stop_vcn = none })
    else (if slt r.vcn start
        then (if bad_run r
            then some (record { ret = run_error r; bytes = []; stop_vcn = none })
            else elim (encode_pair major room 0 (cut start r)) [
              | none ↦ terminate room no_space r.vcn
              | some pair ↦
                  build_runs major (room - length (pair.0)) (pair.1) rl >>= prepend (pair.0)
            ])
        else build_runs major room 0 (r ∷ rl))

-- `rl` is `none` where the pointer is null.
unfoldable pub mapping_pairs_build : ℕ → ℕ → Option (List Run) → ℕ → Option Built
unfolding build_from
mapping_pairs_build major dst_len none start =
    if negative start || not (start == 0)
    then some (record { ret = invalid; bytes = []; stop_vcn = none })
    else (if dst_len == 0
        then some (record { ret = no_space; bytes = []; stop_vcn = some 0 })
        else some (record { ret = done; bytes = 0 ∷ []; stop_vcn = some 0 }))
mapping_pairs_build major dst_len (some rl) start =
    if negative start
    then some (record { ret = invalid; bytes = []; stop_vcn = none })
    else (skip start rl >>= build_from major dst_len start)

-- ntfs_get_size_for_mapping_pairs: the bytes of one pair, and the new prev_lcn.
abbrev pub pair_size : ℕ → ℕ → Run → ℕ
pair_size major prev r =
    1
    + get_nr_significant_bytes r.length
    + (if stores_lcn major r then get_nr_significant_bytes (sub64 r.lcn prev) else 0)

abbrev pub next_lcn : ℕ → ℕ → Run → ℕ
next_lcn major prev r = if stores_lcn major r then r.lcn else prev

-- The sum over the full runs; -1 and the error are a PairStatus.
pub data SizeReply : Type 0 where
  needs : ℕ → SizeReply
  failed : PairStatus → SizeReply

abbrev pub more : ℕ → SizeReply → Option SizeReply
more n (needs m) = some (needs (n + m))
more n (failed e) = some (failed e)

unfoldable pub size_runs : ℕ → ℕ → List Run → Option SizeReply
size_runs major prev [] = none
size_runs major prev (r ∷ rl) =
    let rest = size_runs major (next_lcn major prev r) rl in
    if r.length == 0
    then some (needs 1)
    else (if bad_run r
        then some (failed (run_error r))
        else (rest >>= more (pair_size major prev r)))

unfoldable pub size_from : ℕ → ℕ → List Run → Option SizeReply
size_from major start [] = none
size_from major start (r ∷ rl) =
    if (r.length == 0) && slt r.vcn start || slt start r.vcn
    then some (failed invalid)
    else (if slt r.vcn start
        then (if bad_run r
            then some (failed (run_error r))
            else (size_runs major (next_lcn major 0 (cut start r)) rl
                >>= more (pair_size major 0 (cut start r))))
        else size_runs major 0 (r ∷ rl))

unfoldable pub get_size_for_mapping_pairs : ℕ → Option (List Run) → ℕ → Option SizeReply
unfolding size_from
get_size_for_mapping_pairs major none start =
    if negative start || not (start == 0) then some (failed invalid) else some (needs 1)
get_size_for_mapping_pairs major (some rl) start =
    if negative start then some (failed invalid) else (skip start rl >>= size_from major start)
