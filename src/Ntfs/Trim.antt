-- ===== src/Ntfs/Trim.antt =====
-- ntfs_rl_truncate, ntfs_rl_sparse and ntfs_rl_get_compressed_size of filesys/ntfs/runlist.c. A null
-- pointer is `none`; an access past the runlist is `none` in the result.
pub mod Truncate
pub mod Sizes
mod Tests
use rohos_disk_browser.Prelude.{
  ℕ, ◌+◌, ◌*◌, ◌%◌, ◌^◌, List, [], ◌∷◌, Option, none, some, Bool, true, false, not, if◌then◌else◌,
  ◌==◌, ◌>>=◌,
}
use rohos_disk_browser.Ntfs.Number.{negative}
use rohos_disk_browser.Ntfs.Runs.{Run, lcn_hole, lcn_enoent, slt, add64, sub64}

-- 0 with the runlist, or -1 with the errno, where the runlist stays as it was.
pub data Truncated : Type 0 where
  truncated : List Run → Truncated
  outside : Truncated
  truncated_already : Truncated

abbrev pub keep : Run → Truncated → Option Truncated
keep r (truncated rl) = some (truncated (r ∷ rl))
keep r outside = some outside
keep r truncated_already = some truncated_already

-- The truncation at the run that holds `start`: it is shortened, and the next element or, where
-- nothing is left of it, the run itself becomes the terminator.
unfoldable pub cut_run : ℕ → Run → List Run → Option Truncated
cut_run start r [] = none
cut_run start r (s ∷ rl) =
    let n = sub64 start r.vcn in
    if n == 0
    then some (truncated (record r { length = n; lcn = lcn_enoent } ∷ s ∷ rl))
    else some (
        truncated
          (record r { length = n } ∷ record s { vcn = start; length = 0; lcn = lcn_enoent } ∷ rl))

-- `while (rl->length) { if (start_vcn < rl[1].vcn) break; rl++; }`, and the cut.
unfoldable pub truncate_from : ℕ → List Run → Option Truncated
unfolding cut_run
truncate_from start [] = none
truncate_from start (r ∷ []) = if r.length == 0 then some truncated_already else none
truncate_from start (r ∷ s ∷ rl) =
    let rest = truncate_from start (s ∷ rl) in
    if r.length == 0
    then some truncated_already
    else (if slt start s.vcn then cut_run start r (s ∷ rl) else (rest >>= keep r))

unfoldable pub truncate : Option (List Run) → ℕ → Option Truncated
truncate none start = some outside
truncate (some []) start = none
truncate (some (r ∷ rl)) start =
    if slt start r.vcn then some outside else truncate_from start (r ∷ rl)

-- The results 0, 1 and -1 of ntfs_rl_sparse.
pub data Sparse : Type 0 where
  dense : Sparse
  sparse : Sparse
  bad_runlist : Sparse

unfoldable pub sparse_from : List Run → Option Sparse
sparse_from [] = none
sparse_from (r ∷ rl) =
    let rest = sparse_from rl in
    if r.length == 0
    then some dense
    else (if negative r.lcn
        then (if not (r.lcn == lcn_hole) then some bad_runlist else some sparse)
        else rest)

unfoldable pub rl_sparse : Option (List Run) → Option Sparse
rl_sparse none = some bad_runlist
rl_sparse (some rl) = sparse_from rl

-- The sum `ret` before the shift; `some none` is the error.
unfoldable pub allocated_from : ℕ → List Run → Option (Option ℕ)
allocated_from ret [] = none
allocated_from ret (r ∷ rl) =
    let on_disk = allocated_from (add64 ret r.length) rl in
    let hole = allocated_from ret rl in
    if r.length == 0
    then some (some ret)
    else (if negative r.lcn then (if not (r.lcn == lcn_hole) then some none else hole) else on_disk)

abbrev pub shifted : ℕ → Option ℕ → Option ℕ
shifted bits none = none
shifted bits (some n) = some (n * 2 ^ bits % 2 ^ 64)

unfoldable pub rl_get_compressed_size : ℕ → Option (List Run) → Option (Option ℕ)
rl_get_compressed_size bits none = some none
rl_get_compressed_size bits (some rl) = allocated_from 0 rl >>= λ r. some (shifted bits r)
