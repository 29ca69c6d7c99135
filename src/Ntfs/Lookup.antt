-- ===== src/Ntfs/Lookup.antt =====
-- ntfs_rl_vcn_to_lcn of filesys/ntfs/runlist.c: where on the volume a cluster of an attribute stands.
pub mod Laws
mod Tests
use rohos_disk_browser.Prelude.{
  ℕ, List, [], ◌∷◌, Option, none, some, Bool, not, if◌then◌else◌, ◌==◌, ◌>>=◌,
}
use rohos_disk_browser.Ntfs.Number.{negative}
use rohos_disk_browser.Ntfs.Runs.{Run, lcn_rl_not_mapped, lcn_enoent, lcn_einval, slt, add64, sub64}

-- The lcn of a vcn inside the run.
abbrev pub lcn_in : Run → ℕ → ℕ
lcn_in r vcn = if negative r.lcn then r.lcn else add64 r.lcn (sub64 vcn r.vcn)

-- The answer at the terminator.
abbrev pub lcn_past : Run → ℕ
lcn_past r = if negative r.lcn then r.lcn else lcn_enoent

-- `for (i = 0; rl[i].length; i++)`, and the answer behind it.
unfoldable pub scan : List Run → ℕ → Option ℕ
scan [] vcn = none
scan (r ∷ []) vcn = if r.length == 0 then some (lcn_past r) else none
scan (r ∷ s ∷ rl) vcn =
    let rest = scan (s ∷ rl) vcn in
    if r.length == 0
    then some (lcn_past r)
    else (if slt vcn s.vcn then some (lcn_in r vcn) else rest)

-- Below the first element of the runlist there is nothing.
unfoldable pub scan_from : List Run → ℕ → Option ℕ
scan_from [] vcn = none
scan_from (r ∷ rl) vcn = if slt vcn r.vcn then some lcn_enoent else scan (r ∷ rl) vcn

-- `rl` is `none` where the pointer is null.
unfoldable pub vcn_to_lcn : Option (List Run) → ℕ → Option ℕ
unfolding scan_from
vcn_to_lcn none vcn = if negative vcn then some lcn_einval else some lcn_rl_not_mapped
vcn_to_lcn (some rl) vcn = if negative vcn then some lcn_einval else scan_from rl vcn
