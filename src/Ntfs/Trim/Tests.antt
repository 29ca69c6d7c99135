-- ===== src/Ntfs/Trim/Tests.antt =====
-- The sample runlist truncated inside its third run, and the sizes of runlists.
use rohos_disk_browser.Prelude.{◌≡◌, refl, inl, inr, List, [], ◌∷◌, some, arith}
use rohos_disk_browser.Ntfs.Runs.{Run, lcn_enoent}
use rohos_disk_browser.Ntfs.Runs.Sample.{sample}
use rohos_disk_browser.Ntfs.Pairs.Tests.{sample-Mapped}
use rohos_disk_browser.Ntfs.Pairs.Size.{Mapped, end_vcn}
use rohos_disk_browser.Ntfs.Lookup.{scan}
use rohos_disk_browser.Ntfs.Trim.{truncated, truncate, dense, sparse_from, rl_sparse}
use rohos_disk_browser.Ntfs.Trim.Truncate.{truncate-lookup}

abbrev whole : List Run
whole =
    record { vcn = 0; lcn = 700; length = 6 }
    ∷ record { vcn = 6; lcn = lcn_enoent; length = 0 }
    ∷ []

whole-Mapped : Mapped 0 whole
whole-Mapped = (
  refl,
  (
    omega arith,
    inr (omega arith, (omega arith, (inl (omega arith), (refl, (omega arith, inl refl))))),
  ),
)

sample_end : end_vcn sample ≡ 28
unfolding end_vcn
sample_end = refl

whole_end : end_vcn whole ≡ 6
unfolding end_vcn
whole_end = refl

whole_dense : rl_sparse (some whole) ≡ some dense
unfolding rl_sparse sparse_from
whole_dense = refl

truncate-lookup_example :
    (rl : List Run) × ((truncate (some sample) 26 ≡ some (truncated rl))
      × (Mapped 0 rl × ((end_vcn rl ≡ 26) × (scan rl 25 ≡ scan sample 25))))
truncate-lookup_example =
    truncate-lookup 0 26 25 sample sample-Mapped (omega arith) (omega arith)
      (omega (arith, sample_end)) (omega arith) (omega arith)
