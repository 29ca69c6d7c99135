-- ===== src/Ntfs/Lookup/Tests.antt =====
-- Lookups in the sample runlist: in a run, in a hole, and past the end.
use rohos_disk_browser.Prelude.{ℕ, ◌≡◌, refl, some, get_elem?, arith}
use rohos_disk_browser.Ntfs.Runs.{Run, lcn_hole}
use rohos_disk_browser.Ntfs.Runs.Sample.{sample}
use rohos_disk_browser.Ntfs.Pairs.Tests.{sample-Mapped}
use rohos_disk_browser.Ntfs.Pairs.Size.{end_vcn}
use rohos_disk_browser.Ntfs.Lookup.{scan, scan_from, vcn_to_lcn}
use rohos_disk_browser.Ntfs.Lookup.Laws.{Answer, vcn_to_lcn-inside}

at_25 : vcn_to_lcn (some sample) 25 ≡ some 501
unfolding vcn_to_lcn scan_from scan
at_25 = refl

at_20 : vcn_to_lcn (some sample) 20 ≡ some lcn_hole
unfolding vcn_to_lcn scan_from scan
at_20 = refl

sample_end : end_vcn sample ≡ 28
unfolding end_vcn
sample_end = refl

vcn_to_lcn-inside_example :
    (i : ℕ) × ((r : Run) × ((lcn : ℕ) × ((get_elem? sample i ≡ some r)
          × ((vcn_to_lcn (some sample) 25 ≡ some lcn) × Answer r 25 lcn))))
vcn_to_lcn-inside_example =
    vcn_to_lcn-inside 0 25 sample sample-Mapped (omega arith) (omega arith)
      (omega (arith, sample_end))
