-- ===== src/Ntfs/Pairs/Tests.antt =====
-- The mapping pairs of the sample runlist.
use rohos_disk_browser.Prelude.{◌≡◌, refl, inl, inr, some, length, List, arith}
use rohos_disk_browser.Ntfs.Runs.{Run}
use rohos_disk_browser.Ntfs.Runs.Sample.{sample}
use rohos_disk_browser.Ntfs.Number.{get_nr_significant_bytes, nr_loop, sar8, sar}
use rohos_disk_browser.Ntfs.Pairs.{
  done, Built, needs, skip, size_from, size_runs, mapping_pairs_build, get_size_for_mapping_pairs,
}
use rohos_disk_browser.Ntfs.Pairs.Size.{Mapped, end_vcn}
use rohos_disk_browser.Ntfs.Pairs.Short.{IsCutAt}
use rohos_disk_browser.Ntfs.Pairs.Whole.{get_size-build, get_size-no_space}

pub sample-Mapped : Mapped 0 sample
sample-Mapped = (
  refl,
  (
    omega arith,
    inr (
      omega arith,
      (
        omega arith,
        (
          inl (omega arith),
          (
            refl,
            (
              omega arith,
              inr (
                omega arith,
                (
                  omega arith,
                  (
                    inr refl,
                    (
                      refl,
                      (
                        omega arith,
                        inr (
                          omega arith,
                          (omega arith, (inl (omega arith), (refl, (omega arith, inl refl)))),
                        ),
                      ),
                    ),
                  ),
                ),
              ),
            ),
          ),
        ),
      ),
    ),
  ),
)

sample_size : get_size_for_mapping_pairs 3 (some sample) 0 ≡ some (needs 11)
unfolding get_size_for_mapping_pairs skip size_from size_runs get_nr_significant_bytes nr_loop sar8
    sar
sample_size = refl

get_size-build_example :
    (b : Built) × ((mapping_pairs_build 3 12 (some sample) 0 ≡ some b)
      × ((b.ret ≡ done) × ((b.stop_vcn ≡ some (end_vcn sample)) × (length b.bytes ≡ 11))))
get_size-build_example = get_size-build 3 12 0 11 sample sample-Mapped sample_size (omega arith)

get_size-no_space_example :
    (b : Built) × (front : List Run) × (r : Run) × (mapping_pairs_build 3 5 (some sample) 0
      ≡ some b)
    × IsCutAt 3 5 0 sample b front r
get_size-no_space_example =
    get_size-no_space 3 5 0 11 sample sample-Mapped sample_size (omega arith) (omega arith)
