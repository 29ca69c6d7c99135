-- ===== src/Ntfs/Unpack/Tests.antt =====
-- The mapping pairs of the sample runlist, read again behind an attribute header of two bytes.
use rohos_disk_browser.Prelude.{
  ◌≡◌, refl, ap, inr, ℕ, List, ◌⊎◌, replicate, [], ◌∷◌, ◌++◌, some, true, length, arith,
}
use rohos_disk_browser.Ntfs.Runs.{Run, lcn_enoent}
use rohos_disk_browser.Ntfs.Runs.Sample.{sample}
use rohos_disk_browser.Ntfs.Number.{sar8, sar}
use rohos_disk_browser.Ntfs.Number.Spell.{spell}
use rohos_disk_browser.Ntfs.Number.Laws.{significant}
use rohos_disk_browser.Ntfs.Pairs.{done, Built, mapping_pairs_build}
use rohos_disk_browser.Ntfs.Pairs.Size.{end_vcn, pair_bytes, runs_bytes}
use rohos_disk_browser.Ntfs.Pairs.Tests.{sample-Mapped}
use rohos_disk_browser.Ntfs.Unpack.{
  Attribute, Volume, UnpackError, end_at, opening, mapping_pairs_decompress,
}
use rohos_disk_browser.Ntfs.Unpack.Total.{mapping_pairs_decompress-returns}
use rohos_disk_browser.Ntfs.Unpack.Round.{runs_of}
use rohos_disk_browser.Ntfs.Unpack.Whole.{decompress-build, closing_base}

abbrev attribute : Attribute
attribute = record {
  non_resident = true;
  lowest_vcn = 0;
  highest_vcn = 27;
  allocated_size = 114688;
  pairs_offset = 2;
  attr_length = 16;
}

abbrev volume : Volume
volume = record { cluster_size = 4096; cluster_size_bits = 12 }

sample_bytes : runs_bytes 3 0 sample ≡ 33 ∷ 16 ∷ 232 ∷ 3 ∷ 1 ∷ 8 ∷ 33 ∷ 4 ∷ 12 ∷ 254 ∷ 0 ∷ []
unfolding runs_bytes pair_bytes significant spell sar8 sar
sample_bytes = refl

sample_end : end_vcn sample ≡ 28
unfolding end_vcn
sample_end = refl

decompress-build_example :
    (b : Built) × ((mapping_pairs_build 3 11 (some sample) 0 ≡ some b)
      × ((b.ret ≡ done)
          × (mapping_pairs_decompress volume attribute ((9 ∷ 9 ∷ []) ++ (b.bytes ++ (77 ∷ [])))
              ≡ some (
                  inr
                    (opening 0 ++ (runs_of sample ++ (end_at (end_vcn sample) lcn_enoent ∷ [])))))))
decompress-build_example =
    decompress-build 3 11 sample volume attribute (9 ∷ 9 ∷ []) (77 ∷ [])
      (end_at (end_vcn sample) lcn_enoent ∷ []) sample-Mapped
      (omega (arith, ap length sample_bytes)) refl refl (omega (arith, ap length sample_bytes))
      (closing_base volume attribute (end_vcn sample) refl (omega (arith, sample_end)) refl)
      (omega arith)

-- A pair of 15 and 15 bytes that the attribute of 16 bytes does not have.
abbrev torn : List ℕ
torn = 9 ∷ 9 ∷ 255 ∷ replicate 20 7

mapping_pairs_decompress-returns_example :
    (r : UnpackError ⊎ List Run) × (mapping_pairs_decompress volume attribute torn ≡ some r)
mapping_pairs_decompress-returns_example =
    mapping_pairs_decompress-returns volume attribute torn (omega arith)
