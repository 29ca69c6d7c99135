-- ===== src/Ntfs/Boot/Laws.antt =====
-- bootsect.c: what a volume's geometry satisfies after a boot sector was checked and parsed.
use rohos_disk_browser.Prelude.{
  ℕ, ◌+◌, ◌-◌, ◌*◌, ◌%◌, ◌^◌, ◌≤◌, ◌<◌, ◌≡◌, refl, sym, ap, ◌∙◌, inl, inr, Option, none, some, Bool,
  true, false, not, ◌||◌, if◌then◌else◌, ltb, leb, ◌==◌, Bool-cases, arith,
}
use native.Mathlib.Nat.{mul-pos}
use mathlib.Core.Path.{subst}
use mathlib.Core.Option.{some-injective}
use rohos_disk_browser.Ntfs.Boot.Powers.{
  passes_power, one_of_powers_lem, pow_sum, pow_ffs, cofactor, pow_pos, pow_le, below_power,
}
use rohos_disk_browser.Ntfs.Runs.{slt, sub64}
use rohos_disk_browser.Ntfs.Unpack.{sar_bits}
use rohos_disk_browser.Ntfs.Boot.{
  BootSector, Geometry, ffs, one_of_powers, record_clusters_ok, reserved_ok, boot_sector_is_ntfs,
  record_size, not_power, bs_cluster_size, bs_record_size, geometry, parse_sizes, boot_sector_parse,
}

-- What the check of a boot sector has seen of it.
abbrev pub Checked : BootSector → Type 0
Checked b =
    (256 ≤ b.bytes_per_sector)
    × ((b.bytes_per_sector ≤ 4096)
        × ((b.bytes_per_sector * b.sectors_per_cluster ≤ 65536)
            × ((one_of_powers 7 b.sectors_per_cluster ≡ true)
                × ((record_clusters_ok b.clusters_per_mft_record ≡ true)
                    × (record_clusters_ok b.clusters_per_index_record ≡ true)))))

pub checked_lem : (b : BootSector) → boot_sector_is_ntfs b ≡ true → Checked b
unfolding boot_sector_is_ntfs
checked_lem b h =
    let (g1, h1) = guarded (not (b.oem_id == 2314885531676595278)) _ h in
    let (g2, h2) = guarded (ltb b.bytes_per_sector 256 || ltb 4096 b.bytes_per_sector) _ h1 in
    let (g3, h3) = guarded (not (one_of_powers 7 b.sectors_per_cluster)) _ h2 in
    let (g4, h4) = guarded (ltb 65536 (b.bytes_per_sector * b.sectors_per_cluster)) _ h3 in
    let (g5, h5) = guarded (not (reserved_ok b)) _ h4 in
    let (g6, h6) = guarded (not (record_clusters_ok b.clusters_per_mft_record)) _ h5 in
    (
      ground (arith, g2),
      (
        ground (arith, g2),
        (
          ground (arith, g4),
          (
            not_false (one_of_powers 7 b.sectors_per_cluster) g3,
            (not_false (record_clusters_ok b.clusters_per_mft_record) g6, h6),
          ),
        ),
      ),
    )
  where
    guarded : (c rest : Bool) → (if c then false else rest) ≡ true → (c ≡ false) × (rest ≡ true)
    guarded true rest h = absurd (ground (arith, h))
    guarded false rest h = (refl, h)

    not_false : (c : Bool) → not c ≡ false → c ≡ true
    not_false true h = refl
    not_false false h = absurd (ground (arith, h))

-- A record size is a power of two, where the cluster size is one.
record_size_lem :
    (c bits : ℕ)
    → record_clusters_ok c ≡ true
    → c < 256
    → bits ≤ 16
    → (k : ℕ) × ((k < 32) × (record_size c bits ≡ 2 ^ k))
record_size_lem c bits ok byte small = elim (Bool-cases (leb 128 c)) [
  | inl neg ↦
      let range : (225 ≤ c) × (c ≤ 247) = ground (arith, ok, neg) in
      let low = pow_le (256 - c) 31 (omega (arith, range)) in
      (256 - c, (omega (arith, range), rw neg (omega (arith, low))))
  | inr pos ↦
      let listed : one_of_powers 6 c ≡ true = ground (arith, ok, pos) in
      let (j, (le, p)) = one_of_powers_lem 6 c listed in
      let whole : c * 2 ^ bits ≡ 2 ^ (j + bits) = ap (λ t. t * 2 ^ bits) p ∙ pow_sum j bits in
      let low = pow_le (j + bits) 31 (omega (arith, le, small)) in
      (j + bits, (omega (arith, le, small), rw (pos, whole) (omega (arith, low))))
]

-- The sizes of a volume are powers of two, with the logarithms that are stored beside them.
abbrev pub IsGeometry : BootSector → Geometry → Type 0
IsGeometry bs g =
    (g.sector_size ≡ 2 ^ g.sector_size_bits)
    × ((g.cluster_size ≡ 2 ^ g.cluster_size_bits)
        × ((g.cluster_size ≡ bs.sectors_per_cluster * g.sector_size)
            × ((g.mft_record_size ≡ 2 ^ g.mft_record_size_bits)
                × ((g.indx_record_size ≡ 2 ^ g.indx_record_size_bits)
                    × ((slt g.nr_clusters g.mft_lcn ≡ false)
                        × (slt g.nr_clusters g.mftmirr_lcn ≡ false))))))

passed :
    {A : Type 0} (c : Bool) (m : Option A) (a : A)
    → (if c then none else m) ≡ some a
    → (c ≡ false) × (m ≡ some a)
passed true m a h = absurd (ground (arith, h))
passed false m a h = (refl, h)

-- What the parser's checks leave.
parse_parts :
    (seek : ℕ → Bool) (bs : BootSector) (g : Geometry)
    → boot_sector_parse seek bs ≡ some g
    → (nr : ℕ) × ((slt nr bs.mft_lcn ≡ false)
        × ((slt nr bs.mftmirr_lcn ≡ false)
            × ((not_power (bs_cluster_size bs) ≡ false) × (some (geometry bs nr) ≡ some g))))
unfolding boot_sector_parse parse_sizes
parse_parts seek bs g h =
    let nr = sar_bits bs.number_of_sectors (ffs bs.sectors_per_cluster - 1) in
    let (g1, h1) = passed (not_power bs.sectors_per_cluster) _ g h in
    let (g2, h2) = passed (bs.number_of_sectors == 0) _ g h1 in
    let (g3, h3) =
      passed
        (not (seek (sub64 bs.number_of_sectors 1 * 2 ^ (ffs bs.bytes_per_sector - 1) % 2 ^ 64))) _ g
        h2 in
    let (g4, h4) = passed (slt nr bs.mft_lcn || slt nr bs.mftmirr_lcn) _ g h3 in
    let (g5, h5) = passed (not_power (bs_cluster_size bs)) _ g h4 in
    let (g6, h6) = passed (not_power (bs_record_size bs bs.clusters_per_mft_record)) _ g h5 in
    let both = neither (slt nr bs.mft_lcn) (slt nr bs.mftmirr_lcn) g4 in
    (nr, (both.0, (both.1, (g5, h6))))
  where
    neither : (a b : Bool) → (a || b) ≡ false → (a ≡ false) × (b ≡ false)
    neither true b h = absurd (ground (arith, h))
    neither false b h = (refl, h)

-- A boot sector that passes the check and is parsed gives the volume sizes that are powers of two,
-- each with its logarithm beside it, a cluster size that is its sectors' size, and places of $MFT and
-- $MFTMirr that are not past the number of clusters. The two signed bytes are bytes.
pub parse-geometry :
    (seek : ℕ → Bool) (bs : BootSector) (g : Geometry)
    → boot_sector_is_ntfs bs ≡ true
    → bs.clusters_per_mft_record < 256
    → bs.clusters_per_index_record < 256
    → boot_sector_parse seek bs ≡ some g
    → IsGeometry bs g
parse-geometry seek bs g ok byte1 byte2 h =
    let (low, (high, (fits, (spc, (rec1, rec2))))) = checked_lem bs ok in
    let (nr, (mft, (mirr, (power, eq)))) = parse_parts seek bs g h in
    let (k, (le, p)) = one_of_powers_lem 7 bs.sectors_per_cluster spc in
    let pos : 0 < bs_cluster_size bs = mul-pos (omega (arith, p, pow_pos k)) (omega (arith, low)) in
    let small : bs_cluster_size bs ≤ 65536 =
      swapped bs.bytes_per_sector bs.sectors_per_cluster fits in
    let cluster = passes_power (bs_cluster_size bs) pos (omega (arith, small)) power in
    let bits : ffs (bs_cluster_size bs) - 1 < 17 =
      below_power (ffs (bs_cluster_size bs) - 1) 17 (omega (arith, cluster, small)) in
    let (j, q) =
      cofactor k (ffs (bs_cluster_size bs) - 1) bs.bytes_per_sector
        (sym (ap (λ t. t * bs.bytes_per_sector) p) ∙ cluster) in
    let (m, (m32, e1)) =
      record_size_lem bs.clusters_per_mft_record (ffs (bs_cluster_size bs) - 1) rec1 byte1
        (omega (arith, bits)) in
    let (i, (i32, e2)) =
      record_size_lem bs.clusters_per_index_record (ffs (bs_cluster_size bs) - 1) rec2 byte2
        (omega (arith, bits)) in
    subst (IsGeometry bs) (some-injective _ _ eq) (
      pow_ffs bs.bytes_per_sector j q (omega (arith, high)),
      (
        cluster,
        (
          refl,
          (
            pow_ffs (bs_record_size bs bs.clusters_per_mft_record) m e1
                (omega (arith, pow_le m 31 (omega (arith, m32)), e1)),
            (
              pow_ffs (bs_record_size bs bs.clusters_per_index_record) i e2
                  (omega (arith, pow_le i 31 (omega (arith, i32)), e2)),
              (mft, mirr),
            ),
          ),
        ),
      ),
    )
  where
    swapped : (a b : ℕ) → a * b ≤ 65536 → b * a ≤ 65536
    swapped a b h = omega (arith, h)
