-- ===== src/Ntfs/Unpack/Whole.antt =====
-- runlist.c: ntfs_mapping_pairs_build and ntfs_mapping_pairs_decompress_i undo one another.
use rohos_disk_browser.Prelude.{
  ℕ, suc, ◌+◌, ◌-◌, ◌^◌, ◌≤◌, ◌<◌, ◌≡◌, refl, ap, ◌∙◌, inl, inr, List, [], ◌∷◌, ◌++◌, some, true,
  false, not, ◌&&◌, ◌||◌, ltb, ◌==◌, Bool-cases, length, drop-append, arith,
}
use rohos_disk_browser.Ntfs.Number.{negative}
use rohos_disk_browser.Ntfs.Runs.{Run, lcn_enoent, slt, sub64}
use rohos_disk_browser.Ntfs.Pairs.{done, Built, mapping_pairs_build}
use rohos_disk_browser.Ntfs.Pairs.Size.{
  Mapped, runs_bytes, runs_bytes-pos, end_vcn, build_runs-done,
}
use rohos_disk_browser.Ntfs.Pairs.Whole.{build-runs, slt_irrefl}
use rohos_disk_browser.Ntfs.Unpack.{
  Attribute, Volume, unpack_loop, closing, opening, entered, end_at, max_cluster,
  mapping_pairs_decompress,
}
use rohos_disk_browser.Ntfs.Unpack.Entered.{entered-fits}
use rohos_disk_browser.Ntfs.Unpack.Round.{Mapped-lt, runs_of, unpack_loop-runs_bytes}

decompress_lem :
    (vol : Volume) (attr : Attribute) (before mem : List ℕ) (rl : List Run) (v : ℕ) (left : ℕ)
    (end : List Run)
    → attr.non_resident ≡ true
    → attr.lowest_vcn < 2 ^ 63
    → length before ≡ attr.pairs_offset
    → length before ≤ attr.attr_length
    → unpack_loop
        (suc (attr.attr_length - attr.pairs_offset))
        mem
        (attr.attr_length - attr.pairs_offset)
        attr.lowest_vcn
        0
      ≡ some (some (rl, v, left))
    → 0 < left
    → closing vol attr v ≡ some end
    → mapping_pairs_decompress vol attr (before ++ mem)
      ≡ some (inr (entered [] (opening attr.lowest_vcn ++ (rl ++ end))))
unfolding mapping_pairs_decompress
decompress_lem vol attr before mem rl v left end res low ofs inside loop pos close =
    let sign : negative attr.lowest_vcn ≡ false = ground (arith, low) in
    let order : ltb attr.attr_length attr.pairs_offset ≡ false = ground (arith, ofs, inside) in
    let here = drop-append attr.pairs_offset before mem ofs in
    let some_left : (left == 0) ≡ false = ground (arith, pos) in
    let guard : (not attr.non_resident || negative attr.lowest_vcn) ≡ false = rw (res, sign) in
    rw (guard, order, here, loop, some_left, close)

-- The array that is built of a mapped runlist in a destination that is large enough, put behind the
-- header of a non-resident attribute with the runlist's first vcn, is decompressed to the runlist's
-- runs: with the part before the first vcn unmapped, and the closing elements that the vcns of the
-- attribute record ask for, provided that these elements are 65536 at most. What stands behind the
-- array does not matter.
pub decompress-build :
    (major dst_len : ℕ) (rl : List Run) (vol : Volume) (attr : Attribute) (before rest : List ℕ)
    (end : List Run)
    → Mapped attr.lowest_vcn rl
    → length (runs_bytes major 0 rl) ≤ dst_len
    → attr.non_resident ≡ true
    → length before ≡ attr.pairs_offset
    → length before + length (runs_bytes major 0 rl) ≤ attr.attr_length
    → closing vol attr (end_vcn rl) ≡ some end
    → length (opening attr.lowest_vcn ++ (runs_of rl ++ end)) ≤ 65536
    → (b : Built) × ((mapping_pairs_build major dst_len (some rl) attr.lowest_vcn ≡ some b)
        × ((b.ret ≡ done)
            × (mapping_pairs_decompress vol attr (before ++ (b.bytes ++ rest))
                ≡ some (inr (opening attr.lowest_vcn ++ (runs_of rl ++ end))))))
decompress-build major dst_len rl vol attr before rest end m room res ofs fits close few =
    let v = attr.lowest_vcn in
    let bytes = runs_bytes major 0 rl in
    let left = attr.attr_length - attr.pairs_offset in
    let pos = runs_bytes-pos major 0 v rl m in
    (
      record { ret = done; bytes = bytes; stop_vcn = some (end_vcn rl) },
      (
        build-runs major dst_len v rl m ∙ build_runs-done major dst_len 0 v rl m room,
        (
          refl,
          decompress_lem vol attr before (bytes ++ rest) (runs_of rl) (end_vcn rl)
                (suc left - length bytes) end res (Mapped-lt v rl m) ofs (omega (arith, fits))
                (unpack_loop-runs_bytes major v 0 (suc left) left rl rest m (inl (omega arith))
                  (omega (arith, fits, ofs)) (omega (arith, fits, ofs)))
                (omega (arith, fits, ofs, pos)) close
              ∙ ap (λ xs. some (inr xs))
                  (entered-fits [] (opening v ++ (runs_of rl ++ end)) (omega (arith, few))),
        ),
      ),
    )

-- The closing of a base extent that maps all clusters of its attribute.
pub closing_base :
    (vol : Volume) (attr : Attribute) (v : ℕ)
    → attr.lowest_vcn ≡ 0
    → sub64 v 1 ≡ attr.highest_vcn
    → max_cluster vol attr ≡ attr.highest_vcn
    → closing vol attr v ≡ some (end_at v lcn_enoent ∷ [])
unfolding closing
closing_base vol attr v low last all =
    let h = attr.highest_vcn in
    let ends : (not (h == 0) && not (sub64 v 1 == h)) ≡ false = ground (arith, last) in
    let base : (attr.lowest_vcn == 0) ≡ true = ground (arith, low) in
    let more : slt h (max_cluster vol attr) ≡ false = ap (λ k. slt h k) all ∙ slt_irrefl h in
    let less : slt (max_cluster vol attr) h ≡ false = ap (λ k. slt k h) all ∙ slt_irrefl h in
    let guard : not (attr.lowest_vcn == 0) ≡ false = ap not base in
    elim (Bool-cases (h == 0)) [
      | inl z ↦ rw (ends, guard, z)
      | inr z ↦ rw (ends, guard, z, more, less)
    ]
