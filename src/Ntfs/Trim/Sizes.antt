-- ===== src/Ntfs/Trim/Sizes.antt =====
-- runlist.c: what ntfs_rl_sparse and ntfs_rl_get_compressed_size say of a mapped runlist.
use rohos_disk_browser.Prelude.{
  ℕ, ◌+◌, ◌-◌, ◌*◌, ◌%◌, ◌^◌, ◌≤◌, ◌<◌, ◌≡◌, ◌≢◌, ◌⊎◌, sym, ap, ◌∙◌, inl, inr, List, [], ◌∷◌, some,
  true, false, ltb, ◌==◌, Bool-cases, arith,
}
use mathlib.Core.Option.{some-injective}
use rohos_disk_browser.Ntfs.Number.{negative}
use rohos_disk_browser.Ntfs.Runs.{Run, lcn_hole, add64, sub64}
use rohos_disk_browser.Ntfs.Pairs.Size.{Mapped, end_vcn}
use rohos_disk_browser.Ntfs.Lookup.{lcn_in, scan}
use rohos_disk_browser.Ntfs.Lookup.Laws.{end_vcn-stop, end_vcn-more, end_vcn_ge}
use rohos_disk_browser.Ntfs.Trim.{
  dense, sparse, sparse_from, rl_sparse, allocated_from, rl_get_compressed_size,
}
use rohos_disk_browser.Ntfs.Trim.Truncate.{scan_in, scan_behind}

-- Some cluster of the runlist has no place on the volume.
abbrev pub HasHole : ℕ → List Run → Type 0
HasHole v rl = (z : ℕ) × ((v ≤ z) × ((z < end_vcn rl) × (scan rl z ≡ some lcn_hole)))

abbrev HasNone : ℕ → List Run → Type 0
HasNone v rl = (x : ℕ) → x < 2 ^ 63 → v ≤ x → x < end_vcn rl → scan rl x ≢ some lcn_hole

lcn_in-hole : (r : Run) (x : ℕ) → r.lcn ≡ lcn_hole → lcn_in r x ≡ lcn_hole
lcn_in-hole r x e = let sign : negative r.lcn ≡ true = ground (arith, e) in rw sign e

lcn_in-place : (r : Run) (x : ℕ) → r.lcn < 2 ^ 63 → r.vcn ≤ x → x < 2 ^ 63 → lcn_in r x ≢ lcn_hole
lcn_in-place r x l le bound e =
    let sign : negative r.lcn ≡ false = ground (arith, l) in
    let place : lcn_in r x ≡ add64 r.lcn (sub64 x r.vcn) = rw sign in
    omega (arith, place, e, l, le, bound)

end_vcn_lt : (v : ℕ) (rl : List Run) → Mapped v rl → end_vcn rl < 2 ^ 63
end_vcn_lt v [] m = absurd m
end_vcn_lt v (r ∷ rl) (at, (small, inl e)) = omega (arith, end_vcn-stop r rl e, at, small)
end_vcn_lt v (r ∷ rl) (at, (small, inr (pos, (h, (l, m))))) =
    omega (arith, end_vcn-more r rl pos, end_vcn_lt (v + r.length) rl m)

sparse_lem :
    (v : ℕ) (rl : List Run)
    → Mapped v rl
    → ((sparse_from rl ≡ some sparse) × HasHole v rl)
      ⊎ ((sparse_from rl ≡ some dense) × HasNone v rl)
unfolding sparse_from
sparse_lem v [] m = absurd m
sparse_lem v (r ∷ rl) (at, (small, inl e)) =
    let q : (r.length == 0) ≡ true = ground (arith, e) in
    inr (rw q, (λ x bound low high. absurd (omega (arith, end_vcn-stop r rl e, at, low, high))))
sparse_lem v (r ∷ rl) (at, (small, inr (pos, (h, (inr l, m))))) =
    let q : (r.length == 0) ≡ false = ground (arith, pos) in
    let sign : negative r.lcn ≡ true = ground (arith, l) in
    let hole : (r.lcn == lcn_hole) ≡ true = ground (arith, l) in
    let ends = end_vcn_ge (v + r.length) rl m in
    inl (
      rw (q, sign, hole),
      (
        v,
        (
          omega arith,
          (
            omega (arith, ends, end_vcn-more r rl pos, pos),
            scan_in v v r rl pos m (omega (arith, pos)) ∙ ap some (lcn_in-hole r v l),
          ),
        ),
      ),
    )
sparse_lem v (r ∷ rl) (at, (small, inr (pos, (h, (inl l, m))))) =
    let q : (r.length == 0) ≡ false = ground (arith, pos) in
    let sign : negative r.lcn ≡ false = ground (arith, l) in
    let more = end_vcn-more r rl pos in
    elim (sparse_lem (v + r.length) rl m) [
      | inl found ↦
          let z = found.1.0 in
          inl (
            rw (q, sign) (found.0),
            (
              z,
              (
                omega (arith, found.1.1.0),
                (
                  omega (arith, found.1.1.1.0, more),
                  scan_behind v z r rl pos m
                        (omega (arith, found.1.1.1.0, end_vcn_lt (v + r.length) rl m)) (found.1.1.0)
                      ∙ found.1.1.1.1,
                ),
              ),
            ),
          )
      | inr none_left ↦ inr (
        rw (q, sign) (none_left.0),
        (λ x bound low high. elim (Bool-cases (ltb x (v + r.length))) [
          | inl e ↦ λ s.
              lcn_in-place r x l (omega (arith, at, low)) bound
                (some-injective _ _ (sym (scan_in v x r rl pos m (ground (arith, e))) ∙ s))
          | inr e ↦ λ s.
              none_left.1 x bound (ground (arith, e)) (omega (arith, high, more))
                (sym (scan_behind v x r rl pos m bound (ground (arith, e))) ∙ s)
        ]),
      )
    ]

-- A mapped runlist is reported as sparse just where a lookup in it answers a hole: it is sparse, and
-- some cluster's place is LCN_HOLE, or it is not, and the place of the cluster `x` of it is not.
pub rl_sparse-lookup :
    (v x : ℕ) (rl : List Run)
    → Mapped v rl
    → v ≤ x
    → x < end_vcn rl
    → ((rl_sparse (some rl) ≡ some sparse) × HasHole v rl)
      ⊎ ((rl_sparse (some rl) ≡ some dense) × (scan rl x ≢ some lcn_hole))
unfolding rl_sparse
rl_sparse-lookup v x rl m low high = elim (sparse_lem v rl m) [
  | inl found ↦ inl found
  | inr none_left ↦
      inr (none_left.0, none_left.1 x (omega (arith, high, end_vcn_lt v rl m)) low high)
]

allocated_lem :
    (v ret : ℕ) (rl : List Run)
    → Mapped v rl
    → sparse_from rl ≡ some dense
    → ret + (end_vcn rl - v) < 2 ^ 64
    → allocated_from ret rl ≡ some (some (ret + (end_vcn rl - v)))
unfolding allocated_from sparse_from
allocated_lem v ret [] m d fits = absurd m
allocated_lem v ret (r ∷ rl) (at, (small, inl e)) d fits =
    let q : (r.length == 0) ≡ true = ground (arith, e) in
    let none_left : ret ≡ ret + (end_vcn (r ∷ rl) - v) = omega (arith, end_vcn-stop r rl e, at) in
    rw q (ap (λ n. some (some n)) none_left)
allocated_lem v ret (r ∷ rl) (at, (small, inr (pos, (h, (inr l, m))))) d fits =
    absurd (not_dense r rl pos l d)
  where
    not_dense :
        (r : Run) (rl : List Run)
        → 0 < r.length
        → r.lcn ≡ lcn_hole
        → sparse_from (r ∷ rl) ≡ some dense
        → ⊥
    not_dense r rl pos l d = ground (arith, pos, l, d)
allocated_lem v ret (r ∷ rl) (at, (small, inr (pos, (h, (inl l, m))))) d fits =
    let q : (r.length == 0) ≡ false = ground (arith, pos) in
    let sign : negative r.lcn ≡ false = ground (arith, l) in
    let more = end_vcn-more r rl pos in
    let ends = end_vcn_ge (v + r.length) rl m in
    let step : sparse_from (r ∷ rl) ≡ sparse_from rl = rw (q, sign) in
    let total : add64 ret r.length ≡ ret + r.length = omega (arith, fits, more, ends) in
    let ih =
      allocated_lem (v + r.length) (ret + r.length) rl m (sym step ∙ d)
        (omega (arith, fits, more, ends)) in
    let sum : ret + r.length + (end_vcn rl - (v + r.length)) ≡ ret + (end_vcn (r ∷ rl) - v) =
      omega (arith, more, ends) in
    rw (q, sign, total) (ih ∙ ap (λ n. some (some n)) sum)

-- For a mapped runlist that is not sparse the compressed size is that of all its clusters, from the
-- first vcn to the end, as long as it fits in 64 bits.
pub compressed_size-dense :
    (bits v : ℕ) (rl : List Run)
    → Mapped v rl
    → rl_sparse (some rl) ≡ some dense
    → (end_vcn rl - v) * 2 ^ bits < 2 ^ 64
    → rl_get_compressed_size bits (some rl) ≡ some (some ((end_vcn rl - v) * 2 ^ bits))
unfolding rl_get_compressed_size rl_sparse
compressed_size-dense bits v rl m d fits =
    let sum = allocated_lem v 0 rl m d (omega (arith, end_vcn_lt v rl m)) in
    let zero_sum : 0 + (end_vcn rl - v) ≡ end_vcn rl - v = omega arith in
    let whole : (end_vcn rl - v) * 2 ^ bits % 2 ^ 64 ≡ (end_vcn rl - v) * 2 ^ bits =
      omega (arith, fits) in
    rw (sum, zero_sum) (ap (λ n. some (some n)) whole)
