-- ===== src/Ntfs/Lookup/Laws.antt =====
-- runlist.c: what ntfs_rl_vcn_to_lcn answers inside a mapped runlist and behind its end.
use rohos_disk_browser.Prelude.{
  ℕ, suc, ◌+◌, ◌-◌, ◌%◌, ◌^◌, ◌≤◌, ◌<◌, ◌≡◌, ◌⊎◌, refl, ◌∙◌, inl, inr, List, [], ◌∷◌, some, true,
  false, ◌==◌, Bool-cases, get_elem?, arith,
}
use rohos_disk_browser.Ntfs.Number.{negative}
use rohos_disk_browser.Ntfs.Runs.{Run, lcn_hole, lcn_enoent, slt}
use rohos_disk_browser.Ntfs.Pairs.Size.{Mapped, end_vcn}
use rohos_disk_browser.Ntfs.Lookup.{lcn_in, lcn_past, scan, scan_from, vcn_to_lcn}

-- The answer for a cluster of the run: its own place, in a hole that there is none.
abbrev pub Answer : Run → ℕ → ℕ → Type 0
Answer r x lcn =
    (r.vcn ≤ x)
    × ((x < r.vcn + r.length)
        × (((r.lcn < 2 ^ 63) × (lcn ≡ (r.lcn + (x - r.vcn)) % 2 ^ 64))
            ⊎ ((r.lcn ≡ lcn_hole) × (lcn ≡ lcn_hole))))

answer_lem :
    (r : Run) (x : ℕ)
    → (r.lcn < 2 ^ 63) ⊎ (r.lcn ≡ lcn_hole)
    → r.vcn < 2 ^ 63
    → x < 2 ^ 63
    → r.vcn ≤ x
    → x < r.vcn + r.length
    → Answer r x (lcn_in r x)
answer_lem r x (inl l) v h a b =
    let sign : negative r.lcn ≡ false = ground (arith, l) in
    (a, (b, inl (l, rw sign (omega (arith, l, v, h, a)))))
answer_lem r x (inr l) v h a b =
    let sign : negative r.lcn ≡ true = ground (arith, l) in (a, (b, inr (l, rw sign l)))

pub end_vcn-stop : (r : Run) (rl : List Run) → r.length ≡ 0 → end_vcn (r ∷ rl) ≡ r.vcn
unfolding end_vcn
end_vcn-stop r rl e = let q : (r.length == 0) ≡ true = ground (arith, e) in rw q

pub end_vcn-more : (r : Run) (rl : List Run) → 0 < r.length → end_vcn (r ∷ rl) ≡ end_vcn rl
unfolding end_vcn
end_vcn-more r rl pos = let q : (r.length == 0) ≡ false = ground (arith, pos) in rw q

pub scan-here :
    (r s : Run) (rl : List Run) (x : ℕ)
    → 0 < r.length
    → slt x s.vcn ≡ true
    → scan (r ∷ s ∷ rl) x ≡ some (lcn_in r x)
unfolding scan
scan-here r s rl x pos e = let q : (r.length == 0) ≡ false = ground (arith, pos) in rw (q, e)

pub scan-later :
    (r s : Run) (rl : List Run) (x : ℕ)
    → 0 < r.length
    → slt x s.vcn ≡ false
    → scan (r ∷ s ∷ rl) x ≡ scan (s ∷ rl) x
unfolding scan
scan-later r s rl x pos e = let q : (r.length == 0) ≡ false = ground (arith, pos) in rw (q, e)

pub scan-stop :
    (r : Run) (rl : List Run) (x : ℕ) → r.length ≡ 0 → scan (r ∷ rl) x ≡ some (lcn_past r)
unfolding scan
scan-stop r [] x e = let q : (r.length == 0) ≡ true = ground (arith, e) in rw q
scan-stop r (s ∷ rl) x e = let q : (r.length == 0) ≡ true = ground (arith, e) in rw q

scan_lem :
    (v x : ℕ) (rl : List Run)
    → Mapped v rl
    → x < 2 ^ 63
    → v ≤ x
    → x < end_vcn rl
    → (i : ℕ) × ((r : Run) × ((lcn : ℕ) × ((get_elem? rl i ≡ some r)
            × ((scan rl x ≡ some lcn) × Answer r x lcn))))
scan_lem v x [] m bound low high = absurd m
scan_lem v x (r ∷ rl) (at, (small, inl e)) bound low high =
    absurd (omega (arith, end_vcn-stop r rl e, at, low, high))
scan_lem v x (r ∷ []) (at, (small, inr (pos, (h, (l, m))))) bound low high = absurd m
scan_lem v x (r ∷ s ∷ rl) (at, (small, inr (pos, (h, (l, m))))) bound low high =
    elim (Bool-cases (slt x s.vcn)) [
      | inl e ↦
          let before : x < v + r.length = ground (arith, e, m.0, m.1.0, bound) in
          (
            0,
            (
              r,
              (
                lcn_in r x,
                (
                  refl,
                  (
                    scan-here r s rl x pos e,
                    answer_lem r x l (omega (arith, at, small)) bound (omega (arith, at, low))
                        (omega (arith, at, before)),
                  ),
                ),
              ),
            ),
          )
      | inr e ↦
          let after : v + r.length ≤ x = ground (arith, e, m.0, m.1.0, bound) in
          let (i, (t, (lcn, (elem, (run, answer))))) =
            scan_lem (v + r.length) x (s ∷ rl) m bound after
              (omega (arith, high, end_vcn-more r (s ∷ rl) pos)) in
          (suc i, (t, (lcn, (elem, (scan-later r s rl x pos e ∙ run, answer)))))
    ]

pub end_vcn_ge : (v : ℕ) (rl : List Run) → Mapped v rl → v ≤ end_vcn rl
end_vcn_ge v [] m = absurd m
end_vcn_ge v (r ∷ rl) (at, (small, inl e)) = omega (arith, end_vcn-stop r rl e, at)
end_vcn_ge v (r ∷ rl) (at, (small, inr (pos, (h, (l, m))))) =
    omega (arith, end_vcn-more r rl pos, end_vcn_ge (v + r.length) rl m)

scan-past :
    (v x : ℕ) (rl : List Run)
    → Mapped v rl
    → x < 2 ^ 63
    → end_vcn rl ≤ x
    → (i : ℕ) × ((t : Run) × ((get_elem? rl i ≡ some t)
          × ((t.length ≡ 0) × (scan rl x ≡ some (lcn_past t)))))
scan-past v x [] m bound high = absurd m
scan-past v x (r ∷ rl) (at, (small, inl e)) bound high = (0, (r, (refl, (e, scan-stop r rl x e))))
scan-past v x (r ∷ []) (at, (small, inr (pos, (h, (l, m))))) bound high = absurd m
scan-past v x (r ∷ s ∷ rl) (at, (small, inr (pos, (h, (l, m))))) bound high =
    let rest_end = end_vcn-more r (s ∷ rl) pos in
    let first = end_vcn_ge (v + r.length) (s ∷ rl) m in
    let later : slt x s.vcn ≡ false = ground (arith, m.0, m.1.0, bound, high, rest_end, first) in
    let (i, (t, (elem, (e, run)))) =
      scan-past (v + r.length) x (s ∷ rl) m bound (omega (arith, high, rest_end)) in
    (suc i, (t, (elem, (e, scan-later r s rl x pos later ∙ run))))

-- In a mapped runlist each cluster from its first vcn to its end belongs to a run of it, and the
-- answer is that cluster's place in the run, or LCN_HOLE where the run is a hole.
pub vcn_to_lcn-inside :
    (v x : ℕ) (rl : List Run)
    → Mapped v rl
    → x < 2 ^ 63
    → v ≤ x
    → x < end_vcn rl
    → (i : ℕ) × ((r : Run) × ((lcn : ℕ) × ((get_elem? rl i ≡ some r)
            × ((vcn_to_lcn (some rl) x ≡ some lcn) × Answer r x lcn))))
unfolding vcn_to_lcn scan_from
vcn_to_lcn-inside v x [] m bound low high = absurd m
vcn_to_lcn-inside v x (r ∷ rl) m bound low high =
    let sign : negative x ≡ false = ground (arith, bound) in
    let from : slt x r.vcn ≡ false = ground (arith, m.0, m.1.0, bound, low) in
    let (i, (t, (lcn, (elem, (run, answer))))) = scan_lem v x (r ∷ rl) m bound low high in
    (i, (t, (lcn, (elem, (rw (sign, from, run), answer)))))

-- Outside of a mapped runlist no cluster of the volume is answered: below its first vcn the answer is
-- LCN_ENOENT, from its end on it is the terminator's mark, or LCN_ENOENT if that is none.
pub vcn_to_lcn-outside :
    (v x : ℕ) (rl : List Run)
    → Mapped v rl
    → x < 2 ^ 63
    → (x < v) ⊎ (end_vcn rl ≤ x)
    → (lcn : ℕ) × ((vcn_to_lcn (some rl) x ≡ some lcn)
        × ((2 ^ 63 ≤ lcn)
            × ((lcn ≡ lcn_enoent)
                ⊎ ((i : ℕ) × ((t : Run) × ((get_elem? rl i ≡ some t)
                        × ((t.length ≡ 0) × (lcn ≡ t.lcn))))))))
unfolding vcn_to_lcn scan_from
vcn_to_lcn-outside v x [] m bound out = absurd m
vcn_to_lcn-outside v x (r ∷ rl) m bound (inl out) =
    let sign : negative x ≡ false = ground (arith, bound) in
    let before : slt x r.vcn ≡ true = ground (arith, m.0, m.1.0, bound, out) in
    (lcn_enoent, (rw (sign, before), (omega arith, inl refl)))
vcn_to_lcn-outside v x (r ∷ rl) m bound (inr out) =
    let sign : negative x ≡ false = ground (arith, bound) in
    let first = end_vcn_ge v (r ∷ rl) m in
    let from : slt x r.vcn ≡ false = ground (arith, m.0, m.1.0, bound, out, first) in
    let (i, (t, (elem, (e, run)))) = scan-past v x (r ∷ rl) m bound out in
    elim (Bool-cases (negative t.lcn)) [
      | inl n ↦
          (t.lcn, (rw (sign, from, run, n), (ground (arith, n), inr (i, (t, (elem, (e, refl)))))))
      | inr n ↦ (lcn_enoent, (rw (sign, from, run, n), (omega arith, inl refl)))
    ]
