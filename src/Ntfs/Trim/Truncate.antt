-- ===== src/Ntfs/Trim/Truncate.antt =====
-- runlist.c: ntfs_rl_truncate ends a mapped runlist at the given vcn and keeps what is before it.
use rohos_disk_browser.Prelude.{
  ℕ, ◌+◌, ◌-◌, ◌^◌, ◌≤◌, ◌<◌, ◌≡◌, ◌⊎◌, refl, sym, ◌∙◌, inl, inr, List, [], ◌∷◌, some, false, ltb,
  ◌==◌, Bool-cases, arith,
}
use rohos_disk_browser.Ntfs.Runs.{Run, lcn_hole, lcn_enoent, slt, sub64}
use rohos_disk_browser.Ntfs.Pairs.Size.{Mapped, end_vcn}
use rohos_disk_browser.Ntfs.Lookup.{lcn_in, scan}
use rohos_disk_browser.Ntfs.Lookup.Laws.{end_vcn-stop, end_vcn-more, scan-here, scan-later}
use rohos_disk_browser.Ntfs.Trim.{truncated, cut_run, truncate_from, truncate}

pub scan_in :
    (v y : ℕ) (r : Run) (t : List Run)
    → 0 < r.length
    → Mapped (v + r.length) t
    → y < v + r.length
    → scan (r ∷ t) y ≡ some (lcn_in r y)
scan_in v y r [] pos m lt = absurd m
scan_in v y r (s ∷ rl) pos m lt = scan-here r s rl y pos (ground (arith, m.0, m.1.0, lt))

pub scan_behind :
    (v y : ℕ) (r : Run) (t : List Run)
    → 0 < r.length
    → Mapped (v + r.length) t
    → y < 2 ^ 63
    → v + r.length ≤ y
    → scan (r ∷ t) y ≡ scan t y
scan_behind v y r [] pos m bound le = absurd m
scan_behind v y r (s ∷ rl) pos m bound le =
    scan-later r s rl y pos (ground (arith, m.0, m.1.0, bound, le))

-- The runlist ends at `x`, and below it nothing has changed.
abbrev pub CutAt : ℕ → ℕ → List Run → List Run → Type 0
CutAt v x rl rl' =
    Mapped v rl' × ((end_vcn rl' ≡ x) × ((y : ℕ) → v ≤ y → y < x → scan rl' y ≡ scan rl y))

cut_run_lem :
    (v x : ℕ) (r s : Run) (rl : List Run)
    → r.vcn ≡ v
    → v < 2 ^ 63
    → 0 < r.length
    → r.length < 2 ^ 63
    → (r.lcn < 2 ^ 63) ⊎ (r.lcn ≡ lcn_hole)
    → Mapped (v + r.length) (s ∷ rl)
    → v ≤ x
    → x < v + r.length
    → (rl' : List Run) × ((cut_run x r (s ∷ rl) ≡ some (truncated rl'))
        × CutAt v x (r ∷ s ∷ rl) rl')
unfolding cut_run
cut_run_lem v x r s rl at small pos h l m low high =
    let n = sub64 x r.vcn in
    let size : n ≡ x - v = omega (arith, at, small, low, high, m.1.0, m.0) in
    elim (Bool-cases (n == 0)) [
      | inl e ↦
          let here : x ≡ v = ground (arith, e, size, low) in
          let empty : n ≡ 0 = ground (arith, e) in
          let r' = record r { length = n; lcn = lcn_enoent } in
          (
            r' ∷ s ∷ rl,
            (
              rw e,
              (
                (at, (small, inl empty)),
                (
                  end_vcn-stop r' (s ∷ rl) empty ∙ at ∙ sym here,
                  (λ y a b. absurd (omega (arith, a, b, here))),
                ),
              ),
            ),
          )
      | inr e ↦
          let some_left : 0 < n = ground (arith, e) in
          let r' = record r { length = n } in
          let s' = record s { vcn = x; length = 0; lcn = lcn_enoent } in
          let tail : Mapped (v + n) (s' ∷ rl) =
            (omega (arith, size, low), (omega (arith, size, low, high, m.1.0), inl refl)) in
          (
            r' ∷ s' ∷ rl,
            (
              rw e,
              (
                (at, (small, inr (some_left, (omega (arith, size, high, h), (l, tail))))),
                (
                  end_vcn-more r' (s' ∷ rl) some_left ∙ end_vcn-stop s' rl refl,
                  (λ y a b.
                      scan_in v y r' (s' ∷ rl) some_left tail (omega (arith, size, b, low))
                      ∙ sym (scan_in v y r (s ∷ rl) pos m (omega (arith, b, high)))),
                ),
              ),
            ),
          )
    ]

truncate_from_lem :
    (v x : ℕ) (rl : List Run)
    → Mapped v rl
    → x < 2 ^ 63
    → v ≤ x
    → x < end_vcn rl
    → (rl' : List Run) × ((truncate_from x rl ≡ some (truncated rl')) × CutAt v x rl rl')
unfolding truncate_from
truncate_from_lem v x [] m bound low high = absurd m
truncate_from_lem v x (r ∷ rl) (at, (small, inl e)) bound low high =
    absurd (omega (arith, end_vcn-stop r rl e, at, low, high))
truncate_from_lem v x (r ∷ []) (at, (small, inr (pos, (h, (l, m))))) bound low high = absurd m
truncate_from_lem v x (r ∷ s ∷ rl) (at, (small, inr (pos, (h, (l, m))))) bound low high =
    let q : (r.length == 0) ≡ false = ground (arith, pos) in
    elim (Bool-cases (slt x s.vcn)) [
      | inl e ↦
          let before : x < v + r.length = ground (arith, e, m.0, m.1.0, bound) in
          let (rl', (run, cut)) = cut_run_lem v x r s rl at small pos h l m low before in
          (rl', (rw (q, e, run), cut))
      | inr e ↦
          let after : v + r.length ≤ x = ground (arith, e, m.0, m.1.0, bound) in
          let (t, (run, (mapped, (ends, same)))) =
            truncate_from_lem (v + r.length) x (s ∷ rl) m bound after
              (omega (arith, high, end_vcn-more r (s ∷ rl) pos)) in
          (
            r ∷ t,
            (
              rw (q, e, run),
              (
                (at, (small, inr (pos, (h, (l, mapped))))),
                (
                  end_vcn-more r t pos ∙ ends,
                  (λ y a b. kept v x y r s rl t pos m mapped bound b same),
                ),
              ),
            ),
          )
    ]
  where
    kept :
        (v x y : ℕ) (r s : Run) (rl t : List Run)
        → 0 < r.length
        → Mapped (v + r.length) (s ∷ rl)
        → Mapped (v + r.length) t
        → x < 2 ^ 63
        → y < x
        → ((z : ℕ) → v + r.length ≤ z → z < x → scan t z ≡ scan (s ∷ rl) z)
        → scan (r ∷ t) y ≡ scan (r ∷ s ∷ rl) y
    kept v x y r s rl t pos m mapped bound b same = elim (Bool-cases (ltb y (v + r.length))) [
      | inl e ↦
          let lt : y < v + r.length = ground (arith, e) in
          scan_in v y r t pos mapped lt ∙ sym (scan_in v y r (s ∷ rl) pos m lt)
      | inr e ↦
          let le : v + r.length ≤ y = ground (arith, e) in
          let small : y < 2 ^ 63 = omega (arith, b, bound) in
          scan_behind v y r t pos mapped small le
          ∙ same y le b
          ∙ sym (scan_behind v y r (s ∷ rl) pos m small le)
    ]

-- A mapped runlist truncated at a vcn of its own is a mapped runlist that ends at that vcn, and the
-- clusters before it are where they were.
pub truncate-lookup :
    (v x y : ℕ) (rl : List Run)
    → Mapped v rl
    → x < 2 ^ 63
    → v ≤ x
    → x < end_vcn rl
    → v ≤ y
    → y < x
    → (rl' : List Run) × ((truncate (some rl) x ≡ some (truncated rl'))
        × (Mapped v rl' × ((end_vcn rl' ≡ x) × (scan rl' y ≡ scan rl y))))
unfolding truncate
truncate-lookup v x y [] m bound low high a b = absurd m
truncate-lookup v x y (r ∷ rl) m bound low high a b =
    let from : slt x r.vcn ≡ false = ground (arith, m.0, m.1.0, bound, low) in
    let (rl', (run, (mapped, (ends, same)))) = truncate_from_lem v x (r ∷ rl) m bound low high in
    (rl', (rw from run, (mapped, (ends, same y a b))))
