-- ===== src/Ntfs/Names/Order.antt =====
-- unistr.c: ntfs_names_collate is a total order of the names, case aside where it is told so.
use rohos_disk_browser.Prelude.{
  ℕ, ◌<◌, ◌≡◌, ◌↔◌, refl, sym, ap, ap₂, ◌∙◌, ◌⊎◌, inl, inr, List, [], ◌∷◌, true, false, ltb,
  Bool-cases, get_or, drop, map, arith,
}
use rohos_disk_browser.Ntfs.Names.{
  Place, before, same, after, CaseRule, case_sensitive, folded, names_collate,
}

abbrev pub flipped : Place → Place
flipped before = after
flipped same = same
flipped after = before

-- The three cases of a first difference.
pub step_before :
    (ic : CaseRule) (upcase : List ℕ) (c d : ℕ) (xs ys : List ℕ)
    → folded ic upcase c < folded ic upcase d
    → names_collate ic upcase (c ∷ xs) (d ∷ ys) ≡ before
unfolding names_collate
step_before ic upcase c d xs ys h =
    let lt : ltb (folded ic upcase c) (folded ic upcase d) ≡ true = ground (arith, h) in rw lt

pub step_after :
    (ic : CaseRule) (upcase : List ℕ) (c d : ℕ) (xs ys : List ℕ)
    → folded ic upcase d < folded ic upcase c
    → names_collate ic upcase (c ∷ xs) (d ∷ ys) ≡ after
unfolding names_collate
step_after ic upcase c d xs ys h =
    let lt : ltb (folded ic upcase c) (folded ic upcase d) ≡ false = ground (arith, h) in
    let gt : ltb (folded ic upcase d) (folded ic upcase c) ≡ true = ground (arith, h) in rw (lt, gt)

pub step_same :
    (ic : CaseRule) (upcase : List ℕ) (c d : ℕ) (xs ys : List ℕ)
    → folded ic upcase c ≡ folded ic upcase d
    → names_collate ic upcase (c ∷ xs) (d ∷ ys) ≡ names_collate ic upcase xs ys
unfolding names_collate
step_same ic upcase c d xs ys h =
    let lt : ltb (folded ic upcase c) (folded ic upcase d) ≡ false = ground (arith, h) in
    let gt : ltb (folded ic upcase d) (folded ic upcase c) ≡ false = ground (arith, h) in
    rw (lt, gt)

pub three_ways : (m n : ℕ) → (m < n) ⊎ ((m ≡ n) ⊎ (n < m))
three_ways m n = elim (Bool-cases (ltb m n)) [
  | inl e ↦ inl (ground (arith, e))
  | inr e ↦ elim (Bool-cases (ltb n m)) [
    | inl f ↦ inr (inr (ground (arith, f)))
    | inr f ↦ inr (inl (ground (arith, e, f)))
  ]
]

-- Exchanging the two names exchanges `before` and `after`.
pub names_collate-flipped :
    (ic : CaseRule) (upcase : List ℕ) (name1 name2 : List ℕ)
    → names_collate ic upcase name2 name1 ≡ flipped (names_collate ic upcase name1 name2)
unfolding names_collate
names_collate-flipped ic upcase [] [] = refl
names_collate-flipped ic upcase [] (d ∷ ys) = refl
names_collate-flipped ic upcase (c ∷ xs) [] = refl
names_collate-flipped ic upcase (c ∷ xs) (d ∷ ys) =
    let ih = names_collate-flipped ic upcase xs ys in
    elim (three_ways (folded ic upcase c) (folded ic upcase d)) [
      | inl h ↦
          step_after ic upcase d c ys xs h ∙ sym (ap flipped (step_before ic upcase c d xs ys h))
      | inr (inl h) ↦
          step_same ic upcase d c ys xs (sym h)
          ∙ ih
          ∙ sym (ap flipped (step_same ic upcase c d xs ys h))
      | inr (inr h) ↦
          step_before ic upcase d c ys xs h ∙ sym (ap flipped (step_after ic upcase c d xs ys h))
    ]

pub not_before : before ≡ same → ⊥
not_before e = ground (arith, e)

pub not_after : after ≡ same → ⊥
not_after e = ground (arith, e)

-- Two names match just where they are the same characters after the case rule.
pub names_collate-same :
    (ic : CaseRule) (upcase : List ℕ) (name1 name2 : List ℕ)
    → (names_collate ic upcase name1 name2 ≡ same)
      ↔ (map (folded ic upcase) name1 ≡ map (folded ic upcase) name2)
unfolding names_collate
names_collate-same ic upcase [] [] = (λ _. refl, λ _. refl)
names_collate-same ic upcase [] (d ∷ ys) =
    (λ e. absurd (not_before e), λ e. absurd (ground (arith, e)))
names_collate-same ic upcase (c ∷ xs) [] =
    (λ e. absurd (not_after e), λ e. absurd (ground (arith, e)))
names_collate-same ic upcase (c ∷ xs) (d ∷ ys) =
    let ih = names_collate-same ic upcase xs ys in
    (
      λ e. elim (three_ways (folded ic upcase c) (folded ic upcase d)) [
        | inl h ↦ absurd (not_before (sym (step_before ic upcase c d xs ys h) ∙ e))
        | inr (inl h) ↦ ap₂ (λ k l. k ∷ l) h (ih.0 (sym (step_same ic upcase c d xs ys h) ∙ e))
        | inr (inr h) ↦ absurd (not_after (sym (step_after ic upcase c d xs ys h) ∙ e))
      ],
      λ e. step_same ic upcase c d xs ys (ap (λ l. get_or l 0 0) e) ∙ ih.1 (ap (λ l. drop 1 l) e),
    )

-- A name before a name that is not behind a third one is before that one.
pub names_collate-transitive :
    (ic : CaseRule) (upcase : List ℕ) (name1 name2 name3 : List ℕ)
    → names_collate ic upcase name1 name2 ≡ before
    → names_collate ic upcase name2 name3 ≡ before
    → names_collate ic upcase name1 name3 ≡ before
unfolding names_collate
names_collate-transitive ic upcase [] [] zs h k = absurd (not_before (sym h))
names_collate-transitive ic upcase [] (d ∷ ys) [] h k = absurd (ground (arith, k))
names_collate-transitive ic upcase [] (d ∷ ys) (e ∷ zs) h k = refl
names_collate-transitive ic upcase (c ∷ xs) [] zs h k = absurd (ground (arith, h))
names_collate-transitive ic upcase (c ∷ xs) (d ∷ ys) [] h k = absurd (ground (arith, k))
names_collate-transitive ic upcase (c ∷ xs) (d ∷ ys) (e ∷ zs) h k =
    elim (three_ways (folded ic upcase c) (folded ic upcase d)) [
      | inl p ↦ elim (three_ways (folded ic upcase d) (folded ic upcase e)) [
        | inl q ↦ step_before ic upcase c e xs zs (omega (arith, p, q))
        | inr (inl q) ↦ step_before ic upcase c e xs zs (omega (arith, p, q))
        | inr (inr q) ↦ absurd (ground (arith, sym (step_after ic upcase d e ys zs q) ∙ k))
      ]
      | inr (inl p) ↦ elim (three_ways (folded ic upcase d) (folded ic upcase e)) [
        | inl q ↦ step_before ic upcase c e xs zs (omega (arith, p, q))
        | inr (inl q) ↦
            step_same ic upcase c e xs zs (p ∙ q)
            ∙ names_collate-transitive ic upcase xs ys zs
                (sym (step_same ic upcase c d xs ys p) ∙ h)
                (sym (step_same ic upcase d e ys zs q) ∙ k)
        | inr (inr q) ↦ absurd (ground (arith, sym (step_after ic upcase d e ys zs q) ∙ k))
      ]
      | inr (inr p) ↦ absurd (ground (arith, sym (step_after ic upcase c d xs ys p) ∙ h))
    ]

-- The order looks at nothing but the characters after the case rule.
names_collate-folded :
    (ic : CaseRule) (upcase : List ℕ) (name1 name2 : List ℕ)
    → names_collate ic upcase name1 name2
      ≡ names_collate case_sensitive []
          (map (folded ic upcase) name1)
          (map (folded ic upcase) name2)
unfolding names_collate
names_collate-folded ic upcase [] [] = refl
names_collate-folded ic upcase [] (d ∷ ys) = refl
names_collate-folded ic upcase (c ∷ xs) [] = refl
names_collate-folded ic upcase (c ∷ xs) (d ∷ ys) = rw (names_collate-folded ic upcase xs ys)

-- Names that match stand in the same place to all others.
pub same_left :
    (ic : CaseRule) (upcase : List ℕ) (name1 name2 name3 : List ℕ)
    → names_collate ic upcase name1 name2 ≡ same
    → names_collate ic upcase name1 name3 ≡ names_collate ic upcase name2 name3
same_left ic upcase name1 name2 name3 h =
    names_collate-folded ic upcase name1 name3
    ∙ ap (λ l. names_collate case_sensitive [] l (map (folded ic upcase) name3))
        ((names_collate-same ic upcase name1 name2).0 h)
    ∙ sym (names_collate-folded ic upcase name2 name3)

pub same_right :
    (ic : CaseRule) (upcase : List ℕ) (name1 name2 name3 : List ℕ)
    → names_collate ic upcase name2 name3 ≡ same
    → names_collate ic upcase name1 name2 ≡ names_collate ic upcase name1 name3
same_right ic upcase name1 name2 name3 h =
    names_collate-folded ic upcase name1 name2
    ∙ ap (λ l. names_collate case_sensitive [] (map (folded ic upcase) name1) l)
        ((names_collate-same ic upcase name2 name3).0 h)
    ∙ sym (names_collate-folded ic upcase name1 name3)
