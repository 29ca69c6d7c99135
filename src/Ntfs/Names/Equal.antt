-- ===== src/Ntfs/Names/Equal.antt =====
-- unistr.c: ntfs_names_are_equal, which compares up to a NUL, against ntfs_names_collate.
use rohos_disk_browser.Prelude.{
  ℕ, suc, ◌<◌, ◌≡◌, refl, sym, ap, ◌∙◌, inl, inr, List, [], ◌∷◌, some, true, false, ltb, ◌==◌,
  Bool-cases, length, map, arith,
}
use rohos_disk_browser.Ntfs.Names.{
  Place, before, same, after, CaseRule, folded, is_same, names_collate, ucsncmp, names_are_equal,
}
use rohos_disk_browser.Ntfs.Names.Order.{names_collate-same}

-- No character of the name becomes NUL by the case rule.
abbrev pub HasNoNul : CaseRule → List ℕ → List ℕ → Type 0
HasNoNul ic upcase [] = Unit {0}
HasNoNul ic upcase (c ∷ name) = (0 < folded ic upcase c) × HasNoNul ic upcase name

ucsncmp-collate :
    (ic : CaseRule) (upcase name1 name2 : List ℕ)
    → HasNoNul ic upcase name1
    → length name1 ≡ length name2
    → ucsncmp ic upcase (length name1) name1 name2 ≡ some (names_collate ic upcase name1 name2)
unfolding ucsncmp names_collate
ucsncmp-collate ic upcase [] [] nul e = refl
ucsncmp-collate ic upcase [] (d ∷ ys) nul e = absurd (omega (arith, e))
ucsncmp-collate ic upcase (c ∷ xs) [] nul e = absurd (omega (arith, e))
ucsncmp-collate ic upcase (c ∷ xs) (d ∷ ys) nul e =
    let ih = ucsncmp-collate ic upcase xs ys (nul.1) (omega (arith, e)) in
    let c1 = folded ic upcase c in
    let c2 = folded ic upcase d in
    let some_char : (c1 == 0) ≡ false = ground (arith, nul.0) in
    elim (Bool-cases (ltb c1 c2)) [
      | inl lt ↦ rw lt
      | inr lt ↦ elim (Bool-cases (ltb c2 c1)) [
        | inl gt ↦ rw (lt, gt)
        | inr gt ↦ rw (lt, gt, some_char, ih)
      ]
    ]

length-map : (f : ℕ → ℕ) (xs : List ℕ) → length (map f xs) ≡ length xs
length-map f [] = refl
length-map f (x ∷ xs) = ap suc (length-map f xs)

-- Names that match have the same length.
same-length :
    (ic : CaseRule) (upcase name1 name2 : List ℕ)
    → names_collate ic upcase name1 name2 ≡ same
    → length name1 ≡ length name2
same-length ic upcase name1 name2 e =
    sym (length-map (folded ic upcase) name1)
    ∙ ap length ((names_collate-same ic upcase name1 name2).0 e)
    ∙ length-map (folded ic upcase) name2

pub is_same_iff : (p : Place) → is_same p ≡ true → p ≡ same
is_same_iff before e = absurd (ground (arith, e))
is_same_iff same e = refl
is_same_iff after e = absurd (ground (arith, e))

-- The two routines agree on which names are equal, where no character of the first one becomes NUL.
pub names_are_equal_lem :
    (ic : CaseRule) (upcase name1 name2 : List ℕ)
    → HasNoNul ic upcase name1
    → names_are_equal ic upcase name1 name2 ≡ some (is_same (names_collate ic upcase name1 name2))
unfolding names_are_equal names_collate
names_are_equal_lem ic upcase name1 name2 nul = elim (Bool-cases (length name1 == length name2)) [
  | inl e ↦
      let sizes : length name1 ≡ length name2 = ground (arith, e) in
      elim (Bool-cases (length name1 == 0)) [
        | inl z ↦ rw (e, z) (empty name1 name2 sizes (ground (arith, z)))
        | inr z ↦ rw (e, z, ucsncmp-collate ic upcase name1 name2 nul sizes)
      ]
  | inr e ↦ elim (Bool-cases (is_same (names_collate ic upcase name1 name2))) [
    | inl s ↦
        let sizes = same-length ic upcase name1 name2 (is_same_iff _ s) in
        absurd (ground (arith, e, sizes))
    | inr s ↦ rw (e, s)
  ]
]
  where
    empty :
        (name1 name2 : List ℕ)
        → length name1 ≡ length name2
        → length name1 ≡ 0
        → some true ≡ some (is_same (names_collate ic upcase name1 name2))
    empty [] [] e z = refl
    empty [] (d ∷ ys) e z = absurd (omega (arith, e))
    empty (c ∷ xs) ys e z = absurd (omega (arith, z))
