-- ===== src/Ntfs/Collate/Laws.antt =====
-- collate.c: the order of file names and of binary data.
use rohos_disk_browser.Prelude.{
  ℕ, suc, ◌≡◌, ◌↔◌, refl, sym, ap, ◌∙◌, ◌⊎◌, inl, inr, List, [], ◌∷◌, true, false, ltb, ◌==◌,
  Bool-cases, length, map, min, arith,
}
use rohos_disk_browser.Ntfs.Names.{
  Place, before, same, after, case_sensitive, ignore_case, folded, is_same, names_collate,
  file_values_compare,
}
use rohos_disk_browser.Ntfs.Names.Order.{
  flipped, names_collate-same, names_collate-flipped, names_collate-transitive, same_left,
  same_right, not_before, not_after,
}
use rohos_disk_browser.Ntfs.Collate.{memcmp, collate_binary, collate_names}

map_id : (up xs : List ℕ) → map (folded case_sensitive up) xs ≡ xs
map_id up [] = refl
map_id up (x ∷ xs) = ap (λ l. x ∷ l) (map_id up xs)

-- By its parts: the case aside, and with it.
collate_names-apart :
    (up n1 n2 : List ℕ) (p : Place)
    → names_collate ignore_case up n1 n2 ≡ p
    → is_same p ≡ false
    → collate_names up n1 n2 ≡ p
unfolding collate_names file_values_compare
collate_names-apart up n1 n2 p e h = rw (e, h)

collate_names-alike :
    (up n1 n2 : List ℕ)
    → names_collate ignore_case up n1 n2 ≡ same
    → collate_names up n1 n2 ≡ names_collate case_sensitive up n1 n2
unfolding collate_names file_values_compare
collate_names-alike up n1 n2 e = rw e

Place-cases : (p : Place) → (p ≡ before) ⊎ ((p ≡ same) ⊎ (p ≡ after))
Place-cases before = inl refl
Place-cases same = inr (inl refl)
Place-cases after = inr (inr refl)

-- Two file names match just where they are the same characters, whatever the case table is.
pub collate_names-same : (up n1 n2 : List ℕ) → (collate_names up n1 n2 ≡ same) ↔ (n1 ≡ n2)
collate_names-same up n1 n2 = (
  λ e. elim (Place-cases (names_collate ignore_case up n1 n2)) [
    | inl p ↦ absurd (not_before (sym (collate_names-apart up n1 n2 before p refl) ∙ e))
    | inr (inl p) ↦
        sym (map_id up n1)
        ∙ (names_collate-same case_sensitive up n1 n2).0 (sym (collate_names-alike up n1 n2 p) ∙ e)
        ∙ map_id up n2
    | inr (inr p) ↦ absurd (not_after (sym (collate_names-apart up n1 n2 after p refl) ∙ e))
  ],
  λ e.
      let alike =
        (names_collate-same ignore_case up n1 n2).1 (ap (λ l. map (folded ignore_case up) l) e) in
      collate_names-alike up n1 n2 alike
      ∙ (names_collate-same case_sensitive up n1 n2).1
          (ap (λ l. map (folded case_sensitive up) l) e),
)

-- Exchanging the two file names exchanges `before` and `after`.
pub collate_names-flipped :
    (up n1 n2 : List ℕ) → collate_names up n2 n1 ≡ flipped (collate_names up n1 n2)
collate_names-flipped up n1 n2 =
    let turned = names_collate-flipped ignore_case up n1 n2 in
    elim (Place-cases (names_collate ignore_case up n1 n2)) [
      | inl p ↦
          collate_names-apart up n2 n1 after (turned ∙ ap flipped p) refl
          ∙ sym (ap flipped (collate_names-apart up n1 n2 before p refl))
      | inr (inl p) ↦
          collate_names-alike up n2 n1 (turned ∙ ap flipped p)
          ∙ names_collate-flipped case_sensitive up n1 n2
          ∙ sym (ap flipped (collate_names-alike up n1 n2 p))
      | inr (inr p) ↦
          collate_names-apart up n2 n1 before (turned ∙ ap flipped p) refl
          ∙ sym (ap flipped (collate_names-apart up n1 n2 after p refl))
    ]

-- The order of file names is transitive: a name before another one, which is before a third, is
-- before the third.
pub collate_names-transitive :
    (up n1 n2 n3 : List ℕ)
    → collate_names up n1 n2 ≡ before
    → collate_names up n2 n3 ≡ before
    → collate_names up n1 n3 ≡ before
collate_names-transitive up n1 n2 n3 h k = elim (Place-cases (names_collate ignore_case up n1 n2)) [
  | inl p ↦ elim (Place-cases (names_collate ignore_case up n2 n3)) [
    | inl q ↦
        collate_names-apart up n1 n3 before (names_collate-transitive ignore_case up n1 n2 n3 p q)
          refl
    | inr (inl q) ↦
        collate_names-apart up n1 n3 before (sym (same_right ignore_case up n1 n2 n3 q) ∙ p) refl
    | inr (inr q) ↦ absurd (ground (arith, sym (collate_names-apart up n2 n3 after q refl) ∙ k))
  ]
  | inr (inl p) ↦ elim (Place-cases (names_collate ignore_case up n2 n3)) [
    | inl q ↦ collate_names-apart up n1 n3 before (same_left ignore_case up n1 n2 n3 p ∙ q) refl
    | inr (inl q) ↦
        collate_names-alike up n1 n3 (same_left ignore_case up n1 n2 n3 p ∙ q)
        ∙ names_collate-transitive case_sensitive up n1 n2 n3
            (sym (collate_names-alike up n1 n2 p) ∙ h) (sym (collate_names-alike up n2 n3 q) ∙ k)
    | inr (inr q) ↦ absurd (ground (arith, sym (collate_names-apart up n2 n3 after q refl) ∙ k))
  ]
  | inr (inr p) ↦ absurd (ground (arith, sym (collate_names-apart up n1 n2 after p refl) ∙ h))
]

suc_== : (m n : ℕ) → (suc m == suc n) ≡ (m == n)
suc_== m n = ground arith

ltb-suc : (m n : ℕ) → ltb (suc m) (suc n) ≡ ltb m n
ltb-suc m n = ground arith

-- Binary data is ordered like names of bytes: lexicographically, a shorter datum before the longer
-- ones that it begins.
pub collate_binary-names_collate :
    (data1 data2 : List ℕ)
    → collate_binary data1 data2 ≡ names_collate case_sensitive [] data1 data2
unfolding collate_binary memcmp names_collate
collate_binary-names_collate [] [] = refl
collate_binary-names_collate [] (y ∷ b) =
    let least : min 0 (suc (length b)) ≡ 0 = omega arith in
    let differ : (0 == suc (length b)) ≡ false = ground arith in
    let shorter : ltb 0 (suc (length b)) ≡ true = ground arith in rw (least, differ, shorter)
collate_binary-names_collate (x ∷ a) [] =
    let least : min (suc (length a)) 0 ≡ 0 = omega arith in
    let differ : (suc (length a) == 0) ≡ false = ground arith in
    let longer : ltb (suc (length a)) 0 ≡ false = ground arith in rw (least, differ, longer)
collate_binary-names_collate (x ∷ a) (y ∷ b) =
    let ih = collate_binary-names_collate a b in
    let least : min (suc (length a)) (suc (length b)) ≡ suc (min (length a) (length b)) =
      omega arith in
    let alike : (suc (length a) == suc (length b)) ≡ (length a == length b) =
      suc_== (length a) (length b) in
    let order : ltb (suc (length a)) (suc (length b)) ≡ ltb (length a) (length b) =
      ltb-suc (length a) (length b) in
    elim (Bool-cases (ltb x y)) [
      | inl lt ↦ rw (least, lt)
      | inr lt ↦ elim (Bool-cases (ltb y x)) [
        | inl gt ↦ rw (least, lt, gt)
        | inr gt ↦ rw (least, lt, gt, alike, order) ih
      ]
    ]
