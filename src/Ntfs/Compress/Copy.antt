-- ===== src/Ntfs/Compress/Copy.antt =====
-- The copy of a phrase: the two ways in which it is done, and the plain loop over its bytes.
use rohos_disk_browser.Prelude.{
  ℕ, zero, suc, ◌+◌, ◌-◌, ◌<◌, ◌≤◌, ◌≡◌, refl, sym, ap, ◌∙◌, List, [], ◌∷◌, ◌++◌, some, inl, inr,
  leb, ◌>>=◌, length, take, drop, get_elem?, length-append, take-append_le, drop-append_le,
  length-drop, arith, Bool-cases, Option-cases,
}
use rohos_disk_browser.Prelude.Store.{get_elem?_in}
use rohos_disk_browser.Ntfs.Compress.{copy_bytes, copy_phrase}
use mathlib.Core.List.{append_assoc, append-nil}
use mathlib.Core.Option.{some-injective}
use native.Mathlib.Nat.{zero-add, add-zero, suc-add}

-- The bytes copied stand behind the bytes that were there.
pub copy_bytes_grows :
    (n back : ℕ) (out : List ℕ)
    → back < length out
    → (more : List ℕ) × (length more ≡ n) × (copy_bytes n back out ≡ some (out ++ more))
unfolding copy_bytes
copy_bytes_grows zero back out h = ([], refl, rw append-nil)
copy_bytes_grows (suc n) back out h =
    let (x, e) = get_elem?_in out back h in
    let (more, len, f) =
      copy_bytes_grows n (back + 1) (out ++ (x ∷ [])) (omega (arith, length-append out (x ∷ []))) in
    (x ∷ more, omega (arith, len), rw e (rw f (rw append_assoc)))

drop_at :
    (back : ℕ) (out : List ℕ) (x : ℕ)
    → get_elem? out back ≡ some x
    → drop back out ≡ x ∷ drop (back + 1) out
drop_at zero [] x e = cc
drop_at (suc back) [] x e = cc
drop_at zero (y ∷ out) x e = ap (λ t. t ∷ out) (some-injective y x e)
drop_at (suc back) (y ∷ out) x e =
    let past : suc (back + 1) ≡ suc back + 1 = omega arith in
    drop_at back out x e ∙ ap (λ k. x ∷ drop k (y ∷ out)) past

-- Bytes that do not overlap.
copy_bytes_apart :
    (n back : ℕ) (out : List ℕ)
    → back + n ≤ length out
    → copy_bytes n back out ≡ some (out ++ take n (drop back out))
unfolding copy_bytes
copy_bytes_apart zero back out h = rw append-nil
copy_bytes_apart (suc n) back out h =
    let (x, e) = get_elem?_in out back (omega arith) in
    let behind : length (drop (back + 1) out) ≡ length out - (back + 1) =
      length-drop (back + 1) out in
    rw (e, drop_at back out x e)
      (copy_bytes_apart n (back + 1) (out ++ (x ∷ [])) (omega (arith, length-append out (x ∷ [])))
        ∙ rw (
          drop-append_le (back + 1) out (x ∷ []) (omega arith),
          take-append_le n (drop (back + 1) out) (x ∷ []) (omega arith),
          append_assoc,
        ))

copy_bytes_add :
    (m n back : ℕ) (out : List ℕ)
    → copy_bytes (m + n) back out ≡ (copy_bytes m back out >>= λ out'. copy_bytes n (back + m) out')
unfolding copy_bytes
copy_bytes_add zero n back out = rw (zero-add, add-zero)
copy_bytes_add (suc m) n back out = rw suc-add (elim (Option-cases (get_elem? out back)) [
  | inl bad ↦ rw bad
  | inr (x, e) ↦
      let past : back + 1 + m ≡ back + suc m = omega arith in
      rw e (
        copy_bytes_add m n (back + 1) (out ++ (x ∷ []))
        ∙ ap (λ k. copy_bytes m (back + 1) (out ++ (x ∷ [])) >>= λ out'. copy_bytes n k out') past)
])

-- The copy of a phrase that begins at a byte of the destination is the plain loop over its bytes,
-- whether or not the phrase overlaps what it is copied to.
pub copy_phrase_lem :
    (len back : ℕ) (out : List ℕ)
    → back < length out
    → copy_phrase len back out ≡ copy_bytes len back out
unfolding copy_phrase
copy_phrase_lem len back out h = elim (Bool-cases (leb len (length out - back))) [
  | inl apart ↦ rw apart (sym (copy_bytes_apart len back out (ground arith)))
  | inr overlap ↦
      let m : ℕ = length out - back in
      let split : len ≡ m + (len - m) = ground arith in
      let first : copy_bytes m back out ≡ some (out ++ take m (drop back out)) =
        copy_bytes_apart m back out (omega arith) in
      rw overlap (
        sym
          (ap (λ k. copy_bytes k back out) split ∙ copy_bytes_add m (len - m) back out ∙ rw first))
]
