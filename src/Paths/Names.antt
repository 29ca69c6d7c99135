-- ===== src/Paths/Names.antt =====
-- parse.cpp: the tokens of a path are its names, the parts between separators that are not empty.

use mathlib.Core.Path.{subst}
use rohos_disk_browser.Prelude.{
  ==_iff, ℕ, ◌≤◌, ◌<◌, ◌≡◌, ◌⊎◌, inl, inr, refl, sym, ap, ◌∙◌, Bool, true, false, ◌&&◌, ◌==◌, ltb,
  if◌then◌else◌, Bool-cases, Option, none, some, List, [], ◌∷◌, length, arith,
}
use rohos_disk_browser.Paths.{
  path_sep, max_path, squeeze, trim_end, make_right_path, put_character, split, add_parts,
  add_tokens, strpath_to_token,
}

-- The parts that are not empty.
abbrev pub keep_name : List ℕ → List (List ℕ) → List (List ℕ)
keep_name [] names = names
keep_name (c ∷ cs) names = (c ∷ cs) ∷ names

unfoldable pub names : List (List ℕ) → List (List ℕ)
names [] = []
names (part ∷ parts) = keep_name part (names parts)

squeeze_twice : (cs : List ℕ) → squeeze path_sep (path_sep ∷ cs) ≡ squeeze path_sep cs
unfolding squeeze
squeeze_twice cs = refl

squeeze_next :
    (ls c : ℕ) (cs : List ℕ)
    → ((ls == c) && (ls == path_sep)) ≡ false
    → squeeze ls (c ∷ cs) ≡ c ∷ squeeze c cs
unfolding squeeze
squeeze_next ls c cs e = rw (e, squeeze)

length-squeeze : (ls : ℕ) (cs : List ℕ) → length (squeeze ls cs) ≤ length cs
unfolding squeeze
length-squeeze ls [] = omega arith
length-squeeze ls (c ∷ cs) = elim (Bool-cases ((ls == c) && (ls == path_sep))) [
  | inl skip ↦ rw (skip, squeeze) (omega (arith, length-squeeze ls cs))
  | inr copy ↦ rw (copy, squeeze) (omega (arith, length-squeeze c cs))
]

put-path_sep : (x : List ℕ × List (List ℕ)) → put_character path_sep x ≡ ([], add_parts x)
unfolding put_character
put-path_sep (part, parts) = refl

put_other :
    (c : ℕ) (part : List ℕ) (parts : List (List ℕ))
    → (c == path_sep) ≡ false
    → put_character c (part, parts) ≡ (c ∷ part, parts)
unfolding put_character
put_other c part parts e = rw (e, put_character)

flipped : (c : ℕ) → (c == path_sep) ≡ false → ((path_sep == c) && (path_sep == path_sep)) ≡ false
flipped c e = ground arith

inside : (x c : ℕ) → (x == path_sep) ≡ false → ((x == c) && (x == path_sep)) ≡ false
inside x c e = ground arith

split_sep : (cs : List ℕ) → split (path_sep ∷ cs) ≡ ([], add_parts (split cs))
unfolding split
split_sep cs = put-path_sep (split cs)

split_other :
    (c : ℕ) (cs : List ℕ)
    → (c == path_sep) ≡ false
    → split (c ∷ cs) ≡ (c ∷ (split cs).0, (split cs).1)
unfolding split
split_other c cs e = put_other c (split cs).0 (split cs).1 e

split_one : (c : ℕ) → (c == path_sep) ≡ false → split (trim_end c []) ≡ (c ∷ [], [])
unfolding trim_end split
split_one c e = rw e (put_other c [] [] e)

names_sep : (cs : List ℕ) → names (add_parts (split (path_sep ∷ cs))) ≡ names (add_parts (split cs))
unfolding names
names_sep cs = ap (λ x. names (add_parts x)) (split_sep cs)

names_other :
    (c : ℕ) (cs : List ℕ)
    → (c == path_sep) ≡ false
    → names (add_parts (split (c ∷ cs))) ≡ (c ∷ (split cs).0) ∷ names (split cs).1
unfolding names
names_other c cs e = ap (λ x. names (add_parts x)) (split_other c cs e)

-- What is left of a path from the start of a name on: nothing, or a path with its names.
AtStart : List ℕ → Type 0
AtStart cs =
    ((squeeze path_sep cs ≡ []) × (names (add_parts (split cs)) ≡ []))
    ⊎ ((d : ℕ) × (ds : List ℕ) × (squeeze path_sep cs ≡ d ∷ ds)
        × ((d == path_sep) ≡ false)
        × (add_parts (split (trim_end d ds)) ≡ names (add_parts (split cs))))

-- What is left of it behind a character of a name.
InName : List ℕ → Type 0
InName cs =
    (x : ℕ)
    → (x == path_sep) ≡ false
    → split (trim_end x (squeeze x cs)) ≡ (x ∷ (split cs).0, names (split cs).1)

behind_sep :
    (cs : List ℕ) (x : ℕ) (e : (x == path_sep) ≡ false)
    → AtStart cs
    → split (trim_end x (path_sep ∷ squeeze path_sep cs)) ≡ (x ∷ [], names (add_parts (split cs)))
unfolding AtStart trim_end split
behind_sep cs x e (inl (empty, none_left)) =
    ap (λ s. split (x ∷ trim_end path_sep s)) empty
    ∙ put_other x [] [] e
    ∙ ap (λ ns. (x ∷ [], ns)) (sym none_left)
behind_sep cs x e (inr (d, ds, more, ne, parts)) =
    ap (λ s. split (x ∷ trim_end path_sep s)) more
    ∙ ap (put_character x) (put-path_sep (split (trim_end d ds)))
    ∙ put_other x [] (add_parts (split (trim_end d ds))) e
    ∙ ap (λ ns. (x ∷ [], ns)) parts

at_sep : (cs : List ℕ) → AtStart cs → AtStart (path_sep ∷ cs) × InName (path_sep ∷ cs)
unfolding AtStart InName
at_sep cs start = (
  elim start [
    | inl (empty, none_left) ↦ inl (squeeze_twice cs ∙ empty, names_sep cs ∙ none_left)
    | inr (d, ds, more, ne, parts) ↦
        inr (d, ds, squeeze_twice cs ∙ more, ne, parts ∙ sym (names_sep cs))
  ],
  λ x e.
      ap (λ s. split (trim_end x s)) (squeeze_next x path_sep cs (inside x path_sep e))
      ∙ behind_sep cs x e start
      ∙ sym (ap (λ p. (x ∷ p.0, names p.1)) (split_sep cs)),
)

at_other :
    (c : ℕ) (cs : List ℕ) → (c == path_sep) ≡ false → InName cs → AtStart (c ∷ cs) × InName (c ∷ cs)
unfolding AtStart InName trim_end split
at_other c cs e name = (
  inr (
    c,
    squeeze c cs,
    squeeze_next path_sep c cs (flipped c e),
    e,
    ap add_parts (name c e) ∙ sym (names_other c cs e),
  ),
  λ x f.
      ap (λ s. split (trim_end x s)) (squeeze_next x c cs (inside x c f))
      ∙ ap (put_character x) (name c e)
      ∙ put_other x (c ∷ (split cs).0) (names (split cs).1) f
      ∙ sym (ap (λ p. (x ∷ p.0, names p.1)) (split_other c cs e)),
)

all_of_it : (cs : List ℕ) → AtStart cs × InName cs
unfolding AtStart InName squeeze names split
all_of_it [] = (inl (refl, refl), λ x e. split_one x e)
all_of_it (c ∷ cs) = elim (Bool-cases (c == path_sep)) [
  | inl sep ↦
      subst (λ d. AtStart (d ∷ cs) × InName (d ∷ cs)) (sym ((==_iff c path_sep).0 sep))
        (at_sep cs (all_of_it cs).0)
  | inr other ↦ at_other c cs other (all_of_it cs).1
]

tokens-trim :
    (d : ℕ) (ds : List ℕ)
    → (d == path_sep) ≡ false
    → add_tokens (trim_end d ds) ≡ add_parts (split (trim_end d ds))
unfolding add_tokens trim_end
tokens-trim d [] e = rw (e, add_tokens)
tokens-trim d (c ∷ cs) e = refl

right_path :
    (path : List ℕ) (d : ℕ) (ds : List ℕ)
    → squeeze path_sep path ≡ d ∷ ds
    → length path < max_path
    → make_right_path max_path path ≡ some (trim_end d ds)
unfolding make_right_path
right_path path d ds more small =
    let fits : ltb (length (squeeze path_sep path)) max_path ≡ true =
      ground (arith, length-squeeze path_sep path) in
    rw (fits, more)

-- For a path of fewer than MAX_PATH characters that has a name, a part between separators that is
-- not empty, strpath_to_token stays inside its arrays and adds the names of the path as its tokens,
-- in their order and no others, whatever number of separators stands before, between and after them.
pub strpath_to_token-names :
    (path : List ℕ)
    → length path < max_path
    → 0 < length (names (add_parts (split path)))
    → strpath_to_token path ≡ some (names (add_parts (split path)))
unfolding strpath_to_token AtStart
strpath_to_token-names path small named = elim (all_of_it path).0 [
  | inl (empty, none_left) ↦ absurd (omega (arith, ap length none_left))
  | inr (d, ds, more, ne, parts) ↦
      rw (right_path path d ds more small) (ap some (tokens-trim d ds ne ∙ parts))
]

if_same : (b : Bool) (o : Option (List ℕ)) → (if b then o else o) ≡ o
if_same true o = refl
if_same false o = refl

-- For a path that is empty or has separators only, make_right_path reads the character
-- before the array of its result.
pub make_right_path-separators :
    (size : ℕ) (path : List ℕ)
    → names (add_parts (split path)) ≡ []
    → make_right_path size path ≡ none
unfolding make_right_path AtStart
make_right_path-separators size path nameless = elim (all_of_it path).0 [
  | inl (empty, none_left) ↦ rw empty (if_same (ltb 0 size) none)
  | inr (d, ds, more, ne, parts) ↦ absurd (omega (arith, ap length (parts ∙ nameless)))
]
