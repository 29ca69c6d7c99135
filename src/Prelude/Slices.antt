-- ===== src/Prelude/Slices.antt =====
-- Elements of the parts of a list.
use mathlib.Core.Path.{◌≡◌, refl, ap, ◌∙◌}
use mathlib.Core.List.{List, [], ◌∷◌}
use Prim.Native.Nat.{ℕ, zero, suc, ◌+◌, ◌<◌}
use native.Mathlib.Omega.{arith}
use rohos_disk_browser.Prelude.Lists.{get_elem?, take, drop}

module _ {ℓ} {A : Type ℓ} where
  get_elem?-drop : (n i : ℕ) (xs : List A) → get_elem? (drop n xs) i ≡ get_elem? xs (n + i)
  get_elem?-drop zero i xs = ap (get_elem? xs) (omega arith)
  get_elem?-drop (suc n) i [] = refl
  get_elem?-drop (suc n) i (x ∷ xs) = get_elem?-drop n i xs ∙ ap (get_elem? (x ∷ xs)) after
    where
      after : suc (n + i) ≡ suc n + i
      after = omega arith

  pub get_elem?-take : (n i : ℕ) (xs : List A) → i < n → get_elem? (take n xs) i ≡ get_elem? xs i
  get_elem?-take zero i xs h = absurd (omega arith)
  get_elem?-take (suc n) i [] h = refl
  get_elem?-take (suc n) zero (x ∷ xs) h = refl
  get_elem?-take (suc n) (suc i) (x ∷ xs) h = get_elem?-take n i xs (omega arith)

  -- The `i`th of the `n` elements from place `m` on.
  pub get_elem?-slice :
      (n m i : ℕ) (xs : List A) → i < n → get_elem? (take n (drop m xs)) i ≡ get_elem? xs (m + i)
  get_elem?-slice n m i xs h = rw (get_elem?-take n i (drop m xs) h, get_elem?-drop m i xs)
