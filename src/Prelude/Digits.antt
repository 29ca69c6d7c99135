-- ===== src/Prelude/Digits.antt =====
-- The binary digits that the native bit operations go through: the law of the lowest digit, for any
-- operation `f` on digits that gives `z` once the first number has run out.
use Prim.Native.Nat.{ℕ, zero, suc, ◌+◌, ◌-◌, ◌*◌, ◌/◌, ◌%◌, ◌≤◌, digits}
use mathlib.Core.Path.{◌≡◌, refl, sym, ap, ◌∙◌}
use native.Mathlib.Omega.{arith}

module _ (z : ℕ → ℕ) (f : ℕ → ℕ → ℕ) where
  run_out : (count b : ℕ) → digits z f count 0 b ≡ z b
  run_out zero b = refl
  run_out (suc count) b = refl

  -- How many digits are asked for does not matter, where there are as many.
  enough_digits :
      (a count : ℕ) (more b : ℕ) → a ≤ count → digits z f (count + more) a b ≡ digits z f count a b
  enough_digits zero count more b h = run_out (count + more) b ∙ sym (run_out count b)
  enough_digits (suc a) zero more b h = absurd (omega arith)
  enough_digits (suc a) (suc count) more b h =
      ap (λ n. digits z f n (suc a) b) shifted
      ∙ ap (λ t. t * 2 + f (suc a % 2) (b % 2))
          (enough_digits (suc a / 2) count more (b / 2) (omega (arith, h)))
    where
      shifted : suc count + more ≡ suc (count + more)
      shifted = omega arith

  -- The lowest digit apart, with as many digits asked for as the first number has.
  pub lowest_digit :
      (a b : ℕ)
      → digits z f (suc a) (suc a) b
        ≡ digits z f (suc a / 2) (suc a / 2) (b / 2) * 2 + f (suc a % 2) (b % 2)
  lowest_digit a b =
      ap (λ t. t * 2 + f (suc a % 2) (b % 2))
        (ap (λ n. digits z f n (suc a / 2) (b / 2)) whole
          ∙ enough_digits (suc a / 2) (suc a / 2) (a - suc a / 2) (b / 2) (omega arith))
    where
      whole : a ≡ suc a / 2 + (a - suc a / 2)
      whole = omega arith
