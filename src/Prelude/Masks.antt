-- ===== src/Prelude/Masks.antt =====
-- `x & (x - 1)`: the law of the lowest binary digit of `and`, and the test for a power of two.
use Prim.Native.Nat.{
  ℕ, zero, suc, ◌+◌, ◌-◌, ◌*◌, ◌/◌, ◌%◌, ◌^◌, ◌≤◌, ◌<◌, min, bit_and, bit_and-bitwise,
}
use mathlib.Core.Path.{◌≡◌, sym, ap, ◌∙◌}
use mathlib.Core.Logic.{◌⊎◌, inl, inr}
use rohos_disk_browser.Prelude.Digits.{lowest_digit}
use native.Mathlib.Omega.{arith}
use native.Mathlib.Nat.{pow-suc}

nothing-bit_and : (b : ℕ) → bit_and 0 b ≡ 0
nothing-bit_and b = bit_and-bitwise 0 b

pub lowest-bit_and : (a b : ℕ) → bit_and a b ≡ bit_and (a / 2) (b / 2) * 2 + min (a % 2) (b % 2)
lowest-bit_and zero b = omega (arith, nothing-bit_and b, nothing-bit_and (b / 2))
lowest-bit_and (suc a) b =
    bit_and-bitwise (suc a) b
    ∙ lowest_digit (λ b. zero) min a b
    ∙ ap (λ t. t * 2 + min (suc a % 2) (b % 2)) (sym (bit_and-bitwise (suc a / 2) (b / 2)))

and_self : (n x : ℕ) → x ≤ n → bit_and x x ≡ x
and_self zero x h = zero_case x h
  where
    zero_case : (x : ℕ) → x ≤ 0 → bit_and x x ≡ x
    zero_case zero h = nothing-bit_and 0
    zero_case (suc x) h = absurd (omega arith)
and_self (suc n) x h = omega (arith, lowest-bit_and x x, small n x h (and_self n))
  where
    small :
        (n x : ℕ)
        → x ≤ suc n
        → ((y : ℕ) → y ≤ n → bit_and y y ≡ y)
        → bit_and (x / 2) (x / 2) ≡ x / 2
    small n x h ih = ih (x / 2) (omega arith)

-- A number without common digits with its predecessor is a power of two.
mask_fuel : (n x : ℕ) → 0 < x → x ≤ n → bit_and x (x - 1) ≡ 0 → (k : ℕ) × (x ≡ 2 ^ k)
mask_fuel zero x pos h e = absurd (omega arith)
mask_fuel (suc n) x pos h e = elim (parity x) [
  | inl odd ↦
      let step = lowest-bit_and x (x - 1) in
      let same : (x - 1) / 2 ≡ x / 2 = omega (arith, odd) in
      let top = and_self (x / 2) (x / 2) (omega arith) in
      let whole : bit_and (x / 2) ((x - 1) / 2) ≡ x / 2 = ap (λ t. bit_and (x / 2) t) same ∙ top in
      (0, omega (arith, step, whole, e, odd))
  | inr even ↦
      let step = lowest-bit_and x (x - 1) in
      let pred : (x - 1) / 2 ≡ x / 2 - 1 = omega (arith, even, pos) in
      let half : bit_and (x / 2) (x / 2 - 1) ≡ bit_and (x / 2) ((x - 1) / 2) =
        ap (λ t. bit_and (x / 2) t) (sym pred) in
      let (k, p) =
        mask_fuel n (x / 2) (omega (arith, pos, even)) (omega (arith, h, pos))
          (omega (arith, step, half, e)) in
      (suc k, omega (arith, p, even, pow-suc 2 k))
]
  where
    parity : (x : ℕ) → (x % 2 ≡ 1) ⊎ (x % 2 ≡ 0)
    parity x = omega arith

pub mask_lem : (x : ℕ) → 0 < x → bit_and x (x - 1) ≡ 0 → (k : ℕ) × (x ≡ 2 ^ k)
mask_lem x pos e = mask_fuel x x pos (omega arith) e
