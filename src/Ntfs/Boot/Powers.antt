-- ===== src/Ntfs/Boot/Powers.antt =====
-- bootsect.c and compat.c: powers of two, their test `x & (x - 1)`, and the place of their bit.
use rohos_disk_browser.Prelude.{
  ℕ, zero, suc, ◌+◌, ◌-◌, ◌*◌, ◌^◌, ◌≤◌, ◌<◌, ◌≡◌, refl, sym, ap, ◌∙◌, inl, inr, Bool, true, false,
  ◌&&◌, ◌||◌, ltb, ◌==◌, ==_iff, Bool-cases, arith,
}
use native.Mathlib.Nat.{pow-suc}
use rohos_disk_browser.Prelude.Masks.{mask_lem}
use rohos_disk_browser.Ntfs.Boot.{ffs, one_of_powers, not_power}

-- A test that holds of all numbers below `n`.
unfoldable pub below_all : ℕ → (ℕ → Bool) → Bool
below_all zero f = true
below_all (suc n) f = below_all n f && f n

pub below_all_lem : (n k : ℕ) (f : ℕ → Bool) → below_all n f ≡ true → k < n → f k ≡ true
unfolding below_all
below_all_lem zero k f h lt = absurd (omega arith)
below_all_lem (suc n) k f h lt = elim (Bool-cases (k == n)) [
  | inl e ↦ ap f ((==_iff k n).0 e) ∙ (and_true (below_all n f) (f n) h).1
  | inr e ↦ below_all_lem n k f ((and_true (below_all n f) (f n) h).0) (ground (arith, e, lt))
]
  where
    and_true : (a b : Bool) → (a && b) ≡ true → (a ≡ true) × (b ≡ true)
    and_true true true h = (refl, refl)
    and_true true false h = absurd (ground (arith, h))
    and_true false b h = absurd (ground (arith, h))

-- The place of the first bit of a power of two.
pub ffs-power : (k : ℕ) → k < 32 → ffs (2 ^ k) ≡ suc k
unfolding ffs below_all
ffs-power k h =
    (==_iff (ffs (2 ^ k)) (suc k)).0 (below_all_lem 32 k (λ j. ffs (2 ^ j) == suc j) refl h)

pub pow_pos : (k : ℕ) → 0 < 2 ^ k
pow_pos zero = omega arith
pow_pos (suc k) = omega (arith, pow-suc 2 k, pow_pos k)

pub pow_le : (n k : ℕ) → n ≤ k → 2 ^ n ≤ 2 ^ k
pow_le zero k h = omega (arith, pow_pos k)
pow_le (suc n) zero h = absurd (omega arith)
pow_le (suc n) (suc k) h = omega (arith, pow-suc 2 n, pow-suc 2 k, pow_le n k (omega (arith, h)))

pub below_power : (k n : ℕ) → 2 ^ k < 2 ^ n → k < n
below_power k n h = elim (Bool-cases (ltb k n)) [
  | inl e ↦ ground (arith, e)
  | inr e ↦ absurd (omega (arith, h, pow_le n k (ground (arith, e))))
]

-- A number below 2 ^ 32 that passes the test is a power of two, and ffs finds which.
pub passes_power : (x : ℕ) → 0 < x → x < 2 ^ 32 → not_power x ≡ false → x ≡ 2 ^ (ffs x - 1)
passes_power x pos small h =
    let (k, p) = mask_lem x pos (ground (arith, h)) in
    let below : k < 32 = below_power k 32 (omega (arith, p, small)) in
    let place : ffs x ≡ suc k = ap ffs p ∙ ffs-power k below in
    p ∙ ap (λ j. 2 ^ j) (omega (arith, place))

pub one_of_powers_lem : (n x : ℕ) → one_of_powers n x ≡ true → (k : ℕ) × ((k ≤ n) × (x ≡ 2 ^ k))
one_of_powers_lem zero x h = (0, (omega arith, (==_iff x 1).0 h))
one_of_powers_lem (suc n) x h = elim (Bool-cases (x == 2 ^ suc n)) [
  | inl e ↦ (suc n, (omega arith, (==_iff x (2 ^ suc n)).0 e))
  | inr e ↦
      let (k, (le, p)) =
        one_of_powers_lem n x (or_false (one_of_powers n x) (x == 2 ^ suc n) h e) in
      (k, (omega (arith, le), p))
]
  where
    or_false : (a b : Bool) → (a || b) ≡ true → b ≡ false → a ≡ true
    or_false true b h e = refl
    or_false false b h e = absurd (ground (arith, h, e))

pub pow_sum : (j k : ℕ) → 2 ^ j * 2 ^ k ≡ 2 ^ (j + k)
pow_sum zero k = omega arith ∙ ap (λ t. 2 ^ t) zero_sum
  where
    zero_sum : k ≡ zero + k
    zero_sum = omega arith
pow_sum (suc j) k =
    ap (λ t. t * 2 ^ k) (pow-suc 2 j)
    ∙ swapped (2 ^ j) (2 ^ k)
    ∙ ap (λ t. t * 2) (pow_sum j k)
    ∙ sym (pow-suc 2 (j + k))
    ∙ ap (λ t. 2 ^ t) suc_sum
  where
    swapped : (a b : ℕ) → a * 2 * b ≡ a * b * 2
    swapped a b = omega arith

    suc_sum : suc (j + k) ≡ suc j + k
    suc_sum = omega arith

pub pow_ffs : (x k : ℕ) → x ≡ 2 ^ k → x < 2 ^ 32 → x ≡ 2 ^ (ffs x - 1)
pow_ffs x k p small =
    let below : k < 32 = below_power k 32 (omega (arith, p, small)) in
    let place : ffs x ≡ suc k = ap ffs p ∙ ffs-power k below in
    let same : k ≡ ffs x - 1 = omega (arith, place) in p ∙ ap (λ j. 2 ^ j) same

-- What a power of two times a number is, if it is a power of two, so is the number.
pub cofactor : (k m y : ℕ) → 2 ^ k * y ≡ 2 ^ m → (j : ℕ) × (y ≡ 2 ^ j)
cofactor zero m y h = (m, omega (arith, h))
cofactor (suc k) zero y h =
    absurd (even (2 ^ k * y) (twice (2 ^ k) y ∙ sym (ap (λ t. t * y) (pow-suc 2 k)) ∙ h))
  where
    even : (t : ℕ) → t * 2 ≡ 1 → ⊥
    even t h = omega (arith, h)

    twice : (a b : ℕ) → a * b * 2 ≡ a * 2 * b
    twice a b = omega arith
cofactor (suc k) (suc m) y h = cofactor k m y (
    halved (2 ^ k * y) (2 ^ m)
      (twice (2 ^ k) y ∙ sym (ap (λ t. t * y) (pow-suc 2 k)) ∙ h ∙ pow-suc 2 m))
  where
    halved : (s t : ℕ) → s * 2 ≡ t * 2 → s ≡ t
    halved s t h = omega (arith, h)

    twice : (a b : ℕ) → a * b * 2 ≡ a * 2 * b
    twice a b = omega arith
