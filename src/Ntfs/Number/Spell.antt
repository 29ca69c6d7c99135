-- ===== src/Ntfs/Number/Spell.antt =====
-- The bytes that the loops of runlist.c go through, apart from the room that there is for them.
use rohos_disk_browser.Prelude.{
  ℕ, zero, suc, ◌+◌, ◌*◌, ◌%◌, ◌^◌, ◌≤◌, ◌<◌, ◌≡◌, refl, ◌∙◌, ◌⊎◌, inl, inr, List, [], ◌∷◌, ◌++◌,
  true, false, if◌then◌else◌, ltb, leb, Bool-cases, length, take, take-nil, arith,
}
use rohos_disk_browser.Ntfs.Number.{
  negative, sar8, sar, is_done, nr_loop, bytes_loop, sign_extend, read_number,
}

unfoldable pub spell : ℕ → ℕ → List ℕ
spell zero l = []
spell (suc fuel) l =
    let rest = spell fuel (sar8 l) in if is_done (sar8 l) then l % 2 ^ 8 ∷ [] else l % 2 ^ 8 ∷ rest

abbrev power : ℕ → ℕ
power zero = 1
power (suc k) = 2 ^ 8 * power k

-- So many shifts bring the number to 0 or -1.
abbrev pub Enough : ℕ → ℕ → Type 0
Enough fuel l =
    ((l < 2 ^ 63) × (l < power fuel)) ⊎ ((2 ^ 63 ≤ l) × ((l < 2 ^ 64) × (2 ^ 64 ≤ l + power fuel)))

pub Enough-eight : (n : ℕ) → n < 2 ^ 64 → Enough 8 n
Enough-eight n h = elim (Bool-cases (ltb n (2 ^ 63))) [
  | inl e ↦ inl (ground (arith, e), omega (arith, h))
  | inr e ↦ inr (ground (arith, e), (h, omega arith))
]

pub sar8-lt : (n : ℕ) → n < 2 ^ 64 → sar8 n < 2 ^ 64
unfolding sar8
sar8-lt n h = ground (arith, h)

pub sar8-negative : (n : ℕ) → n < 2 ^ 64 → negative (sar8 n) ≡ negative n
unfolding sar8
sar8-negative n h = ground (arith, h)

-- A shift forgets the low byte and no more.
pub sar8-byte : (n : ℕ) → n < 2 ^ 64 → (sar8 n * 2 ^ 8 + n % 2 ^ 8) % 2 ^ 64 ≡ n
unfolding sar8
sar8-byte n h = ground (arith, h)

pub Enough-sar8 : (fuel n : ℕ) → Enough (suc fuel) n → Enough fuel (sar8 n)
unfolding sar8
Enough-sar8 fuel n (inl h) = inl (ground (arith, h))
Enough-sar8 fuel n (inr h) = inr (ground (arith, h))

pub Enough-zero : (n : ℕ) → Enough 0 n → is_done n ≡ true
Enough-zero n (inl h) = ground (arith, h)
Enough-zero n (inr h) = ground (arith, h)

pub nr_loop_lem : (fuel l : ℕ) → nr_loop fuel l ≡ length (spell fuel l)
unfolding nr_loop spell
nr_loop_lem zero l = refl
nr_loop_lem (suc fuel) l = elim (Bool-cases (is_done (sar8 l))) [
  | inl e ↦ rw e
  | inr e ↦ rw (e, nr_loop_lem fuel (sar8 l))
]

pub spell_head :
    (fuel l : ℕ)
    → spell (suc fuel) l ≡ l % 2 ^ 8 ∷ (if is_done (sar8 l) then [] else spell fuel (sar8 l))
unfolding spell
spell_head fuel l = elim (Bool-cases (is_done (sar8 l))) [ inl e ↦ rw e | inr e ↦ rw e ]

leb_zero : (n : ℕ) → leb (suc n) 0 ≡ false
leb_zero n = ground arith

leb-suc : (m n : ℕ) → leb (suc m) (suc n) ≡ leb m n
leb-suc m n = ground arith

-- The loop stores these bytes as far as they have room, and fails where they have not.
pub bytes_loop_lem :
    (fuel room l : ℕ)
    → Enough (suc fuel) l
    → bytes_loop (suc fuel) room l
      ≡ (take room (spell (suc fuel) l), leb (length (spell (suc fuel) l)) room)
unfolding bytes_loop spell
bytes_loop_lem fuel zero l h =
    rw (spell_head fuel l, leb_zero (length (if is_done (sar8 l) then [] else spell fuel (sar8 l))))
bytes_loop_lem zero (suc room) l h =
    let e = Enough-zero (sar8 l) (Enough-sar8 0 l h) in
    let fits : leb 1 (suc room) ≡ true = ground arith in rw (e, fits, take-nil {A = ℕ} room)
bytes_loop_lem (suc fuel) (suc room) l h = elim (Bool-cases (is_done (sar8 l))) [
  | inl e ↦ let fits : leb 1 (suc room) ≡ true = ground arith in rw (e, fits, take-nil {A = ℕ} room)
  | inr e ↦
      let rest = bytes_loop_lem fuel room (sar8 l) (Enough-sar8 (suc fuel) l h) in
      rw (e, rest, leb-suc (length (spell (suc fuel) (sar8 l))) room)
]

-- The number of the bytes, with the number `t` standing for what is above them.
abbrev pub join : ℕ → List ℕ → ℕ
join t [] = t
join t (x ∷ bs) = (join t bs * 2 ^ 8 + x) % 2 ^ 64

pub join-spell : (fuel l : ℕ) → l < 2 ^ 64 → join (sar l (length (spell fuel l))) (spell fuel l) ≡ l
unfolding sar spell
join-spell zero l h = refl
join-spell (suc fuel) l h = elim (Bool-cases (is_done (sar8 l))) [
  | inl e ↦ rw e (sar8-byte l h)
  | inr e ↦ rw (e, join-spell fuel (sar8 l) (sar8-lt l h), sar8-byte l h)
]

pub sar-spell :
    (fuel l : ℕ) → Enough (suc fuel) l → is_done (sar l (length (spell (suc fuel) l))) ≡ true
unfolding sar spell
sar-spell zero l h = let e = Enough-zero (sar8 l) (Enough-sar8 0 l h) in rw e e
sar-spell (suc fuel) l h = elim (Bool-cases (is_done (sar8 l))) [
  | inl e ↦ rw e e
  | inr e ↦ rw e (sar-spell fuel (sar8 l) (Enough-sar8 (suc fuel) l h))
]

pub sar-lt : (n k : ℕ) → n < 2 ^ 64 → sar n k < 2 ^ 64
unfolding sar
sar-lt n zero h = h
sar-lt n (suc k) h = sar-lt (sar8 n) k (sar8-lt n h)

pub sar-negative : (n k : ℕ) → n < 2 ^ 64 → negative (sar n k) ≡ negative n
unfolding sar
sar-negative n zero h = refl
sar-negative n (suc k) h = sar-negative (sar8 n) k (sar8-lt n h) ∙ sar8-negative n h

pub read_number-append :
    (bs : List ℕ) (y : ℕ) → read_number (bs ++ (y ∷ [])) ≡ join (sign_extend y) bs
unfolding read_number
read_number-append [] y = refl
read_number-append (x ∷ []) y = refl
read_number-append (x ∷ z ∷ bs) y = rw (read_number-append (z ∷ bs) y)
