-- ===== src/Ntfs/Utf/To16.antt =====
-- From UTF-8 to UTF-16, character by character.
use rohos_disk_browser.Prelude.{
  ℕ, zero, suc, ◌+◌, ◌/◌, ◌%◌, ◌<◌, ◌≤◌, ◌≡◌, refl, sym, ap, ◌∙◌, inl, inr, List, [], ◌∷◌, ◌++◌,
  none, some, true, false, if◌then◌else◌, ltb, leb, ◌==◌, length, drop, length-append, drop-append,
  arith, Bool-cases,
}
use rohos_disk_browser.Ntfs.Utf.{
  Conversion, converted, too_long, path_max, after_lead, units_loop, utf8_to_unicode, units_written,
  utf8_to_utf16, utf8_to_utf16_size, code_units,
}
use rohos_disk_browser.Ntfs.Utf.Codes.{
  IsCode, AreCodes, utf8_code, utf16_code, utf8, utf16, utf16_single, utf16_pair,
}
use mathlib.Core.List.{append_assoc}
use native.Mathlib.Nat.{add_assoc, zero-add}

-- The four lengths of a character.
pub data Width (c : ℕ) : Type 0 where
  one : c < 0x80 → Width c
  two : 0x80 ≤ c → c < 0x800 → Width c
  three : 0x800 ≤ c → c < 0x10000 → Width c
  four : 0x10000 ≤ c → Width c

pub width : (c : ℕ) → Width c
width c = elim (Bool-cases (ltb c 0x80)) [
  | inl a ↦ one (ground arith)
  | inr a ↦ elim (Bool-cases (ltb c 0x800)) [
    | inl b ↦ two (ground arith) (ground arith)
    | inr b ↦ elim (Bool-cases (ltb c 0x10000)) [
      | inl d ↦ three (ground arith) (ground arith)
      | inr d ↦ four (ground arith)
    ]
  ]
]

pub unicode_code :
    (c : ℕ) (s : List ℕ)
    → Width c
    → IsCode c
    → utf8_to_unicode (utf8_code c ++ s) ≡ some (c, length (utf8_code c))
unfolding utf8_code utf8_to_unicode
unicode_code c s (one a) h = ground arith
unicode_code c s (two a b) h = ground arith
unicode_code c s (three a b) h = ground arith
unicode_code c s (four a) h = ground arith

pub units_code : (c : ℕ) → code_units c ≡ utf16_code c
unfolding utf16_code
units_code c = ground arith

pub code_pos : (c : ℕ) → 0 < length (utf8_code c)
unfolding utf8_code
code_pos c = ground arith

-- A turn on a code that is not NUL.
pub written_turn :
    (fuel m c : ℕ) (s rest : List ℕ)
    → utf8_to_unicode s ≡ some (c, m)
    → 0 < m
    → drop m s ≡ rest
    → units_written (suc fuel) s
      ≡ (utf16_code c ++ (units_written fuel rest).0, (units_written fuel rest).1)
unfolding units_written
written_turn fuel m c s rest e pos d =
    let full : (m == 0) ≡ false = ground arith in rw (e, units_written) (rw (full, d, units_code c))

written_codes :
    (cs : List ℕ) (fuel : ℕ)
    → AreCodes cs
    → length (utf8 cs) < fuel
    → units_written fuel (utf8 cs) ≡ (utf16 cs ++ (0 ∷ []), true)
unfolding utf8 utf16
written_codes cs zero h le = absurd (omega arith)
written_codes [] (suc fuel) h le = unfold units_written utf8_to_unicode in refl
written_codes (c ∷ cs) (suc fuel) (hc, hcs) le =
    written_turn fuel (length (utf8_code c)) c (utf8_code c ++ utf8 cs) (utf8 cs)
      (unicode_code c (utf8 cs) (width c) hc) (code_pos c)
      (drop-append (length (utf8_code c)) (utf8_code c) (utf8 cs) refl)
    ∙ rw
        (written_codes cs fuel hcs
          (omega (arith, length-append (utf8_code c) (utf8 cs), code_pos c)))
        (ap (λ t. (t, true)) (sym (append_assoc (utf16_code c) (utf16 cs) (0 ∷ []))))

units_end : (fuel count : ℕ) → units_loop fuel count [] ≡ converted count
unfolding units_loop
units_end zero count = refl
units_end (suc fuel) count = refl

abbrev pub counted : ℕ → Conversion ℕ → Conversion ℕ
counted count rest = if leb path_max count then too_long else rest

module _ (fuel count byte : ℕ) (s : List ℕ) (h : byte < 0xf5) where
  units_break :
      after_lead byte s ≡ none
      → units_loop (suc fuel) count (byte ∷ s) ≡ counted (count + 1) (converted (count + 1))
  unfolding units_loop
  units_break e = ground arith

  units_next :
      {s' : List ℕ}
      → byte < 0xf0
      → after_lead byte s ≡ some s'
      → units_loop (suc fuel) count (byte ∷ s)
        ≡ counted (count + 1) (units_loop fuel (count + 1) s')
  unfolding units_loop
  units_next small e = ground arith

  units_pair :
      {s' : List ℕ}
      → 0xf0 ≤ byte
      → after_lead byte s ≡ some s'
      → units_loop (suc fuel) count (byte ∷ s)
        ≡ counted (count + 2) (units_loop fuel (count + 2) s')
  unfolding units_loop
  units_pair big e = ground arith

-- Behind the last byte of a character that ends the string, the loop ends by a break or by the NUL.
units_last :
    (fuel count byte : ℕ) (s : List ℕ)
    → byte < 0xf0
    → after_lead byte s ≡ none
    → units_loop (suc fuel) count (byte ∷ s) ≡ counted (count + 1) (units_loop fuel (count + 1) [])
units_last fuel count byte s h e =
    units_break fuel count byte s (omega arith) e
    ∙ ap (counted (count + 1)) (sym (units_end fuel (count + 1)))

module _ (c : ℕ) where
  utf8_one : c < 0x80 → utf8_code c ≡ c ∷ []
  unfolding utf8_code
  utf8_one a = ground arith

  utf8_two : 0x80 ≤ c → c < 0x800 → utf8_code c ≡ (0xc0 + c / 64) ∷ (0x80 + c % 64) ∷ []
  unfolding utf8_code
  utf8_two a b = ground arith

  utf8_three :
      0x800 ≤ c
      → c < 0x10000
      → utf8_code c ≡ (0xe0 + c / 4096) ∷ (0x80 + c / 64 % 64) ∷ (0x80 + c % 64) ∷ []
  unfolding utf8_code
  utf8_three a b = ground arith

  utf8_four :
      0x10000 ≤ c
      → utf8_code c
        ≡ (0xf0 + c / 262144) ∷ (0x80 + c / 4096 % 64) ∷ (0x80 + c / 64 % 64) ∷ (0x80 + c % 64) ∷ []
  unfolding utf8_code
  utf8_four a = ground arith

-- Where a sequence of a first byte and `s` ends.
module _ (byte x y z : ℕ) (s : List ℕ) where
  after_one : byte < 0xc0 → after_lead byte (x ∷ s) ≡ some (x ∷ s)
  unfolding after_lead
  after_one h = ground arith

  after_two : 0xc0 ≤ byte → byte < 0xe0 → after_lead byte (y ∷ x ∷ s) ≡ some (x ∷ s)
  unfolding after_lead
  after_two h k = ground arith

  after_three : 0xe0 ≤ byte → byte < 0xf0 → after_lead byte (z ∷ y ∷ x ∷ s) ≡ some (x ∷ s)
  unfolding after_lead
  after_three h k = ground arith

  after_four : 0xf0 ≤ byte → after_lead byte (z ∷ y ∷ x ∷ s) ≡ some s
  unfolding after_lead
  after_four h = ground arith

after_end : (byte : ℕ) → after_lead byte [] ≡ none
unfolding after_lead
after_end byte = refl

after_two_end : (byte x : ℕ) → 0xc0 ≤ byte → after_lead byte (x ∷ []) ≡ none
unfolding after_lead
after_two_end byte x h = ground arith

after_three_end : (byte x y : ℕ) → 0xe0 ≤ byte → after_lead byte (x ∷ y ∷ []) ≡ none
unfolding after_lead
after_three_end byte x y h = ground arith

-- The loop counts the units of a character, and goes on behind it.
pub units_of_code :
    (fuel count c : ℕ) (s : List ℕ)
    → Width c
    → IsCode c
    → units_loop (suc fuel) count (utf8_code c ++ s)
      ≡ counted (count + length (utf16_code c)) (units_loop fuel (count + length (utf16_code c)) s)
units_of_code fuel count c [] (one a) h =
    rw (utf8_one c a, utf16_single c (omega arith))
      (units_last fuel count c [] (omega arith) (after_end c))
units_of_code fuel count c (x ∷ s) (one a) h =
    rw (utf8_one c a, utf16_single c (omega arith))
      (units_next fuel count c (x ∷ s) (omega arith) (omega arith)
        (after_one c x 0 0 s (omega arith)))
units_of_code fuel count c [] (two a b) h =
    rw (utf8_two c a b, utf16_single c (omega arith))
      (units_last fuel count _ _ (omega arith) (after_two_end _ _ (omega arith)))
units_of_code fuel count c (x ∷ s) (two a b) h =
    rw (utf8_two c a b, utf16_single c (omega arith))
      (units_next fuel count _ _ (omega arith) (omega arith)
        (after_two _ x _ 0 s (omega arith) (omega arith)))
units_of_code fuel count c [] (three a b) h =
    rw (utf8_three c a b, utf16_single c b)
      (units_last fuel count _ _ (omega arith) (after_three_end _ _ _ (omega arith)))
units_of_code fuel count c (x ∷ s) (three a b) h =
    rw (utf8_three c a b, utf16_single c b)
      (units_next fuel count _ _ (omega arith) (omega arith)
        (after_three _ x _ _ s (omega arith) (omega arith)))
units_of_code fuel count c s (four a) h =
    rw (utf8_four c a, utf16_pair c a)
      (units_pair fuel count _ _ (omega arith) (omega arith) (after_four _ _ _ _ s (omega arith)))

units_of_codes :
    (cs : List ℕ) (fuel count : ℕ)
    → AreCodes cs
    → length (utf8 cs) ≤ fuel
    → count < path_max
    → units_loop fuel count (utf8 cs)
      ≡ counted (count + length (utf16 cs)) (converted (count + length (utf16 cs)))
unfolding utf8 utf16
units_of_codes [] fuel count h le few = units_end fuel count ∙ ground arith
units_of_codes (c ∷ cs) zero count (hc, hcs) le few =
    absurd (omega (arith, length-append (utf8_code c) (utf8 cs), code_pos c))
units_of_codes (c ∷ cs) (suc fuel) count (hc, hcs) le few =
    units_of_code fuel count c (utf8 cs) (width c) hc
    ∙ rw (length-append (utf16_code c) (utf16 cs)) (elim (Bool-cases (leb path_max (count + n))) [
      | inl over ↦
          let none_left : leb path_max (count + (n + m)) ≡ true = ground arith in
          rw (over, none_left)
      | inr room ↦
          rw (room, ← add_assoc count n m)
            (units_of_codes cs fuel (count + n) hcs
              (omega (arith, length-append (utf8_code c) (utf8 cs), code_pos c)) (ground arith))
    ])
  where
    n : ℕ
    n = length (utf16_code c)

    m : ℕ
    m = length (utf16 cs)

-- The UTF-8 encoding of characters without NUL converts to their UTF-16 encoding, with a NUL behind
-- it, where that has fewer than 4096 units. A longer one is refused with ENAMETOOLONG.
pub utf8_to_utf16_codes :
    (cs : List ℕ)
    → AreCodes cs
    → utf8_to_utf16 (utf8 cs)
      ≡ (if leb path_max (length (utf16 cs)) then too_long else converted (utf16 cs ++ (0 ∷ [])))
unfolding utf8_to_utf16 utf8_to_utf16_size utf16
utf8_to_utf16_codes cs h =
    rw (written_codes cs (suc (length (utf8 cs))) h (omega arith), utf8_to_utf16)
      (rw (units_of_codes cs (length (utf8 cs)) 0 h (omega arith) (omega arith), zero-add)
        (ground arith))
