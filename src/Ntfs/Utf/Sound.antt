-- ===== src/Ntfs/Utf/Sound.antt =====
-- What the decoder of UTF-8 accepts.
use rohos_disk_browser.Prelude.{
  ℕ, zero, suc, ◌<◌, ◌≤◌, ◌≡◌, ◌≢◌, refl, sym, ap, ◌∙◌, ◌⊎◌, inl, inr, List, [], ◌∷◌, ◌++◌, none,
  some, Bool, true, false, if◌then◌else◌, ltb, leb, length, drop, arith, Bool-cases, Option-cases,
  ◌||◌, length-drop,
}
use rohos_disk_browser.Ntfs.Utf.{
  Conversion, converted, illegal, too_long, utf8_to_unicode, two_code, three_code, four_code,
  units_written, utf8_to_utf16, utf8_to_utf16_size, with_size,
}
use rohos_disk_browser.Ntfs.Utf.Codes.{IsCode, AreCodes, utf8_code, utf16_code, utf8, utf16}
use rohos_disk_browser.Ntfs.Utf.To16.{code_pos, written_turn}
use mathlib.Core.List.{append_assoc}

-- Bytes before a NUL.
abbrev pub AreBytes : List ℕ → Type 0
AreBytes [] = Unit
AreBytes (b ∷ s) = (0 < b) × (b < 256) × AreBytes s

-- `c` is the first character of the string `s`, of `m` bytes.
abbrev Begins : ℕ → ℕ → List ℕ → Type 0
Begins c m s = IsCode c × (m ≡ length (utf8_code c)) × (s ≡ utf8_code c ++ drop m s)

module _ (byte c m : ℕ) (low : 0xc2 ≤ byte) where
  two_sound :
      (s : List ℕ)
      → byte < 0xe0
      → AreBytes s
      → two_code byte s ≡ some (c, m)
      → Begins c m (byte ∷ s)
  unfolding utf8_code
  two_sound [] h bytes e = cc
  two_sound (x ∷ s) h (p, q, bytes) e = ground arith

  three_sound :
      (s : List ℕ)
      → 0xe0 ≤ byte
      → byte < 0xf0
      → AreBytes s
      → three_code byte s ≡ some (c, m)
      → Begins c m (byte ∷ s)
  unfolding utf8_code
  three_sound [] h k bytes e = cc
  three_sound (x ∷ []) h k bytes e = cc
  three_sound (x ∷ y ∷ s) h k (p, q, (p', q', bytes)) e = ground arith

  four_sound :
      (s : List ℕ)
      → 0xf0 ≤ byte
      → byte < 0xf5
      → AreBytes s
      → four_code byte s ≡ some (c, m)
      → Begins c m (byte ∷ s)
  unfolding utf8_code
  four_sound [] h k bytes e = cc
  four_sound (x ∷ []) h k bytes e = cc
  four_sound (x ∷ y ∷ []) h k bytes e = cc
  four_sound (x ∷ y ∷ z ∷ s) h k (p, q, (p', q', (p'', q'', bytes))) e = ground arith

-- The branches of the decoder by the first byte.
data Lead (byte : ℕ) : Type 0 where
  single : byte < 0x80 → Lead byte
  of_two : 0xc2 ≤ byte → byte < 0xe0 → Lead byte
  of_three : 0xe0 ≤ byte → byte < 0xf0 → Lead byte
  of_four : 0xf0 ≤ byte → byte < 0xf5 → Lead byte
  no_lead : 0x80 ≤ byte → (byte < 0xc2) ⊎ (0xf5 ≤ byte) → Lead byte

lead : (byte : ℕ) → Lead byte
lead byte = elim (Bool-cases (ltb byte 0x80)) [
  | inl a ↦ single (ground arith)
  | inr a ↦ elim (Bool-cases (ltb byte 0xc2 || leb 0xf5 byte)) [
    | inl b ↦ no_lead (ground arith) (ground arith)
    | inr b ↦ elim (Bool-cases (ltb byte 0xe0)) [
      | inl d ↦ of_two (ground arith) (ground arith)
      | inr d ↦ elim (Bool-cases (ltb byte 0xf0)) [
        | inl e ↦ of_three (ground arith) (ground arith)
        | inr e ↦ of_four (ground arith) (ground arith)
      ]
    ]
  ]
]

module _ (byte : ℕ) (s : List ℕ) where
  decode_two : 0xc2 ≤ byte → byte < 0xe0 → utf8_to_unicode (byte ∷ s) ≡ two_code byte s
  unfolding utf8_to_unicode
  decode_two h k = ground arith

  decode_three : 0xe0 ≤ byte → byte < 0xf0 → utf8_to_unicode (byte ∷ s) ≡ three_code byte s
  unfolding utf8_to_unicode
  decode_three h k = ground arith

  decode_four : 0xf0 ≤ byte → byte < 0xf5 → utf8_to_unicode (byte ∷ s) ≡ four_code byte s
  unfolding utf8_to_unicode
  decode_four h k = ground arith

  decode_none : 0x80 ≤ byte → (byte < 0xc2) ⊎ (0xf5 ≤ byte) → utf8_to_unicode (byte ∷ s) ≡ none
  unfolding utf8_to_unicode
  decode_none h k = ground arith

  decode_single : byte < 0x80 → utf8_to_unicode (byte ∷ s) ≡ some (byte, 1)
  unfolding utf8_to_unicode
  decode_single h = ground arith

-- A decoded sequence is the encoding of its character: no other one is accepted, such as a longer
-- one, a half of a pair, or a value past the last character.
unicode_sound :
    (byte c m : ℕ) (s : List ℕ)
    → Lead byte
    → AreBytes (byte ∷ s)
    → utf8_to_unicode (byte ∷ s) ≡ some (c, m)
    → Begins c m (byte ∷ s)
unicode_sound byte c m s (single h) (p, q, bytes) e =
    let d = decode_single byte s h in unfold utf8_code in ground arith
unicode_sound byte c m s (of_two h k) (p, q, bytes) e =
    two_sound byte c m h s k bytes (sym (decode_two byte s h k) ∙ e)
unicode_sound byte c m s (of_three h k) (p, q, bytes) e =
    three_sound byte c m (omega arith) s h k bytes (sym (decode_three byte s h k) ∙ e)
unicode_sound byte c m s (of_four h k) (p, q, bytes) e =
    four_sound byte c m (omega arith) s h k bytes (sym (decode_four byte s h k) ∙ e)
unicode_sound byte c m s (no_lead h k) bytes e = let d = decode_none byte s h k in cc

AreBytes-drop : (m : ℕ) (s : List ℕ) → AreBytes s → AreBytes (drop m s)
AreBytes-drop zero s bytes = bytes
AreBytes-drop (suc m) [] bytes = tt
AreBytes-drop (suc m) (b ∷ s) (p, q, bytes) = AreBytes-drop m s bytes

-- What the loop over bytes writes: characters in front of what is not decoded, and the NUL where the
-- string ends.
pub data Decoded (s : List ℕ) (w : List ℕ × Bool) : Type 0 where
  whole : (cs : List ℕ) → AreCodes cs → s ≡ utf8 cs → w ≡ (utf16 cs ++ (0 ∷ []), true) → Decoded s w
  part : (cs bad : List ℕ) → AreCodes cs → s ≡ utf8 cs ++ bad → w ≡ (utf16 cs, false) → Decoded s w

utf8-cons : (c : ℕ) (cs : List ℕ) → utf8 (c ∷ cs) ≡ utf8_code c ++ utf8 cs
unfolding utf8
utf8-cons c cs = refl

utf16-cons : (c : ℕ) (cs : List ℕ) → utf16 (c ∷ cs) ≡ utf16_code c ++ utf16 cs
unfolding utf16
utf16-cons c cs = refl

after_code :
    (c : ℕ) (s rest : List ℕ) (w : List ℕ × Bool)
    → IsCode c
    → s ≡ utf8_code c ++ rest
    → Decoded rest w
    → Decoded s (utf16_code c ++ w.0, w.1)
after_code c s rest w hc e (whole cs h f g) =
    whole (c ∷ cs) (hc, h) (rw (e, f, utf8-cons))
      (rw (g, utf16-cons)
        (ap (λ t. (t, true)) (sym (append_assoc (utf16_code c) (utf16 cs) (0 ∷ [])))))
after_code c s rest w hc e (part cs bad h f g) =
    part (c ∷ cs) bad (hc, h)
      (rw (e, f, utf8-cons) (sym (append_assoc (utf8_code c) (utf8 cs) bad))) (rw (g, utf16-cons))

pub decoded :
    (fuel : ℕ) (s : List ℕ) → AreBytes s → length s < fuel → Decoded s (units_written fuel s)
decoded zero s bytes le = absurd (omega arith)
decoded (suc fuel) [] bytes le = whole [] tt start stop
  where
    start : ◌≡◌ {A = List ℕ} [] (utf8 [])
    start = unfold utf8 in refl

    stop : units_written (suc fuel) [] ≡ (utf16 [] ++ (0 ∷ []), true)
    stop = unfold utf16 units_written utf8_to_unicode in refl
decoded (suc fuel) (byte ∷ s) bytes le = elim (Option-cases (utf8_to_unicode (byte ∷ s))) [
  | inl bad ↦ part [] (byte ∷ s) tt start (stop bad)
  | inr ((c, m), e) ↦
      let (hc, hm, split) = unicode_sound byte c m s (lead byte) bytes e in
      let pos : 0 < m = omega (arith, code_pos c) in
      rw (written_turn fuel m c (byte ∷ s) (drop m (byte ∷ s)) e pos refl) (
        after_code c (byte ∷ s) (drop m (byte ∷ s)) _ hc split (
          decoded fuel (drop m (byte ∷ s)) (AreBytes-drop m (byte ∷ s) bytes)
            (omega (arith, length-drop m (byte ∷ s)))))
]
  where
    start : byte ∷ s ≡ utf8 [] ++ (byte ∷ s)
    start = unfold utf8 in refl

    stop :
        utf8_to_unicode (byte ∷ s) ≡ none → units_written (suc fuel) (byte ∷ s) ≡ (utf16 [], false)
    stop bad = unfold utf16 units_written in rw (bad, units_written)

with_size-some :
    (size : Conversion ℕ) (units u : List ℕ) → with_size size (some units) ≡ converted u → u ≡ units
with_size-some (converted n) units u e = cc
with_size-some illegal units u e = cc
with_size-some too_long units u e = cc

with_size-none : (size : Conversion ℕ) (u : List ℕ) → with_size size none ≢ converted u
with_size-none (converted n) u e = cc
with_size-none illegal u e = cc
with_size-none too_long u e = cc

accepted :
    (s u : List ℕ) (w : List ℕ × Bool) (size : Conversion ℕ)
    → Decoded s w
    → with_size size (if w.1 then some w.0 else none) ≡ converted u
    → (cs : List ℕ) × AreCodes cs × (s ≡ utf8 cs) × (u ≡ utf16 cs ++ (0 ∷ []))
accepted s u w size (whole cs h f g) e = (cs, h, f, with_size-some size _ u (rw g at e))
accepted s u w size (part cs bad h f g) e = absurd (with_size-none size u (rw g at e))

-- A string of bytes before a NUL that converts to UTF-16 is the UTF-8 encoding of characters without
-- NUL, and what is written is their UTF-16 encoding with a NUL behind it.
pub utf8_to_utf16_accepts :
    (s u : List ℕ)
    → AreBytes s
    → utf8_to_utf16 s ≡ converted u
    → (cs : List ℕ) × AreCodes cs × (s ≡ utf8 cs) × (u ≡ utf16 cs ++ (0 ∷ []))
unfolding utf8_to_utf16
utf8_to_utf16_accepts s u bytes e =
    accepted s u (units_written (suc (length s)) s) (utf8_to_utf16_size s)
      (decoded (suc (length s)) s bytes (omega arith)) e
