-- ===== src/Ntfs/Utf/Codes.antt =====
-- Strings of Unicode characters and their two encodings, as the standards define them: UTF-8 by
-- RFC 3629 and UTF-16 by RFC 2781.
use rohos_disk_browser.Prelude.{
  ℕ, ◌+◌, ◌-◌, ◌/◌, ◌%◌, ◌<◌, ◌≤◌, ◌⊎◌, ◌≡◌, arith, List, [], ◌∷◌, ◌++◌, if◌then◌else◌, ltb,
}

-- A character that is not NUL and no half of a pair.
abbrev pub IsCode : ℕ → Type 0
IsCode c = (0 < c) × (c < 0x110000) × ((c < 0xd800) ⊎ (0xe000 ≤ c))

abbrev pub AreCodes : List ℕ → Type 0
AreCodes [] = Unit
AreCodes (c ∷ cs) = IsCode c × AreCodes cs

unfoldable pub utf8_code : ℕ → List ℕ
utf8_code c =
    if ltb c 0x80
    then c ∷ []
    else (if ltb c 0x800
        then (0xc0 + c / 64) ∷ (0x80 + c % 64) ∷ []
        else (if ltb c 0x10000
            then (0xe0 + c / 4096) ∷ (0x80 + c / 64 % 64) ∷ (0x80 + c % 64) ∷ []
            else (0xf0 + c / 262144)
              ∷ (0x80 + c / 4096 % 64)
              ∷ (0x80 + c / 64 % 64)
              ∷ (0x80 + c % 64)
              ∷ []))

unfoldable pub utf16_code : ℕ → List ℕ
utf16_code c =
    if ltb c 0x10000
    then c ∷ []
    else (0xd800 + (c - 0x10000) / 1024) ∷ (0xdc00 + (c - 0x10000) % 1024) ∷ []

unfoldable pub utf8 : List ℕ → List ℕ
utf8 [] = []
utf8 (c ∷ cs) = utf8_code c ++ utf8 cs

unfoldable pub utf16 : List ℕ → List ℕ
utf16 [] = []
utf16 (c ∷ cs) = utf16_code c ++ utf16 cs

-- A character is one unit, or the two halves of a pair.
abbrev pub high_half : ℕ → ℕ
high_half c = 0xd800 + (c - 0x10000) / 1024

abbrev pub low_half : ℕ → ℕ
low_half c = 0xdc00 + (c - 0x10000) % 1024

pub utf16_single : (c : ℕ) → c < 0x10000 → utf16_code c ≡ c ∷ []
unfolding utf16_code
utf16_single c small = ground arith

pub utf16_pair : (c : ℕ) → 0x10000 ≤ c → utf16_code c ≡ high_half c ∷ low_half c ∷ []
unfolding utf16_code
utf16_pair c big = ground arith

pub code_cases : (c : ℕ) → (c < 0x10000) ⊎ (0x10000 ≤ c)
code_cases c = omega arith
