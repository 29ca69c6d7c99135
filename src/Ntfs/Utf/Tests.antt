-- ===== src/Ntfs/Utf/Tests.antt =====
-- A letter, a Greek one, the sign of the euro and a character past the first plane.
use rohos_disk_browser.Prelude.{
  ℕ, ◌+◌, ◌≡◌, refl, List, [], ◌∷◌, ◌++◌, none, some, arith, length, if◌then◌else◌, leb,
}
use rohos_disk_browser.Ntfs.Utf.{
  converted, illegal, too_long, path_max, room_size, utf16_to_utf8, utf8_to_utf16,
  utf8_to_utf16_size,
}
use rohos_disk_browser.Ntfs.Utf.Codes.{AreCodes, utf8, utf16}
use rohos_disk_browser.Ntfs.Utf.To8.{utf16_to_utf8_codes}
use rohos_disk_browser.Ntfs.Utf.To16.{utf8_to_utf16_codes}
use rohos_disk_browser.Ntfs.Utf.Sound.{utf8_to_utf16_accepts}
use rohos_disk_browser.Ntfs.Utf.Room.{utf16_to_utf8_past_end}

abbrev word : List ℕ
word = 97 ∷ 0x3b1 ∷ 0x20ac ∷ 0x1f600 ∷ []

abbrev word_bytes : List ℕ
word_bytes = 97 ∷ 0xce ∷ 0xb1 ∷ 0xe2 ∷ 0x82 ∷ 0xac ∷ 0xf0 ∷ 0x9f ∷ 0x98 ∷ 0x80 ∷ []

abbrev word_units : List ℕ
word_units = 97 ∷ 0x3b1 ∷ 0x20ac ∷ 0xd83d ∷ 0xde00 ∷ []

word-AreCodes : AreCodes word
word-AreCodes = omega arith

bytes_of_word : utf16_to_utf8 word_units none ≡ converted (word_bytes ++ (0 ∷ []))
unfolding utf16_to_utf8
bytes_of_word = refl

units_of_word : utf8_to_utf16 word_bytes ≡ converted (word_units ++ (0 ∷ []))
unfolding utf8_to_utf16
units_of_word = refl

lone_half : utf16_to_utf8 (0xd83d ∷ 97 ∷ []) none ≡ illegal
unfolding utf16_to_utf8
lone_half = refl

overlong : utf8_to_utf16 (0xe0 ∷ 0x80 ∷ 0x80 ∷ []) ≡ illegal
unfolding utf8_to_utf16
overlong = refl

utf16_to_utf8_codes_example : utf16_to_utf8 (utf16 word) (some 8) ≡ (
    if leb (length (utf8 word)) (room_size (some 8))
    then converted (utf8 word ++ (0 ∷ []))
    else too_long)
utf16_to_utf8_codes_example = utf16_to_utf8_codes word (some 8) word-AreCodes

utf8_to_utf16_codes_example :
    utf8_to_utf16 (utf8 word)
    ≡ (if leb path_max (length (utf16 word)) then too_long else converted (utf16 word ++ (0 ∷ [])))
utf8_to_utf16_codes_example = utf8_to_utf16_codes word word-AreCodes

utf8_to_utf16_accepts_example :
    (cs : List ℕ) × AreCodes cs
    × (word_bytes ≡ utf8 cs)
    × (word_units ++ (0 ∷ []) ≡ utf16 cs ++ (0 ∷ []))
utf8_to_utf16_accepts_example =
    utf8_to_utf16_accepts word_bytes (word_units ++ (0 ∷ [])) (omega arith) units_of_word

sized : utf8_to_utf16_size (97 ∷ 0xce ∷ []) ≡ converted 2
unfolding utf8_to_utf16_size
sized = refl

utf16_to_utf8_past_end_example :
    (bytes : List ℕ) × (utf16_to_utf8 (utf16 word) (some (length (utf8 word))) ≡ converted bytes)
    × (length bytes ≡ length (utf8 word) + 1)
utf16_to_utf8_past_end_example = utf16_to_utf8_past_end word word-AreCodes
