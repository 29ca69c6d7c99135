-- ===== src/Ntfs/Utf.antt =====
-- filesys/ntfs/unistr.c: the conversion of names between UTF-16 and UTF-8 (utf16_to_utf8_size,
-- ntfs_utf16_to_utf8, utf8_to_utf16_size, utf8_to_unicode, ntfs_utf8_to_utf16), with NOREVBOM 0. A
-- name of UTF-16 units is the list of its units. An UTF-8 string is the list of its bytes before the
-- NUL, so that a pointer at the NUL is the empty list. A mask of the low digits is written as a
-- remainder, and `|` of parts without common digits as their sum. An error is its errno: EILSEQ is
-- `illegal`, ENAMETOOLONG `too_long`. The allocations succeed.
pub mod Codes
pub mod To8
pub mod To16
pub mod Sound
pub mod Room
mod Tests
use rohos_disk_browser.Prelude.{
  ℕ, zero, suc, ◌+◌, ◌-◌, ◌*◌, ◌/◌, ◌%◌, List, [], ◌∷◌, ◌++◌, Option, none, some, Bool, true, false,
  ◌&&◌, ◌||◌, if◌then◌else◌, ltb, leb, ◌==◌, ◌>>=◌, length, drop,
}

pub data Conversion {ℓ} (A : Type ℓ) : Type ℓ where
  converted : A → Conversion A
  illegal : Conversion A
  too_long : Conversion A

abbrev pub path_max : ℕ
path_max = 4096

-- `c >= 0xdc00 && c < 0xe000`.
abbrev pub is_low_half : ℕ → Bool
is_low_half c = leb 0xdc00 c && ltb c 0xe000

-- How much a unit that is not in a pair adds to the count, and whether it opens a pair.
abbrev pub unit_size : ℕ → Option (Bool × ℕ)
unit_size c =
    if ltb c 0x80
    then some (false, 1)
    else (if ltb c 0x800
        then some (false, 2)
        else (if ltb c 0xd800
            then some (false, 3)
            else (if ltb c 0xdc00
                then some (true, 0)
                else (if leb 0xe000 c then some (false, 3) else none))))

-- A turn of the loop: the new `surrog` and what is added to `count`.
unfoldable pub size_step : Bool → ℕ → Option (Bool × ℕ)
size_step true c = if is_low_half c then some (false, 4) else none
size_step false c = unit_size c

unfoldable pub size_loop : Bool → ℕ → ℕ → List ℕ → Conversion ℕ
size_loop surrog count outs_len [] = if surrog then illegal else converted count
size_loop surrog count outs_len (c ∷ ins) = elim (c == 0) [
  | true ↦ if surrog then illegal else converted count
  | false ↦ elim (size_step surrog c) [
    | none ↦ illegal
    | some (surrog', more) ↦
        let rest = size_loop surrog' (count + more) outs_len ins in
        if ltb outs_len (count + more) then too_long else rest
  ]
]

unfoldable pub utf16_to_utf8_size : List ℕ → ℕ → Conversion ℕ
unfolding size_loop size_step
utf16_to_utf8_size ins outs_len = size_loop false 0 outs_len ins

-- The bytes of a pair of halves.
abbrev pub pair_bytes : ℕ → ℕ → List ℕ
pair_bytes halfpair c =
    (0xf0 + (halfpair + 64) / 256 % 8)
    ∷ (0x80 + (halfpair + 64) / 4 % 64)
    ∷ (0x80 + c / 64 % 16 + halfpair % 4 * 16)
    ∷ (0x80 + c % 64)
    ∷ []

abbrev pub two_bytes : ℕ → List ℕ
two_bytes c = (0xc0 + c / 64 % 64) ∷ (0x80 + c % 64) ∷ []

abbrev pub three_bytes : ℕ → List ℕ
three_bytes c = (0xe0 + c / 4096) ∷ (0x80 + c / 64 % 64) ∷ (0x80 + c % 64) ∷ []

-- The bytes of a unit that is not in a pair, and the new `halfpair`.
abbrev pub unit_bytes : ℕ → Option (ℕ × List ℕ)
unit_bytes c =
    if ltb c 0x80
    then some (0, c ∷ [])
    else (if ltb c 0x800
        then some (0, two_bytes c)
        else (if ltb c 0xd800
            then some (0, three_bytes c)
            else (if ltb c 0xdc00
                then some (c, [])
                else (if leb 0xe000 c then some (0, three_bytes c) else none))))

unfoldable pub put_step : ℕ → ℕ → Option (ℕ × List ℕ)
put_step halfpair c =
    if halfpair == 0
    then unit_bytes c
    else (if is_low_half c then some (0, pair_bytes halfpair c) else none)

-- The bytes that the loop writes, and the NUL behind them.
unfoldable pub put_loop : ℕ → List ℕ → Option (List ℕ)
put_loop halfpair [] = some (0 ∷ [])
put_loop halfpair (c ∷ ins) = elim (c == 0) [
  | true ↦ some (0 ∷ [])
  | false ↦ do
    (halfpair', bytes) ← put_step halfpair c
    rest ← put_loop halfpair' ins
    some (bytes ++ rest)
]

-- What the outcome of the size makes of the bytes written.
abbrev pub with_size : Conversion ℕ → Option (List ℕ) → Conversion (List ℕ)
with_size (converted size) none = illegal
with_size (converted size) (some bytes) = converted bytes
with_size illegal bytes = illegal
with_size too_long bytes = too_long

abbrev pub room_size : Option ℕ → ℕ
room_size none = path_max
room_size (some n) = n

-- What is written from *outs on, the NUL included. The room is the caller's `outs_len`, or none where
-- *outs is NULL.
unfoldable pub utf16_to_utf8 : List ℕ → Option ℕ → Conversion (List ℕ)
unfolding put_loop put_step utf16_to_utf8_size
utf16_to_utf8 ins room = with_size (utf16_to_utf8_size ins (room_size room)) (put_loop 0 ins)

-- `if (!*s) break; if (skip) s++;`, where none is the break.
abbrev pub skip_byte : Bool → List ℕ → Option (List ℕ)
skip_byte skip [] = none
skip_byte skip (x ∷ s) = some (if skip then s else x ∷ s)

-- From behind a byte to the next sequence, or none where a break ends the loop.
unfoldable pub after_lead : ℕ → List ℕ → Option (List ℕ)
after_lead byte s = do
  s1 ← skip_byte (leb 0xc0 byte) s
  s2 ← skip_byte (leb 0xe0 byte) s1
  skip_byte (leb 0xf0 byte) s2

unfoldable pub units_loop : ℕ → ℕ → List ℕ → Conversion ℕ
units_loop zero count s = converted count
units_loop (suc fuel) count [] = converted count
units_loop (suc fuel) count (byte ∷ s) =
    if leb path_max (count + 1)
    then too_long
    else (if leb 0xf5 byte then illegal else elim (after_lead byte s) [
      | none ↦ converted (count + 1)
      | some s' ↦ elim (leb 0xf0 byte) [
        | true ↦
            let rest = units_loop fuel (count + 2) s' in
            if leb path_max (count + 2) then too_long else rest
        | false ↦ units_loop fuel (count + 1) s'
      ]
    ])

unfoldable pub utf8_to_utf16_size : List ℕ → Conversion ℕ
unfolding units_loop after_lead
utf8_to_utf16_size s = units_loop (length s) 0 s

-- `(b & 0xC0) == 0x80` of a byte.
abbrev pub is_tail : ℕ → Bool
is_tail b = b / 64 == 2

abbrev pub two_code : ℕ → List ℕ → Option (ℕ × ℕ)
two_code byte [] = none
two_code byte (b ∷ s) = if is_tail b then some (byte % 32 * 64 + b % 64, 2) else none

abbrev pub three_code : ℕ → List ℕ → Option (ℕ × ℕ)
three_code byte (b ∷ c ∷ s) =
    let wc = byte % 16 * 4096 + b % 64 * 64 + c % 64 in
    if is_tail b && is_tail c
    then (if (leb 0x800 wc && leb wc 0xd7ff) || (leb 0xe000 wc && leb wc 0xffff)
        then some (wc, 3)
        else none)
    else none
three_code byte _ = none

abbrev pub four_code : ℕ → List ℕ → Option (ℕ × ℕ)
four_code byte (b ∷ c ∷ d ∷ s) =
    let wc = byte % 8 * 262144 + b % 64 * 4096 + c % 64 * 64 + d % 64 in
    if is_tail b && (is_tail c && is_tail d)
    then (if leb wc 0x10ffff && leb 0x10000 wc then some (wc, 4) else none)
    else none
four_code byte _ = none

-- The code and the number of its bytes, or none for -1.
unfoldable pub utf8_to_unicode : List ℕ → Option (ℕ × ℕ)
utf8_to_unicode [] = some (0, 0)
utf8_to_unicode (byte ∷ s) =
    if ltb byte 0x80
    then some (byte, 1)
    else (if ltb byte 0xc2
        then none
        else (if ltb byte 0xe0
            then two_code byte s
            else (if ltb byte 0xf0
                then three_code byte s
                else (if ltb byte 0xf5 then four_code byte s else none))))

abbrev pub code_units : ℕ → List ℕ
code_units wc =
    if ltb wc 0x10000
    then wc ∷ []
    else ((wc - 0x10000) / 1024 + 0xd800) ∷ ((wc - 0x10000) % 1024 + 0xdc00) ∷ []

-- The units that the loop writes, and whether it ends by its break.
unfoldable pub units_written : ℕ → List ℕ → List ℕ × Bool
units_written zero s = ([], false)
units_written (suc fuel) s = elim (utf8_to_unicode s) [
  | none ↦ ([], false)
  | some (wc, m) ↦ elim (m == 0) [
    | true ↦ (code_units wc, true)
    | false ↦ let (rest, done) = units_written fuel (drop m s) in (code_units wc ++ rest, done)
  ]
]

-- What is written from *outs on, the NUL included.
unfoldable pub utf8_to_utf16 : List ℕ → Conversion (List ℕ)
unfolding units_written utf8_to_unicode utf8_to_utf16_size
utf8_to_utf16 s =
    let (units, done) = units_written (suc (length s)) s in
    with_size (utf8_to_utf16_size s) (if done then some units else none)
