-- ===== src/Ntfs/Utf/To8.antt =====
-- From UTF-16 to UTF-8, character by character.
use rohos_disk_browser.Prelude.{
  ℕ, ◌+◌, ◌<◌, ◌≤◌, ◌≡◌, refl, sym, ap, ◌∙◌, inl, inr, List, [], ◌∷◌, ◌++◌, Option, none, some,
  Bool, true, false, if◌then◌else◌, ltb, leb, ◌==◌, ◌>>=◌, length, length-append, arith, Bool-cases,
}
use rohos_disk_browser.Ntfs.Utf.{
  converted, too_long, pair_bytes, size_step, size_loop, put_step, put_loop, utf16_to_utf8,
  utf16_to_utf8_size, room_size,
}
use rohos_disk_browser.Ntfs.Utf.Codes.{
  IsCode, AreCodes, utf8_code, utf16_code, utf8, utf16, high_half, low_half, utf16_single,
  utf16_pair, code_cases,
}
use mathlib.Core.List.{append_assoc}
use native.Mathlib.Nat.{add_assoc, add-zero, zero-add}

module _ (c : ℕ) (h : IsCode c) (small : c < 0x10000) where
  put_single : put_step 0 c ≡ some (0, utf8_code c)
  unfolding put_step utf8_code
  put_single = ground arith

  size_single : size_step false c ≡ some (false, length (utf8_code c))
  unfolding size_step utf8_code
  size_single = ground arith

module _ (c : ℕ) (h : c < 0x110000) (big : 0x10000 ≤ c) where
  put_high : put_step 0 (high_half c) ≡ some (high_half c, [])
  unfolding put_step
  put_high = ground arith

  four_bytes : pair_bytes (high_half c) (low_half c) ≡ utf8_code c
  unfolding utf8_code
  four_bytes = ground arith

  put_low : put_step (high_half c) (low_half c) ≡ some (0, pair_bytes (high_half c) (low_half c))
  unfolding put_step
  put_low = ground arith

  size_high : size_step false (high_half c) ≡ some (true, 0)
  unfolding size_step
  size_high = ground arith

  size_low : size_step true (low_half c) ≡ some (false, length (utf8_code c))
  unfolding size_step utf8_code
  size_low = ground arith

abbrev joined : List ℕ → Option (List ℕ) → Option (List ℕ)
joined bytes rest = rest >>= λ r. some (bytes ++ r)

-- A turn of the loop on a unit that is not 0.
put_turn :
    (halfpair c : ℕ) (ins : List ℕ) {halfpair' : ℕ} {bytes : List ℕ}
    → 0 < c
    → put_step halfpair c ≡ some (halfpair', bytes)
    → put_loop halfpair (c ∷ ins) ≡ joined bytes (put_loop halfpair' ins)
unfolding put_loop
put_turn halfpair c ins pos e =
    let full : (c == 0) ≡ false = ground arith in rw (full, put_loop) (rw e)

size_turn :
    (surrog : Bool) (count outs_len c : ℕ) (ins : List ℕ) {surrog' : Bool} {more : ℕ}
    → 0 < c
    → size_step surrog c ≡ some (surrog', more)
    → size_loop surrog count outs_len (c ∷ ins) ≡ (
        if ltb outs_len (count + more)
        then too_long
        else size_loop surrog' (count + more) outs_len ins)
unfolding size_loop
size_turn surrog count outs_len c ins pos e =
    let full : (c == 0) ≡ false = ground arith in rw (full, size_loop) (rw e)

-- Two bytes strings in front of the rest.
joined_nil :
    (bytes : List ℕ) (rest : Option (List ℕ)) → joined [] (joined bytes rest) ≡ joined bytes rest
joined_nil bytes none = refl
joined_nil bytes (some r) = refl

module _ (c : ℕ) (h : IsCode c) (rest : List ℕ) where
  put_code : put_loop 0 (utf16_code c ++ rest) ≡ joined (utf8_code c) (put_loop 0 rest)
  put_code = elim (code_cases c) [
    | inl small ↦ rw (utf16_single c small) (put_turn 0 c rest h.0 (put_single c h small))
    | inr big ↦ rw (utf16_pair c big) (
        put_turn 0 (high_half c) (low_half c ∷ rest) (omega arith) (put_high c h.1 big)
        ∙ ap (joined []) (second big)
        ∙ joined_nil (utf8_code c) (put_loop 0 rest))
  ]
    where
      second :
          0x10000 ≤ c
          → put_loop (high_half c) (low_half c ∷ rest) ≡ joined (utf8_code c) (put_loop 0 rest)
      second big =
          rw (← four_bytes c h.1 big)
            (put_turn (high_half c) (low_half c) rest (omega arith) (put_low c h.1 big))

  size_code :
      (count outs_len : ℕ)
      → count ≤ outs_len
      → size_loop false count outs_len (utf16_code c ++ rest) ≡ (
          if ltb outs_len (count + length (utf8_code c))
          then too_long
          else size_loop false (count + length (utf8_code c)) outs_len rest)
  size_code count outs_len le = elim (code_cases c) [
    | inl small ↦
        rw (utf16_single c small)
          (size_turn false count outs_len c rest h.0 (size_single c h small))
    | inr big ↦
        let room : ltb outs_len (count + 0) ≡ false = ground arith in
        rw (utf16_pair c big) (
          size_turn false count outs_len (high_half c) (low_half c ∷ rest) (omega arith)
            (size_high c h.1 big)
          ∙ rw (room, add-zero)
              (size_turn true count outs_len (low_half c) rest (omega arith) (size_low c h.1 big)))
  ]

put_codes : (cs : List ℕ) → AreCodes cs → put_loop 0 (utf16 cs) ≡ some (utf8 cs ++ (0 ∷ []))
unfolding utf16 utf8
put_codes [] h = unfold put_loop in refl
put_codes (c ∷ cs) (hc, hcs) =
    put_code c hc (utf16 cs)
    ∙ rw (put_codes cs hcs) (ap some (sym (append_assoc (utf8_code c) (utf8 cs) (0 ∷ []))))

size_codes :
    (cs : List ℕ) (count outs_len : ℕ)
    → AreCodes cs
    → count ≤ outs_len
    → size_loop false count outs_len (utf16 cs) ≡ (
        if leb (count + length (utf8 cs)) outs_len
        then converted (count + length (utf8 cs))
        else too_long)
unfolding utf16 utf8
size_codes [] count outs_len h le = unfold size_loop in ground arith
size_codes (c ∷ cs) count outs_len (hc, hcs) le =
    size_code c hc (utf16 cs) count outs_len le
    ∙ rw (length-append (utf8_code c) (utf8 cs)) (elim (Bool-cases (ltb outs_len (count + n))) [
      | inl over ↦
          let none_left : leb (count + (n + m)) outs_len ≡ false = ground arith in
          rw (over, none_left)
      | inr room ↦
          rw (room, ← add_assoc count n m) (size_codes cs (count + n) outs_len hcs (ground arith))
    ])
  where
    n : ℕ
    n = length (utf8_code c)

    m : ℕ
    m = length (utf8 cs)

-- Characters without NUL convert to their UTF-8 encoding, with a NUL behind it, where that has at
-- most as many bytes as the room, or 4096 where the string is allocated. Elsewhere the conversion is
-- refused with ENAMETOOLONG.
pub utf16_to_utf8_codes :
    (cs : List ℕ) (room : Option ℕ)
    → AreCodes cs
    → utf16_to_utf8 (utf16 cs) room ≡ (
        if leb (length (utf8 cs)) (room_size room)
        then converted (utf8 cs ++ (0 ∷ []))
        else too_long)
unfolding utf16_to_utf8 utf16_to_utf8_size
utf16_to_utf8_codes cs room h = elim (Bool-cases (leb (length (utf8 cs)) (room_size room))) [
  | inl fits ↦ rw (size_codes cs 0 (room_size room) h (omega arith), put_codes cs h, zero-add, fits)
  | inr over ↦ rw (size_codes cs 0 (room_size room) h (omega arith), zero-add, over)
]
