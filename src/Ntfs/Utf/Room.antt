-- ===== src/Ntfs/Utf/Room.antt =====
-- The room that the two conversions write to.
use rohos_disk_browser.Prelude.{
  ℕ, zero, suc, ◌+◌, ◌≤◌, ◌≡◌, sym, ap, ◌∙◌, inl, inr, List, [], ◌∷◌, ◌++◌, some, Bool, true, leb,
  length, length-append, arith, Option-cases,
}
use rohos_disk_browser.Ntfs.Utf.{
  Conversion, converted, after_lead, units_loop, units_written, utf8_to_utf16_size, utf16_to_utf8,
}
use rohos_disk_browser.Ntfs.Utf.Codes.{AreCodes, utf8_code, utf16_code, utf8, utf16}
use rohos_disk_browser.Ntfs.Utf.To8.{utf16_to_utf8_codes}
use rohos_disk_browser.Ntfs.Utf.To16.{units_of_code, counted, width, code_pos}
use rohos_disk_browser.Ntfs.Utf.Sound.{AreBytes, Decoded, whole, part, decoded}
use mathlib.Core.List.{append_assoc, append-nil}

-- The loop only counts up.
count_grows : (fuel count n : ℕ) (s : List ℕ) → units_loop fuel count s ≡ converted n → count ≤ n
unfolding units_loop
count_grows zero count n s e = ground arith
count_grows (suc fuel) count n [] e = ground arith
count_grows (suc fuel) count n (byte ∷ s) e = elim (Option-cases (after_lead byte s)) [
  | inl stop ↦ ground arith
  | inr (s', next) ↦
      ground (arith, count_grows fuel (count + 1) n s', count_grows fuel (count + 2) n s')
]

counted_some : (k n : ℕ) (rest : Conversion ℕ) → counted k rest ≡ converted n → rest ≡ converted n
counted_some k n rest e = ground arith

-- Where a string begins with characters, their units are counted.
counts_codes :
    (cs bad : List ℕ) (fuel count n : ℕ)
    → AreCodes cs
    → length (utf8 cs) ≤ fuel
    → units_loop fuel count (utf8 cs ++ bad) ≡ converted n
    → count + length (utf16 cs) ≤ n
unfolding utf8 utf16
counts_codes [] bad fuel count n h le e = omega (arith, count_grows fuel count n bad e)
counts_codes (c ∷ cs) bad zero count n (hc, hcs) le e =
    absurd (omega (arith, length-append (utf8_code c) (utf8 cs), code_pos c))
counts_codes (c ∷ cs) bad (suc fuel) count n (hc, hcs) le e =
    let split = units_of_code fuel count c (utf8 cs ++ bad) (width c) hc in
    let next = count + length (utf16_code c) in
    let few : length (utf8 cs) ≤ fuel =
      omega (arith, length-append (utf8_code c) (utf8 cs), code_pos c) in
    let whole_e : units_loop (suc fuel) count (utf8_code c ++ (utf8 cs ++ bad)) ≡ converted n =
      rw append_assoc at e in
    let after : units_loop fuel next (utf8 cs ++ bad) ≡ converted n =
      counted_some next n (units_loop fuel next (utf8 cs ++ bad)) (sym split ∙ whole_e) in
    omega (
      arith,
      length-append (utf16_code c) (utf16 cs),
      counts_codes cs bad fuel next n hcs few after,
    )

written_fits :
    (s : List ℕ) (w : List ℕ × Bool) (fuel n : ℕ)
    → Decoded s w
    → length s ≤ fuel
    → units_loop fuel 0 s ≡ converted n
    → length w.0 ≤ n + 1
written_fits s w fuel n (whole cs h f g) le e =
    let same : utf8 cs ++ [] ≡ s = append-nil (utf8 cs) ∙ sym f in
    let few =
      counts_codes cs [] fuel 0 n h (omega (arith, ap length f))
        (ap (units_loop fuel 0) same ∙ e) in
    rw g (omega (arith, few, length-append (utf16 cs) (0 ∷ [])))
written_fits s w fuel n (part cs bad h f g) le e =
    let long : length (utf8 cs) ≤ fuel = omega (arith, ap length f, length-append (utf8 cs) bad) in
    let few = counts_codes cs bad fuel 0 n h long (ap (units_loop fuel 0) (sym f) ∙ e) in
    rw g (omega (arith, few))

-- The conversion of a string of bytes before a NUL to UTF-16 writes at most as many units as the
-- buffer of `shorts + 1` has that is allocated for it, whether or not the string is refused on the
-- way.
pub utf8_to_utf16_fits :
    (s : List ℕ) (shorts : ℕ)
    → AreBytes s
    → utf8_to_utf16_size s ≡ converted shorts
    → length (units_written (suc (length s)) s).0 ≤ shorts + 1
unfolding utf8_to_utf16_size
utf8_to_utf16_fits s shorts bytes e =
    written_fits s (units_written (suc (length s)) s) (length s) shorts
      (decoded (suc (length s)) s bytes (omega arith)) (omega arith) e

-- The check of the room in the conversion to UTF-8 leaves out the NUL: into a buffer of just as many
-- bytes as the encoding has, the conversion succeeds and writes one byte past the buffer.
pub utf16_to_utf8_past_end :
    (cs : List ℕ)
    → AreCodes cs
    → (bytes : List ℕ) × (utf16_to_utf8 (utf16 cs) (some (length (utf8 cs))) ≡ converted bytes)
      × (length bytes ≡ length (utf8 cs) + 1)
utf16_to_utf8_past_end cs h =
    let self : leb (length (utf8 cs)) (length (utf8 cs)) ≡ true = ground arith in
    (
      utf8 cs ++ (0 ∷ []),
      utf16_to_utf8_codes cs (some (length (utf8 cs))) h ∙ rw self,
      length-append (utf8 cs) (0 ∷ []),
    )
