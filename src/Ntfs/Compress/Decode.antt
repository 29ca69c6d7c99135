-- ===== src/Ntfs/Compress/Decode.antt =====
-- Tokens in their format are decoded to what they stand for.
use rohos_disk_browser.Prelude.{
  ltb→lt, ℕ, zero, suc, ◌+◌, ◌-◌, ◌*◌, ◌/◌, ◌%◌, ◌^◌, ◌<◌, ◌≤◌, ◌≡◌, ◌≢◌, refl, ap, ◌∙◌, ◌⊎◌, List,
  [], ◌∷◌, ◌++◌, some, inl, inr, true, false, ◌||◌, ltb, leb, ◌==◌, length, get_or, length-append,
  arith, Bool-cases,
}
use rohos_disk_browser.Prelude.Store.{get_elem?-get_or}
use rohos_disk_browser.Ntfs.Compress.{
  next, sb_size, lg_loop, copy_bytes, copy_phrase, phrase, token, tokens,
}
use rohos_disk_browser.Ntfs.Compress.Format.{
  Token, symbol, repeated, extra_digits, length_range, IsToken, token_size, AreTokens,
  phrase_number, token_bytes, tokens_bytes, token_bit, tag_of, repeat, token_value, tokens_value,
}
use native.Mathlib.Nat.{pow-suc, add-zero}
use mathlib.Core.List.{append_assoc}
use rohos_disk_browser.Ntfs.Compress.Copy.{copy_phrase_lem}
use rohos_disk_browser.Ntfs.Compress.Steps.{tokens_stop, tokens_more}

pow_pos : (k : ℕ) → 0 < 2 ^ k
pow_pos zero = omega arith
pow_pos (suc k) = omega (arith, pow-suc 2 k, pow_pos k)

-- The loop that computes `lg`, of a number with four digits and `k` more.
lg_value :
    (k fuel i : ℕ) → k < fuel → i < 16 * 2 ^ k → (k ≡ 0) ⊎ (8 * 2 ^ k ≤ i) → lg_loop fuel i ≡ k
unfolding lg_loop
lg_value k zero i few lt ge = absurd (omega arith)
lg_value zero (suc fuel) i few lt ge = ground arith
lg_value (suc k) (suc fuel) i few lt (inl e) = absurd (omega arith)
lg_value (suc k) (suc fuel) i few lt (inr ge) =
    let twice = pow-suc 2 k in
    let half : i / 2 < 16 * 2 ^ k = omega (arith, twice, lt) in
    let big : leb 16 i ≡ true = ground (arith, twice, pow_pos k, ge) in
    rw big (ap suc (lg_value k fuel (i / 2) (omega arith) half (inr (omega (arith, twice)))))

data Digits (at : ℕ) : Type 0 where
  digits :
      (k : ℕ)
      → k < 9
      → at ≤ 16 * 2 ^ k
      → (k ≡ 0) ⊎ (8 * 2 ^ k < at)
      → extra_digits at ≡ k
      → Digits at

at-Digits : (at : ℕ) → at ≤ 4096 → Digits at
at-Digits at h = elim (Bool-cases (ltb 2048 at)) [
  | inl h0 ↦ digits 8 (omega arith) h (inr (ltb→lt 2048 at h0)) (unfold extra_digits in rw h0)
  | inr h0 ↦ elim (Bool-cases (ltb 1024 at)) [
    | inl h1 ↦
        digits 7 (omega arith) (ground arith) (inr (ltb→lt 1024 at h1))
          (unfold extra_digits in rw (h0, h1))
    | inr h1 ↦ elim (Bool-cases (ltb 512 at)) [
      | inl h2 ↦
          digits 6 (omega arith) (ground arith) (inr (ltb→lt 512 at h2))
            (unfold extra_digits in rw (h0, h1, h2))
      | inr h2 ↦ elim (Bool-cases (ltb 256 at)) [
        | inl h3 ↦
            digits 5 (omega arith) (ground arith) (inr (ltb→lt 256 at h3))
              (unfold extra_digits in rw (h0, h1, h2, h3))
        | inr h3 ↦ elim (Bool-cases (ltb 128 at)) [
          | inl h4 ↦
              digits 4 (omega arith) (ground arith) (inr (ltb→lt 128 at h4))
                (unfold extra_digits in rw (h0, h1, h2, h3, h4))
          | inr h4 ↦ elim (Bool-cases (ltb 64 at)) [
            | inl h5 ↦
                digits 3 (omega arith) (ground arith) (inr (ltb→lt 64 at h5))
                  (unfold extra_digits in rw (h0, h1, h2, h3, h4, h5))
            | inr h5 ↦ elim (Bool-cases (ltb 32 at)) [
              | inl h6 ↦
                  digits 2 (omega arith) (ground arith) (inr (ltb→lt 32 at h6))
                    (unfold extra_digits in rw (h0, h1, h2, h3, h4, h5, h6))
              | inr h6 ↦ elim (Bool-cases (ltb 16 at)) [
                | inl h7 ↦
                    digits 1 (omega arith) (ground arith) (inr (ltb→lt 16 at h7))
                      (unfold extra_digits in rw (h0, h1, h2, h3, h4, h5, h6, h7))
                | inr h7 ↦
                    digits 0 (omega arith) (ground arith) (inl refl)
                      (unfold extra_digits in rw (h0, h1, h2, h3, h4, h5, h6, h7))
              ]
            ]
          ]
        ]
      ]
    ]
  ]
]

lg_digits : (at : ℕ) → 0 < at → at ≤ 4096 → lg_loop 16 (at - 1) ≡ extra_digits at
lg_digits at pos h = of_digits (at-Digits at h)
  where
    of_digits : Digits at → lg_loop 16 (at - 1) ≡ extra_digits at
    of_digits (digits k few hi (inl e) eq) =
        rw eq (lg_value k 16 (at - 1) (omega arith) (omega arith) (inl e))
    of_digits (digits k few hi (inr lo) eq) =
        rw eq (lg_value k 16 (at - 1) (omega arith) (omega arith) (inr (omega arith)))

-- Bytes copied from `distance` before the end are the repeated ones.
copied :
    (len distance : ℕ) (out : List ℕ)
    → 0 < distance
    → distance ≤ length out
    → copy_bytes len (length out - distance) out ≡ some (repeat distance len out)
unfolding copy_bytes repeat
copied zero distance out pos h = refl
copied (suc len) distance out pos h =
    let at = length out - distance in
    let n = length-append out (get_or out at 0 ∷ []) in
    let past : at + 1 ≡ length (out ++ (get_or out at 0 ∷ [])) - distance = omega arith in
    rw (get_elem?-get_or out at 0 (omega arith), past)
      (copied len distance (out ++ (get_or out at 0 ∷ [])) pos (omega arith))

pub length-repeat :
    (distance len : ℕ) (out : List ℕ) → length (repeat distance len out) ≡ length out + len
unfolding repeat
length-repeat distance zero out = omega arith
length-repeat distance (suc len) out = omega (
  arith,
  length-repeat distance len (out ++ (get_or out (length out - distance) 0 ∷ [])),
  length-append out (get_or out (length out - distance) 0 ∷ []),
)

-- A number of two digits in the base `r`.
quotient : (q r m : ℕ) → m < r → (q * r + m) / r ≡ q
quotient q r m h = grind arith

remainder : (q r m : ℕ) → m < r → (q * r + m) % r ≡ m
remainder q r m h = grind arith

phrase_value :
    (sb_start pt cb lg distance len : ℕ) (mem out out' : List ℕ)
    → lg_loop 16 (length out - sb_start - 1) ≡ lg
    → pt / 2 ^ (12 - lg) ≡ distance - 1
    → pt % 2 ^ (12 - lg) ≡ len - 3
    → 1 ≤ distance
    → 3 ≤ len
    → sb_start + distance ≤ length out
    → length out + len ≤ sb_start + 4096
    → copy_phrase len (length out - distance) out ≡ some out'
    → phrase sb_start pt cb mem out ≡ some (next (cb + 2) mem out')
unfolding phrase
phrase_value sb_start pt cb lg distance len mem out out' lg_eq dist_eq len_eq d l near fits copy =
    let d' : distance - 1 + 1 ≡ distance = omega arith in
    let l' : len - 3 + 3 ≡ len = omega arith in
    let t1 : ltb (length out) (sb_start + distance) ≡ false = ground arith in
    let t2 : ltb (sb_start + sb_size) (length out + len) ≡ false = ground arith in
    rw (lg_eq, dist_eq, len_eq, d', l', t1, t2, copy)

module _ (sb_start cb at : ℕ) (mem out : List ℕ) (place : length out ≡ sb_start + at) where
  phrase_lem :
      (distance len : ℕ)
      → IsToken at (repeated distance len)
      → phrase sb_start (phrase_number at distance len) cb mem out
        ≡ some (next (cb + 2) mem (repeat distance len out))
  phrase_lem distance len (d, da, l, lr, fits) =
      let at_eq : length out - sb_start - 1 ≡ at - 1 = omega arith in
      phrase_value sb_start (phrase_number at distance len) cb (extra_digits at) distance len mem
        out (repeat distance len out)
        (ap (lg_loop 16) at_eq ∙ lg_digits at (omega arith) (omega arith))
        (quotient (distance - 1) (length_range at) (len - 3) (omega arith))
        (remainder (distance - 1) (length_range at) (len - 3) (omega arith)) d l (omega arith)
        (omega arith)
        (copy_phrase_lem len (length out - distance) out (omega arith)
          ∙ copied len distance out (omega arith) (omega arith))

pub token-phrase :
    (sb_start tag cb x y : ℕ) (mem out : List ℕ)
    → tag % 2 ≢ 0
    → length out ≢ sb_start
    → token sb_start tag cb (x ∷ y ∷ mem) out ≡ phrase sb_start (x + 256 * y) cb mem out
unfolding token
token-phrase sb_start tag cb x y mem out odd later =
    let set : (tag % 2 == 0) ≡ false = ground arith in
    let on : (length out == sb_start) ≡ false = ground arith in rw (set, on)

token-symbol :
    (sb_start tag cb x : ℕ) (mem out : List ℕ)
    → tag % 2 ≡ 0
    → token sb_start tag cb (x ∷ mem) out ≡ some (next (cb + 1) mem (out ++ (x ∷ [])))
unfolding token
token-symbol sb_start tag cb x mem out even =
    let clear : (tag % 2 == 0) ≡ true = ground arith in rw clear

token_lem :
    (sb_start tag cb at : ℕ) (t : Token) (mem out : List ℕ)
    → tag % 2 ≡ token_bit t
    → IsToken at t
    → length out ≡ sb_start + at
    → token sb_start tag cb (token_bytes at t ++ mem) out
      ≡ some (next (cb + length (token_bytes at t)) mem (token_value t out))
token_lem sb_start tag cb at (symbol x) mem out bit h place =
    token-symbol sb_start tag cb x mem out bit
token_lem sb_start tag cb at (repeated distance len) mem out bit h place =
    let n : ℕ = phrase_number at distance len in
    let whole : n % 256 + 256 * (n / 256) ≡ n = omega arith in
    token-phrase sb_start tag cb (n % 256) (n / 256) mem out (omega arith) (omega arith)
    ∙ ap (λ k. phrase sb_start k cb mem out) whole
    ∙ phrase_lem sb_start cb at mem out place distance len h

token_bytes_pos : (at : ℕ) (t : Token) → 0 < length (token_bytes at t)
token_bytes_pos at (symbol x) = omega arith
token_bytes_pos at (repeated distance len) = omega arith

pub length-token_value :
    (t : Token) (out : List ℕ) → length (token_value t out) ≡ length out + token_size t
length-token_value (symbol x) out = length-append out (x ∷ [])
length-token_value (repeated distance len) out = length-repeat distance len out

IsToken-at : (at : ℕ) (t : Token) → IsToken at t → at ≤ 4096
IsToken-at at (symbol x) h = omega arith
IsToken-at at (repeated distance len) h = omega arith

tag_digits :
    (t : Token) (k : ℕ)
    → ((token_bit t + 2 * k) / 2 ≡ k) × ((token_bit t + 2 * k) % 2 ≡ token_bit t)
tag_digits (symbol x) k = omega arith
tag_digits (repeated distance len) k = omega arith

module _ (sb_start sb_end : ℕ) where
  -- The tokens of a tag: eight, or fewer at the end of the sub-block.
  pub tokens_lem :
      (ts : List Token) (n at cb : ℕ) (mem out : List ℕ)
      → AreTokens at ts
      → length ts ≤ n
      → (length ts ≡ n) ⊎ (cb + length (tokens_bytes at ts) ≡ sb_end)
      → cb + length (tokens_bytes at ts) ≤ sb_end
      → length out ≡ sb_start + at
      → tokens n sb_start sb_end (tag_of ts) cb (tokens_bytes at ts ++ mem) out
        ≡ some (next (cb + length (tokens_bytes at ts)) mem (tokens_value ts out))
  unfolding tokens_bytes tag_of tokens_value
  tokens_lem [] zero at cb mem out h few end room place = unfold tokens in rw add-zero
  tokens_lem [] (suc n) at cb mem out h few end room place =
      let stop : (leb sb_end cb || ltb (sb_start + sb_size) (length out)) ≡ true = ground arith in
      tokens_stop n sb_start sb_end 0 cb mem out stop ∙ rw add-zero
  tokens_lem (t ∷ ts) zero at cb mem out h few end room place = absurd (omega arith)
  tokens_lem (t ∷ ts) (suc n) at cb mem out (ht, hts) few end room place =
      let bytes = token_bytes at t in
      let rest = tokens_bytes (at + token_size t) ts in
      let both = length-append bytes rest in
      let pos = token_bytes_pos at t in
      let in_sb = IsToken-at at t ht in
      let on : (leb sb_end cb || ltb (sb_start + sb_size) (length out)) ≡ false = ground arith in
      let half : (token_bit t + 2 * tag_of ts) / 2 ≡ tag_of ts = (tag_digits t (tag_of ts)).0 in
      let bit : (token_bit t + 2 * tag_of ts) % 2 ≡ token_bit t = (tag_digits t (tag_of ts)).1 in
      let sum : cb + length bytes + length rest ≡ cb + length (bytes ++ rest) = omega arith in
      rw (append_assoc bytes rest mem) (
        tokens_more n sb_start sb_end (token_bit t + 2 * tag_of ts) cb (bytes ++ (rest ++ mem)) out
          on
        ∙ rw
            (
              token_lem sb_start (token_bit t + 2 * tag_of ts) cb at t (rest ++ mem) out bit ht
                  place,
              half,
            )
            (tokens_lem ts n (at + token_size t) (cb + length bytes) mem (token_value t out) hts
                (omega arith) (elim end [ inl e ↦ inl (omega arith) | inr e ↦ inr (omega arith) ])
                (omega arith) (omega (arith, length-token_value t out))
              ∙ ap (λ k. some (next k mem (tokens_value ts (token_value t out)))) sum))
