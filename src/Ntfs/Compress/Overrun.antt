-- ===== src/Ntfs/Compress/Overrun.antt =====
-- A symbol behind a full sub-block.
use rohos_disk_browser.Prelude.{
  ℕ, zero, suc, ◌+◌, ◌/◌, ◌%◌, ◌<◌, ◌≤◌, ◌≡◌, refl, ap, ◌∙◌, List, [], ◌∷◌, ◌++◌, some, true, false,
  ◌||◌, ltb, leb, length, replicate, get_elem?, length-append, length-replicate, arith,
}
use rohos_disk_browser.Ntfs.Compress.{
  next, sb_size, copy_bytes, copy_phrase, phrase, token, tokens, filled, tags, sub_block,
  sub_blocks, decompress, on_return,
}
use rohos_disk_browser.Ntfs.Compress.Copy.{copy_phrase_lem}
use rohos_disk_browser.Ntfs.Compress.Steps.{
  tokens_stop, tokens_more, tags_end, tags_more, sub_blocks_more, sub_blocks_end,
}
use rohos_disk_browser.Ntfs.Compress.Decode.{token-phrase}
use native.Mathlib.Nat.{add-zero}

get_elem?-replicate : (m i a : ℕ) → i < m → get_elem? (replicate m a) i ≡ some a
get_elem?-replicate zero i a h = absurd (omega arith)
get_elem?-replicate (suc m) zero a h = refl
get_elem?-replicate (suc m) (suc i) a h = get_elem?-replicate m i a (omega arith)

replicate_last : (m a : ℕ) → replicate m a ++ (a ∷ []) ≡ replicate (suc m) a
replicate_last zero a = refl
replicate_last (suc m) a = ap (λ t. a ∷ t) (replicate_last m a)

-- A copy out of equal bytes goes on with them.
copy_bytes_equal :
    (n m back a : ℕ) → back < m → copy_bytes n back (replicate m a) ≡ some (replicate (m + n) a)
unfolding copy_bytes
copy_bytes_equal zero m back a h = rw add-zero
copy_bytes_equal (suc n) m back a h =
    let more : suc m + n ≡ m + suc n = omega arith in
    rw (get_elem?-replicate m back a h, replicate_last m a)
      (copy_bytes_equal n (suc m) (back + 1) a (omega arith) ∙ ap (λ k. some (replicate k a)) more)

-- The phrase that repeats the first byte of a sub-block.
run_phrase :
    (pt cb a : ℕ) (mem : List ℕ)
    → pt ≤ 4092
    → phrase 0 pt cb mem (a ∷ []) ≡ some (next (cb + 2) mem (replicate (1 + (pt + 3)) a))
unfolding phrase
run_phrase pt cb a mem h =
    let far : pt / 4096 ≡ 0 = omega arith in
    let low : pt % 4096 ≡ pt = omega arith in
    let fits : ltb 4096 (1 + (pt + 3)) ≡ false = ground arith in rw (far, low, fits, copied)
  where
    copied : copy_phrase (pt + 3) 0 (a ∷ []) ≡ some (replicate (1 + (pt + 3)) a)
    copied =
        copy_phrase_lem (pt + 3) 0 (a ∷ []) (omega arith)
        ∙ copy_bytes_equal (pt + 3) 1 0 a (omega arith)

module _ (a b : ℕ) (rest out : List ℕ) (full : length out ≡ 4096) where
  last_token : tokens 6 0 7 0 6 (b ∷ rest) out ≡ some (next 7 rest (out ++ (b ∷ [])))
  last_token =
      let on : (leb 7 6 || ltb (0 + sb_size) (length out)) ≡ false = ground arith in
      let symbol : token 0 0 6 (b ∷ rest) out ≡ some (next 7 rest (out ++ (b ∷ []))) =
        unfold token in refl in
      tokens_more 5 0 7 0 6 (b ∷ rest) out on
      ∙ rw symbol (tokens_stop 4 0 7 0 7 rest (out ++ (b ∷ [])) refl)

  full_filled : filled 0 (out ++ (b ∷ [])) ≡ out ++ (b ∷ [])
  full_filled = ground (arith, length-append out (b ∷ []))

-- A sub-block of the tag 2, the symbol `a`, a phrase that repeats it 4095 times, and the symbol `b`.
abbrev pub crowded : ℕ → ℕ → List ℕ → List ℕ
crowded a b rest = 4 ∷ 128 ∷ 2 ∷ a ∷ 252 ∷ 15 ∷ b ∷ rest

module _ (a b : ℕ) (rest out : List ℕ) (full : length out ≡ 4096)
    (phrased : phrase 0 4092 4 (b ∷ rest) (a ∷ []) ≡ some (next 6 (b ∷ rest) out)) where
  second_token :
      tokens 7 0 7 1 4 (252 ∷ 15 ∷ b ∷ rest) (a ∷ []) ≡ some (next 7 rest (out ++ (b ∷ [])))
  second_token =
      tokens_more 6 0 7 1 4 (252 ∷ 15 ∷ b ∷ rest) (a ∷ []) refl
      ∙ rw (token-phrase 0 1 4 252 15 (b ∷ rest) (a ∷ []) (omega arith) (omega arith), phrased)
          (last_token a b rest out full)

  all_tokens : tokens 8 0 7 2 3 (a ∷ 252 ∷ 15 ∷ b ∷ rest) [] ≡ some (next 7 rest (out ++ (b ∷ [])))
  all_tokens =
      tokens_more 7 0 7 2 3 (a ∷ 252 ∷ 15 ∷ b ∷ rest) [] refl ∙ rw token-symbol second_token
    where
      token-symbol :
          token 0 2 3 (a ∷ 252 ∷ 15 ∷ b ∷ rest) [] ≡ some (next 4 (252 ∷ 15 ∷ b ∷ rest) (a ∷ []))
      token-symbol = unfold token in refl

  all_tags : tags 7 0 7 2 (2 ∷ a ∷ 252 ∷ 15 ∷ b ∷ rest) [] ≡ some (next 7 rest (out ++ (b ∷ [])))
  all_tags =
      tags_more 6 0 7 2 2 (a ∷ 252 ∷ 15 ∷ b ∷ rest) [] (omega arith) refl
      ∙ rw all_tokens
          (tags_end 5 0 7 0 7 rest (out ++ (b ∷ [])) refl ∙ rw (full_filled a b rest out full))

  crowded_block :
      sub_block 4096 7 32772 0 (crowded a b rest) [] ≡ some (next 7 rest (out ++ (b ∷ [])))
  crowded_block = unfold sub_block in all_tags

  crowded_decompressed : decompress 4096 7 (crowded a b rest) ≡ some (true, out ++ (b ∷ []))
  crowded_decompressed =
      unfold decompress in
      sub_blocks_more 4096 7 7 0 4 128 (2 ∷ a ∷ 252 ∷ 15 ∷ b ∷ rest) [] (omega arith) refl
      ∙ ap (λ r. on_return r (sub_blocks 7 4096 7)) crowded_block
      ∙ sub_blocks_end 4096 7 6 rest (out ++ (b ∷ []))

-- A symbol behind the tokens that fill a sub-block is written: the block of seven bytes below is
-- decompressed without an error into a destination of 4096 bytes, and one byte is written past it.
pub decompress_past_end :
    (a b : ℕ) (rest : List ℕ)
    → (out : List ℕ) × (decompress 4096 7 (crowded a b rest) ≡ some (true, out))
      × (length out ≡ 4097)
decompress_past_end a b rest =
    let n : length (replicate 4096 a) ≡ 4096 = length-replicate 4096 a in
    (
      replicate 4096 a ++ (b ∷ []),
      crowded_decompressed a b rest (replicate 4096 a) n
          (run_phrase 4092 4 a (b ∷ rest) (omega arith)),
      length-append (replicate 4096 a) (b ∷ []) ∙ ap (λ k. k + 1) n,
    )
