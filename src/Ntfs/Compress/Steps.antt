-- ===== src/Ntfs/Compress/Steps.antt =====
-- The turns of the three loops of the decompression, one equation for each way they go.
use rohos_disk_browser.Prelude.{
  ℕ, suc, ◌+◌, ◌*◌, ◌/◌, ◌≡◌, ◌≢◌, List, [], ◌∷◌, some, inl, inr, true, false, ◌||◌, ltb, leb, ◌==◌,
  length, arith, Bool-cases,
}
use rohos_disk_browser.Ntfs.Compress.{
  next, overflow, sb_size, token, tokens, filled, tags, sub_block, sub_blocks, on_next, on_return,
}

module _ (n sb_start sb_end tag cb : ℕ) (mem out : List ℕ) where
  pub tokens_stop :
      (leb sb_end cb || ltb (sb_start + sb_size) (length out)) ≡ true
      → tokens (suc n) sb_start sb_end tag cb mem out ≡ some (next cb mem out)
  unfolding tokens
  tokens_stop e = rw e

  pub tokens_more :
      (leb sb_end cb || ltb (sb_start + sb_size) (length out)) ≡ false
      → tokens (suc n) sb_start sb_end tag cb mem out
        ≡ on_next (token sb_start tag cb mem out) (tokens n sb_start sb_end (tag / 2))
  unfolding tokens
  tokens_more e = rw e

  pub tags_end :
      cb ≡ sb_end
      → tags (suc n) sb_start sb_end cb mem out ≡ some (next cb mem (filled sb_start out))
  tags_end e = last mem
    where
      same : (cb == sb_end) ≡ true
      same = ground arith

      last :
          (m : List ℕ)
          → tags (suc n) sb_start sb_end cb m out ≡ some (next cb m (filled sb_start out))
      last [] = unfold tags in rw same
      last (t ∷ m) = unfold tags in rw same

  pub tags_past :
      cb ≢ sb_end
      → (ltb sb_end cb || ltb (sb_start + sb_size) (length out)) ≡ true
      → tags (suc n) sb_start sb_end cb mem out ≡ some (overflow out)
  tags_past d e = last mem
    where
      other : (cb == sb_end) ≡ false
      other = ground arith

      last : (m : List ℕ) → tags (suc n) sb_start sb_end cb m out ≡ some (overflow out)
      last [] = unfold tags in rw (other, e)
      last (t ∷ m) = unfold tags in rw (other, e)

  pub tags_more :
      cb ≢ sb_end
      → (ltb sb_end cb || ltb (sb_start + sb_size) (length out)) ≡ false
      → tags (suc n) sb_start sb_end cb (tag ∷ mem) out
        ≡ on_next (tokens 8 sb_start sb_end tag (cb + 1) mem out) (tags n sb_start sb_end)
  unfolding tags
  tags_more d e = let other : (cb == sb_end) ≡ false = ground arith in rw (other, e)

module _ (dest_size size fuel cb x y : ℕ) (mem out : List ℕ) where
  pub sub_blocks_done :
      ((x + 256 * y == 0) || (length out == dest_size)) ≡ true
      → sub_blocks (suc fuel) dest_size size cb (x ∷ y ∷ mem) out ≡ some (true, out)
  unfolding sub_blocks
  sub_blocks_done e = elim (Bool-cases (cb == size)) [ inl end ↦ rw end | inr more ↦ rw (more, e) ]

  pub sub_blocks_more :
      cb ≢ size
      → ((x + 256 * y == 0) || (length out == dest_size)) ≡ false
      → sub_blocks (suc fuel) dest_size size cb (x ∷ y ∷ mem) out
        ≡ on_return
            (sub_block dest_size size (x + 256 * y) cb (x ∷ y ∷ mem) out)
            (sub_blocks fuel dest_size size)
  unfolding sub_blocks
  sub_blocks_more d e = let more : (cb == size) ≡ false = ground arith in rw (more, e)

pub sub_blocks_end :
    (dest_size size fuel : ℕ) (mem out : List ℕ)
    → sub_blocks (suc fuel) dest_size size size mem out ≡ some (true, out)
unfolding sub_blocks
sub_blocks_end dest_size size fuel mem out =
    let same : (size == size) ≡ true = ground arith in rw same
