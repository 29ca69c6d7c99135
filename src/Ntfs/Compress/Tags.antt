-- ===== src/Ntfs/Compress/Tags.antt =====
-- The tags of a sub-block end with it.
use rohos_disk_browser.Prelude.{
  ℕ, zero, suc, ◌+◌, ◌-◌, ◌<◌, ◌≤◌, ◌≡◌, ◌≢◌, List, [], ◌∷◌, inl, inr, false, ◌||◌, ltb, ◌==◌,
  length, replicate, length-append, length-replicate, arith, Bool-cases,
}
use rohos_disk_browser.Ntfs.Compress.{sb_size, tokens, filled, tags}
use rohos_disk_browser.Ntfs.Compress.Steps.{tags_end, tags_past, tags_more}
use rohos_disk_browser.Ntfs.Compress.Within.{Within, on_next-Within}
use rohos_disk_browser.Ntfs.Compress.Tokens.{tokens-Within}

module _ (size sb_start sb_end : ℕ) (inside : sb_end ≤ size) where
  filled_bounds :
      (out : List ℕ)
      → length out ≤ sb_start + sb_size + 1
      → (sb_start + sb_size ≤ length (filled sb_start out))
        × (length (filled sb_start out) ≤ sb_start + sb_size + 1)
  filled_bounds out hi =
      let n = sb_start + sb_size - length out in
      ground (arith, length-append out (replicate n 0), length-replicate {A = ℕ} n 0)

  -- The two ends of the loop over the tags, with the rest put in.
  tags_ends-Within :
      (fuel cb : ℕ) (mem out : List ℕ)
      → size < cb + length mem
      → length out ≤ sb_start + sb_size + 1
      → (cb ≢ sb_end
          → (ltb sb_end cb || ltb (sb_start + sb_size) (length out)) ≡ false
          → Within size sb_end sb_end
              (sb_start + sb_size)
              (sb_start + sb_size + 1)
              (tags (suc fuel) sb_start sb_end cb mem out))
      → Within size sb_end sb_end
          (sb_start + sb_size)
          (sb_start + sb_size + 1)
          (tags (suc fuel) sb_start sb_end cb mem out)
  tags_ends-Within fuel cb mem out m hi on = elim (Bool-cases (cb == sb_end)) [
    | inl end ↦
        rw (tags_end fuel sb_start sb_end 0 cb mem out (ground arith))
          (ground (arith, filled_bounds out hi))
    | inr away ↦ elim (Bool-cases (ltb sb_end cb || ltb (sb_start + sb_size) (length out))) [
      | inl past ↦ rw (tags_past fuel sb_start sb_end 0 cb mem out (ground arith) past) hi
      | inr more ↦ on (ground arith) more
    ]
  ]

  -- The tags of a sub-block end with it, and leave it full.
  pub tags-Within :
      (fuel cb : ℕ) (mem out : List ℕ)
      → cb ≤ sb_end + 1
      → sb_end + 1 < cb + fuel
      → size < cb + length mem
      → sb_start ≤ length out
      → length out ≤ sb_start + sb_size + 1
      → Within size sb_end sb_end
          (sb_start + sb_size)
          (sb_start + sb_size + 1)
          (tags fuel sb_start sb_end cb mem out)
  tags-Within zero cb mem out h few m lo hi = absurd (omega arith)
  tags-Within (suc fuel) cb [] out h few m lo hi =
      tags_ends-Within fuel cb [] out m hi (λ away more. absurd (ground arith))
  tags-Within (suc fuel) cb (tag ∷ mem) out h few m lo hi =
      tags_ends-Within fuel cb (tag ∷ mem) out m hi λ away more.
        rw (tags_more fuel sb_start sb_end tag cb mem out away more) (
          on_next-Within size (cb + 1) (sb_end + 1) sb_end sb_end sb_start (sb_start + sb_size)
            (sb_start + sb_size + 1) (tokens 8 sb_start sb_end tag (cb + 1) mem out)
            (tags fuel sb_start sb_end)
            (tokens-Within size sb_start sb_end inside 8 tag (cb + 1) mem out (ground arith)
              (omega arith) lo hi)
            (λ cb' mem' out' a b c d e. tags-Within fuel cb' mem' out' b (omega arith) c d e))
