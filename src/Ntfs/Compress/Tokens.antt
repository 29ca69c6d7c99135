-- ===== src/Ntfs/Compress/Tokens.antt =====
-- The tokens of a tag stay near the sub-block and its destination.
use rohos_disk_browser.Prelude.{
  ℕ, zero, suc, ◌+◌, ◌-◌, ◌*◌, ◌/◌, ◌%◌, ◌^◌, ◌<◌, ◌≤◌, ◌≡◌, ◌∙◌, List, [], ◌∷◌, ◌++◌, some, inl,
  inr, ◌||◌, ltb, leb, ◌==◌, length, length-append, arith, Bool-cases,
}
use rohos_disk_browser.Ntfs.Compress.{sb_size, lg_loop, copy_phrase, phrase, token, tokens}
use rohos_disk_browser.Ntfs.Compress.Copy.{copy_phrase_lem, copy_bytes_grows}
use rohos_disk_browser.Ntfs.Compress.Steps.{tokens_stop, tokens_more}
use rohos_disk_browser.Ntfs.Compress.Within.{Within, Within-wider, on_next-Within}

copy_phrase_grows :
    (len back : ℕ) (out : List ℕ)
    → back < length out
    → (out' : List ℕ) × (copy_phrase len back out ≡ some out') × (length out' ≡ length out + len)
copy_phrase_grows len back out h =
    let (more, n, e) = copy_bytes_grows len back out h in
    (out ++ more, copy_phrase_lem len back out h ∙ e, omega (arith, length-append out more, n))

module _ (size sb_start cb : ℕ) (out : List ℕ) where
  phrase-Within :
      (pt : ℕ) (mem : List ℕ)
      → size < cb + 2 + length mem
      → sb_start ≤ length out
      → length out ≤ sb_start + sb_size
      → Within size
          (cb + 1)
          (cb + 2)
          sb_start
          (sb_start + sb_size + 1)
          (phrase sb_start pt cb mem out)
  unfolding phrase
  phrase-Within pt mem m lo hi =
      let lg = lg_loop 16 (length out - sb_start - 1) in
      let distance = pt / 2 ^ (12 - lg) + 1 in
      let len = pt % 2 ^ (12 - lg) + 3 in
      elim (Bool-cases (ltb (length out) (sb_start + distance))) [
        | inl far ↦ rw far (omega arith)
        | inr near ↦ elim (Bool-cases (ltb (sb_start + sb_size) (length out + len))) [
          | inl long ↦ rw (near, long) (omega arith)
          | inr fits ↦
              let (out', e, n) = copy_phrase_grows len (length out - distance) out (ground arith) in
              rw (near, fits, e) (ground arith)
        ]
      ]

  token-Within :
      (tag : ℕ) (mem : List ℕ)
      → cb < size
      → size < cb + length mem
      → sb_start ≤ length out
      → length out ≤ sb_start + sb_size
      → Within size
          (cb + 1)
          (cb + 2)
          sb_start
          (sb_start + sb_size + 1)
          (token sb_start tag cb mem out)
  unfolding token
  token-Within tag [] h m lo hi = absurd (omega arith)
  token-Within tag (x ∷ []) h m lo hi = absurd (omega arith)
  token-Within tag (x ∷ y ∷ mem) h m lo hi = elim (Bool-cases (tag % 2 == 0)) [
    | inl symbol ↦ rw symbol (omega (arith, length-append out (x ∷ [])))
    | inr isphrase ↦ elim (Bool-cases (length out == sb_start)) [
      | inl first ↦ rw (isphrase, first) (omega arith)
      | inr later ↦ rw (isphrase, later) (phrase-Within (x + 256 * y) mem (omega arith) lo hi)
    ]
  ]

-- The tokens of a tag take the source pointer at most one byte past the end of the sub-block.
module _ (size sb_start sb_end : ℕ) (inside : sb_end ≤ size) where
  pub tokens-Within :
      (n tag cb : ℕ) (mem out : List ℕ)
      → cb ≤ sb_end + 1
      → size < cb + length mem
      → sb_start ≤ length out
      → length out ≤ sb_start + sb_size + 1
      → Within size cb
          (sb_end + 1)
          sb_start
          (sb_start + sb_size + 1)
          (tokens n sb_start sb_end tag cb mem out)
  tokens-Within zero tag cb mem out h m lo hi = unfold tokens in omega arith
  tokens-Within (suc n) tag cb mem out h m lo hi =
      elim (Bool-cases (leb sb_end cb || ltb (sb_start + sb_size) (length out))) [
        | inl stop ↦ rw (tokens_stop n sb_start sb_end tag cb mem out stop) (omega arith)
        | inr more ↦ rw (tokens_more n sb_start sb_end tag cb mem out more) (
            on_next-Within size (cb + 1) (cb + 2) cb (sb_end + 1) sb_start sb_start
              (sb_start + sb_size + 1) (token sb_start tag cb mem out)
              (tokens n sb_start sb_end (tag / 2))
              (token-Within size sb_start cb out tag mem (ground arith) m lo (ground arith))
              (λ cb' mem' out' a b c d e.
                Within-wider size cb' (sb_end + 1) sb_start (sb_start + sb_size + 1) cb (sb_end + 1)
                  sb_start (sb_start + sb_size + 1)
                  (tokens n sb_start sb_end (tag / 2) cb' mem' out') (omega arith) (omega arith)
                  (omega arith) (omega arith)
                  (tokens-Within n (tag / 2) cb' mem' out' (ground arith) c d e)))
      ]
