-- ===== src/Crypto/Sectors/Access.antt =====
-- Random access to encrypted sectors, and the memory that `encrypt` needs.
use rohos_disk_browser.Prelude.{
  ℕ, ◌+◌, ◌-◌, ◌*◌, ◌/◌, ◌^◌, ◌≤◌, ◌<◌, ◌≡◌, ap, ◌∙◌, sym, ◌↔◌, List, [], ◌++◌, none, some, length,
  take, drop, length-append, length-drop, take-append, drop-append, arith,
}
use mathlib.Core.List.{append_assoc, append-nil}
use native.Mathlib.Decide.{dec_lt}
use rohos_disk_browser.Crypto.Bytes.{IsBytes, IsBytes-drop}
use rohos_disk_browser.Crypto.Cipher.{Cipher, IsCipher}
use rohos_disk_browser.Crypto.Sectors.{rounds, encrypt_loop, encrypt, decrypt}
use rohos_disk_browser.Crypto.Sectors.Chain.{
  sectors_encrypt, length-sectors_encrypt, encrypt_loop_lem, decrypt_loop_lem,
}
use rohos_disk_browser.Crypto.Sectors.Laws.{
  sector_after, rounds-sectors, sectors_decrypt-encrypt, sectors_encrypt-add, encrypt_loop-none,
}

module _ (c : Cipher) (ok : IsCipher c) (key iv : List ℕ) (iv_size : length iv ≡ 64) where
  -- The `k` sectors at place `m` of what `encrypt` wrote.
  slice :
      (m k j s : ℕ) (buf : List ℕ)
      → s < 2 ^ 64
      → 512 * (m + (k + j)) ≤ length buf
      → take (512 * k) (
          drop
            (512 * m)
            (sectors_encrypt c key iv (m + (k + j)) s buf ++ drop (512 * (m + (k + j))) buf))
        ≡ sectors_encrypt c key iv k (sector_after s m) (drop (512 * m) buf)
  slice m k j s buf small h =
      let rest = drop (512 * (m + (k + j))) buf in
      let s' = sector_after s m in
      let buf' = drop (512 * m) buf in
      let a = sectors_encrypt c key iv m s buf in
      let b = sectors_encrypt c key iv k s' buf' in
      let d = sectors_encrypt c key iv j (sector_after s' k) (drop (512 * k) buf') in
      let len_a : length a ≡ 512 * m =
        length-sectors_encrypt c key iv ok iv_size m s buf (omega arith) in
      let len_b : length b ≡ 512 * k =
        length-sectors_encrypt c key iv ok iv_size k s' buf'
          (omega (arith, length-drop (512 * m) buf)) in
      rw (
        sectors_encrypt-add c ok key iv iv_size m (k + j) s buf small,
        sectors_encrypt-add c ok key iv iv_size k j s' buf' (omega arith),
        append_assoc a (b ++ d) rest,
        drop-append (512 * m) a ((b ++ d) ++ rest) len_a,
        append_assoc b d rest,
        take-append (512 * k) b (d ++ rest) len_b,
      )

  -- Any run of whole sectors of an encrypted buffer decrypts by itself, from its own sector number
  -- on, to those sectors of the plaintext.
  pub decrypt_run :
      (m k j s : ℕ) (buf out : List ℕ)
      → s < 2 ^ 64
      → 512 * (m + (k + j)) ≤ length buf
      → IsBytes iv
      → IsBytes buf
      → encrypt c key iv buf s (512 * (m + (k + j))) ≡ some out
      → decrypt c key iv (take (512 * k) (drop (512 * m) out)) (sector_after s m) (512 * k)
        ≡ some (take (512 * k) (drop (512 * m) buf))
  unfolding encrypt decrypt
  decrypt_run m k j s buf out small h p q e =
      let n = m + (k + j) in
      let s' = sector_after s m in
      let buf' = drop (512 * m) buf in
      let b = sectors_encrypt c key iv k s' buf' in
      let fits : 512 * k ≤ length buf' = omega (arith, length-drop (512 * m) buf) in
      let len_b : length b ≡ 512 * k = length-sectors_encrypt c key iv ok iv_size k s' buf' fits in
      let whole : some (sectors_encrypt c key iv n s buf ++ drop (512 * n) buf) ≡ some out =
        sym (
          ap (λ (t : ℕ). encrypt_loop c key iv t s buf) (rounds-sectors n)
          ∙ encrypt_loop_lem c key iv ok iv_size n s buf h)
        ∙ e in
      let cut : take (512 * k) (drop (512 * m) out) ≡ b ++ [] =
        ap (λ t. take (512 * k) (drop (512 * m) t)) (cc)
        ∙ slice m k j s buf small h
        ∙ sym (append-nil b) in
      rw (
        cut,
        rounds-sectors k,
        decrypt_loop_lem c key iv ok iv_size k s' (b ++ []) (omega (arith, length-append b [])),
        sectors_decrypt-encrypt c ok key iv iv_size k s' buf' [] fits p
            (IsBytes-drop (512 * m) buf q),
        drop-append (512 * k) b [] len_b,
        append-nil,
      )

  -- For an `sz` of at most 2 ^ 32 - 512, `encrypt` leaves the memory exactly when the whole sectors
  -- of the memory are fewer bytes than `sz`.
  pub encrypt-none_iff :
      (s sz : ℕ) (buf : List ℕ)
      → sz ≤ 2 ^ 32 - 512
      → (encrypt c key iv buf s sz ≡ none) ↔ (length buf / 512 * 512 < sz)
  unfolding encrypt
  encrypt-none_iff s sz buf small = (
    λ e. elim (dec_lt (length buf) (512 * rounds sz)) [
      | yes short ↦ omega (arith, short)
      | no long ↦ cc (encrypt_loop_lem c key iv ok iv_size (rounds sz) s buf (omega arith))
    ],
    λ few. encrypt_loop-none c ok key iv iv_size (rounds sz) s buf (omega (arith, few)),
  )
