-- ===== src/Crypto/Sectors/Laws.antt =====
-- What `encrypt` and `decrypt` guarantee of a run of sectors.
use rohos_disk_browser.Prelude.{
  ℕ, zero, suc, ◌+◌, ◌*◌, ◌%◌, ◌^◌, ◌≤◌, ◌<◌, ◌≡◌, refl, ap, ◌∙◌, List, ◌++◌, none, some, length,
  take, drop, length-append, length-drop, drop-append, take-append-drop, take-add, arith,
}
use mathlib.Core.List.{append_assoc}
use native.Mathlib.Decide.{dec_lt}
use rohos_disk_browser.Crypto.Bytes.{IsBytes, IsBytes-append, IsBytes-take, IsBytes-drop}
use rohos_disk_browser.Crypto.Cipher.{Cipher, IsCipher}
use rohos_disk_browser.Crypto.Cbc.Chain.{chain_encrypt, length-chain_encrypt, cbc_encrypt_lem}
use rohos_disk_browser.Crypto.Cbc.Laws.{chain_decrypt-encrypt}
use rohos_disk_browser.Crypto.Cbc.Fault.{cbc_encrypt-none}
use rohos_disk_browser.Crypto.Sectors.{
  init_crypto, sector_iv, next_sector, rounds, encrypt_loop, decrypt_loop, encrypt, decrypt,
}
use rohos_disk_browser.Crypto.Sectors.Vector.{length-sector_iv, sector_iv-IsBytes}
use rohos_disk_browser.Crypto.Sectors.Chain.{
  vector, sectors_encrypt, sectors_decrypt, length-sectors_encrypt, sectors_encrypt-IsBytes,
  encrypt_loop_lem, decrypt_loop_lem, drop-sectors,
}

-- The sector `m` places after sector `s`.
abbrev pub sector_after : ℕ → ℕ → ℕ
sector_after s m = (s + m) % 2 ^ 64

pub rounds-sectors : (n : ℕ) → rounds (512 * n) ≡ n
rounds-sectors n = omega arith

module _ (c : Cipher) (ok : IsCipher c) (key iv : List ℕ) (iv_size : length iv ≡ 64) where
  -- Decrypting a run of encrypted sectors, whatever stands behind them.
  pub sectors_decrypt-encrypt :
      (n s : ℕ) (buf rest : List ℕ)
      → 512 * n ≤ length buf
      → IsBytes iv
      → IsBytes buf
      → sectors_decrypt c key iv n s (sectors_encrypt c key iv n s buf ++ rest) ≡ take (512 * n) buf
  unfolding sectors_encrypt sectors_decrypt
  sectors_decrypt-encrypt zero s buf rest h p q = refl
  sectors_decrypt-encrypt (suc n) s buf rest h p q =
      let sector = chain_encrypt c (init_crypto key) 32 (vector iv s) buf in
      let tail = sectors_encrypt c key iv n (next_sector s) (drop 512 buf) in
      let len = length-chain_encrypt c (init_crypto key) ok 32 (vector iv s) buf (omega arith) in
      rw
        (
          append_assoc,
          drop-append 512 sector (tail ++ rest) len,
          chain_decrypt-encrypt c ok (init_crypto key) 32 (vector iv s) buf (tail ++ rest)
              (omega arith) (IsBytes-take 16 (sector_iv iv s) (sector_iv-IsBytes iv s p)) q,
          sectors_decrypt-encrypt n (next_sector s) (drop 512 buf) rest
              (omega (arith, length-drop 512 buf)) p (IsBytes-drop 512 buf q),
          take-add 512 (512 * n) buf,
        )
        (ap (λ k. take k buf) (omega arith))

  pub sectors_encrypt-add :
      (m n s : ℕ) (buf : List ℕ)
      → s < 2 ^ 64
      → sectors_encrypt c key iv (m + n) s buf
        ≡ sectors_encrypt c key iv m s buf
          ++ sectors_encrypt c key iv n (sector_after s m) (drop (512 * m) buf)
  unfolding sectors_encrypt
  sectors_encrypt-add zero n s buf h =
      ap (λ (k : ℕ). sectors_encrypt c key iv k s buf) zero_left
      ∙ ap (λ (t : ℕ). sectors_encrypt c key iv n t buf) same
    where
      zero_left : 0 + n ≡ n
      zero_left = omega arith

      same : s ≡ sector_after s 0
      same = omega arith
  sectors_encrypt-add (suc m) n s buf h =
      ap (λ (k : ℕ). sectors_encrypt c key iv k s buf) suc_left
      ∙ ap (λ t. chain_encrypt c (init_crypto key) 32 (vector iv s) buf ++ t)
          (sectors_encrypt-add m n (next_sector s) (drop 512 buf) (omega arith))
      ∙ ap
          (λ (t : ℕ).
            chain_encrypt c (init_crypto key) 32 (vector iv s) buf
            ++ (sectors_encrypt c key iv m (next_sector s) (drop 512 buf)
                ++ sectors_encrypt c key iv n t (drop (512 * m) (drop 512 buf))))
          later
      ∙ rw (drop-sectors m buf, append_assoc)
    where
      suc_left : suc m + n ≡ suc (m + n)
      suc_left = omega arith

      later : sector_after (next_sector s) m ≡ sector_after s (suc m)
      later = omega arith

  pub encrypt_loop-none :
      (n s : ℕ) (buf : List ℕ) → length buf < 512 * n → encrypt_loop c key iv n s buf ≡ none
  unfolding encrypt_loop
  encrypt_loop-none zero s buf h = absurd (omega arith)
  encrypt_loop-none (suc n) s buf h = elim (dec_lt (length buf) 512) [
    | yes p ↦
        let short =
          cbc_encrypt-none c ok (init_crypto key) 32 (sector_iv iv s) buf p
            (omega (arith, length-sector_iv iv s iv_size)) in
        rw short
    | no p ↦
        let sector = chain_encrypt c (init_crypto key) 32 (vector iv s) buf in
        let len = length-chain_encrypt c (init_crypto key) ok 32 (vector iv s) buf (omega arith) in
        rw (
          cbc_encrypt_lem c (init_crypto key) ok 32 (sector_iv iv s) buf (omega arith)
              (omega (arith, length-sector_iv iv s iv_size)),
          drop-append 512 sector (drop 512 buf) len,
          encrypt_loop-none n (next_sector s) (drop 512 buf) (omega (arith, length-drop 512 buf)),
        )
  ]

  -- `decrypt` undoes `encrypt` of the same number of whole sectors from the same sector number on:
  -- neither leaves the memory, and the memory is as long as before and holds bytes in between.
  pub decrypt-encrypt :
      (n s : ℕ) (buf : List ℕ)
      → 512 * n ≤ length buf
      → IsBytes iv
      → IsBytes buf
      → (out : List ℕ) × (encrypt c key iv buf s (512 * n) ≡ some out)
        × (length out ≡ length buf)
        × IsBytes out
        × (decrypt c key iv out s (512 * n) ≡ some buf)
  unfolding encrypt decrypt
  decrypt-encrypt n s buf h p q =
      let ct = sectors_encrypt c key iv n s buf in
      let rest = drop (512 * n) buf in
      let len_ct = length-sectors_encrypt c key iv ok iv_size n s buf h in
      let len : length (ct ++ rest) ≡ length buf =
        omega (arith, len_ct, length-append ct rest, length-drop (512 * n) buf) in
      (
        ct ++ rest,
        ap (λ (k : ℕ). encrypt_loop c key iv k s buf) (rounds-sectors n)
            ∙ encrypt_loop_lem c key iv ok iv_size n s buf h,
        len,
        IsBytes-append ct rest (sectors_encrypt-IsBytes c key iv ok iv_size n s buf p q)
            (IsBytes-drop (512 * n) buf q),
        ap (λ (k : ℕ). decrypt_loop c key iv k s (ct ++ rest)) (rounds-sectors n)
            ∙ decrypt_loop_lem c key iv ok iv_size n s (ct ++ rest) (omega arith)
            ∙ rw
                (
                  sectors_decrypt-encrypt n s buf rest h p q,
                  drop-append (512 * n) ct rest len_ct,
                  take-append-drop (512 * n) buf,
                )
                refl,
      )
