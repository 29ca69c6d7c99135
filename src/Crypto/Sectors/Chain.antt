-- ===== src/Crypto/Sectors/Chain.antt =====
-- The sector loops against the chain of each sector as a function.
use rohos_disk_browser.Prelude.{
  ℕ, zero, suc, ◌*◌, ◌≤◌, ◌≡◌, refl, ap, ◌∙◌, List, [], ◌++◌, some, length, take, drop,
  length-append, length-drop, take-append, drop-append, drop-drop, arith,
}
use mathlib.Core.List.{append_assoc}
use rohos_disk_browser.Crypto.Bytes.{IsBytes, IsBytes-append, IsBytes-take, IsBytes-drop}
use rohos_disk_browser.Crypto.Cipher.{Cipher, IsCipher}
use rohos_disk_browser.Crypto.Cbc.Chain.{
  chain_encrypt, chain_decrypt, length-chain_encrypt, length-chain_decrypt, chain_encrypt-IsBytes,
  cbc_encrypt_lem, cbc_decrypt_lem,
}
use rohos_disk_browser.Crypto.Sectors.{
  init_crypto, sector_iv, next_sector, encrypt_loop, decrypt_loop,
}
use rohos_disk_browser.Crypto.Sectors.Vector.{length-sector_iv, sector_iv-IsBytes}

pub drop-sectors : (n : ℕ) (buf : List ℕ) → drop (512 * n) (drop 512 buf) ≡ drop (512 * suc n) buf
drop-sectors n buf = drop-drop 512 (512 * n) buf ∙ ap (λ k. drop k buf) (omega arith)

-- The vector with which the chain of sector `s` starts.
abbrev pub vector : List ℕ → ℕ → List ℕ
vector iv s = take 16 (sector_iv iv s)

module _ (c : Cipher) (key iv : List ℕ) where
  unfoldable pub sectors_encrypt : ℕ → ℕ → List ℕ → List ℕ
  sectors_encrypt zero s buf = []
  sectors_encrypt (suc n) s buf =
      chain_encrypt c (init_crypto key) 32 (vector iv s) buf
      ++ sectors_encrypt n (next_sector s) (drop 512 buf)

  unfoldable pub sectors_decrypt : ℕ → ℕ → List ℕ → List ℕ
  sectors_decrypt zero s buf = []
  sectors_decrypt (suc n) s buf =
      chain_decrypt c (init_crypto key) 32 (vector iv s) buf
      ++ sectors_decrypt n (next_sector s) (drop 512 buf)

  module _ (ok : IsCipher c) (iv_size : length iv ≡ 64) where
    length-sector :
        (s : ℕ) (buf : List ℕ)
        → 512 ≤ length buf
        → length (chain_encrypt c (init_crypto key) 32 (vector iv s) buf) ≡ 512
    length-sector s buf h = length-chain_encrypt c (init_crypto key) ok 32 (vector iv s) buf h

    pub length-sectors_encrypt :
        (n s : ℕ) (buf : List ℕ) → 512 * n ≤ length buf → length (sectors_encrypt n s buf) ≡ 512 * n
    unfolding sectors_encrypt
    length-sectors_encrypt zero s buf h = omega arith
    length-sectors_encrypt (suc n) s buf h = omega (
      arith,
      length-sector s buf (omega arith),
      length-append (chain_encrypt c (init_crypto key) 32 (vector iv s) buf)
          (sectors_encrypt n (next_sector s) (drop 512 buf)),
      length-sectors_encrypt n (next_sector s) (drop 512 buf) (omega (arith, length-drop 512 buf)),
    )

    pub sectors_encrypt-IsBytes :
        (n s : ℕ) (buf : List ℕ) → IsBytes iv → IsBytes buf → IsBytes (sectors_encrypt n s buf)
    unfolding sectors_encrypt
    sectors_encrypt-IsBytes zero s buf p q = tt
    sectors_encrypt-IsBytes (suc n) s buf p q =
        IsBytes-append (chain_encrypt c (init_crypto key) 32 (vector iv s) buf)
          (sectors_encrypt n (next_sector s) (drop 512 buf))
          (chain_encrypt-IsBytes c (init_crypto key) ok 32 (vector iv s) buf
            (IsBytes-take 16 (sector_iv iv s) (sector_iv-IsBytes iv s p)) q)
          (sectors_encrypt-IsBytes n (next_sector s) (drop 512 buf) p (IsBytes-drop 512 buf q))

    pub encrypt_loop_lem :
        (n s : ℕ) (buf : List ℕ)
        → 512 * n ≤ length buf
        → encrypt_loop c key iv n s buf ≡ some (sectors_encrypt n s buf ++ drop (512 * n) buf)
    unfolding encrypt_loop sectors_encrypt
    encrypt_loop_lem zero s buf h = refl
    encrypt_loop_lem (suc n) s buf h =
        let sector = chain_encrypt c (init_crypto key) 32 (vector iv s) buf in
        let len = length-sector s buf (omega arith) in
        rw
          (
            cbc_encrypt_lem c (init_crypto key) ok 32 (sector_iv iv s) buf (omega arith)
                (omega (arith, length-sector_iv iv s iv_size)),
            take-append 512 sector (drop 512 buf) len,
            drop-append 512 sector (drop 512 buf) len,
            encrypt_loop_lem n (next_sector s) (drop 512 buf) (omega (arith, length-drop 512 buf)),
            drop-sectors n buf,
            append_assoc,
          )
          refl

    pub decrypt_loop_lem :
        (n s : ℕ) (buf : List ℕ)
        → 512 * n ≤ length buf
        → decrypt_loop c key iv n s buf ≡ some (sectors_decrypt n s buf ++ drop (512 * n) buf)
    unfolding decrypt_loop sectors_decrypt
    decrypt_loop_lem zero s buf h = refl
    decrypt_loop_lem (suc n) s buf h =
        let sector = chain_decrypt c (init_crypto key) 32 (vector iv s) buf in
        let len : length sector ≡ 512 =
          length-chain_decrypt c (init_crypto key) ok 32 (vector iv s) buf (omega arith) in
        rw
          (
            cbc_decrypt_lem c (init_crypto key) ok 32 (sector_iv iv s) buf (omega arith)
                (omega (arith, length-sector_iv iv s iv_size)),
            take-append 512 sector (drop 512 buf) len,
            drop-append 512 sector (drop 512 buf) len,
            decrypt_loop_lem n (next_sector s) (drop 512 buf) (omega (arith, length-drop 512 buf)),
            drop-sectors n buf,
            append_assoc,
          )
          refl
