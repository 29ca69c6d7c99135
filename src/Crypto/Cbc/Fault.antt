-- ===== src/Crypto/Cbc/Fault.antt =====
-- The CBC loops on a memory that is too short for their blocks.
use rohos_disk_browser.Prelude.{
  ℕ, zero, suc, ◌*◌, ◌≤◌, ◌<◌, ◌≡◌, refl, List, [], ◌∷◌, ◌++◌, none, length, take, drop,
  length-append, length-take, length-drop, take-append, drop-append, arith,
}
use native.Mathlib.Decide.{dec_lt}
use rohos_disk_browser.Crypto.Bytes.{read, read_lem}
use rohos_disk_browser.Crypto.Cipher.{Cipher, IsCipher}
use rohos_disk_browser.Crypto.Cbc.{xor_block, cbc_encrypt, cbc_decrypt}
use rohos_disk_browser.Crypto.Cbc.Xor.{xor_bytes, length-xor_bytes, xor_block_lem}
use rohos_disk_browser.Crypto.Cbc.Chain.{length-block}

pub xor_block-none : (n : ℕ) (a b : List ℕ) → length a < n → xor_block n a b ≡ none
unfolding xor_block
xor_block-none zero a b h = absurd (omega arith)
xor_block-none (suc n) [] b h = refl
xor_block-none (suc n) (x ∷ a) [] h = refl
xor_block-none (suc n) (x ∷ a) (y ∷ b) h = rw (xor_block-none n a b (omega arith))

pub read-none : (n : ℕ) (a : List ℕ) → length a < n → read n a ≡ none
unfolding read
read-none n a h = ground arith

module _ (c : Cipher) (ok : IsCipher c) (key : List ℕ) where
  pub cbc_encrypt-none :
      (n : ℕ) (iv buf : List ℕ)
      → length buf < 16 * n
      → 16 ≤ length iv
      → cbc_encrypt c key n iv buf ≡ none
  unfolding cbc_encrypt
  cbc_encrypt-none zero iv buf h k = absurd (omega arith)
  cbc_encrypt-none (suc n) iv buf h k = elim (dec_lt (length buf) 16) [
    | yes p ↦ rw (xor_block-none 16 buf iv p)
    | no p ↦
        let x = xor_bytes (take 16 buf) (take 16 iv) in
        let block = c.ecb_encrypt key x in
        let len_x : length x ≡ 16 =
          omega (arith, length-xor_bytes (take 16 buf) (take 16 iv), length-take 16 buf) in
        let len_b : length block ≡ 16 = length-block c key ok buf (take 16 iv) (omega arith) in
        rw (
          xor_block_lem 16 buf iv (omega arith) k,
          take-append 16 x (drop 16 buf) len_x,
          drop-append 16 x (drop 16 buf) len_x,
          cbc_encrypt-none n (block ++ drop 16 iv) (drop 16 buf) (omega (arith, length-drop 16 buf))
              (omega (arith, length-append block (drop 16 iv))),
        )
  ]

  pub cbc_decrypt-none :
      (n : ℕ) (iv buf : List ℕ)
      → length buf < 16 * n
      → 16 ≤ length iv
      → cbc_decrypt c key n iv buf ≡ none
  unfolding cbc_decrypt
  cbc_decrypt-none zero iv buf h k = absurd (omega arith)
  cbc_decrypt-none (suc n) iv buf h k = elim (dec_lt (length buf) 16) [
    | yes p ↦ rw (read-none 16 buf p)
    | no p ↦
        let saved = take 16 buf in
        let d = c.ecb_decrypt key saved in
        let x = xor_bytes d (take 16 iv) in
        let len_s : length saved ≡ 16 = omega (arith, length-take 16 buf) in
        let len_d : length d ≡ 16 = ok.length-decrypt key saved len_s in
        let len_x : length x ≡ 16 = omega (arith, length-xor_bytes d (take 16 iv)) in
        rw (
          read_lem 16 buf (omega arith),
          xor_block_lem 16 (d ++ drop 16 buf) iv (omega (arith, length-append d (drop 16 buf))) k,
          take-append 16 d (drop 16 buf) len_d,
          drop-append 16 d (drop 16 buf) len_d,
          take-append 16 x (drop 16 buf) len_x,
          drop-append 16 x (drop 16 buf) len_x,
          cbc_decrypt-none n (saved ++ drop 16 iv) (drop 16 buf) (omega (arith, length-drop 16 buf))
              (omega (arith, length-append saved (drop 16 iv))),
        )
  ]
