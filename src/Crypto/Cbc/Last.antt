-- ===== src/Crypto/Cbc/Last.antt =====
-- The vector after the encrypting loop.
use rohos_disk_browser.Prelude.{
  ℕ, zero, suc, ◌+◌, ◌*◌, ◌≤◌, ◌≡◌, ap, ◌∙◌, sym, List, [], ◌++◌, length, take, drop, length-drop,
  take-append, drop-append, drop-drop, arith,
}
use mathlib.Core.List.{append_assoc}
use rohos_disk_browser.Crypto.Cipher.{Cipher, IsCipher}
use rohos_disk_browser.Crypto.Cbc.Xor.{xor_bytes}
use rohos_disk_browser.Crypto.Cbc.Chain.{chain_encrypt, chain_last, length-block}

module _ (c : Cipher) (ok : IsCipher c) (key : List ℕ) where
  -- The last link of a chain is its last ciphertext block.
  pub chain_last-block :
      (n : ℕ) (prev buf rest : List ℕ)
      → 16 * suc n ≤ length buf
      → take 16 (drop (16 * n) (chain_encrypt c key (suc n) prev buf ++ rest))
        ≡ chain_last c key (suc n) prev buf
  unfolding chain_encrypt chain_last
  chain_last-block zero prev buf rest h =
      let block = c.ecb_encrypt key (xor_bytes (take 16 buf) prev) in
      ap (take 16) (append_assoc block [] rest)
      ∙ take-append 16 block rest (length-block c key ok buf prev (omega arith))
  chain_last-block (suc n) prev buf rest h =
      let block = c.ecb_encrypt key (xor_bytes (take 16 buf) prev) in
      let tail = chain_encrypt c key (suc n) block (drop 16 buf) in
      let len_b = length-block c key ok buf prev (omega arith) in
      ap (λ t. take 16 (drop (16 * suc n) t)) (append_assoc block tail rest)
      ∙ ap (λ k. take 16 (drop k (block ++ (tail ++ rest)))) next
      ∙ ap (take 16) (
          sym (drop-drop 16 (16 * n) (block ++ (tail ++ rest)))
          ∙ ap (drop (16 * n)) (drop-append 16 block (tail ++ rest) len_b))
      ∙ chain_last-block n block (drop 16 buf) rest (omega (arith, length-drop 16 buf))
    where
      next : 16 * suc n ≡ 16 + 16 * n
      next = omega arith
