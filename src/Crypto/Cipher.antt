-- ===== src/Crypto/Cipher.antt =====
-- What crypt.cpp relies on of the AES code in crypt-1.17: `rijndael_setup` with a key of 32 bytes,
-- and `rijndael_ecb_encrypt` and `rijndael_ecb_decrypt` of one block under that key.
use rohos_disk_browser.Prelude.{ℕ, ◌≡◌, List, length}
use rohos_disk_browser.Crypto.Bytes.{IsBytes}

pub record Cipher : Type 0 where
  pub ecb_encrypt : List ℕ → List ℕ → List ℕ
  pub ecb_decrypt : List ℕ → List ℕ → List ℕ

-- A block cipher maps blocks of 16 bytes to such blocks, and decryption undoes encryption.
pub record IsCipher (c : Cipher) : Type 0 where
  pub length-encrypt : (key b : List ℕ) → length b ≡ 16 → length (c.ecb_encrypt key b) ≡ 16
  pub length-decrypt : (key b : List ℕ) → length b ≡ 16 → length (c.ecb_decrypt key b) ≡ 16
  pub encrypt-IsBytes : (key b : List ℕ) → IsBytes b → IsBytes (c.ecb_encrypt key b)
  pub decrypt-encrypt :
      (key b : List ℕ) → length b ≡ 16 → IsBytes b → c.ecb_decrypt key (c.ecb_encrypt key b) ≡ b
