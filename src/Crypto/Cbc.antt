-- ===== src/Crypto/Cbc.antt =====
-- The CBC loops of crypt.cpp over the blocks of one buffer, which `encrypt`, `decrypt`,
-- `EncryptBuffer`, `DecryptBuffer` and `DeriveKeyFromPassw_v2` share in their text. The list is the
-- memory from the pointer on; `none` is an access past its end.
pub mod Xor
pub mod Chain
pub mod Laws
pub mod Fault
pub mod Last
use rohos_disk_browser.Prelude.{
  ℕ, zero, suc, List, [], ◌∷◌, ◌++◌, Option, none, some, ◌>>=◌, take, drop, bit_xor,
}
use rohos_disk_browser.Crypto.Bytes.{read}
use rohos_disk_browser.Crypto.Cipher.{Cipher}

-- `XORBlock(InA, InB, Out, Size)` as every caller calls it, with `Out` the same pointer as `InA`.
unfoldable pub xor_block : ℕ → List ℕ → List ℕ → Option (List ℕ)
xor_block zero a b = some a
xor_block (suc n) [] b = none
xor_block (suc n) (x ∷ a) [] = none
xor_block (suc n) (x ∷ a) (y ∷ b) = do out ← xor_block n a b; some (bit_xor x y ∷ out)

module _ (c : Cipher) (key : List ℕ) where
  -- `n` rounds of the encrypting loop: the memory after it, and the last block written, which
  -- replaces the first 16 bytes of the vector.
  unfoldable pub cbc_encrypt : ℕ → List ℕ → List ℕ → Option (List ℕ × List ℕ)
  cbc_encrypt zero iv buf = some (buf, iv)
  cbc_encrypt (suc n) iv buf = do
    x ← xor_block 16 buf iv
    let block = c.ecb_encrypt key (take 16 x)
    (rest, iv') ← cbc_encrypt n (block ++ drop 16 iv) (drop 16 x)
    some (block ++ rest, iv')

  -- `n` rounds of the decrypting loop. IV3 keeps the ciphertext of the block for the next round.
  unfoldable pub cbc_decrypt : ℕ → List ℕ → List ℕ → Option (List ℕ)
  cbc_decrypt zero iv buf = some buf
  cbc_decrypt (suc n) iv buf = do
    saved ← read 16 buf
    x ← xor_block 16 (c.ecb_decrypt key saved ++ drop 16 buf) iv
    rest ← cbc_decrypt n (saved ++ drop 16 iv) (drop 16 x)
    some (take 16 x ++ rest)
