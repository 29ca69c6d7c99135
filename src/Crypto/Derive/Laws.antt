-- ===== src/Crypto/Derive/Laws.antt =====
-- crypt.cpp: the derived key is the modified hash, encrypted under the hash.
use rohos_disk_browser.Prelude.{
  ℕ, suc, ◌≡◌, refl, ap, List, [], ◌∷◌, some, length, replicate, length-replicate, arith,
}
use rohos_disk_browser.Crypto.Bytes.{IsBytes, replicate-IsBytes}
use rohos_disk_browser.Crypto.Cipher.{Cipher, IsCipher}
use rohos_disk_browser.Crypto.Cbc.{cbc_decrypt}
use rohos_disk_browser.Crypto.Cbc.Laws.{cbc_encrypt_total}
use rohos_disk_browser.Crypto.Sectors.{init_crypto}
use rohos_disk_browser.Crypto.Derive.{get_array_sec_byte2, stir, start_value, derive_key}

length-stir : (sec_byte : ℕ) (key : List ℕ) → length (stir sec_byte key) ≡ length key
unfolding stir
length-stir sec_byte [] = refl
length-stir sec_byte (k ∷ key) = ap suc (length-stir ((get_array_sec_byte2 sec_byte k).1) key)

stir-IsBytes : (sec_byte : ℕ) (key : List ℕ) → IsBytes (stir sec_byte key)
unfolding stir get_array_sec_byte2
stir-IsBytes sec_byte [] = tt
stir-IsBytes sec_byte (k ∷ key) =
    (omega arith, stir-IsBytes ((get_array_sec_byte2 sec_byte k).1) key)

-- From every password a key of 64 bytes is derived, and decrypting it with the first 32 bytes of the
-- password's hash and a zero vector gives back the modified hash. It needs of SHA-512 that a hash
-- has 64 bytes.
pub derive_key-decrypt :
    (c : Cipher) (ok : IsCipher c) (sha512 : List ℕ → List ℕ)
    → ((p : List ℕ) → length (sha512 p) ≡ 64)
    → (passw : List ℕ)
    → (key : List ℕ) × ((iv : List ℕ) × ((derive_key c sha512 (some passw) ≡ some (some (key, iv)))
          × ((length key ≡ 64)
              × ((IsBytes key)
                  × (cbc_decrypt c (init_crypto (sha512 passw)) 4 (replicate 64 0) key
                      ≡ some (stir (start_value (sha512 passw)) (sha512 passw)))))))
unfolding derive_key
derive_key-decrypt c ok sha512 size passw =
    let hash = sha512 passw in
    let stirred = stir (start_value hash) hash in
    let long = length-stir (start_value hash) hash in
    let zeros = length-replicate {A = ℕ} 64 0 in
    let (key, iv, run, len, bytes, iv_len, back) =
      cbc_encrypt_total c ok (init_crypto hash) 4 (replicate 64 0) stirred
        (omega (arith, long, size passw)) (omega (arith, zeros))
        (replicate-IsBytes 64 0 (omega arith)) (stir-IsBytes (start_value hash) hash) in
    (key, (iv, (rw run, (omega (arith, len, long, size passw), (bytes, back)))))
