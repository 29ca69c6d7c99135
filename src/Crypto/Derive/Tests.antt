-- ===== src/Crypto/Derive/Tests.antt =====
-- A key derived with the cipher of Crypto/Toy and a stand-in for the hash.
use rohos_disk_browser.Prelude.{
  ℕ, ◌%◌, ◌≡◌, List, [], ◌∷◌, some, length, replicate, length-replicate,
}
use rohos_disk_browser.Crypto.Bytes.{IsBytes}
use rohos_disk_browser.Crypto.Cbc.{cbc_decrypt}
use rohos_disk_browser.Crypto.Sectors.{init_crypto}
use rohos_disk_browser.Crypto.Toy.{toy, toy-IsCipher}
use rohos_disk_browser.Crypto.Derive.{stir, start_value, derive_key}
use rohos_disk_browser.Crypto.Derive.Laws.{derive_key-decrypt}

-- 64 bytes that depend on the password.
abbrev hash : List ℕ → List ℕ
hash [] = replicate 64 1
hash (x ∷ p) = replicate 64 (x % 256)

length-hash : (p : List ℕ) → length (hash p) ≡ 64
length-hash [] = length-replicate {A = ℕ} 64 1
length-hash (x ∷ p) = length-replicate {A = ℕ} 64 (x % 256)

derive_key-decrypt_example :
    (key : List ℕ) × ((iv : List ℕ) × ((derive_key toy hash (some (112 ∷ 119 ∷ []))
          ≡ some (some (key, iv)))
        × ((length key ≡ 64)
            × ((IsBytes key)
                × (cbc_decrypt toy (init_crypto (hash (112 ∷ 119 ∷ []))) 4 (replicate 64 0) key
                    ≡ some (stir (start_value (hash (112 ∷ 119 ∷ []))) (hash (112 ∷ 119 ∷ []))))))))
derive_key-decrypt_example = derive_key-decrypt toy toy-IsCipher hash length-hash (112 ∷ 119 ∷ [])
