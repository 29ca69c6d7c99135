-- ===== src/Crypto/Toy.antt =====
-- A block cipher that can be run: every byte is shifted by the first byte of the key.
use rohos_disk_browser.Prelude.{
  ℕ, ◌+◌, ◌-◌, ◌%◌, ◌<◌, ◌≡◌, refl, ap, ap₂, ◌∙◌, suc, List, [], ◌∷◌, length, get_or, arith,
}
use rohos_disk_browser.Crypto.Bytes.{IsBytes}
use rohos_disk_browser.Crypto.Cipher.{Cipher, IsCipher}

abbrev pub add_all : ℕ → List ℕ → List ℕ
add_all k [] = []
add_all k (x ∷ xs) = (x + k) % 256 ∷ add_all k xs

length-add_all : (k : ℕ) (b : List ℕ) → length (add_all k b) ≡ length b
length-add_all k [] = refl
length-add_all k (x ∷ b) = ap suc (length-add_all k b)

add_all-IsBytes : (k : ℕ) (b : List ℕ) → IsBytes (add_all k b)
add_all-IsBytes k [] = tt
add_all-IsBytes k (x ∷ b) = (omega arith, add_all-IsBytes k b)

add_all_back : (k : ℕ) (b : List ℕ) → k < 256 → IsBytes b → add_all (256 - k) (add_all k b) ≡ b
add_all_back k [] h p = refl
add_all_back k (x ∷ b) h p = ap₂ ◌∷◌ back (add_all_back k b h p.1)
  where
    back : ((x + k) % 256 + (256 - k)) % 256 ≡ x
    back = omega (arith, p.0)

abbrev pub toy : Cipher
toy = record {
  ecb_encrypt = λ key b. add_all (get_or key 0 0 % 256) b;
  ecb_decrypt = λ key b. add_all (256 - get_or key 0 0 % 256) b;
}

pub toy-IsCipher : IsCipher toy
toy-IsCipher = record {
  length-encrypt = λ key b h. length-add_all (get_or key 0 0 % 256) b ∙ h;
  length-decrypt = λ key b h. length-add_all (256 - get_or key 0 0 % 256) b ∙ h;
  encrypt-IsBytes = λ key b p. add_all-IsBytes (get_or key 0 0 % 256) b;
  decrypt-encrypt = λ key b h p. add_all_back (get_or key 0 0 % 256) b (omega arith) p;
}
