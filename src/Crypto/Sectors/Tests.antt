-- ===== src/Crypto/Sectors/Tests.antt =====
use rohos_disk_browser.Prelude.{
  ℕ, ◌*◌, ◌/◌, ◌<◌, ◌≡◌, ◌↔◌, refl, List, [], ◌∷◌, ◌++◌, none, some, length, take, drop, replicate,
  length-replicate, arith,
}
use rohos_disk_browser.Crypto.Bytes.{IsBytes, le32, load32, replicate-IsBytes}
use rohos_disk_browser.Crypto.Toy.{toy, toy-IsCipher}
use rohos_disk_browser.Crypto.Cbc.{cbc_encrypt, cbc_decrypt}
use rohos_disk_browser.Crypto.Cbc.Xor.{xor_bytes}
use rohos_disk_browser.Crypto.Cbc.Chain.{chain_encrypt}
use rohos_disk_browser.Crypto.Cbc.Laws.{block_at, cbc_encrypt_total, cbc_encrypt-block}
use rohos_disk_browser.Crypto.Sectors.{sector_iv, encrypt, decrypt}
use rohos_disk_browser.Crypto.Sectors.Laws.{decrypt-encrypt, sector_after}
use rohos_disk_browser.Crypto.Sectors.Access.{decrypt_run, encrypt-none_iff}

abbrev key : List ℕ
key = 5 ∷ replicate 31 9

abbrev iv : List ℕ
iv = replicate 64 0

abbrev text : List ℕ
text = replicate 1536 7

text-length : length text ≡ 1536
text-length = length-replicate {A = ℕ} 1536 7

iv-length : length iv ≡ 64
iv-length = length-replicate {A = ℕ} 64 0

iv-IsBytes : IsBytes iv
iv-IsBytes = replicate-IsBytes 64 0 (omega arith)

text-IsBytes : IsBytes text
text-IsBytes = replicate-IsBytes 1536 7 (omega arith)

-- The first block of a sector is xored with the sector number, the next with the first.
first_block : take 2 (chain_encrypt toy key 2 (sector_iv iv 258) (replicate 32 7)) ≡ 10 ∷ 11 ∷ []
unfolding chain_encrypt sector_iv le32 load32
first_block = refl

decrypt-encrypt_example :
    (out : List ℕ) × (encrypt toy key iv text 41 (512 * 3) ≡ some out)
    × (length out ≡ length text)
    × IsBytes out
    × (decrypt toy key iv out 41 (512 * 3) ≡ some text)
decrypt-encrypt_example =
    decrypt-encrypt toy toy-IsCipher key iv iv-length 3 41 text (omega (arith, text-length))
      iv-IsBytes text-IsBytes

abbrev written : List ℕ
written = decrypt-encrypt_example.0

abbrev blocks :
    (out : List ℕ) × (iv' : List ℕ) × (cbc_encrypt toy key 3 iv text ≡ some (out, iv'))
    × (length out ≡ length text)
    × IsBytes out
    × (length iv' ≡ length iv)
    × (cbc_decrypt toy key 3 iv out ≡ some text)
blocks =
    cbc_encrypt_total toy toy-IsCipher key 3 iv text (omega (arith, text-length))
      (omega (arith, iv-length)) iv-IsBytes text-IsBytes

decrypt_run_example :
    decrypt toy key iv (take (512 * 1) (drop (512 * 1) written)) (sector_after 41 1) (512 * 1)
    ≡ some (take (512 * 1) (drop (512 * 1) text))
decrypt_run_example =
    decrypt_run toy toy-IsCipher key iv iv-length 1 1 1 41 text written (omega arith)
      (omega (arith, text-length)) iv-IsBytes text-IsBytes decrypt-encrypt_example.1

encrypt-none_iff_example :
    (encrypt toy key iv text 41 1537 ≡ none) ↔ (length text / 512 * 512 < 1537)
encrypt-none_iff_example =
    encrypt-none_iff toy toy-IsCipher key iv iv-length 41 1537 text (omega arith)

cbc_encrypt-block_example :
    (block_at 1 blocks.0
      ≡ toy.ecb_encrypt key (xor_bytes (block_at 1 text) (block_at 1 (take 16 iv ++ blocks.0))))
    × (drop (16 * 3) blocks.0 ≡ drop (16 * 3) text)
cbc_encrypt-block_example =
    cbc_encrypt-block toy toy-IsCipher key 3 1 iv text blocks.0 blocks.1 (omega arith)
      (omega (arith, text-length)) (omega (arith, iv-length)) blocks.2
