-- ===== src/Crypto/Buffer/Tests.antt =====
use rohos_disk_browser.Prelude.{
  ℕ, ◌-◌, ◌/◌, ◌%◌, ◌≤◌, ◌≡◌, ◌≢◌, refl, true, false, List, some, none, take, drop, replicate,
  get_elem?, arith,
}
use rohos_disk_browser.Crypto.Bytes.{replicate-IsBytes}
use rohos_disk_browser.Crypto.Toy.{toy, toy-IsCipher}
use rohos_disk_browser.Crypto.Cbc.{cbc_decrypt}
use rohos_disk_browser.Crypto.Sectors.{init_crypto}
use rohos_disk_browser.Crypto.Buffer.{encrypt_buffer, decrypt_buffer}
use rohos_disk_browser.Crypto.Buffer.Laws.{given, encrypt-decrypt_buffer}
use rohos_disk_browser.Crypto.Buffer.Verify.{decrypt_buffer_accepts}
use rohos_disk_browser.Crypto.Buffer.Iv.{encrypt_buffer-iv}

abbrev key : List ℕ
key = replicate 64 3

abbrev iv : List ℕ
iv = replicate 64 1

abbrev buffer : List ℕ
buffer = replicate 48 20

encrypt-decrypt_buffer_example :
    (out : List ℕ) × (iv' : List ℕ) × (plain : List ℕ) × (encrypt_buffer toy
        (given buffer 20 key iv)
        40
      ≡ some (true, given out 32 key iv'))
    × (decrypt_buffer toy (given out 32 key iv) ≡ some (true, given plain 20 key iv))
    × (take 20 plain ≡ take 20 buffer)
encrypt-decrypt_buffer_example =
    encrypt-decrypt_buffer toy toy-IsCipher buffer key iv 20 40 (omega arith) (omega arith)
      (omega arith) (omega arith) (replicate-IsBytes 64 1 (omega arith))
      (replicate-IsBytes 48 20 (omega arith))

encrypt_buffer-iv_example :
    (out : List ℕ) × (iv' : List ℕ) × (encrypt_buffer toy (given buffer 20 key iv) 40
      ≡ some (true, given out 32 key iv'))
    × (take 16 iv' ≡ take 16 (drop 16 out))
    × (drop 16 iv' ≡ drop 16 iv)
encrypt_buffer-iv_example =
    encrypt_buffer-iv toy toy-IsCipher buffer key iv 20 40 (omega arith) (omega arith) (omega arith)
      (omega arith)

too_small :
    encrypt_buffer toy (given buffer 20 key iv) 31
    ≡ some (false, record { buffer = some buffer; len = some 0; key = some key; iv = some iv })
unfolding encrypt_buffer
too_small = refl

null_vector :
    encrypt_buffer toy (record { buffer = none; len = some 20; key = some key; iv = none }) 31
    ≡ some (false, record { buffer = none; len = some 20; key = some key; iv = none })
unfolding encrypt_buffer
null_vector = refl

decrypt_buffer_accepts_example :
    (out : List ℕ) × (pad : ℕ) × (◌≢◌ {A = ℕ} 32 0)
    × (32 % 16 ≡ 0)
    × (cbc_decrypt toy (init_crypto key) (32 / 16) iv encrypt-decrypt_buffer_example.0 ≡ some out)
    × (get_elem? out (32 - 1) ≡ some pad)
    × (1 ≤ pad)
    × (pad ≤ 16)
    × (take pad (drop (32 - pad) out) ≡ replicate pad pad)
    × (given encrypt-decrypt_buffer_example.2 20 key iv ≡ given out (32 - pad) key iv)
decrypt_buffer_accepts_example =
    decrypt_buffer_accepts toy encrypt-decrypt_buffer_example.0 key iv 32
      (given encrypt-decrypt_buffer_example.2 20 key iv) encrypt-decrypt_buffer_example.4
