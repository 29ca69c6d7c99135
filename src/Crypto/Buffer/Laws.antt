-- ===== src/Crypto/Buffer/Laws.antt =====
-- `EncryptBuffer` and `DecryptBuffer` together.
use rohos_disk_browser.Prelude.{
  ℕ, ◌+◌, ◌-◌, ◌/◌, ◌%◌, ◌^◌, ◌≤◌, ◌<◌, ◌≡◌, true, false, List, some, length, take, ltb, ◌==◌,
  take-append, length-take, arith,
}
use rohos_disk_browser.Crypto.Bytes.{IsBytes}
use rohos_disk_browser.Crypto.Cipher.{Cipher, IsCipher}
use rohos_disk_browser.Crypto.Cbc.{cbc_encrypt, cbc_decrypt}
use rohos_disk_browser.Crypto.Cbc.Laws.{cbc_encrypt_total}
use rohos_disk_browser.Crypto.Sectors.{init_crypto}
use rohos_disk_browser.Crypto.Buffer.{
  Args, odd, u32, block_size, pad_and_encrypt, encrypt_buffer, decrypt_and_verify, decrypt_buffer,
}
use rohos_disk_browser.Crypto.Buffer.Padding.{
  memset_lem, padded, length-padded, padded-IsBytes, last_byte-padded, verify_padding_lem,
}

-- A call in which no pointer is null.
abbrev pub given : List ℕ → ℕ → List ℕ → List ℕ → Args
given buffer len key iv = record {
  buffer = some buffer;
  len = some len;
  key = some key;
  iv = some iv;
}

module _ (c : Cipher) (ok : IsCipher c) where
  pub pad_and_encrypt_lem :
      (buffer key iv : List ℕ) (len : ℕ) {out iv' : List ℕ}
      → len + odd len ≤ length buffer
      → len + block_size < 2 ^ 32
      → cbc_encrypt c (init_crypto key) ((len + odd len) / 16) iv (padded buffer len (odd len))
        ≡ some (out, iv')
      → pad_and_encrypt c buffer len key iv ≡ some (true, given out (len + odd len) key iv')
  unfolding pad_and_encrypt
  pad_and_encrypt_lem buffer key iv len {out} {iv'} fits small e =
      let wrap : u32 (len + odd len) ≡ len + odd len = omega arith in
      let blocks : (len + odd len + 15) / 16 ≡ (len + odd len) / 16 = omega arith in
      rw (memset_lem buffer len (odd len) (odd len) fits, wrap, blocks, e)

  decrypt_and_verify_lem :
      (out buffer key iv : List ℕ) (len : ℕ) (args : Args)
      → len + odd len ≤ length buffer
      → cbc_decrypt c (init_crypto key) ((len + odd len) / 16) iv out
        ≡ some (padded buffer len (odd len))
      → decrypt_and_verify c out (len + odd len) key iv args
        ≡ some (true, record args { buffer = some (padded buffer len (odd len)); len = some len })
  unfolding decrypt_and_verify
  decrypt_and_verify_lem out buffer key iv len args fits e =
      let blocks : (len + odd len + 15) / 16 ≡ (len + odd len) / 16 = omega arith in
      rw (
        blocks,
        e,
        last_byte-padded buffer len (odd len) (omega arith) (omega arith),
        verify_padding_lem buffer len (odd len) args (omega arith) (omega arith) (omega arith),
      )

  -- With room for the padding, `EncryptBuffer` succeeds and makes the length the next multiple of
  -- 16, and `DecryptBuffer` with the same key and the vector that was passed in succeeds and gives
  -- back the length and the data.
  pub encrypt-decrypt_buffer :
      (buffer key iv : List ℕ) (len size : ℕ)
      → len + odd len ≤ size
      → size ≤ length buffer
      → len + block_size < 2 ^ 32
      → 16 ≤ length iv
      → IsBytes iv
      → IsBytes buffer
      → (out : List ℕ) × (iv' : List ℕ) × (plain : List ℕ) × (encrypt_buffer c
            (given buffer len key iv)
            size
          ≡ some (true, given out (len + odd len) key iv'))
        × (decrypt_buffer c (given out (len + odd len) key iv)
            ≡ some (true, given plain len key iv))
        × (take len plain ≡ take len buffer)
  unfolding encrypt_buffer decrypt_buffer
  encrypt-decrypt_buffer buffer key iv len size room within small iv_size p q =
      let n = (len + odd len) / 16 in
      let pad = padded buffer len (odd len) in
      let len_pad = length-padded buffer len (odd len) (omega arith) in
      let (out, iv', e, _len_out, _bytes, _len_iv, d) =
        cbc_encrypt_total c ok (init_crypto key) n iv pad (omega arith) iv_size p
          (padded-IsBytes buffer len (odd len) (omega arith) q) in
      let needed : u32 (u32 (len + 16) + 2 ^ 32 - len % 16) ≡ len + odd len = omega arith in
      let enough : ltb size (len + odd len) ≡ false = ground arith in
      let nonzero : (len + odd len == 0) ≡ false = ground arith in
      let aligned : ((len + odd len) % 16 == 0) ≡ true = ground arith in
      (
        out,
        iv',
        pad,
        rw (needed, enough, pad_and_encrypt_lem buffer key iv len (omega arith) small e),
        rw (
          nonzero,
          aligned,
          decrypt_and_verify_lem out buffer key iv len (given out (len + odd len) key iv)
              (omega arith) d,
        ),
        take-append len (take len buffer) _ (omega (arith, length-take len buffer)),
      )
