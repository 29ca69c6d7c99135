-- ===== src/Crypto/Buffer/Iv.antt =====
-- What `EncryptBuffer` leaves in the vector that its caller passed.
use rohos_disk_browser.Prelude.{
  ℕ, suc, ◌+◌, ◌-◌, ◌*◌, ◌/◌, ◌%◌, ◌^◌, ◌≤◌, ◌<◌, ◌≡◌, ap, ◌∙◌, sym, true, false, List, ◌++◌, some,
  length, take, drop, ltb, take-append, drop-append, length-take, arith,
}
use rohos_disk_browser.Crypto.Cipher.{Cipher, IsCipher}
use rohos_disk_browser.Crypto.Cbc.Chain.{
  chain_encrypt, chain_last, length-chain_last, cbc_encrypt_lem,
}
use rohos_disk_browser.Crypto.Cbc.Last.{chain_last-block}
use rohos_disk_browser.Crypto.Sectors.{init_crypto}
use rohos_disk_browser.Crypto.Buffer.{odd, u32, block_size, encrypt_buffer}
use rohos_disk_browser.Crypto.Buffer.Padding.{padded, length-padded}
use rohos_disk_browser.Crypto.Buffer.Laws.{given, pad_and_encrypt_lem}

module _ (c : Cipher) (ok : IsCipher c) where
  -- A successful `EncryptBuffer` overwrites the first 16 bytes of the caller's vector by the last
  -- ciphertext block, and leaves the rest of the vector.
  pub encrypt_buffer-iv :
      (buffer key iv : List ℕ) (len size : ℕ)
      → len + odd len ≤ size
      → size ≤ length buffer
      → len + block_size < 2 ^ 32
      → 16 ≤ length iv
      → (out : List ℕ) × (iv' : List ℕ) × (encrypt_buffer c (given buffer len key iv) size
          ≡ some (true, given out (len + odd len) key iv'))
        × (take 16 iv' ≡ take 16 (drop (len + odd len - 16) out))
        × (drop 16 iv' ≡ drop 16 iv)
  unfolding encrypt_buffer
  encrypt_buffer-iv buffer key iv len size room within small iv_size =
      let n = (len + odd len) / 16 in
      let m = len / 16 in
      let k = init_crypto key in
      let pad = padded buffer len (odd len) in
      let len_pad = length-padded buffer len (odd len) (omega arith) in
      let prev = take 16 iv in
      let out = chain_encrypt c k n prev pad ++ drop (16 * n) pad in
      let last = chain_last c k n prev pad in
      let run = cbc_encrypt_lem c k ok n iv pad (omega arith) iv_size in
      let len_last : length last ≡ 16 =
        length-chain_last c k ok n prev pad (omega arith) (omega (arith, length-take 16 iv)) in
      let needed : u32 (u32 (len + 16) + 2 ^ 32 - len % 16) ≡ len + odd len = omega arith in
      let enough : ltb size (len + odd len) ≡ false = ground arith in
      let blocks : n ≡ suc m = omega arith in
      let place : len + odd len - 16 ≡ 16 * m = omega arith in
      let last_block : take 16 (drop (16 * m) out) ≡ last =
        rw blocks (chain_last-block c ok k m prev pad (drop (16 * suc m) pad) (omega arith)) in
      (
        out,
        last ++ drop 16 iv,
        rw (needed, enough, pad_and_encrypt_lem c ok buffer key iv len (omega arith) small run),
        take-append 16 last (drop 16 iv) len_last
            ∙ sym last_block
            ∙ ap (λ t. take 16 (drop t out)) (sym place),
        drop-append 16 last (drop 16 iv) len_last,
      )
