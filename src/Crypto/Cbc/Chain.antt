-- ===== src/Crypto/Cbc/Chain.antt =====
-- The CBC loops against cipher block chaining as a function of the blocks.
use rohos_disk_browser.Prelude.{
  ℕ, zero, suc, ◌*◌, ◌≤◌, ◌≡◌, refl, ap, ◌∙◌, List, [], ◌++◌, some, length, take, drop,
  length-append, length-take, length-drop, take-append-drop, take-append, drop-append, drop-drop,
  arith,
}
use mathlib.Core.List.{append_assoc}
use rohos_disk_browser.Crypto.Bytes.{IsBytes, IsBytes-append, IsBytes-take, IsBytes-drop, read_lem}
use rohos_disk_browser.Crypto.Cipher.{Cipher, IsCipher}
use rohos_disk_browser.Crypto.Cbc.{cbc_encrypt, cbc_decrypt}
use rohos_disk_browser.Crypto.Cbc.Xor.{
  xor_bytes, length-xor_bytes, xor_bytes-IsBytes, xor_block_lem,
}

pub drop-blocks : (n : ℕ) (buf : List ℕ) → drop (16 * n) (drop 16 buf) ≡ drop (16 * suc n) buf
drop-blocks n buf = drop-drop 16 (16 * n) buf ∙ ap (λ k. drop k buf) (omega arith)

module _ (c : Cipher) (key : List ℕ) where
  unfoldable pub chain_encrypt : ℕ → List ℕ → List ℕ → List ℕ
  chain_encrypt zero prev buf = []
  chain_encrypt (suc n) prev buf =
      let block = c.ecb_encrypt key (xor_bytes (take 16 buf) prev) in
      block ++ chain_encrypt n block (drop 16 buf)

  -- The last block of the chain, or the vector if there is none.
  unfoldable pub chain_last : ℕ → List ℕ → List ℕ → List ℕ
  chain_last zero prev buf = prev
  chain_last (suc n) prev buf =
      chain_last n (c.ecb_encrypt key (xor_bytes (take 16 buf) prev)) (drop 16 buf)

  unfoldable pub chain_decrypt : ℕ → List ℕ → List ℕ → List ℕ
  chain_decrypt zero prev buf = []
  chain_decrypt (suc n) prev buf =
      xor_bytes (c.ecb_decrypt key (take 16 buf)) prev
      ++ chain_decrypt n (take 16 buf) (drop 16 buf)

  module _ (ok : IsCipher c) where
    pub length-block :
        (buf prev : List ℕ)
        → 16 ≤ length buf
        → length (c.ecb_encrypt key (xor_bytes (take 16 buf) prev)) ≡ 16
    length-block buf prev h =
        ok.length-encrypt key (xor_bytes (take 16 buf) prev)
          (omega (arith, length-xor_bytes (take 16 buf) prev, length-take 16 buf))

    pub block-IsBytes :
        (buf prev : List ℕ)
        → IsBytes buf
        → IsBytes prev
        → IsBytes (c.ecb_encrypt key (xor_bytes (take 16 buf) prev))
    block-IsBytes buf prev p q =
        ok.encrypt-IsBytes key (xor_bytes (take 16 buf) prev)
          (xor_bytes-IsBytes (take 16 buf) prev (IsBytes-take 16 buf p) q)

    pub length-chain_encrypt :
        (n : ℕ) (prev buf : List ℕ)
        → 16 * n ≤ length buf
        → length (chain_encrypt n prev buf) ≡ 16 * n
    unfolding chain_encrypt
    length-chain_encrypt zero prev buf h = omega arith
    length-chain_encrypt (suc n) prev buf h =
        let block = c.ecb_encrypt key (xor_bytes (take 16 buf) prev) in
        let b = length-block buf prev (omega arith) in
        let rest = length-chain_encrypt n block (drop 16 buf) (omega (arith, length-drop 16 buf)) in
        omega (arith, length-append block (chain_encrypt n block (drop 16 buf)), b, rest)

    pub chain_encrypt-IsBytes :
        (n : ℕ) (prev buf : List ℕ)
        → IsBytes prev
        → IsBytes buf
        → IsBytes (chain_encrypt n prev buf)
    unfolding chain_encrypt
    chain_encrypt-IsBytes zero prev buf p q = tt
    chain_encrypt-IsBytes (suc n) prev buf p q =
        let block = c.ecb_encrypt key (xor_bytes (take 16 buf) prev) in
        let b = block-IsBytes buf prev q p in
        IsBytes-append block (chain_encrypt n block (drop 16 buf)) b
          (chain_encrypt-IsBytes n block (drop 16 buf) b (IsBytes-drop 16 buf q))

    pub length-chain_decrypt :
        (n : ℕ) (prev buf : List ℕ)
        → 16 * n ≤ length buf
        → length (chain_decrypt n prev buf) ≡ 16 * n
    unfolding chain_decrypt
    length-chain_decrypt zero prev buf h = omega arith
    length-chain_decrypt (suc n) prev buf h =
        let d = c.ecb_decrypt key (take 16 buf) in
        let tail = chain_decrypt n (take 16 buf) (drop 16 buf) in
        omega (
          arith,
          ok.length-decrypt key (take 16 buf) (omega (arith, length-take 16 buf)),
          length-xor_bytes d prev,
          length-append (xor_bytes d prev) tail,
          length-chain_decrypt n (take 16 buf) (drop 16 buf) (omega (arith, length-drop 16 buf)),
        )

    pub length-chain_last :
        (n : ℕ) (prev buf : List ℕ)
        → 16 * n ≤ length buf
        → length prev ≡ 16
        → length (chain_last n prev buf) ≡ 16
    unfolding chain_last
    length-chain_last zero prev buf h k = k
    length-chain_last (suc n) prev buf h k =
        length-chain_last n (c.ecb_encrypt key (xor_bytes (take 16 buf) prev)) (drop 16 buf)
          (omega (arith, length-drop 16 buf)) (length-block buf prev (omega arith))

    -- The encrypting loop runs without an access out of range, and stores the chain.
    pub cbc_encrypt_lem :
        (n : ℕ) (iv buf : List ℕ)
        → 16 * n ≤ length buf
        → 16 ≤ length iv
        → cbc_encrypt c key n iv buf
          ≡ some (
            chain_encrypt n (take 16 iv) buf ++ drop (16 * n) buf,
            chain_last n (take 16 iv) buf ++ drop 16 iv,
          )
    unfolding cbc_encrypt chain_encrypt chain_last
    cbc_encrypt_lem zero iv buf h k = rw (take-append-drop 16 iv)
    cbc_encrypt_lem (suc n) iv buf h k =
        let prev = take 16 iv in
        let x = xor_bytes (take 16 buf) prev in
        let block = c.ecb_encrypt key x in
        let len_x : length x ≡ 16 =
          omega (arith, length-xor_bytes (take 16 buf) prev, length-take 16 buf) in
        let len_b : length block ≡ 16 = length-block buf prev (omega arith) in
        let ih =
          cbc_encrypt_lem n (block ++ drop 16 iv) (drop 16 buf) (omega (arith, length-drop 16 buf))
            (omega (arith, length-append block (drop 16 iv))) in
        rw
          (
            xor_block_lem 16 buf iv (omega arith) k,
            take-append 16 x (drop 16 buf) len_x,
            drop-append 16 x (drop 16 buf) len_x,
            ih,
            take-append 16 block (drop 16 iv) len_b,
            drop-append 16 block (drop 16 iv) len_b,
            drop-blocks n buf,
            append_assoc,
          )
          refl

    -- So does the decrypting loop.
    pub cbc_decrypt_lem :
        (n : ℕ) (iv buf : List ℕ)
        → 16 * n ≤ length buf
        → 16 ≤ length iv
        → cbc_decrypt c key n iv buf ≡ some (chain_decrypt n (take 16 iv) buf ++ drop (16 * n) buf)
    unfolding cbc_decrypt chain_decrypt
    cbc_decrypt_lem zero iv buf h k = refl
    cbc_decrypt_lem (suc n) iv buf h k =
        let saved = take 16 buf in
        let d = c.ecb_decrypt key saved in
        let x = xor_bytes d (take 16 iv) in
        let len_s : length saved ≡ 16 = omega (arith, length-take 16 buf) in
        let len_d : length d ≡ 16 = ok.length-decrypt key saved len_s in
        let len_x : length x ≡ 16 = omega (arith, length-xor_bytes d (take 16 iv)) in
        let ih =
          cbc_decrypt_lem n (saved ++ drop 16 iv) (drop 16 buf) (omega (arith, length-drop 16 buf))
            (omega (arith, length-append saved (drop 16 iv))) in
        rw
          (
            read_lem 16 buf (omega arith),
            xor_block_lem 16 (d ++ drop 16 buf) iv (omega (arith, length-append d (drop 16 buf))) k,
            take-append 16 d (drop 16 buf) len_d,
            drop-append 16 d (drop 16 buf) len_d,
            take-append 16 x (drop 16 buf) len_x,
            drop-append 16 x (drop 16 buf) len_x,
            ih,
            take-append 16 saved (drop 16 iv) len_s,
            drop-blocks n buf,
            append_assoc,
          )
          refl
