-- ===== src/Crypto/Cbc/Laws.antt =====
-- What the CBC loops guarantee: decryption undoes encryption, and a ciphertext block is the
-- cipher of the plaintext block under the block before it.
use rohos_disk_browser.Prelude.{
  ℕ, zero, suc, ◌*◌, ◌≤◌, ◌<◌, ◌≡◌, refl, sym, ap, ◌∙◌, List, ◌++◌, some, length, take, drop,
  length-append, length-take, length-drop, take-append-drop, take-append, drop-append, drop-drop,
  take-add, take-append_le, drop-append_le, arith,
}
use mathlib.Core.List.{append_assoc}
use rohos_disk_browser.Crypto.Bytes.{IsBytes, IsBytes-append, IsBytes-take, IsBytes-drop}
use rohos_disk_browser.Crypto.Cipher.{Cipher, IsCipher}
use rohos_disk_browser.Crypto.Cbc.{cbc_encrypt, cbc_decrypt}
use rohos_disk_browser.Crypto.Cbc.Xor.{
  xor_bytes, length-xor_bytes, xor_bytes-IsBytes, xor_bytes-cancel,
}
use rohos_disk_browser.Crypto.Cbc.Chain.{
  chain_encrypt, chain_last, chain_decrypt, length-chain_encrypt, length-chain_last,
  chain_encrypt-IsBytes, length-block, block-IsBytes, cbc_encrypt_lem, cbc_decrypt_lem,
}

-- Block `i` of 16 bytes.
abbrev pub block_at : ℕ → List ℕ → List ℕ
block_at i buf = take 16 (drop (16 * i) buf)

block_at-drop : (i : ℕ) (a : List ℕ) → block_at (suc i) a ≡ block_at i (drop 16 a)
block_at-drop i a =
    ap (λ k. take 16 (drop k a)) (omega arith) ∙ ap (take 16) (sym (drop-drop 16 (16 * i) a))

block_at-suc : (i : ℕ) (a b : List ℕ) → length a ≡ 16 → block_at (suc i) (a ++ b) ≡ block_at i b
block_at-suc i a b h = block_at-drop i (a ++ b) ∙ ap (λ k. block_at i k) (drop-append 16 a b h)

module _ (c : Cipher) (ok : IsCipher c) (key : List ℕ) where
  pub chain_decrypt-encrypt :
      (n : ℕ) (prev buf rest : List ℕ)
      → 16 * n ≤ length buf
      → IsBytes prev
      → IsBytes buf
      → chain_decrypt c key n prev (chain_encrypt c key n prev buf ++ rest) ≡ take (16 * n) buf
  unfolding chain_encrypt chain_decrypt
  chain_decrypt-encrypt zero prev buf rest h p q = refl
  chain_decrypt-encrypt (suc n) prev buf rest h p q =
      let x = xor_bytes (take 16 buf) prev in
      let block = c.ecb_encrypt key x in
      let tail = chain_encrypt c key n block (drop 16 buf) in
      let len_b = length-block c key ok buf prev (omega arith) in
      let len_x : length x ≡ 16 =
        omega (arith, length-xor_bytes (take 16 buf) prev, length-take 16 buf) in
      let ih =
        chain_decrypt-encrypt n block (drop 16 buf) rest (omega (arith, length-drop 16 buf))
          (block-IsBytes c key ok buf prev q p) (IsBytes-drop 16 buf q) in
      rw
        (
          append_assoc,
          take-append 16 block (tail ++ rest) len_b,
          drop-append 16 block (tail ++ rest) len_b,
          ok.decrypt-encrypt key x len_x
              (xor_bytes-IsBytes (take 16 buf) prev (IsBytes-take 16 buf q) p),
          xor_bytes-cancel (take 16 buf) prev,
          ih,
          take-add 16 (16 * n) buf,
        )
        (ap (λ k. take k buf) (omega arith))

  -- The encrypting loop does not leave the memory, keeps its length, and writes bytes.
  pub cbc_encrypt_total :
      (n : ℕ) (iv buf : List ℕ)
      → 16 * n ≤ length buf
      → 16 ≤ length iv
      → IsBytes iv
      → IsBytes buf
      → (out : List ℕ) × (iv' : List ℕ) × (cbc_encrypt c key n iv buf ≡ some (out, iv'))
        × (length out ≡ length buf)
        × IsBytes out
        × (length iv' ≡ length iv)
        × (cbc_decrypt c key n iv out ≡ some buf)
  cbc_encrypt_total n iv buf h k p q =
      let prev = take 16 iv in
      let ct = chain_encrypt c key n prev buf in
      let out = ct ++ drop (16 * n) buf in
      let iv' = chain_last c key n prev buf ++ drop 16 iv in
      let len_ct = length-chain_encrypt c key ok n prev buf h in
      let len_out : length out ≡ length buf =
        omega (arith, len_ct, length-append ct (drop (16 * n) buf), length-drop (16 * n) buf) in
      (
        out,
        iv',
        cbc_encrypt_lem c key ok n iv buf h k,
        len_out,
        IsBytes-append ct (drop (16 * n) buf)
            (chain_encrypt-IsBytes c key ok n prev buf (IsBytes-take 16 iv p) q)
            (IsBytes-drop (16 * n) buf q),
        omega (
          arith,
          length-chain_last c key ok n prev buf h (omega (arith, length-take 16 iv)),
          length-append (chain_last c key n prev buf) (drop 16 iv),
          length-drop 16 iv,
        ),
        rw
            (
              cbc_decrypt_lem c key ok n iv out (omega arith) k,
              chain_decrypt-encrypt n prev buf (drop (16 * n) buf) h (IsBytes-take 16 iv p) q,
              drop-append (16 * n) ct (drop (16 * n) buf) len_ct,
              take-append-drop (16 * n) buf,
            )
            refl,
      )

  chain_encrypt-block :
      (n i : ℕ) (iv buf : List ℕ)
      → i < n
      → 16 * n ≤ length buf
      → length iv ≡ 16
      → let ct = chain_encrypt c key n iv buf in
        block_at i ct ≡ c.ecb_encrypt key (xor_bytes (block_at i buf) (block_at i (iv ++ ct)))
  unfolding chain_encrypt
  chain_encrypt-block zero i iv buf p h k = absurd (omega arith)
  chain_encrypt-block (suc n) zero iv buf p h k =
      let block = c.ecb_encrypt key (xor_bytes (take 16 buf) iv) in
      let tail = chain_encrypt c key n block (drop 16 buf) in
      let len_b = length-block c key ok buf iv (omega arith) in
      rw (take-append 16 block tail len_b, take-append 16 iv (block ++ tail) k) refl
  chain_encrypt-block (suc n) (suc i) iv buf p h k =
      let block = c.ecb_encrypt key (xor_bytes (take 16 buf) iv) in
      let tail = chain_encrypt c key n block (drop 16 buf) in
      let len_b = length-block c key ok buf iv (omega arith) in
      let ih =
        chain_encrypt-block n i block (drop 16 buf) (omega arith)
          (omega (arith, length-drop 16 buf)) len_b in
      let same : block_at (suc i) buf ≡ block_at i (drop 16 buf) = block_at-drop i buf in
      rw (block_at-suc i block tail len_b, block_at-suc i iv (block ++ tail) k, same) ih

  -- A block inside the first of two parts is a block of that part.
  block_at-append :
      (i : ℕ) (a b : List ℕ) → 16 * suc i ≤ length a → block_at i (a ++ b) ≡ block_at i a
  block_at-append i a b h =
      ap (take 16) (drop-append_le (16 * i) a b (omega arith))
      ∙ take-append_le 16 (drop (16 * i) a) b (omega (arith, length-drop (16 * i) a))

  -- After `n` rounds over a memory of at least `n` blocks, ciphertext block `i < n` is the cipher of
  -- plaintext block `i` xored with the ciphertext block before it, where the first 16 bytes of the
  -- vector stand before block 0, and the memory behind the `n` blocks is unchanged.
  pub cbc_encrypt-block :
      (n i : ℕ) (iv buf out iv' : List ℕ)
      → i < n
      → 16 * n ≤ length buf
      → 16 ≤ length iv
      → cbc_encrypt c key n iv buf ≡ some (out, iv')
      → (block_at i out
          ≡ c.ecb_encrypt key (xor_bytes (block_at i buf) (block_at i (take 16 iv ++ out))))
        × (drop (16 * n) out ≡ drop (16 * n) buf)
  cbc_encrypt-block n i iv buf out iv' p h k e =
      let prev = take 16 iv in
      let ct = chain_encrypt c key n prev buf in
      let rest = drop (16 * n) buf in
      let len_p : length prev ≡ 16 = omega (arith, length-take 16 iv) in
      let len_ct = length-chain_encrypt c key ok n prev buf h in
      let whole : out ≡ ct ++ rest = cc (cbc_encrypt_lem c key ok n iv buf h k) in
      (
        rw
            (
              whole,
              block_at-append i ct rest (omega arith),
              ← append_assoc prev ct rest,
              block_at-append i (prev ++ ct) rest (omega (arith, length-append prev ct)),
            )
            (chain_encrypt-block n i prev buf p h len_p),
        rw whole (drop-append (16 * n) ct rest len_ct),
      )
