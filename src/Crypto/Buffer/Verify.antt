-- ===== src/Crypto/Buffer/Verify.antt =====
-- When `DecryptBuffer` accepts a buffer.
use rohos_disk_browser.Prelude.{
  ℕ, ◌+◌, ◌-◌, ◌/◌, ◌%◌, ◌≤◌, ◌≡◌, ◌≢◌, refl, ap, ap₂, ◌∙◌, sym, true, false, List, [], ◌∷◌, some,
  length, take, drop, replicate, get_elem?, not, ◌==◌, ◌||◌, Bool-cases, Option-cases, inl, inr,
  length-take, length-replicate, arith,
}
use rohos_disk_browser.Crypto.Bytes.{read}
use rohos_disk_browser.Crypto.Cipher.{Cipher}
use rohos_disk_browser.Crypto.Cbc.{cbc_decrypt}
use rohos_disk_browser.Crypto.Sectors.{init_crypto}
use rohos_disk_browser.Crypto.Buffer.{Args, differs, verify_padding, decrypt_buffer}
use rohos_disk_browser.Crypto.Buffer.Laws.{given}

differs-false : (xs ys : List ℕ) → length ys ≡ length xs → differs xs ys ≡ false → ys ≡ xs
unfolding differs
differs-false [] [] h e = refl
differs-false [] (y ∷ ys) h e = absurd (omega arith)
differs-false (x ∷ xs) [] h e = absurd (omega arith)
differs-false (x ∷ xs) (y ∷ ys) h e =
    ap₂ ◌∷◌ (ground arith) (differs-false xs ys (omega arith) (ground arith))

read_inv :
    (n : ℕ) (xs : List ℕ) {t : List ℕ} → read n xs ≡ some t → (n ≤ length xs) × (t ≡ take n xs)
unfolding read
read_inv n xs e = ground arith

-- What a verified padding says of the decrypted memory.
verify_padding_inv :
    (out : List ℕ) (len pad : ℕ) (args args' : Args)
    → verify_padding out len pad args ≡ some (true, args')
    → (1 ≤ pad)
      × (pad ≤ 16)
      × (take pad (drop (len - pad) out) ≡ replicate pad pad)
      × (args' ≡ record args { buffer = some out; len = some (len - pad) })
unfolding verify_padding
verify_padding_inv out len pad args args' e =
    elim (Option-cases (read pad (drop (len - pad) out))) [
      | inl short ↦ absurd (ground (arith, short))
      | inr (tail, found) ↦
          let cut = read_inv pad (drop (len - pad) out) found in
          let same : (differs (replicate pad pad) tail ≡ false) → tail ≡ replicate pad pad =
            differs-false (replicate pad pad) tail (
              omega (
                arith,
                ap length cut.1,
                length-take pad (drop (len - pad) out),
                length-replicate pad pad,
              )) in
          let plain : differs (replicate pad pad) tail ≡ false = ground (arith, found) in
          (
            ground (arith, found),
            ground (arith, found),
            sym cut.1 ∙ same plain,
            ground (arith, found, plain),
          )
    ]

module _ (c : Cipher) where
  -- `DecryptBuffer` accepts only a length that is a positive multiple of 16, and only if the
  -- decrypted memory ends, at that length, in `pad` bytes that all are `pad`, with `pad` from 1
  -- to 16. It then leaves the decrypted memory in the buffer, takes `pad` off the length, and
  -- changes neither the key nor the vector.
  pub decrypt_buffer_accepts :
      (buffer key iv : List ℕ) (len : ℕ) (args' : Args)
      → decrypt_buffer c (given buffer len key iv) ≡ some (true, args')
      → (out : List ℕ) × (pad : ℕ) × (len ≢ 0)
        × (len % 16 ≡ 0)
        × (cbc_decrypt c (init_crypto key) (len / 16) iv buffer ≡ some out)
        × (get_elem? out (len - 1) ≡ some pad)
        × (1 ≤ pad)
        × (pad ≤ 16)
        × (take pad (drop (len - pad) out) ≡ replicate pad pad)
        × (args' ≡ given out (len - pad) key iv)
  unfolding decrypt_buffer
  decrypt_buffer_accepts buffer key iv len args' e =
      elim (Bool-cases ((len == 0) || not (len % 16 == 0))) [
        | inl bad ↦ absurd (ground (arith, bad))
        | inr good ↦
            let blocks : (len + 15) / 16 ≡ len / 16 = ground (arith, good) in
            let n = len / 16 in
            elim (Option-cases (cbc_decrypt c (init_crypto key) n iv buffer)) [
              | inl short ↦ absurd (ground (arith, good, blocks, short))
              | inr (out, run) ↦ elim (Option-cases (get_elem? out (len - 1))) [
                | inl short ↦ absurd (ground (arith, good, blocks, run, short))
                | inr (pad, last) ↦
                    let verified =
                      verify_padding_inv out len pad (given buffer len key iv) args'
                        (ground (arith, good, blocks, run, last)) in
                    (
                      out,
                      pad,
                      ground (arith, good),
                      ground (arith, good),
                      run,
                      last,
                      verified.0,
                      verified.1,
                      verified.2,
                      verified.3,
                    )
              ]
            ]
      ]
