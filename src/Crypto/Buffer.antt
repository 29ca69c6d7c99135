-- ===== src/Crypto/Buffer.antt =====
-- `EncryptBuffer` and `DecryptBuffer` of crypt.cpp: one buffer in CBC mode with PKCS#5 padding.
pub mod Padding
pub mod Laws
pub mod Verify
pub mod Iv
mod Tests
use rohos_disk_browser.Prelude.{
  ℕ, ◌+◌, ◌-◌, ◌*◌, ◌/◌, ◌%◌, ◌^◌, Bool, true, false, not, ◌||◌, List, [], ◌∷◌, ◌++◌, Option, none,
  some, ◌>>=◌, if◌then◌else◌, ltb, leb, ◌==◌, length, take, drop, replicate, get_elem?,
}
use rohos_disk_browser.Crypto.Bytes.{read}
use rohos_disk_browser.Crypto.Cipher.{Cipher}
use rohos_disk_browser.Crypto.Cbc.{cbc_encrypt, cbc_decrypt}
use rohos_disk_browser.Crypto.Sectors.{init_crypto}

-- What the pointers of a call lead to, `none` for a null pointer: the memory at Buffer, *BufferLen,
-- and the arrays Key and Iv.
pub record Args : Type 0 where
  pub buffer : Option (List ℕ)
  pub len : Option ℕ
  pub key : Option (List ℕ)
  pub iv : Option (List ℕ)

abbrev pub block_size : ℕ
block_size = 16

abbrev pub u32 : ℕ → ℕ
u32 n = n % 2 ^ 32

-- `memset(buf + at, value, n)`, `none` past the end of the memory.
unfoldable pub memset : List ℕ → ℕ → ℕ → ℕ → Option (List ℕ)
memset buf at value n =
    if leb (at + n) (length buf)
    then some (take at buf ++ (replicate n value ++ drop (at + n) buf))
    else none

-- `memcmp(a, b, n)` is nonzero.
unfoldable pub differs : List ℕ → List ℕ → Bool
differs [] b = false
differs (x ∷ a) [] = false
differs (x ∷ a) (y ∷ b) = not (x == y) || differs a b

-- `16 - *BufferLen % 16`
abbrev pub odd : ℕ → ℕ
odd len = block_size - len % block_size

-- The check of PKCS#5 padding at the end of `DecryptBuffer`, `pad` being the last byte.
unfoldable pub verify_padding : List ℕ → ℕ → ℕ → Args → Option (Bool × Args)
verify_padding out len pad args =
    if ltb pad 1 || ltb block_size pad then some (false, record args { buffer = some out }) else do
      tail ← read pad (drop (len - pad) out)
      if differs (replicate pad pad) tail
          then some (false, record args { buffer = some out })
          else some (true, record args { buffer = some out; len = some (len - pad) })

module _ (c : Cipher) where
  -- The part of `EncryptBuffer` below its checks: padding, then the CBC loop, whose last block ends
  -- up in the caller's Iv.
  unfoldable pub pad_and_encrypt : List ℕ → ℕ → List ℕ → List ℕ → Option (Bool × Args)
  pad_and_encrypt buffer len key iv = do
    padded ← memset buffer len (odd len) (odd len)
    let len' = u32 (len + odd len)
    (out, iv') ← cbc_encrypt c (init_crypto key) ((len' + 15) / block_size) iv padded
    some (true, record { buffer = some out; len = some len'; key = some key; iv = some iv' })

  -- The checks of `EncryptBuffer`. A null Buffer and a buffer that is too small reset *BufferLen.
  unfoldable pub encrypt_checked :
      Args
      → ℕ
      → Option ℕ
      → Option (List ℕ)
      → Option (List ℕ)
      → Option (List ℕ)
      → Option (Bool × Args)
  encrypt_checked args size (some len) (some key) (some iv) (some buffer) =
      if ltb size (u32 (u32 (len + block_size) + 2 ^ 32 - len % block_size))
      then some (false, record args { len = some 0 })
      else pad_and_encrypt buffer len key iv
  encrypt_checked args size (some len) (some key) (some iv) none =
      some (false, record args { len = some 0 })
  encrypt_checked args size _ _ _ _ = some (false, args)

  -- `none` is an access past the end of an array; the Bool is what the function returns.
  unfoldable pub encrypt_buffer : Args → ℕ → Option (Bool × Args)
  unfolding encrypt_checked pad_and_encrypt
  encrypt_buffer args size = encrypt_checked args size args.len args.key args.iv args.buffer

  unfoldable pub decrypt_and_verify : List ℕ → ℕ → List ℕ → List ℕ → Args → Option (Bool × Args)
  decrypt_and_verify buffer len key iv args = do
    out ← cbc_decrypt c (init_crypto key) ((len + 15) / block_size) iv buffer
    pad ← get_elem? out (len - 1)
    verify_padding out len pad args

  unfoldable pub decrypt_checked :
      Args → Option (List ℕ) → Option ℕ → Option (List ℕ) → Option (List ℕ) → Option (Bool × Args)
  decrypt_checked args (some buffer) (some len) (some key) (some iv) =
      if (len == 0) || not (len % block_size == 0)
      then some (false, args)
      else decrypt_and_verify buffer len key iv args
  decrypt_checked args _ _ _ _ = some (false, args)

  unfoldable pub decrypt_buffer : Args → Option (Bool × Args)
  unfolding decrypt_checked decrypt_and_verify
  decrypt_buffer args = decrypt_checked args args.buffer args.len args.key args.iv
