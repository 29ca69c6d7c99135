-- ===== src/Crypto/Derive.antt =====
-- `DeriveKeyFromPassw_v2` of crypt.cpp: the key of a disk from its password. The password is the list
-- of its characters, `none` where the pointer is null; SHA-512 of crypt-1.17 is a parameter. The
-- result is the key with _IV after the call, and `some none` where the function returns false. The
-- hexadecimal copy for `strKey` is left out.
pub mod Laws
mod Tests
use rohos_disk_browser.Prelude.{
  ℕ, ◌+◌, ◌*◌, ◌/◌, ◌%◌, ◌^◌, List, [], ◌∷◌, Option, none, some, Bool, true, false, if◌then◌else◌,
  ◌==◌, ◌>>=◌, drop, replicate, bit_or, bit_xor,
}
use rohos_disk_browser.Crypto.Bytes.{load32}
use rohos_disk_browser.Crypto.Cipher.{Cipher}
use rohos_disk_browser.Crypto.Cbc.{cbc_encrypt}
use rohos_disk_browser.Crypto.Sectors.{init_crypto}

-- `((secByte & m) > 0) == ((secByte & n) > 0)` of two bits, as 0 or 1.
abbrev pub same_bits : ℕ → ℕ → ℕ → ℕ
same_bits sec_byte m n = if sec_byte / 2 ^ m % 2 == sec_byte / 2 ^ n % 2 then 1 else 0

-- GetArraySecByte2: the byte, and *prevSecByte after it, an unsigned long of 32 bits.
unfoldable pub get_array_sec_byte2 : ℕ → ℕ → ℕ × ℕ
get_array_sec_byte2 sec_byte next =
    let bit2 = same_bits sec_byte 20 9 in
    let bit1 = bit_or (same_bits sec_byte 23 8 * 2 ^ 7) bit2 in
    let mixed = bit_xor (bit_xor (sec_byte / 2 ^ 3) next) (sec_byte * 2 ^ 5 % 2 ^ 32) in
    (bit_or mixed bit1 % 2 ^ 8, (sec_byte * 2 ^ (7 + bit2) % 2 ^ 32 + next) % 2 ^ 32)

-- `for (i = 0; i < RH_KEY_SIZE; i++) Key[i] = GetArraySecByte2(&SecByte1, Key[i])`.
unfoldable pub stir : ℕ → List ℕ → List ℕ
stir sec_byte [] = []
stir sec_byte (k ∷ key) = let step = get_array_sec_byte2 sec_byte k in step.0 ∷ stir (step.1) key

-- The start value, of the first two DWORDs of the hash.
abbrev pub start_value : List ℕ → ℕ
start_value hash = (load32 hash + load32 (drop 4 hash)) % 2 ^ 32

module _ (c : Cipher) (sha512 : List ℕ → List ℕ) where
  unfoldable pub derive_key : Option (List ℕ) → Option (Option (List ℕ × List ℕ))
  derive_key none = some none
  derive_key (some passw) = do
    let hash = sha512 passw
    (key, iv) ← cbc_encrypt c (init_crypto hash) 4 (replicate 64 0) (stir (start_value hash) hash)
    some (some (key, iv))
