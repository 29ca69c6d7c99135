-- ===== src/Crypto/Sectors.antt =====
-- `encrypt` and `decrypt` of crypt.cpp: sectors of 512 bytes, each in CBC mode with a vector of its
-- own. `key` and `iv` are the globals Key[32] and IV[64]. The list is the memory at `buf`; the loop
-- steps by whole sectors also where `sz` is no multiple of 512, and `none` is an access past the end
-- of the memory. `sz` is at most 2 ^ 32 - 512, where the DWORD `j` cannot wrap.
pub mod Vector
pub mod Chain
pub mod Laws
pub mod Access
mod Tests
use rohos_disk_browser.Prelude.{
  ℕ, zero, suc, ◌+◌, ◌/◌, ◌%◌, ◌^◌, List, ◌++◌, Option, some, ◌>>=◌, take, drop, bit_xor,
}
use rohos_disk_browser.Crypto.Bytes.{le32, load32}
use rohos_disk_browser.Crypto.Cipher.{Cipher}
use rohos_disk_browser.Crypto.Cbc.{cbc_encrypt, cbc_decrypt}

-- `rijndael_setup(key, 32, 0, &aeskey2)` reads 32 bytes of key.
abbrev pub init_crypto : List ℕ → List ℕ
init_crypto key = take 32 key

-- The 16 bytes of IV2 for a sector: its number, xored into the first 8 bytes of IV.
unfoldable pub sector_iv : List ℕ → ℕ → List ℕ
sector_iv iv sector_no =
    le32 (bit_xor (sector_no % 2 ^ 32) (load32 iv))
    ++ (le32 (bit_xor (sector_no / 2 ^ 32 % 2 ^ 32) (load32 (drop 4 iv))) ++ take 8 (drop 8 iv))

-- How often `for (j = 0; j < sz; j += 512)` runs, for an `sz` of at most 2 ^ 32 - 512.
abbrev pub rounds : ℕ → ℕ
rounds sz = (sz + 511) / 512

-- `sectorNo++` on a u64.
abbrev pub next_sector : ℕ → ℕ
next_sector sector_no = (sector_no + 1) % 2 ^ 64

module _ (c : Cipher) (key iv : List ℕ) where
  unfoldable pub encrypt_loop : ℕ → ℕ → List ℕ → Option (List ℕ)
  encrypt_loop zero sector_no buf = some buf
  encrypt_loop (suc n) sector_no buf = do
    (out, _iv2) ← cbc_encrypt c (init_crypto key) 32 (sector_iv iv sector_no) buf
    rest ← encrypt_loop n (next_sector sector_no) (drop 512 out)
    some (take 512 out ++ rest)

  unfoldable pub decrypt_loop : ℕ → ℕ → List ℕ → Option (List ℕ)
  decrypt_loop zero sector_no buf = some buf
  decrypt_loop (suc n) sector_no buf = do
    out ← cbc_decrypt c (init_crypto key) 32 (sector_iv iv sector_no) buf
    rest ← decrypt_loop n (next_sector sector_no) (drop 512 out)
    some (take 512 out ++ rest)

  unfoldable pub encrypt : List ℕ → ℕ → ℕ → Option (List ℕ)
  encrypt buf sector_no sz = encrypt_loop (rounds sz) sector_no buf

  unfoldable pub decrypt : List ℕ → ℕ → ℕ → Option (List ℕ)
  decrypt buf sector_no sz = decrypt_loop (rounds sz) sector_no buf
