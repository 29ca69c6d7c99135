-- ===== src/Ntfs/Number.antt =====
-- The numbers of a mapping pairs array, filesys/ntfs/runlist.c: ntfs_get_nr_significant_bytes,
-- ntfs_write_significant_bytes, and the loop of ntfs_mapping_pairs_decompress_i that reads one. An
-- s64 is its two's complement word below 2 ^ 64. The destination is the number of bytes that it has
-- room for, up to dst_max; `none` is the error ENOSPC, for which `stored_bytes` tells what the call
-- left there. The loops shift at
-- most eight times, which Number/Spell shows to be enough.
pub mod Spell
pub mod Laws
mod Tests
use rohos_disk_browser.Prelude.{
  ℕ, zero, suc, ◌+◌, ◌-◌, ◌*◌, ◌/◌, ◌%◌, ◌^◌, List, [], ◌∷◌, ◌++◌, Option, none, some, Bool, true,
  false, not, ◌&&◌, ◌||◌, if◌then◌else◌, ltb, leb, ◌==◌, ◌>>=◌, length,
}

-- `n < 0LL` and `n > 0LL`.
abbrev pub negative : ℕ → Bool
negative n = leb (2 ^ 63) n

abbrev pub positive : ℕ → Bool
positive n = not (n == 0) && ltb n (2 ^ 63)

-- `n >> 8` and `n >> 8 * k`.
unfoldable pub sar8 : ℕ → ℕ
sar8 n = n / 2 ^ 8 + (if negative n then 255 * 2 ^ 56 else 0)

unfoldable pub sar : ℕ → ℕ → ℕ
sar n zero = n
sar n (suc k) = sar (sar8 n) k

-- Where `while (l != 0LL && l != -1LL)` ends.
abbrev pub is_done : ℕ → Bool
is_done l = (l == 0) || (l == 2 ^ 64 - 1)

-- `if ((n < 0LL && j >= 0) || (n > 0LL && j < 0))`, by its two halves.
abbrev pub needs_ones : ℕ → ℕ → Bool
needs_ones n j = negative n && ltb j 128

abbrev pub needs_zeros : ℕ → ℕ → Bool
needs_zeros n j = positive n && leb 128 j

unfoldable pub nr_loop : ℕ → ℕ → ℕ
nr_loop zero l = 0
nr_loop (suc fuel) l = let rest = nr_loop fuel (sar8 l) in if is_done (sar8 l) then 1 else suc rest

unfoldable pub get_nr_significant_bytes : ℕ → ℕ
get_nr_significant_bytes n =
    let i = nr_loop 8 n in
    let j = sar n (i - 1) % 2 ^ 8 in if needs_ones n j || needs_zeros n j then suc i else i

-- What is stored at dst, and whether the function goes on: false is the jump to err_out.
unfoldable pub bytes_loop : ℕ → ℕ → ℕ → List ℕ × Bool
bytes_loop fuel zero l = ([], false)
bytes_loop zero (suc room) l = ([], false)
bytes_loop (suc fuel) (suc room) l =
    let rest = bytes_loop fuel room (sar8 l) in
    if is_done (sar8 l) then (l % 2 ^ 8 ∷ [], true) else (l % 2 ^ 8 ∷ rest.0, rest.1)

-- One byte more, where dst has not passed dst_max.
unfoldable pub extra_byte : ℕ → List ℕ → ℕ → List ℕ × Bool
extra_byte room bs x = if ltb (length bs) room then (bs ++ (x ∷ []), true) else (bs, false)

-- The part behind the loop.
unfoldable pub sign_byte : ℕ → ℕ → List ℕ × Bool → List ℕ × Bool
unfolding extra_byte
sign_byte room n (bs, false) = (bs, false)
sign_byte room n (bs, true) =
    let j = sar n (length bs - 1) % 2 ^ 8 in
    if needs_ones n j
    then extra_byte room bs 255
    else (if needs_zeros n j then extra_byte room bs 0 else (bs, true))

-- All that a call stores at dst, and whether it succeeds.
unfoldable pub stored_bytes : ℕ → ℕ → List ℕ × Bool
unfolding sign_byte
stored_bytes room n = sign_byte room n (bytes_loop 8 room n)

abbrev pub returned : List ℕ × Bool → Option (List ℕ)
returned (bs, true) = some bs
returned (bs, false) = none

-- The bytes that the caller goes on with.
unfoldable pub write_significant_bytes : ℕ → ℕ → Option (List ℕ)
unfolding stored_bytes
write_significant_bytes room n = returned (stored_bytes room n)

-- `(s8)x`.
unfoldable pub sign_extend : ℕ → ℕ
sign_extend x = if ltb x 128 then x else x + (2 ^ 64 - 2 ^ 8)

-- `for (deltaxcn = (s8)buf[b--]; b; b--) deltaxcn = (deltaxcn << 8) + buf[b]` of the bytes buf[1] to
-- buf[b]. Of no byte at all it has no value.
unfoldable pub read_number : List ℕ → ℕ
read_number [] = 0
read_number (x ∷ []) = sign_extend x
read_number (x ∷ y ∷ bs) = (read_number (y ∷ bs) * 2 ^ 8 + x) % 2 ^ 64
