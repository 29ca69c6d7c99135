-- ===== src/Ntfs/Compress.antt =====
-- filesys/ntfs/compress.c: ntfs_decompress, which decompresses a compression block of an attribute. A
-- pointer into the block is its offset from `cb_start` with the memory from there on, which may be
-- longer than the block: `none` is a read past its end. The destination is written from its start to
-- its end, so it is the list of the bytes that have been written; the pointer `dest` is the length of
-- that list. Whether the destination has room for the bytes is for the theorems to say.
pub mod Copy
pub mod Format
pub mod Decode
pub mod Round
pub mod Steps
pub mod Within
pub mod Tokens
pub mod Tags
pub mod Bounds
pub mod Overrun
mod Tests
use rohos_disk_browser.Prelude.{
  ℕ, zero, suc, ◌+◌, ◌-◌, ◌*◌, ◌/◌, ◌%◌, ◌^◌, List, [], ◌∷◌, ◌++◌, Option, none, some, Bool, true,
  false, not, ◌&&◌, ◌||◌, if◌then◌else◌, ltb, leb, ◌==◌, ◌>>=◌, length, take, drop, get_elem?,
  replicate,
}
use rohos_disk_browser.Crypto.Bytes.{read}

-- Where a part of the routine leaves the pointers, or the bytes written at `return_overflow`.
pub data Step : Type 0 where
  next : (cb : ℕ) → (mem out : List ℕ) → Step
  overflow : (out : List ℕ) → Step

abbrev pub sb_size : ℕ
sb_size = 4096

-- le16_to_cpup.
abbrev pub le16 : List ℕ → Option ℕ
le16 (a ∷ b ∷ mem) = some (a + 256 * b)
le16 _ = none

-- `for (i = ...; i >= 0x10; i >>= 1) lg++;`, of a number with 16 digits.
unfoldable pub lg_loop : ℕ → ℕ → ℕ
lg_loop zero i = 0
lg_loop (suc fuel) i = let rest = lg_loop fuel (i / 2) in if leb 0x10 i then suc rest else 0

-- `while (length--) *dest++ = *dest_back_addr++;`
unfoldable pub copy_bytes : ℕ → ℕ → List ℕ → Option (List ℕ)
copy_bytes zero back out = some out
copy_bytes (suc n) back out = get_elem? out back >>= λ x. copy_bytes n (back + 1) (out ++ (x ∷ []))

-- The copy of a phrase from `back` on.
unfoldable pub copy_phrase : ℕ → ℕ → List ℕ → Option (List ℕ)
copy_phrase len back out =
    let max_non_overlap = length out - back in
    if leb len max_non_overlap
    then some (out ++ take len (drop back out))
    else copy_bytes (len - max_non_overlap) (back + max_non_overlap)
        (out ++ take max_non_overlap (drop back out))

-- A phrase token `pt` at the offset `at` of the destination, in the sub-block that starts at
-- `sb_start`; `mem` is the memory behind the token.
unfoldable pub phrase : ℕ → ℕ → ℕ → List ℕ → List ℕ → Option Step
unfolding copy_phrase copy_bytes lg_loop
phrase sb_start pt cb mem out =
    let lg = lg_loop 16 (length out - sb_start - 1) in
    let distance = pt / 2 ^ (12 - lg) + 1 in
    let len = pt % 2 ^ (12 - lg) + 3 in
    if ltb (length out) (sb_start + distance)
    then some (overflow out)
    else (if ltb (sb_start + sb_size) (length out + len)
        then some (overflow out)
        else (copy_phrase len (length out - distance) out >>= λ out'.
            some (next (cb + 2) mem out')))

-- The token of the lowest bit of a tag.
unfoldable pub token : ℕ → ℕ → ℕ → List ℕ → List ℕ → Option Step
unfolding phrase
token sb_start tag cb [] out = none
token sb_start tag cb (x ∷ mem) out =
    if tag % 2 == 0
    then some (next (cb + 1) mem (out ++ (x ∷ [])))
    else (if length out == sb_start
        then some (overflow out)
        else (le16 (x ∷ mem) >>= λ pt. phrase sb_start pt cb (drop 1 mem) out))

-- What follows a part that ends without an overflow.
abbrev pub on_next : Option Step → (ℕ → List ℕ → List ℕ → Option Step) → Option Step
on_next none f = none
on_next (some (overflow out)) f = some (overflow out)
on_next (some (next cb mem out)) f = f cb mem out

-- The tokens that are left of a tag.
unfoldable pub tokens : ℕ → ℕ → ℕ → ℕ → ℕ → List ℕ → List ℕ → Option Step
tokens zero sb_start sb_end tag cb mem out = some (next cb mem out)
tokens (suc n) sb_start sb_end tag cb mem out =
    if leb sb_end cb || ltb (sb_start + sb_size) (length out)
    then some (next cb mem out)
    else on_next (token sb_start tag cb mem out) (tokens n sb_start sb_end (tag / 2))

-- `memset(dest, 0, nr_bytes)` of an incomplete sub-block.
abbrev pub filled : ℕ → List ℕ → List ℕ
filled sb_start out =
    if ltb (length out) (sb_start + sb_size)
    then out ++ replicate (sb_start + sb_size - length out) 0
    else out

-- From `do_next_tag` to the end of the sub-block. The fuel is more than the tags that are left.
unfoldable pub tags : ℕ → ℕ → ℕ → ℕ → List ℕ → List ℕ → Option Step
unfolding tokens token
tags zero sb_start sb_end cb mem out = none
tags (suc fuel) sb_start sb_end cb [] out =
    if cb == sb_end
    then some (next cb [] (filled sb_start out))
    else (if ltb sb_end cb || ltb (sb_start + sb_size) (length out)
        then some (overflow out)
        else none)
tags (suc fuel) sb_start sb_end cb (tag ∷ mem) out =
    if cb == sb_end
    then some (next cb (tag ∷ mem) (filled sb_start out))
    else (if ltb sb_end cb || ltb (sb_start + sb_size) (length out)
        then some (overflow out)
        else on_next (tokens 8 sb_start sb_end tag (cb + 1) mem out) (tags fuel sb_start sb_end))

-- A sub-block that is not compressed.
unfoldable pub stored : ℕ → ℕ → List ℕ → List ℕ → Option Step
stored sb_end cb mem out =
    if not (sb_end == cb + 2 + sb_size)
    then some (overflow out)
    else (read sb_size (drop 2 mem) >>= λ bytes.
        some (next sb_end (drop (2 + sb_size) mem) (out ++ bytes)))

-- A sub-block with the header `head` at `cb`, behind the check that it is not the end.
unfoldable pub sub_block : ℕ → ℕ → ℕ → ℕ → List ℕ → List ℕ → Option Step
unfolding tags stored
sub_block dest_size cb_size head cb mem out =
    let sb_end = cb + head % 4096 + 3 in
    if ltb dest_size (length out + sb_size)
    then some (overflow out)
    else (if ltb cb_size (cb + 6)
        then some (overflow out)
        else (if ltb cb_size sb_end
            then some (overflow out)
            else (if head / 0x8000 % 2 == 0
                then stored sb_end cb mem out
                else tags (sb_end - cb) (length out) sb_end (cb + 2) (drop 2 mem) out)))

abbrev pub on_return :
    Option Step → (ℕ → List ℕ → List ℕ → Option (Bool × List ℕ)) → Option (Bool × List ℕ)
on_return none f = none
on_return (some (overflow out)) f = some (false, out)
on_return (some (next cb mem out)) f = f cb mem out

-- From `do_next_sb` to the return: whether it is the return of 0, and the bytes written. The fuel is
-- more than the sub-blocks that are left.
unfoldable pub sub_blocks : ℕ → ℕ → ℕ → ℕ → List ℕ → List ℕ → Option (Bool × List ℕ)
unfolding sub_block
sub_blocks zero dest_size cb_size cb mem out = none
sub_blocks (suc fuel) dest_size cb_size cb mem out =
    if cb == cb_size
    then some (true, out)
    else (le16 mem >>= λ head.
        if (head == 0) || (length out == dest_size)
        then some (true, out)
        else on_return (sub_block dest_size cb_size head cb mem out)
            (sub_blocks fuel dest_size cb_size))

unfoldable pub decompress : ℕ → ℕ → List ℕ → Option (Bool × List ℕ)
unfolding sub_blocks
decompress dest_size cb_size mem = sub_blocks (suc cb_size) dest_size cb_size 0 mem []
