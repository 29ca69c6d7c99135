-- ===== src/Ntfs/Compress/Round.antt =====
-- Blocks in their format are decompressed to what they stand for.
use rohos_disk_browser.Prelude.{
  ℕ, zero, suc, ◌+◌, ◌-◌, ◌*◌, ◌/◌, ◌%◌, ◌<◌, ◌≤◌, ◌≡◌, refl, ap, ◌∙◌, ◌⊎◌, List, [], ◌∷◌, ◌++◌,
  some, inl, inr, true, false, ◌||◌, ltb, leb, ◌==◌, length, drop, replicate, length-append,
  length-replicate, drop-append, take-append, arith, Bool-cases,
}
use rohos_disk_browser.Ntfs.Compress.{
  next, sb_size, filled, tags, stored, sub_block, sub_blocks, decompress, on_return,
}
use rohos_disk_browser.Ntfs.Compress.Format.{
  Token, symbol, repeated, AreTokens, tokens_size, tokens_bytes, tag_of, tokens_value, token_value,
  groups_bytes, AreGroups, groups_value, SubBlock, plain, packed, body_size, IsSubBlock,
  sub_block_bytes, sub_block_value, block_bytes, AreSubBlocks, block_value,
}
use rohos_disk_browser.Ntfs.Compress.Decode.{tokens_lem, length-token_value}
use rohos_disk_browser.Ntfs.Compress.Steps.{tags_end, tags_more, sub_blocks_more, sub_blocks_done}
use rohos_disk_browser.Crypto.Bytes.{read}
use mathlib.Core.List.{append_assoc, append-nil}

tokens_fit : (ts : List Token) (at : ℕ) → AreTokens at ts → at ≤ 4096 → at + tokens_size ts ≤ 4096
tokens_fit [] at h le = omega arith
tokens_fit (symbol x ∷ ts) at (h, hs) le = omega (arith, tokens_fit ts (at + 1) hs (omega arith))
tokens_fit (repeated distance len ∷ ts) at ((a, b, c, d, e), hs) le =
    omega (arith, tokens_fit ts (at + len) hs (omega arith))

length-tokens_value :
    (ts : List Token) (out : List ℕ) → length (tokens_value ts out) ≡ length out + tokens_size ts
unfolding tokens_value
length-tokens_value [] out = omega arith
length-tokens_value (t ∷ ts) out =
    omega (arith, length-tokens_value ts (token_value t out), length-token_value t out)

groups_end : (at : ℕ) (gs : List (List Token)) → length gs ≡ 0 → length (groups_bytes at gs) ≡ 0
unfolding groups_bytes
groups_end at [] e = omega arith
groups_end at (g ∷ gs) e = absurd (omega arith)

module _ (sb_start sb_end : ℕ) where
  tags_lem :
      (gs : List (List Token)) (fuel at cb : ℕ) (mem out : List ℕ)
      → AreGroups at gs
      → length gs < fuel
      → cb + length (groups_bytes at gs) ≡ sb_end
      → length out ≡ sb_start + at
      → at ≤ 4096
      → tags fuel sb_start sb_end cb (groups_bytes at gs ++ mem) out
        ≡ some (next sb_end mem (filled sb_start (groups_value gs out)))
  unfolding groups_bytes groups_value
  tags_lem gs zero at cb mem out h few end place le = absurd (omega arith)
  tags_lem [] (suc fuel) at cb mem out h few end place le =
      let last : cb ≡ sb_end = omega arith in
      tags_end fuel sb_start sb_end 0 cb mem out last
      ∙ ap (λ k. some (next k mem (filled sb_start out))) last
  tags_lem (g ∷ gs) (suc fuel) at cb mem out (hg, eight, full, hgs) few end place le =
      let bytes = tokens_bytes at g in
      let rest = groups_bytes (at + tokens_size g) gs in
      let both = length-append bytes rest in
      let on : (ltb sb_end cb || ltb (sb_start + sb_size) (length out)) ≡ false = ground arith in
      let stops : (length g ≡ 8) ⊎ (cb + 1 + length bytes ≡ sb_end) = elim full [
        | inl e ↦ inl e
        | inr e ↦ inr (omega (arith, groups_end (at + tokens_size g) gs e))
      ] in
      rw (append_assoc bytes rest mem) (
        tags_more fuel sb_start sb_end (tag_of g) cb (bytes ++ (rest ++ mem)) out (omega arith) on
        ∙ rw
            (tokens_lem sb_start sb_end g 8 at (cb + 1) (rest ++ mem) out hg eight stops
              (omega arith) place)
            (tags_lem gs fuel (at + tokens_size g) (cb + 1 + length bytes) mem (tokens_value g out)
              hgs (omega arith) (omega arith) (omega (arith, length-tokens_value g out))
              (tokens_fit g at hg le)))

groups_count : (gs : List (List Token)) (at : ℕ) → length gs ≤ length (groups_bytes at gs)
unfolding groups_bytes
groups_count [] at = omega arith
groups_count (g ∷ gs) at = omega (
  arith,
  groups_count gs (at + tokens_size g),
  length-append (tokens_bytes at g) (groups_bytes (at + tokens_size g) gs),
)

filled_value :
    (out value : List ℕ)
    → filled (length out) value ≡ value ++ replicate (length out + 4096 - length value) 0
filled_value out value = elim (Bool-cases (ltb (length value) (length out + sb_size))) [
  | inl part ↦ rw part
  | inr full ↦
      let none_left : length out + 4096 - length value ≡ 0 = ground arith in
      rw (full, none_left, append-nil)
]

module _ (dest_size cb_size head cb n : ℕ) (mem out : List ℕ) (room : length out + 4096 ≤ dest_size)
    (some_bytes : 4 ≤ n) (inside : cb + 2 + n ≤ cb_size) (sized : head % 4096 + 1 ≡ n) where
  sub_block_packed :
      head / 0x8000 % 2 ≡ 1
      → sub_block dest_size cb_size head cb mem out
        ≡ tags (2 + n) (length out) (cb + 2 + n) (cb + 2) (drop 2 mem) out
  unfolding sub_block
  sub_block_packed bit =
      let t1 : ltb dest_size (length out + sb_size) ≡ false = ground arith in
      let t2 : ltb cb_size (cb + 6) ≡ false = ground arith in
      let end : cb + head % 4096 + 3 ≡ cb + 2 + n = omega arith in
      let t3 : ltb cb_size (cb + 2 + n) ≡ false = ground arith in
      let t4 : (head / 0x8000 % 2 == 0) ≡ false = ground arith in
      let fuel : cb + 2 + n - cb ≡ 2 + n = omega arith in rw (t1, t2, end, t3, t4, fuel)

  sub_block_plain :
      head / 0x8000 % 2 ≡ 0
      → sub_block dest_size cb_size head cb mem out ≡ stored (cb + 2 + n) cb mem out
  unfolding sub_block
  sub_block_plain bit =
      let t1 : ltb dest_size (length out + sb_size) ≡ false = ground arith in
      let t2 : ltb cb_size (cb + 6) ≡ false = ground arith in
      let end : cb + head % 4096 + 3 ≡ cb + 2 + n = omega arith in
      let t3 : ltb cb_size (cb + 2 + n) ≡ false = ground arith in
      let t4 : (head / 0x8000 % 2 == 0) ≡ true = ground arith in rw (t1, t2, end, t3, t4)

read_front : (n : ℕ) (bytes mem : List ℕ) → length bytes ≡ n → read n (bytes ++ mem) ≡ some bytes
unfolding read
read_front n bytes mem e =
    let long : leb n (length (bytes ++ mem)) ≡ true = ground (arith, length-append bytes mem) in
    rw (long, take-append n bytes mem e)

stored_lem :
    (cb x y : ℕ) (bytes mem out : List ℕ)
    → length bytes ≡ 4096
    → stored (cb + 2 + 4096) cb (x ∷ y ∷ (bytes ++ mem)) out
      ≡ some (next (cb + 2 + 4096) mem (out ++ bytes))
unfolding stored
stored_lem cb x y bytes mem out n =
    rw (same, read_front 4096 bytes mem n, drop-append 4096 bytes mem n)
  where
    same : (cb + 2 + 4096 == cb + 2 + sb_size) ≡ true
    same = ground arith

abbrev head_of : SubBlock → ℕ
head_of (plain bytes) = 0xff + 256 * 0x3f
head_of (packed gs) = (body_size gs - 1) % 256 + 256 * (0xb0 + (body_size gs - 1) / 256)

sub_block_lem :
    (dest_size cb_size cb : ℕ) (b : SubBlock) (mem out : List ℕ)
    → IsSubBlock b
    → length out + 4096 ≤ dest_size
    → cb + length (sub_block_bytes b) ≤ cb_size
    → sub_block dest_size cb_size (head_of b) cb (sub_block_bytes b ++ mem) out
      ≡ some (next (cb + length (sub_block_bytes b)) mem (sub_block_value b out))
unfolding sub_block_value
sub_block_lem dest_size cb_size cb (plain bytes) mem out n room inside =
    let size : cb + 2 + 4096 ≡ cb + suc (suc (length bytes)) = omega arith in
    sub_block_plain dest_size cb_size 16383 cb 4096 (255 ∷ 63 ∷ (bytes ++ mem)) out room
      (omega arith) (omega arith) refl refl
    ∙ stored_lem cb 255 63 bytes mem out n
    ∙ ap (λ k. some (next k mem (out ++ bytes))) size
sub_block_lem dest_size cb_size cb (packed gs) mem out (h, least, most) room inside =
    let n : ℕ = body_size gs in
    let size : cb + 2 + n ≡ cb + suc (suc n) = omega arith in
    let body = groups_bytes 0 gs ++ mem in
    sub_block_packed dest_size cb_size (head_of (packed gs)) cb n
      (((n - 1) % 256) ∷ (0xb0 + (n - 1) / 256) ∷ body) out room least (omega arith) (omega arith)
      (omega arith)
    ∙ tags_lem (length out) (cb + 2 + n) gs (2 + n) 0 (cb + 2) mem out h
        (omega (arith, groups_count gs 0)) refl (omega arith) (omega arith)
    ∙ rw (filled_value out (groups_value gs out))
        (ap (λ k. some (next k mem (sub_block_value (packed gs) out))) size)

length-groups_value :
    (gs : List (List Token)) (at : ℕ) (out : List ℕ)
    → AreGroups at gs
    → at ≤ 4096
    → length (groups_value gs out) + at ≤ length out + 4096
unfolding groups_value
length-groups_value [] at out h le = omega arith
length-groups_value (g ∷ gs) at out (hg, eight, full, hgs) le = omega (
  arith,
  length-tokens_value g out,
  length-groups_value gs (at + tokens_size g) (tokens_value g out) hgs (tokens_fit g at hg le),
)

length-sub_block_value :
    (b : SubBlock) (out : List ℕ)
    → IsSubBlock b
    → length (sub_block_value b out) ≡ length out + 4096
unfolding sub_block_value
length-sub_block_value (plain bytes) out n = omega (arith, length-append out bytes)
length-sub_block_value (packed gs) out (h, least, most) =
    let value = groups_value gs out in
    let pad = length out + 4096 - length value in
    omega (
      arith,
      length-append value (replicate {A = ℕ} pad 0),
      length-replicate {A = ℕ} pad 0,
      length-groups_value gs 0 out h (omega arith),
    )

-- A turn of the outer loop on a sub-block.
block_turn :
    (dest_size cb_size fuel cb : ℕ) (b : SubBlock) (mem out : List ℕ)
    → IsSubBlock b
    → length out + 4096 ≤ dest_size
    → cb + length (sub_block_bytes b) ≤ cb_size
    → sub_blocks (suc fuel) dest_size cb_size cb (sub_block_bytes b ++ mem) out
      ≡ sub_blocks fuel dest_size cb_size
          (cb + length (sub_block_bytes b))
          mem
          (sub_block_value b out)
block_turn dest_size cb_size fuel cb (plain bytes) mem out h room inside =
    let on : ((255 + 256 * 63 == 0) || (length out == dest_size)) ≡ false = ground arith in
    sub_blocks_more dest_size cb_size fuel cb 255 63 (bytes ++ mem) out (omega arith) on
    ∙ ap (λ r. on_return r (sub_blocks fuel dest_size cb_size))
        (sub_block_lem dest_size cb_size cb (plain bytes) mem out h room inside)
block_turn dest_size cb_size fuel cb (packed gs) mem out h room inside =
    let n : ℕ = body_size gs in
    let x : ℕ = (n - 1) % 256 in
    let y : ℕ = 0xb0 + (n - 1) / 256 in
    let on : ((x + 256 * y == 0) || (length out == dest_size)) ≡ false = ground arith in
    sub_blocks_more dest_size cb_size fuel cb x y (groups_bytes 0 gs ++ mem) out (omega arith) on
    ∙ ap (λ r. on_return r (sub_blocks fuel dest_size cb_size))
        (sub_block_lem dest_size cb_size cb (packed gs) mem out h room inside)

module _ (dest_size cb_size : ℕ) (rest : List ℕ) where
  blocks_lem :
      (bs : List SubBlock) (fuel cb : ℕ) (out : List ℕ)
      → AreSubBlocks bs
      → length bs < fuel
      → cb + length (block_bytes bs) ≤ cb_size
      → length out + 4096 * length bs ≤ dest_size
      → sub_blocks fuel dest_size cb_size cb (block_bytes bs ++ (0 ∷ 0 ∷ rest)) out
        ≡ some (true, block_value bs out)
  unfolding block_bytes block_value
  blocks_lem bs zero cb out h few inside room = absurd (omega arith)
  blocks_lem [] (suc fuel) cb out h few inside room =
      sub_blocks_done dest_size cb_size fuel cb 0 0 rest out refl
  blocks_lem (b ∷ bs) (suc fuel) cb out (hb, hbs) few inside room =
      let bytes = sub_block_bytes b in
      let both = length-append bytes (block_bytes bs) in
      rw (append_assoc bytes (block_bytes bs) (0 ∷ 0 ∷ rest)) (
        block_turn dest_size cb_size fuel cb b (block_bytes bs ++ (0 ∷ 0 ∷ rest)) out hb
          (omega arith) (omega arith)
        ∙ blocks_lem bs fuel (cb + length bytes) (sub_block_value b out) hbs (omega arith)
            (omega arith) (omega (arith, length-sub_block_value b out hb)))

block_count : (bs : List SubBlock) → length bs ≤ length (block_bytes bs)
unfolding block_bytes
block_count [] = omega arith
block_count (plain bytes ∷ bs) = omega (arith, block_count bs, length-append bytes (block_bytes bs))
block_count (packed gs ∷ bs) =
    omega (arith, block_count bs, length-append (groups_bytes 0 gs) (block_bytes bs))

-- A compression block of sub-blocks in their format, with two zero bytes behind them inside or outside
-- of the block, is decompressed without an error to the bytes that they stand for, in a destination
-- with 4096 bytes for each sub-block.
pub decompress-block_bytes :
    (bs : List SubBlock) (dest_size cb_size : ℕ) (rest : List ℕ)
    → AreSubBlocks bs
    → length (block_bytes bs) ≤ cb_size
    → 4096 * length bs ≤ dest_size
    → decompress dest_size cb_size (block_bytes bs ++ (0 ∷ 0 ∷ rest))
      ≡ some (true, block_value bs [])
unfolding decompress
decompress-block_bytes bs dest_size cb_size rest h inside room =
    blocks_lem dest_size cb_size rest bs (suc cb_size) 0 [] h (omega (arith, block_count bs))
      (omega arith) (omega arith)
