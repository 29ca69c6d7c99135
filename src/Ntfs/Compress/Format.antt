-- ===== src/Ntfs/Compress/Format.antt =====
-- The format of a compressed block, as a description of its own: tokens in groups of eight behind a
-- tag, and sub-blocks behind a header.
use rohos_disk_browser.Prelude.{
  ℕ, zero, suc, ◌+◌, ◌-◌, ◌*◌, ◌/◌, ◌%◌, ◌^◌, ◌<◌, ◌≤◌, ◌≡◌, ◌⊎◌, List, [], ◌∷◌, ◌++◌,
  if◌then◌else◌, ltb, length, replicate, get_or,
}

-- A byte, or `len` bytes as they stand `distance` bytes before.
pub data Token : Type 0 where
  symbol : ℕ → Token
  repeated : (distance len : ℕ) → Token

-- How many digits of a phrase token at `at` are not for the length: 4, and more where distances
-- need them.
unfoldable pub extra_digits : ℕ → ℕ
extra_digits at =
    if ltb 2048 at
    then 8
    else (if ltb 1024 at
        then 7
        else (if ltb 512 at
            then 6
            else (if ltb 256 at
                then 5
                else (if ltb 128 at
                    then 4
                    else (if ltb 64 at
                        then 3
                        else (if ltb 32 at then 2 else (if ltb 16 at then 1 else 0)))))))

abbrev pub length_range : ℕ → ℕ
length_range at = 2 ^ (12 - extra_digits at)

-- A token that can stand at the offset `at` of a sub-block.
abbrev pub IsToken : ℕ → Token → Type 0
IsToken at (symbol x) = at < 4096
IsToken at (repeated distance len) =
    (1 ≤ distance) × (distance ≤ at) × (3 ≤ len) × (len < length_range at + 3) × (at + len ≤ 4096)

abbrev pub token_size : Token → ℕ
token_size (symbol x) = 1
token_size (repeated distance len) = len

abbrev pub AreTokens : ℕ → List Token → Type 0
AreTokens at [] = Unit
AreTokens at (t ∷ ts) = IsToken at t × AreTokens (at + token_size t) ts

abbrev pub tokens_size : List Token → ℕ
tokens_size [] = 0
tokens_size (t ∷ ts) = token_size t + tokens_size ts

-- The number of a phrase token.
abbrev pub phrase_number : ℕ → ℕ → ℕ → ℕ
phrase_number at distance len = (distance - 1) * length_range at + (len - 3)

abbrev pub token_bytes : ℕ → Token → List ℕ
token_bytes at (symbol x) = x ∷ []
token_bytes at (repeated distance len) =
    (phrase_number at distance len % 256) ∷ (phrase_number at distance len / 256) ∷ []

unfoldable pub tokens_bytes : ℕ → List Token → List ℕ
tokens_bytes at [] = []
tokens_bytes at (t ∷ ts) = token_bytes at t ++ tokens_bytes (at + token_size t) ts

abbrev pub token_bit : Token → ℕ
token_bit (symbol x) = 0
token_bit (repeated distance len) = 1

unfoldable pub tag_of : List Token → ℕ
tag_of [] = 0
tag_of (t ∷ ts) = token_bit t + 2 * tag_of ts

-- What a token stands for behind the bytes `out`.
unfoldable pub repeat : ℕ → ℕ → List ℕ → List ℕ
repeat distance zero out = out
repeat distance (suc len) out =
    repeat distance len (out ++ (get_or out (length out - distance) 0 ∷ []))

abbrev pub token_value : Token → List ℕ → List ℕ
token_value (symbol x) out = out ++ (x ∷ [])
token_value (repeated distance len) out = repeat distance len out

unfoldable pub tokens_value : List Token → List ℕ → List ℕ
tokens_value [] out = out
tokens_value (t ∷ ts) out = tokens_value ts (token_value t out)

-- A sub-block's tokens in groups of eight, the last one of at most eight.
unfoldable pub groups_bytes : ℕ → List (List Token) → List ℕ
groups_bytes at [] = []
groups_bytes at (g ∷ gs) = tag_of g ∷ (tokens_bytes at g ++ groups_bytes (at + tokens_size g) gs)

abbrev pub AreGroups : ℕ → List (List Token) → Type 0
AreGroups at [] = Unit
AreGroups at (g ∷ gs) =
    AreTokens at g
    × (length g ≤ 8)
    × ((length g ≡ 8) ⊎ (length gs ≡ 0))
    × AreGroups (at + tokens_size g) gs

unfoldable pub groups_value : List (List Token) → List ℕ → List ℕ
groups_value [] out = out
groups_value (g ∷ gs) out = groups_value gs (tokens_value g out)

-- A sub-block of 4096 bytes as they are, or of tokens.
pub data SubBlock : Type 0 where
  plain : List ℕ → SubBlock
  packed : List (List Token) → SubBlock

abbrev pub body_size : List (List Token) → ℕ
body_size gs = length (groups_bytes 0 gs)

abbrev pub IsSubBlock : SubBlock → Type 0
IsSubBlock (plain bytes) = length bytes ≡ 4096
IsSubBlock (packed gs) = AreGroups 0 gs × (4 ≤ body_size gs) × (body_size gs ≤ 4096)

abbrev pub sub_block_bytes : SubBlock → List ℕ
sub_block_bytes (plain bytes) = 0xff ∷ 0x3f ∷ bytes
sub_block_bytes (packed gs) =
    ((body_size gs - 1) % 256) ∷ (0xb0 + (body_size gs - 1) / 256) ∷ groups_bytes 0 gs

-- The bytes of a sub-block behind the bytes `out`: tokens for fewer than 4096 are filled with zeroes.
unfoldable pub sub_block_value : SubBlock → List ℕ → List ℕ
sub_block_value (plain bytes) out = out ++ bytes
sub_block_value (packed gs) out =
    let value = groups_value gs out in value ++ replicate (length out + 4096 - length value) 0

unfoldable pub block_bytes : List SubBlock → List ℕ
block_bytes [] = []
block_bytes (b ∷ bs) = sub_block_bytes b ++ block_bytes bs

abbrev pub AreSubBlocks : List SubBlock → Type 0
AreSubBlocks [] = Unit
AreSubBlocks (b ∷ bs) = IsSubBlock b × AreSubBlocks bs

unfoldable pub block_value : List SubBlock → List ℕ → List ℕ
block_value [] out = out
block_value (b ∷ bs) out = block_value bs (sub_block_value b out)
