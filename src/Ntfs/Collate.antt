-- ===== src/Ntfs/Collate.antt =====
-- filesys/ntfs/collate.c: the order of the entries of an index. A datum is the list of its bytes, its
-- length the list's; the pointers are not null. The result -2, NTFS_COLLATION_ERROR, is a
-- constructor of its own, and `none` a read past the datum.
pub mod Laws
mod Tests
use rohos_disk_browser.Prelude.{
  ℕ, zero, suc, ◌+◌, ◌*◌, ◌^◌, ◌%◌, List, [], ◌∷◌, Option, none, some, Bool, not, ◌&&◌, ◌||◌,
  if◌then◌else◌, ltb, leb, ◌==◌, ◌>>=◌, length, get_elem?, drop, min,
}
use rohos_disk_browser.Crypto.Bytes.{read, load32}
use rohos_disk_browser.Ntfs.Names.{
  Place, before, same, after, case_sensitive, ignore_case, is_same, file_values_compare,
}

pub data Collation : Type 0 where
  placed : Place → Collation
  collation_error : Collation

-- memcmp of `n` bytes.
unfoldable pub memcmp : ℕ → List ℕ → List ℕ → Place
memcmp (suc n) (x ∷ a) (y ∷ b) =
    let rest = memcmp n a b in if ltb x y then before else (if ltb y x then after else rest)
memcmp _ _ _ = same

unfoldable pub collate_binary : List ℕ → List ℕ → Place
collate_binary data1 data2 =
    let rc = memcmp (min (length data1) (length data2)) data1 data2 in
    if is_same rc && not (length data1 == length data2)
    then (if ltb (length data1) (length data2) then before else after)
    else rc

unfoldable pub collate_ntofs_ulong : List ℕ → List ℕ → Collation
collate_ntofs_ulong data1 data2 =
    if not (length data1 == length data2) || not (length data1 == 4)
    then collation_error
    else placed (
        if ltb (load32 data1) (load32 data2)
        then before
        else (if load32 data1 == load32 data2 then same else after))

-- The 16-bit characters of a byte string.
abbrev pub characters : List ℕ → List ℕ
characters (x ∷ y ∷ bs) = (x + 2 ^ 8 * y) ∷ characters bs
characters _ = []

-- file_name_length characters of file_name, at the offsets 64 and 66 of a FILE_NAME_ATTR.
unfoldable pub file_name : List ℕ → Option (List ℕ)
file_name attr = do n ← get_elem? attr 64; bs ← read (2 * n) (drop 66 attr); some (characters bs)

-- The order of two names: first the case aside, then with it.
unfoldable pub collate_names : List ℕ → List ℕ → List ℕ → Place
collate_names upcase name1 name2 =
    let rc = file_values_compare ignore_case upcase name1 name2 in
    if is_same rc then file_values_compare case_sensitive upcase name1 name2 else rc

unfoldable pub collate_file_name : List ℕ → List ℕ → List ℕ → Option Place
unfolding file_name
collate_file_name upcase data1 data2 = do
  name1 ← file_name data1
  name2 ← file_name data2
  some (collate_names upcase name1 name2)

abbrev pub collation_binary : ℕ
collation_binary = 0

abbrev pub collation_file_name : ℕ
collation_file_name = 1

abbrev pub collation_ntofs_ulong : ℕ
collation_ntofs_ulong = 16

unfoldable pub is_collation_rule_supported : ℕ → Bool
is_collation_rule_supported cr =
    if not (cr == collation_binary)
      && (not (cr == collation_ntofs_ulong) && not (cr == collation_file_name))
    then Bool.false
    else leb cr 2 || leb 16 cr && leb cr 19

-- The entries of the tables ntfs_do_collate0x0 and ntfs_do_collate0x1 that are not null.
unfoldable pub collate : List ℕ → ℕ → List ℕ → List ℕ → Option Collation
collate upcase cr data1 data2 =
    if not (cr == collation_binary)
      && (not (cr == collation_ntofs_ulong) && not (cr == collation_file_name))
    then some collation_error
    else (if cr == collation_binary
        then some (placed (collate_binary data1 data2))
        else (if cr == collation_file_name
            then (collate_file_name upcase data1 data2 >>= λ p. some (placed p))
            else some (collate_ntofs_ulong data1 data2)))
