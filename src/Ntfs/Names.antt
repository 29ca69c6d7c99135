-- ===== src/Ntfs/Names.antt =====
-- filesys/ntfs/unistr.c: names of UCS-2 characters, their case table and their order. A name with its
-- length is the list of its characters; a string without a length is the memory from a pointer on,
-- where `none` is a read past the end. The results -1, 0 and 1 are `before`, `same` and `after`.
pub mod Order
pub mod Equal
mod Tests
use rohos_disk_browser.Prelude.{
  ℕ, zero, suc, List, [], ◌∷◌, ◌++◌, Option, none, some, Bool, true, false, not, if◌then◌else◌, ltb,
  ◌==◌, ◌>>=◌, length, get_elem?, get_or, take, map,
}
use rohos_disk_browser.Crypto.Bytes.{read}

pub data Place : Type 0 where
  before : Place
  same : Place
  after : Place

pub data CaseRule : Type 0 where
  case_sensitive : CaseRule
  ignore_case : CaseRule

-- `if (c < upcase_len) c = upcase[c]`.
abbrev pub upcased : List ℕ → ℕ → ℕ
upcased upcase c = get_or upcase c c

abbrev pub folded : CaseRule → List ℕ → ℕ → ℕ
folded case_sensitive upcase c = c
folded ignore_case upcase c = upcased upcase c

unfoldable pub names_collate : CaseRule → List ℕ → List ℕ → List ℕ → Place
names_collate ic upcase [] [] = same
names_collate ic upcase [] (d ∷ name2) = before
names_collate ic upcase (c ∷ name1) [] = after
names_collate ic upcase (c ∷ name1) (d ∷ name2) =
    let rest = names_collate ic upcase name1 name2 in
    let c1 = folded ic upcase c in
    let c2 = folded ic upcase d in if ltb c1 c2 then before else (if ltb c2 c1 then after else rest)

-- ntfs_ucsncmp with the case rule case_sensitive, and ntfs_ucsncasecmp with ignore_case.
unfoldable pub ucsncmp : CaseRule → List ℕ → ℕ → List ℕ → List ℕ → Option Place
ucsncmp ic upcase zero s1 s2 = some same
ucsncmp ic upcase (suc n) [] s2 = none
ucsncmp ic upcase (suc n) (c ∷ s1) [] = none
ucsncmp ic upcase (suc n) (c ∷ s1) (d ∷ s2) =
    let rest = ucsncmp ic upcase n s1 s2 in
    let c1 = folded ic upcase c in
    let c2 = folded ic upcase d in
    if ltb c1 c2
    then some before
    else (if ltb c2 c1 then some after else (if c1 == 0 then some same else rest))

abbrev pub is_same : Place → Bool
is_same same = true
is_same before = false
is_same after = false

unfoldable pub names_are_equal : CaseRule → List ℕ → List ℕ → List ℕ → Option Bool
names_are_equal ic upcase s1 s2 =
    if not (length s1 == length s2)
    then some false
    else (if length s1 == 0
        then some true
        else (ucsncmp ic upcase (length s1) s1 s2 >>= λ p. some (is_same p)))

unfoldable pub ucsnlen : List ℕ → ℕ → Option ℕ
ucsnlen s zero = some 0
ucsnlen [] (suc maxlen) = none
ucsnlen (c ∷ s) (suc maxlen) =
    let rest = ucsnlen s maxlen in if c == 0 then some 0 else (rest >>= λ i. some (suc i))

-- The new string, where its allocation succeeds.
unfoldable pub ucsndup : List ℕ → ℕ → Option (List ℕ)
ucsndup s maxlen = do len ← ucsnlen s maxlen; copy ← read len s; some (copy ++ (0 ∷ []))

unfoldable pub name_upcase : List ℕ → List ℕ → List ℕ
name_upcase upcase name = map (upcased upcase) name

-- ntfs_file_values_compare, of the names of the two attributes.
unfoldable pub file_values_compare : CaseRule → List ℕ → List ℕ → List ℕ → Place
file_values_compare ic upcase name1 name2 = names_collate ic upcase name1 name2
