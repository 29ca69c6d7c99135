-- ===== src/Ntfs/Names/Tests.antt =====
-- `ab` and `AB`, with a table that maps `a` and `b` to `A` and `B`.
use rohos_disk_browser.Prelude.{ℕ, ◌≡◌, refl, List, [], ◌∷◌, ◌++◌, some, replicate}
use rohos_disk_browser.Ntfs.Names.{
  before, same, ignore_case, case_sensitive, names_collate, ucsndup, ucsnlen,
}
use rohos_disk_browser.Crypto.Bytes.{read}

abbrev table : List ℕ
table = replicate 97 0 ++ (65 ∷ 66 ∷ [])

case_aside : names_collate ignore_case table (97 ∷ 98 ∷ []) (97 ∷ 98 ∷ []) ≡ same
unfolding names_collate
case_aside = refl

capital_first : names_collate case_sensitive table (65 ∷ []) (97 ∷ []) ≡ before
unfolding names_collate
capital_first = refl

copied : ucsndup (65 ∷ 66 ∷ 0 ∷ 67 ∷ []) 4 ≡ some (65 ∷ 66 ∷ 0 ∷ [])
unfolding ucsndup ucsnlen read
copied = refl
