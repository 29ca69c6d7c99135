-- ===== src/Ntfs/Collate/Tests.antt =====
-- File names that differ in case only, and byte strings.
use rohos_disk_browser.Prelude.{ℕ, ◌≡◌, refl, List, [], ◌∷◌, ◌++◌, replicate}
use rohos_disk_browser.Ntfs.Names.{before, names_collate, file_values_compare}
use rohos_disk_browser.Ntfs.Collate.{collate_names}
use rohos_disk_browser.Ntfs.Collate.Laws.{collate_names-transitive}

abbrev table : List ℕ
table = replicate 97 0 ++ (65 ∷ 66 ∷ [])

abbrev upper : List ℕ
upper = 65 ∷ []

abbrev lower : List ℕ
lower = 97 ∷ []

abbrev longer : List ℕ
longer = 97 ∷ 98 ∷ []

upper-lower : collate_names table upper lower ≡ before
unfolding collate_names file_values_compare names_collate
upper-lower = refl

lower-longer : collate_names table lower longer ≡ before
unfolding collate_names file_values_compare names_collate
lower-longer = refl

collate_names-transitive_example : collate_names table upper longer ≡ before
collate_names-transitive_example =
    collate_names-transitive table upper lower longer upper-lower lower-longer
