-- ===== src/Paths/Tests.antt =====
-- parse.cpp on paths of the browser.
use rohos_disk_browser.Prelude.{ℕ, ◌≡◌, refl, some, List, [], ◌∷◌, arith, length, ◌<◌}
use rohos_disk_browser.Paths.{
  squeeze, trim_end, make_right_path, put_character, split, strpath_to_token,
}
use rohos_disk_browser.Paths.Names.{names, strpath_to_token-names}

-- "//ab///c/"
abbrev path : List ℕ
path = 47 ∷ 47 ∷ 97 ∷ 98 ∷ 47 ∷ 47 ∷ 47 ∷ 99 ∷ 47 ∷ []

right_path_of : make_right_path 1024 path ≡ some (97 ∷ 98 ∷ 47 ∷ 99 ∷ [])
unfolding make_right_path squeeze trim_end
right_path_of = refl

two_names : 0 < length (names ([] ∷ [] ∷ (97 ∷ 98 ∷ []) ∷ [] ∷ [] ∷ (99 ∷ []) ∷ [] ∷ []))
unfolding names
two_names = omega arith

strpath_to_token-names_example : strpath_to_token path ≡ some ((97 ∷ 98 ∷ []) ∷ (99 ∷ []) ∷ [])
unfolding names split put_character
strpath_to_token-names_example = strpath_to_token-names path (omega arith) two_names
