-- ===== src/Paths.antt =====
-- parse.cpp: the path of the browser. A string is the list of its characters, without the zero that
-- ends it, and `none` is an access outside an array.
pub mod Names
mod Tests
use rohos_disk_browser.Prelude.{
  ℕ, ◌≡◌, Bool, true, false, ◌&&◌, ◌==◌, if◌then◌else◌, ltb, Option, none, some, ◌>>=◌, List, [],
  ◌∷◌, length,
}

-- PATH_SEP
abbrev pub path_sep : ℕ
path_sep = 47

-- MAX_PATH
abbrev pub max_path : ℕ
max_path = 1024

-- The loop of make_right_path, where `ls` is the character that was copied last.
unfoldable pub squeeze : ℕ → List ℕ → List ℕ
squeeze ls [] = []
squeeze ls (c ∷ cs) = elim ((ls == c) && (ls == path_sep)) [
  | true ↦ squeeze ls cs
  | false ↦ c ∷ squeeze c cs
]

-- `if(obuf[k-2]==PATH_SEP) obuf[k-2]=0;` of a string that is not empty.
unfoldable pub trim_end : ℕ → List ℕ → List ℕ
trim_end c [] = if c == path_sep then [] else c ∷ []
trim_end c (d ∷ ds) = c ∷ trim_end d ds

-- Of an empty string, `obuf[k-2]` is the character before the array.
abbrev pub cut_end : List ℕ → Option (List ℕ)
cut_end [] = none
cut_end (c ∷ cs) = some (trim_end c cs)

-- `size` is the size of the array at obuf.
unfoldable pub make_right_path : ℕ → List ℕ → Option (List ℕ)
make_right_path size path =
    if ltb (length (squeeze path_sep path)) size then cut_end (squeeze path_sep path) else none

-- The part of a string up to its first separator, and the parts after it.
unfoldable pub put_character : ℕ → List ℕ × List (List ℕ) → List ℕ × List (List ℕ)
put_character c (part, parts) = elim (c == path_sep) [
  | true ↦ ([], part ∷ parts)
  | false ↦ (c ∷ part, parts)
]

unfoldable pub split : List ℕ → List ℕ × List (List ℕ)
split [] = ([], [])
split (c ∷ cs) = put_character c (split cs)

abbrev pub add_parts : List ℕ × List (List ℕ) → List (List ℕ)
add_parts (part, parts) = part ∷ parts

-- The names of the tokens that strpath_to_token adds for the path.
unfoldable pub add_tokens : List ℕ → List (List ℕ)
add_tokens [] = []
add_tokens (c ∷ cs) = add_parts (split (c ∷ cs))

unfoldable pub strpath_to_token : List ℕ → Option (List (List ℕ))
strpath_to_token upath = make_right_path max_path upath >>= λ path. some (add_tokens path)
