-- ===== src/Crypto/Bytes.antt =====
-- Byte arrays of crypt.cpp: little-endian DWORDs, copies that stay inside the array, and bytes.
use rohos_disk_browser.Prelude.{
  ℕ, zero, suc, ◌+◌, ◌*◌, ◌/◌, ◌%◌, ◌^◌, ◌≤◌, ◌<◌, ◌≡◌, refl, List, [], ◌∷◌, ◌++◌, Option, none,
  some, if◌then◌else◌, leb, length, take, drop, replicate, arith,
}

abbrev pub IsBytes : List ℕ → Type 0
IsBytes [] = Unit {0}
IsBytes (x ∷ xs) = (x < 256) × IsBytes xs

-- `CopyMemory(dst, buf, n)`: a read of `n` bytes, `none` past the end.
unfoldable pub read : ℕ → List ℕ → Option (List ℕ)
read n buf = if leb n (length buf) then some (take n buf) else none

-- A DWORD stored at a char pointer.
unfoldable pub le32 : ℕ → List ℕ
le32 n = n % 256 ∷ n / 2 ^ 8 % 256 ∷ n / 2 ^ 16 % 256 ∷ n / 2 ^ 24 % 256 ∷ []

-- A DWORD loaded through a char pointer.
unfoldable pub load32 : List ℕ → ℕ
load32 (a ∷ b ∷ c ∷ d ∷ _) = a + 2 ^ 8 * b + 2 ^ 16 * c + 2 ^ 24 * d
load32 _ = 0

pub IsBytes-append : (xs ys : List ℕ) → IsBytes xs → IsBytes ys → IsBytes (xs ++ ys)
IsBytes-append [] ys p q = q
IsBytes-append (x ∷ xs) ys p q = (p.0, IsBytes-append xs ys p.1 q)

pub IsBytes-take : (n : ℕ) (xs : List ℕ) → IsBytes xs → IsBytes (take n xs)
IsBytes-take zero xs p = tt
IsBytes-take (suc n) [] p = tt
IsBytes-take (suc n) (x ∷ xs) p = (p.0, IsBytes-take n xs p.1)

pub IsBytes-drop : (n : ℕ) (xs : List ℕ) → IsBytes xs → IsBytes (drop n xs)
IsBytes-drop zero xs p = p
IsBytes-drop (suc n) [] p = tt
IsBytes-drop (suc n) (x ∷ xs) p = IsBytes-drop n xs p.1

pub replicate-IsBytes : (n v : ℕ) → v < 256 → IsBytes (replicate n v)
replicate-IsBytes zero v h = tt
replicate-IsBytes (suc n) v h = (h, replicate-IsBytes n v h)

pub read_lem : (n : ℕ) (xs : List ℕ) → n ≤ length xs → read n xs ≡ some (take n xs)
unfolding read
read_lem n xs h = ground arith

pub length-le32 : (n : ℕ) → length (le32 n) ≡ 4
unfolding le32
length-le32 n = refl

pub IsBytes-le32 : (n : ℕ) → IsBytes (le32 n)
unfolding le32
IsBytes-le32 n = omega arith

-- Loading gives back the DWORD that was stored, whatever stands behind it.
pub load32-le32 : (n : ℕ) (rest : List ℕ) → n < 2 ^ 32 → load32 (le32 n ++ rest) ≡ n
unfolding load32 le32
load32-le32 n rest h = omega arith

pub load32-lt : (xs : List ℕ) → IsBytes xs → load32 xs < 2 ^ 32
unfolding load32
load32-lt [] p = omega arith
load32-lt (a ∷ []) p = omega arith
load32-lt (a ∷ b ∷ []) p = omega arith
load32-lt (a ∷ b ∷ c ∷ []) p = omega arith
load32-lt (a ∷ b ∷ c ∷ d ∷ xs) p = omega arith
