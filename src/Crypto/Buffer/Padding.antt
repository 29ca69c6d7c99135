-- ===== src/Crypto/Buffer/Padding.antt =====
-- PKCS#5 padding: what `EncryptBuffer` appends passes the check of `DecryptBuffer`.
use rohos_disk_browser.Prelude.{
  ℕ, zero, suc, ◌+◌, ◌-◌, ◌≤◌, ◌<◌, ◌≡◌, refl, ap, ◌∙◌, true, false, List, [], ◌∷◌, ◌++◌, some,
  length, take, drop, replicate, get_elem?, length-append, length-take, length-drop,
  length-replicate, take-append, drop-append, ltb, arith,
}
use rohos_disk_browser.Crypto.Bytes.{
  IsBytes, IsBytes-append, IsBytes-take, IsBytes-drop, read_lem, replicate-IsBytes,
}
use rohos_disk_browser.Crypto.Buffer.{Args, memset, differs, verify_padding}

pub memset_lem :
    (buf : List ℕ) (at value n : ℕ)
    → at + n ≤ length buf
    → memset buf at value n ≡ some (take at buf ++ (replicate n value ++ drop (at + n) buf))
unfolding memset
memset_lem buf at value n h = ground arith

-- The memory with `n` padding bytes behind the first `len` bytes.
abbrev pub padded : List ℕ → ℕ → ℕ → List ℕ
padded buf len n = take len buf ++ (replicate n n ++ drop (len + n) buf)

pub length-padded :
    (buf : List ℕ) (len n : ℕ) → len + n ≤ length buf → length (padded buf len n) ≡ length buf
length-padded buf len n h = omega (
  arith,
  length-append (take len buf) (replicate n n ++ drop (len + n) buf),
  length-append (replicate n n) (drop (len + n) buf),
  length-take len buf,
  length-drop (len + n) buf,
  length-replicate n n,
)

pub padded-IsBytes : (buf : List ℕ) (len n : ℕ) → n < 256 → IsBytes buf → IsBytes (padded buf len n)
padded-IsBytes buf len n h p =
    IsBytes-append (take len buf) (replicate n n ++ drop (len + n) buf) (IsBytes-take len buf p) (
      IsBytes-append (replicate n n) (drop (len + n) buf) (replicate-IsBytes n n h)
        (IsBytes-drop (len + n) buf p))

differs_self : (xs : List ℕ) → differs xs xs ≡ false
unfolding differs
differs_self [] = refl
differs_self (x ∷ xs) = ground (arith, differs_self xs)

get_elem?-append : (xs ys : List ℕ) (i : ℕ) → get_elem? (xs ++ ys) (length xs + i) ≡ get_elem? ys i
get_elem?-append [] ys i = ap (get_elem? ys) (omega arith)
get_elem?-append (x ∷ xs) ys i = ap (get_elem? (x ∷ (xs ++ ys))) after ∙ get_elem?-append xs ys i
  where
    after : suc (length xs) + i ≡ suc (length xs + i)
    after = omega arith

get_elem?-replicate : (n v i : ℕ) (ys : List ℕ) → i < n → get_elem? (replicate n v ++ ys) i ≡ some v
get_elem?-replicate zero v i ys h = absurd (omega arith)
get_elem?-replicate (suc n) v zero ys h = refl
get_elem?-replicate (suc n) v (suc i) ys h = get_elem?-replicate n v i ys (omega arith)

-- The last padding byte says how many there are.
pub last_byte-padded :
    (buf : List ℕ) (len n : ℕ)
    → len ≤ length buf
    → 0 < n
    → get_elem? (padded buf len n) (len + n - 1) ≡ some n
last_byte-padded buf len n h pos =
    ap (get_elem? (padded buf len n)) place
    ∙ get_elem?-append (take len buf) (replicate n n ++ drop (len + n) buf) (n - 1)
    ∙ get_elem?-replicate n n (n - 1) (drop (len + n) buf) (omega arith)
  where
    place : len + n - 1 ≡ length (take len buf) + (n - 1)
    place = omega (arith, length-take len buf)

pub verify_padding_lem :
    (buf : List ℕ) (len n : ℕ) (args : Args)
    → len ≤ length buf
    → 1 ≤ n
    → n ≤ 16
    → verify_padding (padded buf len n) (len + n) n args
      ≡ some (true, record args { buffer = some (padded buf len n); len = some len })
unfolding verify_padding
verify_padding_lem buf len n args h low high =
    let tail = replicate n n ++ drop (len + n) buf in
    let start : len + n - n ≡ len = omega arith in
    let lower : ltb n 1 ≡ false = ground arith in
    let upper : ltb 16 n ≡ false = ground arith in
    rw (
      lower,
      upper,
      start,
      drop-append len (take len buf) tail (omega (arith, length-take len buf)),
      read_lem n tail
          (omega (arith, length-append (replicate n n) (drop (len + n) buf), length-replicate n n)),
      take-append n (replicate n n) (drop (len + n) buf) (length-replicate n n),
      differs_self (replicate n n),
    )
