-- ===== src/Crypto/Cbc/Xor.antt =====
-- `XORBlock` against the pointwise exclusive or of two lists.
use rohos_disk_browser.Prelude.{
  ℕ, zero, suc, ◌≤◌, ◌≡◌, refl, ap, ap₂, List, [], ◌∷◌, ◌++◌, some, length, take, drop, bit_xor,
  arith,
}
use rohos_disk_browser.Prelude.Bits.{xor_cancel, bit_xor-lt}
use rohos_disk_browser.Crypto.Bytes.{IsBytes}
use rohos_disk_browser.Crypto.Cbc.{xor_block}

abbrev pub xor_bytes : List ℕ → List ℕ → List ℕ
xor_bytes [] b = []
xor_bytes (x ∷ a) [] = x ∷ a
xor_bytes (x ∷ a) (y ∷ b) = bit_xor x y ∷ xor_bytes a b

pub length-xor_bytes : (a b : List ℕ) → length (xor_bytes a b) ≡ length a
length-xor_bytes [] b = refl
length-xor_bytes (x ∷ a) [] = refl
length-xor_bytes (x ∷ a) (y ∷ b) = ap suc (length-xor_bytes a b)

pub xor_bytes-IsBytes : (a b : List ℕ) → IsBytes a → IsBytes b → IsBytes (xor_bytes a b)
xor_bytes-IsBytes [] b p q = tt
xor_bytes-IsBytes (x ∷ a) [] p q = p
xor_bytes-IsBytes (x ∷ a) (y ∷ b) p q = (bit_xor-lt 8 x y p.0 q.0, xor_bytes-IsBytes a b p.1 q.1)

-- The same vector twice cancels.
pub xor_bytes-cancel : (a b : List ℕ) → xor_bytes (xor_bytes a b) b ≡ a
xor_bytes-cancel [] b = refl
xor_bytes-cancel (x ∷ a) [] = refl
xor_bytes-cancel (x ∷ a) (y ∷ b) = ap₂ ◌∷◌ (xor_cancel x y) (xor_bytes-cancel a b)

-- `XORBlock` of `n` bytes changes the first `n` bytes and no other.
pub xor_block_lem :
    (n : ℕ) (a b : List ℕ)
    → n ≤ length a
    → n ≤ length b
    → xor_block n a b ≡ some (xor_bytes (take n a) (take n b) ++ drop n a)
unfolding xor_block
xor_block_lem zero a b p q = refl
xor_block_lem (suc n) [] b p q = absurd (omega arith)
xor_block_lem (suc n) (x ∷ a) [] p q = absurd (omega arith)
xor_block_lem (suc n) (x ∷ a) (y ∷ b) p q = rw (xor_block_lem n a b (omega arith) (omega arith))
