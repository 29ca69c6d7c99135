-- ===== src/DiskIo/Host/Bytes.antt =====
-- Reads and overwrites of the bytes of a file.
use rohos_disk_browser.Prelude.{
  ℕ, zero, suc, ◌+◌, ◌-◌, ◌≤◌, ◌<◌, ◌≡◌, refl, ap, ap₂, ◌∙◌, true, List, [], ◌∷◌, length, ltb, leb,
  get_or, arith,
}
use rohos_disk_browser.DiskIo.Host.{bytes_from, overwrite}

pub length-bytes_from : (f : ℕ → ℕ) (p n : ℕ) → length (bytes_from f p n) ≡ n
length-bytes_from f p zero = refl
length-bytes_from f p (suc n) = ap suc (length-bytes_from f (p + 1) n)

-- Reading where two files agree.
pub bytes_from_ext :
    (f g : ℕ → ℕ) (p n : ℕ)
    → ((i : ℕ) → p ≤ i → i < p + n → f i ≡ g i)
    → bytes_from f p n ≡ bytes_from g p n
bytes_from_ext f g p zero h = refl
bytes_from_ext f g p (suc n) h =
    ap₂ ◌∷◌ (h p (omega arith) (omega arith))
      (bytes_from_ext f g (p + 1) n (λ i a b. h i (omega arith) (omega arith)))

bytes_from-list :
    (f : ℕ → ℕ) (bs : List ℕ) (p : ℕ)
    → ((i : ℕ) → i < length bs → f (p + i) ≡ get_or bs i 0)
    → bytes_from f p (length bs) ≡ bs
bytes_from-list f [] p h = refl
bytes_from-list f (b ∷ bs) p h =
    ap₂ ◌∷◌ first
      (bytes_from-list f bs (p + 1) (λ i lt. ap f (omega arith) ∙ h (suc i) (omega arith)))
  where
    first : f p ≡ b
    first = ap f (omega arith) ∙ h 0 (omega arith)

-- What was written is read back.
pub bytes_from-overwrite :
    (f : ℕ → ℕ) (p : ℕ) (bs : List ℕ) → bytes_from (overwrite f p bs) p (length bs) ≡ bs
bytes_from-overwrite f p bs = bytes_from-list (overwrite f p bs) bs p at
  where
    at : (i : ℕ) → i < length bs → overwrite f p bs (p + i) ≡ get_or bs i 0
    at i lt = rw (inside, outside, place)
      where
        inside : leb p (p + i) ≡ true
        inside = ground arith

        outside : ltb (p + i) (p + length bs) ≡ true
        outside = ground arith

        place : p + i - p ≡ i
        place = omega arith
