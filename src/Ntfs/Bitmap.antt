-- ===== src/Ntfs/Bitmap.antt =====
-- The single bits of a bitmap in filesys/ntfs/bitmap.c. The bitmap is the list of its bytes, or `none`
-- where the pointer is null; `none` in a result is an access past it.
pub mod Byte
pub mod Laws
mod Tests
use rohos_disk_browser.Prelude.{
  ℕ, ◌+◌, ◌-◌, ◌*◌, ◌/◌, ◌%◌, ◌^◌, List, [], Option, none, some, Bool, true, false, if◌then◌else◌,
  ltb, ◌==◌, ◌>>=◌, get_elem?, bit_and, bit_or, bit_xor,
}
use rohos_disk_browser.Prelude.Store.{store}

-- `(x >> shift) & 1`.
abbrev pub bit_of : ℕ → ℕ → ℕ
bit_of x shift = x / 2 ^ shift % 2

-- `x &= ~(1 << shift)` or `x |= 1 << shift`.
abbrev pub with_bit : ℕ → ℕ → ℕ → ℕ
with_bit x shift new_value =
    if new_value == 0 then bit_and x (255 - 2 ^ shift) else bit_or x (2 ^ shift)

-- `if (new_value != old_bit) x ^= 1 << shift`.
abbrev pub toggled : ℕ → ℕ → ℕ → ℕ
toggled x shift new_value = if new_value == bit_of x shift then x else bit_xor x (2 ^ shift)

-- Nothing happens with a null pointer or another value than 0 and 1.
unfoldable pub bit_set : Option (List ℕ) → ℕ → ℕ → Option (Option (List ℕ))
bit_set none bit new_value = some none
bit_set (some bitmap) bit new_value =
    if ltb 1 new_value
    then some (some bitmap)
    else (get_elem? bitmap (bit / 2 ^ 3) >>= λ x.
        store bitmap (bit / 2 ^ 3) (with_bit x (bit % 8) new_value) >>= λ m. some (some m))

-- `some none` is the result -1.
unfoldable pub bit_get : Option (List ℕ) → ℕ → Option (Option ℕ)
bit_get none bit = some none
bit_get (some bitmap) bit = get_elem? bitmap (bit / 2 ^ 3) >>= λ x. some (some (bit_of x (bit % 8)))

-- The old bit with the bitmap, or -1.
unfoldable pub bit_get_and_set : Option (List ℕ) → ℕ → ℕ → Option (Option (ℕ × List ℕ))
bit_get_and_set none bit new_value = some none
bit_get_and_set (some bitmap) bit new_value =
    if ltb 1 new_value
    then some none
    else (get_elem? bitmap (bit / 2 ^ 3) >>= λ x.
        store bitmap (bit / 2 ^ 3) (toggled x (bit % 8) new_value) >>= λ m.
        some (some (bit_of x (bit % 8), m)))
