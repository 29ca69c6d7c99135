-- ===== src/Ntfs/Bitmap/Tests.antt =====
-- A bitmap of two bytes.
use rohos_disk_browser.Prelude.{ℕ, ◌≡◌, refl, List, [], ◌∷◌, some, arith}
use rohos_disk_browser.Prelude.Store.{store}
use rohos_disk_browser.Crypto.Bytes.{IsBytes}
use rohos_disk_browser.Ntfs.Bitmap.{bit_set}

abbrev bitmap : List ℕ
bitmap = 5 ∷ 128 ∷ []

abbrev last_bit : ℕ
last_bit = 15

bitmap-IsBytes : IsBytes bitmap
bitmap-IsBytes = (omega arith, (omega arith, tt))

cleared : bit_set (some bitmap) 15 0 ≡ some (some (5 ∷ 0 ∷ []))
unfolding bit_set store
cleared = refl
