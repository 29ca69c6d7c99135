-- ===== src/Ntfs/Compress/Within.antt =====
-- How far a part of the decompression moves its two pointers.
use rohos_disk_browser.Prelude.{ℕ, ◌+◌, ◌<◌, ◌≤◌, List, Option, none, some, length, arith}
use rohos_disk_browser.Ntfs.Compress.{Step, next, overflow, on_next}

-- A result that is no fault: the source pointer from `lo` to `hi`, with more memory behind it than a
-- block of `size` bytes has, and at least `least` and at most `most` bytes written.
abbrev pub Within : ℕ → ℕ → ℕ → ℕ → ℕ → Option Step → Type 0
Within size lo hi least most none = ⊥
Within size lo hi least most (some (overflow out)) = length out ≤ most
Within size lo hi least most (some (next cb mem out)) =
    (lo ≤ cb) × (cb ≤ hi) × (size < cb + length mem) × (least ≤ length out) × (length out ≤ most)

pub Within-wider :
    (size lo hi least most lo' hi' least' most' : ℕ) (r : Option Step)
    → lo' ≤ lo
    → hi ≤ hi'
    → least' ≤ least
    → most ≤ most'
    → Within size lo hi least most r
    → Within size lo' hi' least' most' r
Within-wider size lo hi least most lo' hi' least' most' none p q u v w = w
Within-wider size lo hi least most lo' hi' least' most' (some (overflow out)) p q u v w =
    omega arith
Within-wider size lo hi least most lo' hi' least' most' (some (next cb mem out)) p q u v
      (a, b, c, d, e) =
    (omega arith, omega arith, c, omega arith, omega arith)

pub on_next-Within :
    (size lo hi lo' hi' least least' most : ℕ) (r : Option Step)
    (f : ℕ → List ℕ → List ℕ → Option Step)
    → Within size lo hi least most r
    → ((cb : ℕ) (mem out : List ℕ)
        → lo ≤ cb
        → cb ≤ hi
        → size < cb + length mem
        → least ≤ length out
        → length out ≤ most
        → Within size lo' hi' least' most (f cb mem out))
    → Within size lo' hi' least' most (on_next r f)
on_next-Within size lo hi lo' hi' least least' most none f w k = w
on_next-Within size lo hi lo' hi' least least' most (some (overflow out)) f w k = w
on_next-Within size lo hi lo' hi' least least' most (some (next cb mem out)) f (a, b, c, d, e) k =
    k cb mem out a b c d e
