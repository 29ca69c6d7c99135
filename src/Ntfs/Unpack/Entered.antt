-- ===== src/Ntfs/Unpack/Entered.antt =====
-- runlist.c: the array that ntfs_mapping_pairs_decompress_i fills by the u16 index rlpos.
use mathlib.Core.List.{append_assoc, append-nil}
use rohos_disk_browser.Prelude.{
  ◌+◌, ◌≤◌, ◌<◌, ◌≡◌, refl, sym, ◌∙◌, ap, List, [], ◌∷◌, ◌++◌, true, false, ◌==◌, length,
  length-append, arith,
}
use rohos_disk_browser.Ntfs.Runs.{Run}
use rohos_disk_browser.Ntfs.Unpack.{advance, entered}

-- Where the index does not wrap, all elements stand in the array.
pub entered-fits : (rl rs : List Run) → length rl + length rs ≤ 65536 → entered rl rs ≡ rl ++ rs
unfolding entered
entered-fits rl [] few = sym (append-nil rl)
entered-fits rl (r ∷ []) few = refl
entered-fits rl (r ∷ s ∷ rs) few =
    let room : (length rl == 65535) ≡ false = ground arith in
    ap (λ xs. entered xs (s ∷ rs)) (kept room)
    ∙ entered-fits (rl ++ (r ∷ [])) (s ∷ rs) (omega (arith, length-append rl (r ∷ [])))
    ∙ append_assoc rl (r ∷ []) (s ∷ rs)
  where
    kept : (length rl == 65535) ≡ false → advance rl r ≡ rl ++ (r ∷ [])
    kept e = rw e

-- With a full array below it, the index wraps to 0: what was entered before is overwritten, or
-- stands behind the new terminator.
pub entered-wraps :
    (rl xs : List Run) (s : Run) (rs : List Run)
    → 0 < length xs
    → length rl + length xs ≡ 65536
    → entered rl (xs ++ (s ∷ rs)) ≡ entered [] (s ∷ rs)
unfolding entered
entered-wraps rl [] s rs more full = absurd (omega arith)
entered-wraps rl (x ∷ []) s rs more full =
    let last : (length rl == 65535) ≡ true = ground arith in
    ap (λ ys. entered ys (s ∷ rs)) (lost last)
  where
    lost : (length rl == 65535) ≡ true → advance rl x ≡ []
    lost e = rw e
entered-wraps rl (x ∷ y ∷ xs) s rs more full =
    let room : (length rl == 65535) ≡ false = ground arith in
    ap (λ ys. entered ys (y ∷ (xs ++ (s ∷ rs)))) (kept room)
    ∙ entered-wraps (rl ++ (x ∷ [])) (y ∷ xs) s rs (omega arith)
        (omega (arith, length-append rl (x ∷ [])))
  where
    kept : (length rl == 65535) ≡ false → advance rl x ≡ rl ++ (x ∷ [])
    kept e = rw e
