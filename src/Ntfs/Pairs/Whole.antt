-- ===== src/Ntfs/Pairs/Whole.antt =====
-- runlist.c: the size of a mapping pairs array and its build, from the first vcn of a runlist on.
use rohos_disk_browser.Prelude.{
  ℕ, ◌+◌, ◌^◌, ◌≤◌, ◌<◌, ◌≡◌, refl, sym, ap, ◌∙◌, inl, inr, List, [], ◌∷◌, Option, some, Bool, true,
  false, ◌&&◌, ◌==◌, length, arith,
}
use rohos_disk_browser.Ntfs.Number.{negative}
use rohos_disk_browser.Ntfs.Runs.{Run, slt}
use rohos_disk_browser.Ntfs.Pairs.{
  done, Built, skip, build_runs, build_from, mapping_pairs_build, SizeReply, needs, size_runs,
  size_from, get_size_for_mapping_pairs,
}
use rohos_disk_browser.Ntfs.Pairs.Size.{Mapped, runs_bytes, end_vcn, size_runs_lem, build_runs-done}
use rohos_disk_browser.Ntfs.Pairs.Short.{IsCutAt, build_runs-no_space}

pub slt_irrefl : (v : ℕ) → slt v v ≡ false
slt_irrefl v = ground arith

slt_later : (v n : ℕ) → v + n < 2 ^ 63 → 0 < n → slt v (v + n) ≡ true
slt_later v n h pos = ground (arith, h, pos)

skip_first : (v : ℕ) (rl : List Run) → Mapped v rl → skip v rl ≡ some rl
unfolding skip
skip_first v [] m = absurd m
skip_first v (r ∷ []) (at, (small, inl e)) =
    let q : (r.length == 0) ≡ true = ground (arith, e) in rw q
skip_first v (r ∷ []) (at, (small, inr (pos, (h, (l, m))))) = absurd m
skip_first v (r ∷ s ∷ rl) (at, (small, inl e)) =
    let q : (r.length == 0) ≡ true = ground (arith, e) in rw q
skip_first v (r ∷ s ∷ rl) (at, (small, inr (pos, (h, (l, m))))) =
    let later : slt v s.vcn ≡ true = ap (λ k. slt v k) (m.0) ∙ slt_later v r.length (m.1.0) pos in
    let q : (r.length == 0) ≡ false = ground (arith, pos) in rw (q, later)

and_false : (b : Bool) → (b && false) ≡ false
and_false true = refl
and_false false = refl

pub build-runs :
    (major dst_len v : ℕ) (rl : List Run)
    → Mapped v rl
    → mapping_pairs_build major dst_len (some rl) v ≡ build_runs major dst_len 0 rl
unfolding mapping_pairs_build build_from
build-runs major dst_len v [] m = absurd m
build-runs major dst_len v (r ∷ rl) m =
    let pos : negative v ≡ false = ground (arith, m.1.0) in
    let same : slt v r.vcn ≡ false = ap (λ k. slt v k) (m.0) ∙ slt_irrefl v in
    let same2 : slt r.vcn v ≡ false = ap (λ k. slt k v) (m.0) ∙ slt_irrefl v in
    let first = skip_first v (r ∷ rl) m in rw (pos, first, same, same2, and_false (r.length == 0))

size-runs :
    (major v : ℕ) (rl : List Run)
    → Mapped v rl
    → get_size_for_mapping_pairs major (some rl) v ≡ size_runs major 0 rl
unfolding get_size_for_mapping_pairs size_from
size-runs major v [] m = absurd m
size-runs major v (r ∷ rl) m =
    let pos : negative v ≡ false = ground (arith, m.1.0) in
    let same : slt v r.vcn ≡ false = ap (λ k. slt v k) (m.0) ∙ slt_irrefl v in
    let same2 : slt r.vcn v ≡ false = ap (λ k. slt k v) (m.0) ∙ slt_irrefl v in
    let first = skip_first v (r ∷ rl) m in rw (pos, first, same, same2, and_false (r.length == 0))

-- The size of the array of a mapped runlist.
pub get_size_lem :
    (major v : ℕ) (rl : List Run)
    → Mapped v rl
    → get_size_for_mapping_pairs major (some rl) v ≡ some (needs (length (runs_bytes major 0 rl)))
get_size_lem major v rl m = size-runs major v rl m ∙ size_runs_lem major 0 v rl m

needed : Option SizeReply → ℕ
needed (some (needs n)) = n
needed _ = 0

-- The size computed is the length of the array.
size_known :
    (major v n : ℕ) (rl : List Run)
    → Mapped v rl
    → get_size_for_mapping_pairs major (some rl) v ≡ some (needs n)
    → length (runs_bytes major 0 rl) ≡ n
unfolding needed
size_known major v n rl m h = ap needed (sym (get_size_lem major v rl m) ∙ h)

-- For a fully mapped runlist a destination of the size computed for the mapping pairs array from its
-- first vcn on, or a larger one, takes the whole array: it has just that size, and the stop vcn is
-- the end of the runlist.
pub get_size-build :
    (major dst_len v n : ℕ) (rl : List Run)
    → Mapped v rl
    → get_size_for_mapping_pairs major (some rl) v ≡ some (needs n)
    → n ≤ dst_len
    → (b : Built) × ((mapping_pairs_build major dst_len (some rl) v ≡ some b)
        × ((b.ret ≡ done) × ((b.stop_vcn ≡ some (end_vcn rl)) × (length b.bytes ≡ n))))
get_size-build major dst_len v n rl m h fits =
    let size = size_known major v n rl m h in
    (
      record { ret = done; bytes = runs_bytes major 0 rl; stop_vcn = some (end_vcn rl) },
      (
        build-runs major dst_len v rl m
            ∙ build_runs-done major dst_len 0 v rl m (omega (arith, size, fits)),
        (refl, (refl, size)),
      ),
    )

-- A destination that is smaller than the size computed for a fully mapped runlist, but not empty,
-- ends the build with ENOSPC at some run of the list. What it then holds are the pairs of the runs
-- before this one and a terminator, no more bytes than it has; the stop vcn is the first vcn
-- of this run, and the pair of this run would not have fitted with a terminator behind it.
pub get_size-no_space :
    (major dst_len v n : ℕ) (rl : List Run)
    → Mapped v rl
    → get_size_for_mapping_pairs major (some rl) v ≡ some (needs n)
    → 0 < dst_len
    → dst_len < n
    → (b : Built) × (front : List Run) × (r : Run) × (mapping_pairs_build major dst_len (some rl) v
        ≡ some b)
      × IsCutAt major dst_len 0 rl b front r
get_size-no_space major dst_len v n rl m h pos short =
    let size = size_known major v n rl m h in
    let (b, front, r, run, cut) =
      build_runs-no_space major dst_len 0 v rl m pos (omega (arith, size, short)) in
    (b, front, r, build-runs major dst_len v rl m ∙ run, cut)
