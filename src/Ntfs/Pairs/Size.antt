-- ===== src/Ntfs/Pairs/Size.antt =====
-- runlist.c: a destination of the size that ntfs_get_size_for_mapping_pairs computes is enough for
-- ntfs_mapping_pairs_build, and is used to its last byte.
use rohos_disk_browser.Prelude.{
  ℕ, ◌+◌, ◌-◌, ◌*◌, ◌^◌, ◌≤◌, ◌<◌, ◌≡◌, ◌⊎◌, sym, ap, ◌∙◌, inl, inr, List, [], ◌∷◌, ◌++◌, none,
  some, true, false, if◌then◌else◌, ltb, leb, ◌==◌, Bool-cases, length, length-append, arith,
}
use rohos_disk_browser.Ntfs.Number.{get_nr_significant_bytes}
use rohos_disk_browser.Ntfs.Number.Laws.{
  significant, significant-length, write_significant_bytes_lem,
}
use rohos_disk_browser.Ntfs.Runs.{Run, lcn_hole, sub64}
use rohos_disk_browser.Ntfs.Pairs.{
  done, Built, stores_lcn, bad_run, lcn_change, encode_pair, terminate, build_runs, needs,
  pair_size, next_lcn, size_runs,
}

-- The bytes of one pair.
unfoldable pub pair_bytes : ℕ → ℕ → Run → List ℕ
pair_bytes major prev r =
    let len = significant r.length in
    let change = if stores_lcn major r then significant (sub64 r.lcn prev) else [] in
    (length change * 2 ^ 4 + length len) ∷ (len ++ change)

pub length-pair_bytes :
    (major prev : ℕ) (r : Run) → length (pair_bytes major prev r) ≡ pair_size major prev r
unfolding pair_bytes
length-pair_bytes major prev r = elim (Bool-cases (stores_lcn major r)) [
  | inl e ↦ rw e (
      omega (
        arith,
        length-append (significant r.length) (significant (sub64 r.lcn prev)),
        significant-length r.length,
        significant-length (sub64 r.lcn prev),
      ))
  | inr e ↦
      rw e (omega (arith, length-append (significant r.length) [], significant-length r.length))
]

-- A pair is written where it and the terminator have room, and only there.
pub encode_pair_lem :
    (major room prev : ℕ) (r : Run)
    → r.length < 2 ^ 64
    → encode_pair major room prev r ≡ (
        if ltb (pair_size major prev r) room
        then some (pair_bytes major prev r, next_lcn major prev r)
        else none)
unfolding pair_bytes encode_pair lcn_change
encode_pair_lem major room prev r h =
    let delta = sub64 r.lcn prev in
    let len = write_significant_bytes_lem (room - 1) r.length h in
    let change =
      write_significant_bytes_lem (room - 1 - length (significant r.length)) delta (omega arith) in
    let size1 = significant-length r.length in
    let size2 = significant-length delta in
    elim (Bool-cases (leb (get_nr_significant_bytes r.length) (room - 1))) [
      | inl e ↦ elim (Bool-cases (stores_lcn major r)) [
        | inl s ↦
            elim (Bool-cases
              (leb (get_nr_significant_bytes delta) (room - 1 - length (significant r.length)))) [
                | inl f ↦
                    let total : length (significant r.length) + length (significant delta) + 1
                        ≡ 1 + get_nr_significant_bytes r.length + get_nr_significant_bytes delta =
                      omega (arith, size1, size2) in
                    rw (len, e, s, change, f, total)
                | inr f ↦
                    let over : ltb
                          (1 + get_nr_significant_bytes r.length + get_nr_significant_bytes delta)
                          room
                        ≡ false =
                      ground (arith, f, size1) in
                    rw (len, e, s, change, f, over)
              ]
        | inr s ↦
            let total : length (significant r.length) + 0 + 1
                ≡ 1 + get_nr_significant_bytes r.length + 0 =
              omega (arith, size1) in
            rw (len, e, s, total)
      ]
      | inr e ↦
          let over : ltb (pair_size major prev r) room ≡ false = ground (arith, e) in
          rw (len, e, over)
    ]

-- A runlist without unmapped parts, whose runs follow one another from `v` on.
abbrev pub Mapped : ℕ → List Run → Type 0
Mapped v [] = ⊥
Mapped v (r ∷ rl) =
    (r.vcn ≡ v)
    × ((v < 2 ^ 63)
        × ((r.length ≡ 0)
            ⊎ ((0 < r.length)
                × ((r.length < 2 ^ 63)
                    × (((r.lcn < 2 ^ 63) ⊎ (r.lcn ≡ lcn_hole)) × Mapped (v + r.length) rl)))))

-- The array of a runlist with its terminator, and the vcn at its end.
unfoldable pub runs_bytes : ℕ → ℕ → List Run → List ℕ
runs_bytes major prev [] = []
runs_bytes major prev (r ∷ rl) =
    let rest = runs_bytes major (next_lcn major prev r) rl in
    if r.length == 0 then 0 ∷ [] else pair_bytes major prev r ++ rest

unfoldable pub end_vcn : List Run → ℕ
end_vcn [] = 0
end_vcn (r ∷ rl) = let rest = end_vcn rl in if r.length == 0 then r.vcn else rest

pub good_run :
    (r : Run)
    → 0 < r.length
    → r.length < 2 ^ 63
    → (r.lcn < 2 ^ 63) ⊎ (r.lcn ≡ lcn_hole)
    → ((r.length == 0) ≡ false) × (bad_run r ≡ false)
good_run r pos h (inl l) = (ground (arith, pos), ground (arith, h, l))
good_run r pos h (inr l) = (ground (arith, pos), ground (arith, h, l))

pub runs_bytes-pos :
    (major prev v : ℕ) (rl : List Run) → Mapped v rl → 0 < length (runs_bytes major prev rl)
unfolding runs_bytes
runs_bytes-pos major prev v [] m = absurd m
runs_bytes-pos major prev v (r ∷ rl) (at, (small, inl e)) =
    let q : (r.length == 0) ≡ true = ground (arith, e) in rw q (omega arith)
runs_bytes-pos major prev v (r ∷ rl) (at, (small, inr (pos, (h, (l, m))))) =
    let good = good_run r pos h l in
    rw (good.0) (
      omega (
        arith,
        length-append (pair_bytes major prev r) (runs_bytes major (next_lcn major prev r) rl),
        runs_bytes-pos major (next_lcn major prev r) (v + r.length) rl m,
      ))

pub size_runs_lem :
    (major prev v : ℕ) (rl : List Run)
    → Mapped v rl
    → size_runs major prev rl ≡ some (needs (length (runs_bytes major prev rl)))
unfolding size_runs runs_bytes
size_runs_lem major prev v [] m = absurd m
size_runs_lem major prev v (r ∷ rl) (at, (small, inl e)) =
    let q : (r.length == 0) ≡ true = ground (arith, e) in rw q
size_runs_lem major prev v (r ∷ rl) (at, (small, inr (pos, (h, (l, m))))) =
    let good = good_run r pos h l in
    let rest = size_runs_lem major (next_lcn major prev r) (v + r.length) rl m in
    rw (good.0, good.1, rest)
      (ap (λ n. some (needs n))
        (sym (
          length-append (pair_bytes major prev r) (runs_bytes major (next_lcn major prev r) rl)
          ∙ ap (λ n. n + length (runs_bytes major (next_lcn major prev r) rl))
              (length-pair_bytes major prev r))))

pub build_runs-done :
    (major room prev v : ℕ) (rl : List Run)
    → Mapped v rl
    → length (runs_bytes major prev rl) ≤ room
    → build_runs major room prev rl
      ≡ some (record { ret = done; bytes = runs_bytes major prev rl; stop_vcn = some (end_vcn rl) })
unfolding build_runs runs_bytes end_vcn terminate
build_runs-done major room prev v [] m fits = absurd m
build_runs-done major room prev v (r ∷ rl) (at, (small, inl e)) fits =
    let q : (r.length == 0) ≡ true = ground (arith, e) in
    let one : length (runs_bytes major prev (r ∷ rl)) ≡ 1 = rw q in
    let full : (room == 0) ≡ false = ground (arith, one, fits) in rw (q, full)
build_runs-done major room prev v (r ∷ rl) (at, (small, inr (pos, (h, (l, m))))) fits =
    let good = good_run r pos h l in
    let pair = pair_bytes major prev r in
    let rest = runs_bytes major (next_lcn major prev r) rl in
    let parts : length (runs_bytes major prev (r ∷ rl)) ≡ length pair + length rest =
      rw (good.0) (length-append pair rest) in
    let pair_length : length pair ≡ pair_size major prev r = length-pair_bytes major prev r in
    let more_left = runs_bytes-pos major (next_lcn major prev r) (v + r.length) rl m in
    let has_room : ltb (pair_size major prev r) room ≡ true =
      ground (arith, parts, pair_length, more_left, fits) in
    let code = encode_pair_lem major room prev r (omega (arith, h)) in
    let ih =
      build_runs-done major (room - length pair) (next_lcn major prev r) (v + r.length) rl m
        (omega (arith, parts, fits)) in
    rw (good.0, good.1, code, has_room, ih)

pub build_step :
    (major room prev next : ℕ) (r : Run) (rl : List Run) (pair : List ℕ) (b : Built)
    → (r.length == 0) ≡ false
    → bad_run r ≡ false
    → encode_pair major room prev r ≡ some (pair, next)
    → build_runs major (room - length pair) next rl ≡ some b
    → build_runs major room prev (r ∷ rl) ≡ some (record b { bytes = pair ++ b.bytes })
unfolding build_runs
build_step major room prev next r rl pair b e1 e2 e3 e4 = rw (e1, e2, e3, e4)
