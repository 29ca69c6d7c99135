-- ===== src/Ntfs/Pairs/Short.antt =====
-- runlist.c: ntfs_mapping_pairs_build in a destination that is too small for the whole array.
use mathlib.Core.List.{append_assoc}
use rohos_disk_browser.Prelude.{
  ℕ, ◌+◌, ◌-◌, ◌≤◌, ◌<◌, ◌≡◌, refl, sym, ap, ◌∙◌, inl, inr, List, [], ◌∷◌, ◌++◌, none, some, true,
  false, ltb, ◌==◌, Bool-cases, length, length-append, arith,
}
use rohos_disk_browser.Ntfs.Runs.{Run}
use rohos_disk_browser.Ntfs.Pairs.{
  no_space, Built, bad_run, encode_pair, terminate, build_runs, pair_size, next_lcn,
}
use rohos_disk_browser.Ntfs.Pairs.Size.{
  Mapped, pair_bytes, length-pair_bytes, encode_pair_lem, runs_bytes, good_run, build_step,
}

-- The bytes of the pairs of the runs, without a terminator.
unfoldable pub pairs_bytes : ℕ → ℕ → List Run → List ℕ
pairs_bytes major prev [] = []
pairs_bytes major prev (r ∷ rl) =
    pair_bytes major prev r ++ pairs_bytes major (next_lcn major prev r) rl

-- What a build leaves that stops at `r` for lack of room: the pairs of the runs before it, all of them
-- that fit with a terminator behind.
abbrev pub IsCutAt : ℕ → ℕ → ℕ → List Run → Built → List Run → Run → Type 0
IsCutAt major room prev rl b front r =
    ((back : List Run) × (rl ≡ front ++ (r ∷ back)))
    × (b.ret ≡ no_space)
    × (b.bytes ≡ pairs_bytes major prev front ++ (0 ∷ []))
    × (b.stop_vcn ≡ some r.vcn)
    × (length b.bytes ≤ room)
    × (room ≤ length (pairs_bytes major prev (front ++ (r ∷ []))))

stops_here :
    (major room prev : ℕ) (r : Run) (rl : List Run)
    → 0 < room
    → (r.length == 0) ≡ false
    → bad_run r ≡ false
    → encode_pair major room prev r ≡ none
    → build_runs major room prev (r ∷ rl)
      ≡ some (record { ret = no_space; bytes = 0 ∷ []; stop_vcn = some r.vcn })
unfolding build_runs terminate
stops_here major room prev r rl pos e1 e2 e3 =
    let full : (room == 0) ≡ false = ground (arith, pos) in rw (e1, e2, e3, full)

single :
    (major prev : ℕ) (r : Run) → length (pairs_bytes major prev (r ∷ [])) ≡ pair_size major prev r
unfolding pairs_bytes
single major prev r =
    length-append (pair_bytes major prev r) [] ∙ omega (arith, length-pair_bytes major prev r)

runs_bytes-more :
    (major prev : ℕ) (r : Run) (rl : List Run)
    → (r.length == 0) ≡ false
    → length (runs_bytes major prev (r ∷ rl))
      ≡ pair_size major prev r + length (runs_bytes major (next_lcn major prev r) rl)
unfolding runs_bytes
runs_bytes-more major prev r rl e = rw e (
    length-append (pair_bytes major prev r) (runs_bytes major (next_lcn major prev r) rl)
    ∙ ap (λ n. n + length (runs_bytes major (next_lcn major prev r) rl))
        (length-pair_bytes major prev r))

runs_bytes-end :
    (major prev : ℕ) (r : Run) (rl : List Run)
    → r.length ≡ 0
    → length (runs_bytes major prev (r ∷ rl)) ≡ 1
unfolding runs_bytes
runs_bytes-end major prev r rl e = let q : (r.length == 0) ≡ true = ground (arith, e) in rw q

-- A cut of the runs behind `r` is one of the runs from `r` on.
IsCutAt-later :
    (major room prev : ℕ) (r s : Run) (rl front : List Run) (b : Built)
    → pair_size major prev r < room
    → IsCutAt major (room - length (pair_bytes major prev r)) (next_lcn major prev r) rl b front s
    → IsCutAt major room prev
        (r ∷ rl)
        (record b { bytes = pair_bytes major prev r ++ b.bytes })
        (r ∷ front)
        s
unfolding pairs_bytes
IsCutAt-later major room prev r s rl front b fits ((back, parts), ret, bytes, stop, size, next) =
    let pair = pair_bytes major prev r in
    let long : length pair ≡ pair_size major prev r = length-pair_bytes major prev r in
    (
      (back, ap (λ xs. r ∷ xs) parts),
      ret,
      ap (λ xs. pair ++ xs) bytes
          ∙ sym (append_assoc pair (pairs_bytes major (next_lcn major prev r) front) (0 ∷ [])),
      stop,
      omega (arith, length-append pair b.bytes, size, fits, long),
      omega (
        arith,
        length-append pair (pairs_bytes major (next_lcn major prev r) (front ++ (s ∷ []))),
        next,
        fits,
        long,
      ),
    )

pub build_runs-no_space :
    (major room prev v : ℕ) (rl : List Run)
    → Mapped v rl
    → 0 < room
    → room < length (runs_bytes major prev rl)
    → (b : Built) × (front : List Run) × (r : Run) × (build_runs major room prev rl ≡ some b)
      × IsCutAt major room prev rl b front r
unfolding pairs_bytes
build_runs-no_space major room prev v [] m pos short = absurd m
build_runs-no_space major room prev v (r ∷ rl) (at, (small, inl e)) pos short =
    absurd (omega (arith, runs_bytes-end major prev r rl e, short, pos))
build_runs-no_space major room prev v (r ∷ rl) (at, (small, inr (lpos, (h, (l, m))))) pos short =
    let good = good_run r lpos h l in
    let code = encode_pair_lem major room prev r (omega (arith, h)) in
    elim (Bool-cases (ltb (pair_size major prev r) room)) [
      | inl e ↦
          let fits : pair_size major prev r < room = ground (arith, e) in
          let pair = pair_bytes major prev r in
          let long : length pair ≡ pair_size major prev r = length-pair_bytes major prev r in
          let (b, front, s, run, cut) =
            build_runs-no_space major (room - length pair) (next_lcn major prev r) (v + r.length) rl
              m (omega (arith, fits, long))
              (omega (arith, runs_bytes-more major prev r rl good.0, long, short)) in
          (
            record b { bytes = pair ++ b.bytes },
            r ∷ front,
            s,
            build_step major room prev (next_lcn major prev r) r rl pair b (good.0) (good.1)
                (code ∙ rw e) run,
            IsCutAt-later major room prev r s rl front b fits cut,
          )
      | inr e ↦ (
        record { ret = no_space; bytes = 0 ∷ []; stop_vcn = some r.vcn },
        [],
        r,
        stops_here major room prev r rl pos good.0 good.1 (code ∙ rw e),
        ((rl, refl), refl, refl, refl, omega (arith, pos), ground (arith, e, single major prev r)),
      )
    ]
