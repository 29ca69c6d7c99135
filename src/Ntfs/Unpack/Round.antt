-- ===== src/Ntfs/Unpack/Round.antt =====
-- runlist.c: decompressing a mapping pairs array that was built gives the runlist back.
use rohos_disk_browser.Prelude.{
  ℕ, zero, suc, ◌+◌, ◌-◌, ◌*◌, ◌/◌, ◌%◌, ◌^◌, ◌≤◌, ◌<◌, ◌≡◌, ◌⊎◌, refl, sym, ap, ◌∙◌, inl, inr,
  List, [], ◌∷◌, ◌++◌, some, true, false, if◌then◌else◌, ltb, ◌==◌, Bool-cases, length,
  length-append, get_elem?, drop, take-append, drop-append, arith,
}
use rohos_disk_browser.Crypto.Bytes.{read_lem}
use rohos_disk_browser.Ntfs.Number.{negative}
use rohos_disk_browser.Ntfs.Number.Laws.{significant, significant-bounds, read_number-significant}
use rohos_disk_browser.Ntfs.Runs.{Run, lcn_hole, slt, add64, sub64}
use rohos_disk_browser.Ntfs.Pairs.{stores_lcn, next_lcn}
use rohos_disk_browser.Ntfs.Pairs.Size.{
  pair_bytes, Mapped, runs_bytes, end_vcn, good_run, runs_bytes-pos,
}
use rohos_disk_browser.Ntfs.Unpack.{number_at, length_entry, lcn_entry, decode_pair, unpack_loop}

-- A number that was written `skip` bytes behind the header byte is read again.
number_at-significant :
    (h : ℕ) (before after : List ℕ) (left n : ℕ)
    → n < 2 ^ 64
    → length before + length (significant n) ≤ left
    → number_at
        (h ∷ (before ++ (significant n ++ after)))
        left
        (length before)
        (length (significant n))
      ≡ some (some n)
unfolding number_at
number_at-significant h before after left n small fits =
    let bs = significant n in
    let inside : ltb left (length before + length bs) ≡ false = ground (arith, fits) in
    let cut = drop-append (length before) before (bs ++ after) refl in
    let got = read_lem (length bs) (bs ++ after) (omega (arith, length-append bs after)) in
    let first = take-append (length bs) bs after refl in
    rw (inside, cut, got, first, read_number-significant n small)

-- The two halves of the header byte.
header_low : (c l : ℕ) → l < 16 → (c * 2 ^ 4 + l) % 2 ^ 4 ≡ l
header_low c l h = omega (arith, h)

header_high : (c l : ℕ) → l < 16 → c < 16 → (c * 2 ^ 4 + l) / 2 ^ 4 % 2 ^ 4 ≡ c
header_high c l h k = omega (arith, h, k)

append_assoc : (xs ys zs : List ℕ) → (xs ++ ys) ++ zs ≡ xs ++ (ys ++ zs)
append_assoc [] ys zs = refl
append_assoc (x ∷ xs) ys zs = ap (λ r. x ∷ r) (append_assoc xs ys zs)

-- An lcn that a mapped run can have.
abbrev pub IsLcn : ℕ → Type 0
IsLcn n = (n < 2 ^ 63) ⊎ (n ≡ lcn_hole)

length_entry_lem :
    (h left n : ℕ) (after : List ℕ)
    → n < 2 ^ 64
    → h % 2 ^ 4 ≡ length (significant n)
    → length (significant n) ≤ left
    → length_entry (h ∷ (significant n ++ after)) left h ≡ some (some n)
unfolding length_entry
length_entry_lem h left n after small low fits =
    let there : (length (significant n) == 0) ≡ false = ground (arith, significant-bounds n) in
    rw (low, there) (number_at-significant h [] after left n small (omega (arith, fits)))

lcn_back : (prev lcn : ℕ) → IsLcn prev → IsLcn lcn → add64 prev (sub64 lcn prev) ≡ lcn
lcn_back prev lcn (inl p) (inl l) = omega (arith, p, l)
lcn_back prev lcn (inl p) (inr l) = omega (arith, p, l)
lcn_back prev lcn (inr p) (inl l) = omega (arith, p, l)
lcn_back prev lcn (inr p) (inr l) = omega (arith, p, l)

lcn_valid : (lcn : ℕ) → IsLcn lcn → slt lcn lcn_hole ≡ false
lcn_valid lcn (inl l) = ground (arith, l)
lcn_valid lcn (inr l) = ground (arith, l)

lcn_entry_lem :
    (h left prev lcn : ℕ) (before after : List ℕ)
    → IsLcn prev
    → IsLcn lcn
    → h % 2 ^ 4 ≡ length before
    → h / 2 ^ 4 % 2 ^ 4 ≡ length (significant (sub64 lcn prev))
    → length before + length (significant (sub64 lcn prev)) ≤ left
    → lcn_entry (h ∷ (before ++ (significant (sub64 lcn prev) ++ after))) left h prev
      ≡ some (some (lcn, lcn))
unfolding lcn_entry
lcn_entry_lem h left prev lcn before after p l low high fits =
    let there : (length (significant (sub64 lcn prev)) == 0) ≡ false =
      ground (arith, significant-bounds (sub64 lcn prev)) in
    let got = number_at-significant h before after left (sub64 lcn prev) (omega arith) fits in
    rw (low, high, there, got, lcn_back prev lcn p l, lcn_valid lcn l)

lcn_entry_hole :
    (mem : List ℕ) (h left prev : ℕ)
    → h / 2 ^ 4 % 2 ^ 4 ≡ 0
    → lcn_entry mem left h prev ≡ some (some (lcn_hole, prev))
unfolding lcn_entry
lcn_entry_hole mem h left prev high =
    let none_there : (h / 2 ^ 4 % 2 ^ 4 == 0) ≡ true = ground (arith, high) in rw none_there

-- The header byte of a pair.
abbrev change : ℕ → ℕ → Run → List ℕ
change major prev r = if stores_lcn major r then significant (sub64 r.lcn prev) else []

abbrev header : ℕ → ℕ → Run → ℕ
header major prev r = length (change major prev r) * 2 ^ 4 + length (significant r.length)

decode_pair-parts :
    (mem : List ℕ) (left h vcn prev n lcn next : ℕ)
    → length_entry mem left h ≡ some (some n)
    → negative n ≡ false
    → lcn_entry mem left h prev ≡ some (some (lcn, next))
    → decode_pair mem left h vcn prev
      ≡ some (some (record { vcn = vcn; lcn = lcn; length = n }, next))
unfolding decode_pair
decode_pair-parts mem left h vcn prev n lcn next e1 e2 e3 = rw (e1, e2, e3)

not_stored : (major : ℕ) (r : Run) → IsLcn r.lcn → stores_lcn major r ≡ false → lcn_hole ≡ r.lcn
not_stored major r (inl l) s = absurd (ground (arith, l, s))
not_stored major r (inr l) s = sym l

decode_pair_lem :
    (major prev left : ℕ) (r : Run) (rest : List ℕ)
    → IsLcn prev
    → r.length < 2 ^ 63
    → IsLcn r.lcn
    → length (pair_bytes major prev r) ≤ suc left
    → decode_pair (pair_bytes major prev r ++ rest) left (header major prev r) r.vcn prev
      ≡ some (some (r, next_lcn major prev r))
unfolding pair_bytes
decode_pair_lem major prev left r rest p small l fits =
    let n = r.length in
    let bs = significant n in
    let ds = significant (sub64 r.lcn prev) in
    let ll = significant-bounds n in
    let dd = significant-bounds (sub64 r.lcn prev) in
    let sign : negative n ≡ false = ground (arith, small) in
    elim (Bool-cases (stores_lcn major r)) [
      | inl s ↦
          let h = length ds * 2 ^ 4 + length bs in
          let mem : pair_bytes major prev r ++ rest ≡ h ∷ (bs ++ (ds ++ rest)) =
            rw s (ap (λ t. h ∷ t) (append_assoc bs ds rest)) in
          let head : header major prev r ≡ h = rw s in
          let next : next_lcn major prev r ≡ r.lcn = rw s in
          let room : length (pair_bytes major prev r) ≡ suc (length bs + length ds) =
            rw s (ap suc (length-append bs ds)) in
          let low = header_low (length ds) (length bs) (ll.1) in
          rw (mem, head, next)
            (decode_pair-parts (h ∷ (bs ++ (ds ++ rest))) left h r.vcn prev n r.lcn r.lcn
              (length_entry_lem h left n (ds ++ rest) (omega (arith, small)) low
                (omega (arith, room, fits)))
              sign
              (lcn_entry_lem h left prev r.lcn bs rest p l low
                (header_high (length ds) (length bs) (ll.1) (dd.1)) (omega (arith, room, fits))))
      | inr s ↦
          let h = 0 * 2 ^ 4 + length bs in
          let mem : pair_bytes major prev r ++ rest ≡ h ∷ (bs ++ rest) =
            rw s (ap (λ t. h ∷ t) (append_assoc bs [] rest)) in
          let head : header major prev r ≡ h = rw s in
          let next : next_lcn major prev r ≡ prev = rw s in
          let room : length (pair_bytes major prev r) ≡ suc (length bs + 0) =
            rw s (ap suc (length-append bs [])) in
          rw (mem, head, next)
            (decode_pair-parts (h ∷ (bs ++ rest)) left h r.vcn prev n r.lcn prev
              (length_entry_lem h left n rest (omega (arith, small))
                (header_low 0 (length bs) (ll.1)) (omega (arith, room, fits)))
              sign
              (lcn_entry_hole (h ∷ (bs ++ rest)) h left prev
                  (header_high 0 (length bs) (ll.1) (omega arith))
                ∙ ap (λ v. some (some (v, prev))) (not_stored major r l s)))
    ]

pair_head :
    (major prev : ℕ) (r : Run) (rest : List ℕ)
    → get_elem? (pair_bytes major prev r ++ rest) 0 ≡ some (header major prev r)
unfolding pair_bytes
pair_head major prev r rest = refl

-- The step over a pair is the length of the pair, and its header is not the terminator.
pair_step :
    (major prev : ℕ) (r : Run)
    → (header major prev r % 2 ^ 4 + header major prev r / 2 ^ 4 % 2 ^ 4 + 1
        ≡ length (pair_bytes major prev r))
      × ((header major prev r == 0) ≡ false)
unfolding pair_bytes
pair_step major prev r =
    let bs = significant r.length in
    let ds = significant (sub64 r.lcn prev) in
    let ll = significant-bounds r.length in
    let dd = significant-bounds (sub64 r.lcn prev) in
    elim (Bool-cases (stores_lcn major r)) [
      | inl s ↦ rw s ((omega (arith, ll, dd, length-append bs ds)), ground (arith, ll))
      | inr s ↦ rw s ((omega (arith, ll, length-append bs [])), ground (arith, ll))
    ]

next_lcn-IsLcn :
    (major prev : ℕ) (r : Run) → IsLcn prev → IsLcn r.lcn → IsLcn (next_lcn major prev r)
next_lcn-IsLcn major prev r p l = elim (Bool-cases (stores_lcn major r)) [
  | inl s ↦ rw s l
  | inr s ↦ rw s p
]

-- The elements before the terminator.
abbrev pub runs_of : List Run → List Run
runs_of [] = []
runs_of (r ∷ rl) = let rest = runs_of rl in if r.length == 0 then [] else r ∷ rest

unpack_step :
    (fuel left vcn lcn h n : ℕ) (mem mem' : List ℕ) (r : Run) (next : ℕ) (rl : List Run) (v l : ℕ)
    → 0 < left
    → get_elem? mem 0 ≡ some h
    → (h == 0) ≡ false
    → decode_pair mem left h vcn lcn ≡ some (some (r, next))
    → h % 2 ^ 4 + h / 2 ^ 4 % 2 ^ 4 + 1 ≡ n
    → drop n mem ≡ mem'
    → unpack_loop fuel mem' (left - n) (add64 vcn r.length) next ≡ some (some (rl, v, l))
    → unpack_loop (suc fuel) mem left vcn lcn ≡ some (some (r ∷ rl, v, l))
unfolding unpack_loop
unpack_step fuel left vcn lcn h n mem mem' r next rl v l pos e1 e2 e3 e4 e5 e6 =
    let some_left : (left == 0) ≡ false = ground (arith, pos) in
    rw (some_left, e1, e2, e3, e4, e5, e6)

pub Mapped-lt : (v : ℕ) (rl : List Run) → Mapped v rl → v < 2 ^ 63
Mapped-lt v [] m = absurd m
Mapped-lt v (r ∷ rl) m = m.1.0

unpack_stop :
    (fuel left v lcn : ℕ) (rest : List ℕ)
    → 0 < left
    → unpack_loop (suc fuel) (0 ∷ rest) left v lcn ≡ some (some ([], v, left))
unfolding unpack_loop
unpack_stop fuel left v lcn rest pos =
    let some_left : (left == 0) ≡ false = ground (arith, pos) in rw some_left

-- Unpacking the array of a mapped runlist gives its runs back, and stops at the terminator.
pub unpack_loop-runs_bytes :
    (major v prev fuel left : ℕ) (rl : List Run) (rest : List ℕ)
    → Mapped v rl
    → IsLcn prev
    → length (runs_bytes major prev rl) ≤ left
    → length (runs_bytes major prev rl) ≤ fuel
    → unpack_loop fuel (runs_bytes major prev rl ++ rest) left v prev
      ≡ some (some (runs_of rl, end_vcn rl, suc left - length (runs_bytes major prev rl)))
unfolding runs_bytes end_vcn
unpack_loop-runs_bytes major v prev zero left rl rest m p fits enough =
    absurd (omega (arith, enough, runs_bytes-pos major prev v rl m))
unpack_loop-runs_bytes major v prev (suc fuel) left [] rest m p fits enough = absurd m
unpack_loop-runs_bytes major v prev (suc fuel) left (r ∷ rl) rest (at, (small, inl e)) p fits
      enough =
    let q : (r.length == 0) ≡ true = ground (arith, e) in
    let one : length (runs_bytes major prev (r ∷ rl)) ≡ 1 = rw q in
    let minus : suc left - 1 ≡ left = omega arith in
    rw (q, at, minus) (unpack_stop fuel left v prev rest (omega (arith, fits, one)))
unpack_loop-runs_bytes major v prev (suc fuel) left (r ∷ rl) rest
      (at, (small, inr (pos, (h, (l, m))))) p fits enough =
    let pair = pair_bytes major prev r in
    let next = next_lcn major prev r in
    let tail = runs_bytes major next rl in
    let good = (good_run r pos h l).0 in
    let parts : length (runs_bytes major prev (r ∷ rl)) ≡ length pair + length tail =
      rw good (length-append pair tail) in
    let step = pair_step major prev r in
    let mem = append_assoc pair tail rest in
    let count : suc left - length (pair ++ tail) ≡ suc (left - length pair) - length tail =
      omega (arith, length-append pair tail) in
    let ih =
      unpack_loop-runs_bytes major (v + r.length) next fuel (left - length pair) rl rest m
        (next_lcn-IsLcn major prev r p l) (omega (arith, parts, fits))
        (omega (arith, parts, enough, step.0)) in
    let at_v : add64 v r.length ≡ v + r.length = omega (arith, Mapped-lt (v + r.length) rl m) in
    rw (good, mem, count)
      (unpack_step fuel left v prev (header major prev r) (length pair) (pair ++ (tail ++ rest))
        (tail ++ rest) r next (runs_of rl) (end_vcn rl) (suc (left - length pair) - length tail)
        (omega (arith, parts, fits, step.0)) (pair_head major prev r (tail ++ rest)) (step.1)
        (ap (λ k. decode_pair (pair ++ (tail ++ rest)) left (header major prev r) k prev) (sym at)
          ∙ decode_pair_lem major prev left r (tail ++ rest) p h l (omega (arith, parts, fits)))
        (step.0) (drop-append (length pair) pair (tail ++ rest) refl)
        (ap (λ k. unpack_loop fuel (tail ++ rest) (left - length pair) k next) at_v ∙ ih))
