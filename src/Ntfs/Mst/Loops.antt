-- ===== src/Ntfs/Mst/Loops.antt =====
-- The loops of mst.c, word by word: which words they change, and what stands there afterwards.
use rohos_disk_browser.Prelude.{
  ℕ, zero, suc, ◌+◌, ◌*◌, ◌≤◌, ◌<◌, ◌≡◌, ◌≢◌, refl, sym, ap, ◌∙◌, ◌⊎◌, inl, inr, List, some, true,
  false, ◌==◌, ==_iff, Bool-cases, length, get_elem?, set, arith,
}
use rohos_disk_browser.Prelude.Store.{
  store_lem, length-set, get_elem?-set, get_elem?-set_other, get_elem?_in,
}
use rohos_disk_browser.Ntfs.Mst.{check_loop, restore_loop, protect_loop}

-- Word `i` is none of the last words of `n` blocks from `d` on.
abbrev pub Unprotected : ℕ → ℕ → ℕ → Type 0
Unprotected n d i = (k : ℕ) → k < n → i ≢ d + 256 * k

-- Word `i` is not among the saved words, the `n` after the number at `u`.
abbrev pub Unsaved : ℕ → ℕ → ℕ → Type 0
Unsaved n u i = (i ≤ u) ⊎ (u + n < i)

pub protected-cases : (n d i : ℕ) → ((k : ℕ) × ((k < n) × (i ≡ d + 256 * k))) ⊎ Unprotected n d i
protected-cases zero d i = inr (λ k h. absurd (omega arith))
protected-cases (suc n) d i = elim (protected-cases n d i) [
  | inl (k, (h, e)) ↦ inl (k, (omega arith, e))
  | inr f ↦ elim (Bool-cases (i == d + 256 * n)) [
    | inl e ↦ inl (n, (omega arith, (==_iff i (d + 256 * n)).0 e))
    | inr e ↦ inr (λ k h q. elim (Bool-cases (k == n)) [
      | inl kn ↦ ground (arith, kn, q, e)
      | inr kn ↦ f k (ground (arith, kn, h)) q
    ])
  ]
]

-- The last block lies inside the memory.
abbrev pub Fits : ℕ → ℕ → List ℕ → Type 0
Fits n d b = d + 256 * n < length b + 256

pub check_loop-whole :
    (n d usn : ℕ) (b : List ℕ)
    → ((k : ℕ) → k < n → get_elem? b (d + 256 * k) ≡ some usn)
    → check_loop n d usn b ≡ some true
unfolding check_loop
check_loop-whole zero d usn b all = refl
check_loop-whole (suc n) d usn b all =
    let first : get_elem? b d ≡ some usn = ap (get_elem? b) (omega arith) ∙ all 0 (omega arith) in
    let same : (usn == usn) ≡ true = (==_iff usn usn).1 refl in
    let rest =
      check_loop-whole n (d + 256) usn b
        (λ k h. ap (get_elem? b) (omega arith) ∙ all (suc k) (omega arith)) in
    rw (first, same, rest)

pub check_loop-torn :
    (n d usn : ℕ) (b : List ℕ) (k w : ℕ)
    → Fits n d b
    → k < n
    → get_elem? b (d + 256 * k) ≡ some w
    → w ≢ usn
    → check_loop n d usn b ≡ some false
unfolding check_loop
check_loop-torn zero d usn b k w fits h at ne = absurd (omega arith)
check_loop-torn (suc n) d usn b zero w fits h at ne =
    let here : get_elem? b d ≡ some w = ap (get_elem? b) (omega arith) ∙ at in
    let differ : (w == usn) ≡ false = ground (arith, ne) in rw (here, differ)
check_loop-torn (suc n) d usn b (suc k) w fits h at ne =
    let (v, here) = get_elem?_in b d (omega (arith, fits)) in
    let rest =
      check_loop-torn n (d + 256) usn b k w (omega (arith, fits)) (omega (arith, h))
        (ap (get_elem? b) (omega arith) ∙ at) ne in
    elim (Bool-cases (v == usn)) [ inl q ↦ rw (here, q, rest) | inr q ↦ rw (here, q) ]

-- What `restore_loop` leaves: each protected word has its saved value again, no other changes.
abbrev pub Restored : ℕ → ℕ → ℕ → List ℕ → List ℕ → Type 0
Restored n u d b b' =
    (length b' ≡ length b)
    × (((k : ℕ) → k < n → get_elem? b' (d + 256 * k) ≡ get_elem? b (suc u + k))
        × ((i : ℕ) → Unprotected n d i → get_elem? b' i ≡ get_elem? b i))

-- A statement for every block below `suc n`, from the first block and the later ones.
from_first :
    (n : ℕ) (P : ℕ → Type 0) → P 0 → ((k : ℕ) → k < n → P (suc k)) → (k : ℕ) → k < suc n → P k
from_first n P first later zero h = first
from_first n P first later (suc k) h = later k (omega (arith, h))

later-Unprotected : (n d i : ℕ) → Unprotected (suc n) d i → Unprotected n (d + 256) i
later-Unprotected n d i f k h e = f (suc k) (omega (arith, h)) (omega (arith, e))

first-Unprotected : (n d i : ℕ) → Unprotected (suc n) d i → d ≢ i
first-Unprotected n d i f e = f 0 (omega arith) (omega (arith, e))

pub before-Unprotected : (n d i : ℕ) → i < d → Unprotected n d i
before-Unprotected n d i h k lt e = omega (arith, h, e)

pub restore_loop_lem :
    (n u d : ℕ) (b : List ℕ)
    → Fits n d b
    → u + n < d
    → (b' : List ℕ) × ((restore_loop n u d b ≡ some b') × Restored n u d b b')
unfolding restore_loop
restore_loop_lem zero u d b fits h =
    (b, (refl, (refl, ((λ k lt. absurd (omega arith)), (λ i f. refl)))))
restore_loop_lem (suc n) u d b fits h =
    let (w, saved) = get_elem?_in b (suc u) (omega (arith, fits, h)) in
    let at_d : d < length b = omega (arith, fits) in
    let b1 = set b d w in
    let size1 : length b1 ≡ length b = length-set b d w in
    let (b', (run, (size, (back, others)))) =
      restore_loop_lem n (suc u) (d + 256) b1 (omega (arith, fits, size1)) (omega (arith, h)) in
    (
      b',
      (
        rw (saved, store_lem b d w at_d, run),
        (
          size ∙ size1,
          (
            from_first n (λ k. get_elem? b' (d + 256 * k) ≡ get_elem? b (suc u + k))
                (ap (get_elem? b') (omega arith)
                  ∙ others d (before-Unprotected n (d + 256) d (omega arith))
                  ∙ get_elem?-set b d w at_d
                  ∙ sym saved
                  ∙ ap (get_elem? b) (omega arith))
                (λ k lt.
                  ap (get_elem? b') (omega arith)
                  ∙ back k lt
                  ∙ get_elem?-set_other b d (suc (suc u) + k) w (λ e. omega (arith, h, lt, e))
                  ∙ ap (get_elem? b) (omega arith)),
            (λ i f.
                others i (later-Unprotected n d i f)
                ∙ get_elem?-set_other b d i w (first-Unprotected n d i f)),
          ),
        ),
      ),
    )

-- What `protect_loop` leaves: the values saved, the number in their place, no other change.
abbrev pub Protected : ℕ → ℕ → ℕ → ℕ → List ℕ → List ℕ → Type 0
Protected n u d usn b b' =
    (length b' ≡ length b)
    × (((k : ℕ) → k < n → get_elem? b' (suc u + k) ≡ get_elem? b (d + 256 * k))
        × (((k : ℕ) → k < n → get_elem? b' (d + 256 * k) ≡ some usn)
            × ((i : ℕ) → Unsaved n u i → Unprotected n d i → get_elem? b' i ≡ get_elem? b i)))

later-Unsaved : (n u i : ℕ) → Unsaved (suc n) u i → Unsaved n (suc u) i
later-Unsaved n u i (inl h) = inl (omega (arith, h))
later-Unsaved n u i (inr h) = inr (omega (arith, h))

first-Unsaved : (n u i : ℕ) → Unsaved (suc n) u i → suc u ≢ i
first-Unsaved n u i (inl h) e = omega (arith, h, e)
first-Unsaved n u i (inr h) e = omega (arith, h, e)

pub protect_loop_lem :
    (n u d usn : ℕ) (b : List ℕ)
    → Fits n d b
    → u + n < d
    → (b' : List ℕ) × ((protect_loop n u d usn b ≡ some b') × Protected n u d usn b b')
unfolding protect_loop
protect_loop_lem zero u d usn b fits h = (
  b,
  (
    refl,
    (refl, ((λ k lt. absurd (omega arith)), ((λ k lt. absurd (omega arith)), (λ i s f. refl)))),
  ),
)
protect_loop_lem (suc n) u d usn b fits h =
    let (w, here) = get_elem?_in b d (omega (arith, fits)) in
    let b1 = set b (suc u) w in
    let size1 : length b1 ≡ length b = length-set b (suc u) w in
    let b2 = set b1 d usn in
    let size2 : length b2 ≡ length b = length-set b1 d usn ∙ size1 in
    let in1 : suc u < length b = omega (arith, fits, h) in
    let in2 : d < length b1 = omega (arith, fits, size1) in
    let (b', (run, (size, (kept, (marked, others))))) =
      protect_loop_lem n (suc u) (d + 256) usn b2 (omega (arith, fits, size2)) (omega (arith, h)) in
    let same : (i : ℕ) → suc u ≢ i → d ≢ i → get_elem? b2 i ≡ get_elem? b i =
      λ i p q. get_elem?-set_other b1 d i usn q ∙ get_elem?-set_other b (suc u) i w p in
    (
      b',
      (
        rw (here, store_lem b (suc u) w in1, store_lem b1 d usn in2, run),
        (
          size ∙ size2,
          (
            from_first n (λ k. get_elem? b' (suc u + k) ≡ get_elem? b (d + 256 * k))
                (ap (get_elem? b') (omega arith)
                  ∙ others (suc u) (inl (omega arith))
                      (before-Unprotected n (d + 256) (suc u) (omega (arith, h)))
                  ∙ get_elem?-set_other b1 d (suc u) usn (λ e. omega (arith, h, e))
                  ∙ get_elem?-set b (suc u) w in1
                  ∙ sym here
                  ∙ ap (get_elem? b) (omega arith))
                (λ k lt.
                  ap (get_elem? b') (omega arith)
                  ∙ kept k lt
                  ∙ same (d + 256 + 256 * k) (λ e. omega (arith, h, e)) (λ e. omega (arith, e))
                  ∙ ap (get_elem? b) (omega arith)),
            (
              from_first n (λ k. get_elem? b' (d + 256 * k) ≡ some usn)
                  (ap (get_elem? b') (omega arith)
                    ∙ others d (inr (omega (arith, h)))
                        (before-Unprotected n (d + 256) d (omega arith))
                    ∙ get_elem?-set b1 d usn in2)
                  (λ k lt. ap (get_elem? b') (omega arith) ∙ marked k lt),
              (λ i s f.
                  others i (later-Unsaved n u i s) (later-Unprotected n d i f)
                  ∙ same i (first-Unsaved n u i s) (first-Unprotected n d i f)),
            ),
          ),
        ),
      ),
    )
