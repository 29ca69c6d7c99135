-- ===== src/Ntfs/Number/Laws.antt =====
-- runlist.c: the bytes written for a number, their count, and reading them again.
use rohos_disk_browser.Prelude.{
  ℕ, zero, suc, ◌+◌, ◌-◌, ◌*◌, ◌%◌, ◌^◌, ◌≤◌, ◌<◌, ◌≡◌, refl, sym, ap, ◌∙◌, inl, inr, List, [], ◌∷◌,
  ◌++◌, none, some, Bool, true, false, ◌||◌, if◌then◌else◌, ltb, leb, Bool-cases, length,
  length-append, take, take_all, take-append, take-append_le, arith,
}
use rohos_disk_browser.Ntfs.Number.{
  negative, sar8, sar, is_done, needs_ones, needs_zeros, get_nr_significant_bytes, extra_byte,
  sign_byte, stored_bytes, returned, write_significant_bytes, sign_extend, read_number,
}
use rohos_disk_browser.Ntfs.Number.Spell.{
  spell, Enough, Enough-eight, Enough-zero, Enough-sar8, sar8-lt, spell_head, nr_loop_lem,
  bytes_loop_lem, join, join-spell, sar-spell, sar-negative, read_number-append,
}

-- The sign bit of the top byte, all the way up.
fill : ℕ → ℕ
fill x = if ltb x 128 then 0 else 2 ^ 64 - 1

sign_extend_lem : (x : ℕ) → x < 256 → sign_extend x ≡ (fill x * 2 ^ 8 + x) % 2 ^ 64
unfolding sign_extend fill
sign_extend_lem x h = ground (arith, h)

read_number-cons :
    (x : ℕ) (s : List ℕ) → 0 < length s → read_number (x ∷ s) ≡ (read_number s * 2 ^ 8 + x) % 2 ^ 64
unfolding read_number
read_number-cons x [] h = absurd (omega arith)
read_number-cons x (y ∷ s) h = refl

sar-pred : (n k : ℕ) → 0 < k → sar (sar8 n) (k - 1) ≡ sar n k
unfolding sar
sar-pred n zero h = absurd (omega arith)
sar-pred n (suc k) h = ap (λ i. sar (sar8 n) i) pred
  where
    pred : suc k - 1 ≡ k
    pred = omega arith

spell-pos : (fuel l : ℕ) → 0 < length (spell (suc fuel) l)
spell-pos fuel l = rw (spell_head fuel l) (omega arith)

-- The byte that the sign of a written number shows in.
abbrev pub top_byte : ℕ → List ℕ → ℕ
top_byte n bs = sar n (length bs - 1) % 2 ^ 8

read-one :
    (l : ℕ)
    → read_number (l % 2 ^ 8 ∷ []) ≡ join (fill (top_byte l (l % 2 ^ 8 ∷ []))) (l % 2 ^ 8 ∷ [])
unfolding read_number sar
read-one l = sign_extend_lem (l % 2 ^ 8) (omega arith)

read-more :
    (l : ℕ) (s : List ℕ)
    → 0 < length s
    → read_number s ≡ join (fill (top_byte (sar8 l) s)) s
    → read_number (l % 2 ^ 8 ∷ s) ≡ join (fill (top_byte l (l % 2 ^ 8 ∷ s))) (l % 2 ^ 8 ∷ s)
read-more l s pos ih =
    let same : top_byte (sar8 l) s ≡ top_byte l (l % 2 ^ 8 ∷ s) =
      ap (λ v. v % 2 ^ 8) (sar-pred l (length s) pos ∙ ap (λ i. sar l i) (pred (length s))) in
    read_number-cons (l % 2 ^ 8) s pos
    ∙ ap (λ v. (v * 2 ^ 8 + l % 2 ^ 8) % 2 ^ 64) (ih ∙ ap (λ v. join (fill v) s) same)
  where
    pred : (k : ℕ) → k ≡ suc k - 1
    pred k = omega arith

spell-one : (fuel l : ℕ) → is_done (sar8 l) ≡ true → spell (suc fuel) l ≡ l % 2 ^ 8 ∷ []
spell-one fuel l e = spell_head fuel l ∙ rw e

spell-more :
    (fuel l : ℕ) → is_done (sar8 l) ≡ false → spell (suc fuel) l ≡ l % 2 ^ 8 ∷ spell fuel (sar8 l)
spell-more fuel l e = spell_head fuel l ∙ rw e

read-spell :
    (fuel l : ℕ)
    → l < 2 ^ 64
    → Enough (suc fuel) l
    → read_number (spell (suc fuel) l)
      ≡ join (fill (top_byte l (spell (suc fuel) l))) (spell (suc fuel) l)
read-spell zero l h enough =
    rw (spell-one 0 l (Enough-zero (sar8 l) (Enough-sar8 0 l enough))) (read-one l)
read-spell (suc fuel) l h enough = elim (Bool-cases (is_done (sar8 l))) [
  | inl e ↦ rw (spell-one (suc fuel) l e) (read-one l)
  | inr e ↦ rw (spell-more (suc fuel) l e) (
      read-more l (spell (suc fuel) (sar8 l)) (spell-pos fuel (sar8 l))
        (read-spell fuel (sar8 l) (sar8-lt l h) (Enough-sar8 (suc fuel) l enough)))
]

abbrev finish : Bool → Bool → List ℕ → List ℕ
finish true z bs = bs ++ (255 ∷ [])
finish false true bs = bs ++ (0 ∷ [])
finish false false bs = bs

-- What `write_significant_bytes` writes where there is room.
unfoldable pub significant : ℕ → List ℕ
significant n =
    let bs = spell 8 n in let j = top_byte n bs in finish (needs_ones n j) (needs_zeros n j) bs

finish-length :
    (o z : Bool) (bs : List ℕ)
    → length (finish o z bs) ≡ (if o || z then suc (length bs) else length bs)
finish-length true z bs = length-append bs (255 ∷ []) ∙ omega arith
finish-length false true bs = length-append bs (0 ∷ []) ∙ omega arith
finish-length false false bs = refl

after : (m room : ℕ) → leb (m + 1) room ≡ ltb m room
after m room = ground arith

-- The byte behind the others, where they have room.
extra_byte_lem :
    (room : ℕ) (bs : List ℕ) (x : ℕ)
    → leb (length bs) room ≡ true
    → extra_byte room bs x ≡ (take room (bs ++ (x ∷ [])), leb (length (bs ++ (x ∷ []))) room)
unfolding extra_byte
extra_byte_lem room bs x h =
    let size = length-append bs (x ∷ []) in
    elim (Bool-cases (ltb (length bs) room)) [
      | inl e ↦ rw (
        size,
        after (length bs) room,
        e,
        take_all room (bs ++ (x ∷ [])) (ground (arith, e, size)),
      )
      | inr e ↦
          rw (size, after (length bs) room, e, take-append room bs (x ∷ []) (ground (arith, e, h)))
    ]

finish-write :
    (o z : Bool) (bs : List ℕ) (room : ℕ)
    → leb (length bs) room ≡ true
    → (if o then extra_byte room bs 255 else (if z then extra_byte room bs 0 else (bs, true)))
      ≡ (take room (finish o z bs), leb (length (finish o z bs)) room)
finish-write true z bs room h = extra_byte_lem room bs 255 h
finish-write false true bs room h = extra_byte_lem room bs 0 h
finish-write false false bs room h = rw (h, take_all room bs (ground (arith, h)))

finish-cut :
    (o z : Bool) (bs : List ℕ) (room : ℕ)
    → leb (length bs) room ≡ false
    → take room bs ≡ take room (finish o z bs)
finish-cut true z bs room h = sym (take-append_le room bs (255 ∷ []) (ground (arith, h)))
finish-cut false true bs room h = sym (take-append_le room bs (0 ∷ []) (ground (arith, h)))
finish-cut false false bs room h = refl

finish-long :
    (o z : Bool) (bs : List ℕ) (room : ℕ)
    → leb (length bs) room ≡ false
    → leb (length (finish o z bs)) room ≡ false
finish-long true z bs room h = ground (arith, h, length-append bs (255 ∷ []))
finish-long false true bs room h = ground (arith, h, length-append bs (0 ∷ []))
finish-long false false bs room h = h

-- The number of bytes that is computed for a number is how many are written.
pub significant-length : (n : ℕ) → length (significant n) ≡ get_nr_significant_bytes n
unfolding significant get_nr_significant_bytes
significant-length n = rw (nr_loop_lem 8 n) (finish-length _ _ (spell 8 n))

-- Whatever number is written to whatever room, the bytes that ntfs_write_significant_bytes stores are
-- the first of the number's significant bytes that have room, all of them where there is room
-- and none behind it, and it succeeds exactly where the count that ntfs_get_nr_significant_bytes
-- gives for the number is no more than the room.
pub stored_bytes_lem :
    (room n : ℕ)
    → n < 2 ^ 64
    → stored_bytes room n ≡ (take room (significant n), leb (get_nr_significant_bytes n) room)
unfolding stored_bytes sign_byte significant
stored_bytes_lem room n h =
    let loop = bytes_loop_lem 7 room n (Enough-eight n h) in
    let size = significant-length n in
    elim (Bool-cases (leb (length (spell 8 n)) room)) [
      | inl e ↦
          rw (loop, e, ← size, take_all room (spell 8 n) (ground (arith, e)))
            (finish-write _ _ (spell 8 n) room e)
      | inr e ↦
          let o = needs_ones n (top_byte n (spell 8 n)) in
          let z = needs_zeros n (top_byte n (spell 8 n)) in
          rw (loop, e, ← size, finish-long o z (spell 8 n) room e)
            (ap (λ bs. (bs, false)) (finish-cut o z (spell 8 n) room e))
    ]

returned_all :
    (room : ℕ) (bs : List ℕ) (n : ℕ)
    → length bs ≡ n
    → returned (take room bs, leb n room) ≡ (if leb n room then some bs else none)
returned_all room bs n size = elim (Bool-cases (leb n room)) [
  | inl e ↦ rw (e, take_all room bs (ground (arith, e, size)))
  | inr e ↦ rw e
]

-- A number is written when its significant bytes have room, with its bytes, and only then.
pub write_significant_bytes_lem :
    (room n : ℕ)
    → n < 2 ^ 64
    → write_significant_bytes room n
      ≡ (if leb (get_nr_significant_bytes n) room then some (significant n) else none)
unfolding write_significant_bytes
write_significant_bytes_lem room n h =
    ap returned (stored_bytes_lem room n h)
    ∙ returned_all room (significant n) (get_nr_significant_bytes n) (significant-length n)

fill_high : (j : ℕ) → ltb j 128 ≡ false → fill j ≡ 2 ^ 64 - 1
unfolding fill
fill_high j h = rw h

fill_low : (j : ℕ) → ltb j 128 ≡ true → fill j ≡ 0
unfolding fill
fill_low j h = rw h

sar-zero : (k : ℕ) → sar 0 k ≡ 0
unfolding sar sar8
sar-zero zero = refl
sar-zero (suc k) = sar-zero k

read-finish :
    (n j top : ℕ) (bs : List ℕ)
    → n < 2 ^ 64
    → join top bs ≡ n
    → read_number bs ≡ join (fill j) bs
    → is_done top ≡ true
    → negative top ≡ negative n
    → (n ≡ 0 → j ≡ 0)
    → read_number (finish (needs_ones n j) (needs_zeros n j) bs) ≡ n
unfolding sign_extend
read-finish n j top bs h joined plain ended sign zero_byte = elim (Bool-cases (negative n)) [
  | inl neg ↦
      let all_ones : top ≡ 2 ^ 64 - 1 = ground (arith, ended, sign, neg) in
      elim (Bool-cases (ltb j 128)) [
        | inl low ↦
            let ones : needs_ones n j ≡ true = rw (neg, low) in
            rw ones (read_number-append bs 255 ∙ ap (λ t. join t bs) (sym all_ones) ∙ joined)
        | inr high ↦
            let ones : needs_ones n j ≡ false = rw (neg, high) in
            let zeros : needs_zeros n j ≡ false = ground (arith, neg) in
            rw (ones, zeros)
              (plain ∙ ap (λ t. join t bs) (fill_high j high ∙ sym all_ones) ∙ joined)
      ]
  | inr pos ↦
      let all_zeros : top ≡ 0 = ground (arith, ended, sign, pos) in
      let ones : needs_ones n j ≡ false = rw pos in
      elim (Bool-cases (ltb j 128)) [
        | inl low ↦
            let zeros : needs_zeros n j ≡ false = ground (arith, low) in
            rw (ones, zeros) (plain ∙ ap (λ t. join t bs) (fill_low j low ∙ sym all_zeros) ∙ joined)
        | inr high ↦
            let zeros : needs_zeros n j ≡ true = ground (arith, high, pos, zero_byte) in
            rw (ones, zeros)
              (read_number-append bs 0 ∙ ap (λ t. join t bs) (sym all_zeros) ∙ joined)
      ]
]

-- Reading the bytes of a number gives back the number, sign included.
pub read_number-significant : (n : ℕ) → n < 2 ^ 64 → read_number (significant n) ≡ n
unfolding significant
read_number-significant n h =
    read-finish n (top_byte n (spell 8 n)) (sar n (length (spell 8 n))) (spell 8 n) h
      (join-spell 8 n h) (read-spell 7 n h (Enough-eight n h)) (sar-spell 7 n (Enough-eight n h))
      (sar-negative n (length (spell 8 n)) h)
      (λ e.
        ap (λ m. top_byte m (spell 8 n)) e
        ∙ ap (λ v. v % 2 ^ 8) (sar-zero (length (spell 8 n) - 1)))

spell_le : (fuel l : ℕ) → length (spell fuel l) ≤ fuel
unfolding spell
spell_le zero l = omega arith
spell_le (suc fuel) l = elim (Bool-cases (is_done (sar8 l))) [
  | inl e ↦ rw e (omega arith)
  | inr e ↦ rw e (omega (arith, spell_le fuel (sar8 l)))
]

-- A number has one to nine bytes, so that four bits hold how many.
pub significant-bounds : (n : ℕ) → (0 < length (significant n)) × (length (significant n) < 16)
unfolding significant
significant-bounds n =
    let size =
      finish-length (needs_ones n (top_byte n (spell 8 n))) (needs_zeros n (top_byte n (spell 8 n)))
        (spell 8 n) in
    ground (arith, size, spell_le 8 n, spell-pos 7 n)
