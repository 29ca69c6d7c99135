-- ===== src/Ntfs/Unpack/Total.antt =====
-- runlist.c: ntfs_mapping_pairs_decompress_i ends on every array. Its loop reads one byte behind the end
-- of the attribute at most, which the memory must have.
use rohos_disk_browser.Prelude.{
  [], ◌∷◌, ℕ, zero, suc, ◌+◌, ◌-◌, ◌/◌, ◌%◌, ◌^◌, ◌≤◌, ◌<◌, ◌≡◌, ◌⊎◌, inl, inr, refl, Bool, true,
  false, not, ◌||◌, ◌==◌, ltb, if◌then◌else◌, Bool-cases, Option, none, some, ◌>>=◌, List, length,
  length-drop, drop, take, arith,
}
use rohos_disk_browser.Prelude.Store.{get_elem?_in}
use rohos_disk_browser.Crypto.Bytes.{read_lem}
use rohos_disk_browser.Ntfs.Number.{negative, read_number}
use rohos_disk_browser.Ntfs.Runs.{Run, lcn_hole, slt, add64}
use rohos_disk_browser.Ntfs.Unpack.{
  Attribute, Volume, UnpackError, bad_argument, io_error, number_at, length_entry, lcn_entry,
  decode_pair, unpack_loop, finish, mapping_pairs_decompress,
}

-- A result is there.
abbrev HasResult {ℓ} : {A : Type ℓ} → Option A → Type ℓ
HasResult {A = A} o = (a : A) × (o ≡ some a)

-- A chain returns where its parts do, with `some none` for what is found to be corrupt.
chain_returns {ℓ κ} :
    {A : Type ℓ} {B : Type κ} (o : Option (Option A)) (f : A → Option (Option B))
    → HasResult o
    → ((a : A) → HasResult (f a))
    → HasResult (o >>= λ x. elim x [ none ↦ some none | some a ↦ f a ])
chain_returns none f (a, e) h = absurd (ground (arith, e))
chain_returns (some none) f r h = (none, refl)
chain_returns (some (some a)) f r h = h a

number_returns :
    (mem : List ℕ) (left at n : ℕ) → left < length mem → HasResult (number_at mem left at n)
unfolding number_at
number_returns mem left at n more = elim (Bool-cases (ltb left (at + n))) [
  | inl over ↦ (none, rw over)
  | inr inside ↦
      let there : n ≤ length (drop (suc at) mem) =
        ground (arith, inside, length-drop (suc at) mem) in
      (
        some (read_number (take n (drop (suc at) mem))),
        rw (inside, read_lem n (drop (suc at) mem) there),
      )
]

if_returns {ℓ} :
    {A : Type ℓ} (b : Bool) (x y : Option A)
    → HasResult x
    → HasResult y
    → HasResult (if b then x else y)
if_returns true x y p q = p
if_returns false x y p q = q

length_returns :
    (mem : List ℕ) (left h : ℕ) → left < length mem → HasResult (length_entry mem left h)
unfolding length_entry
length_returns mem left h more =
    if_returns (h % 2 ^ 4 == 0) _ _ (some (2 ^ 64 - 1), refl)
      (number_returns mem left 0 (h % 2 ^ 4) more)

lcn_returns :
    (mem : List ℕ) (left h lcn : ℕ) → left < length mem → HasResult (lcn_entry mem left h lcn)
unfolding lcn_entry
lcn_returns mem left h lcn more =
    if_returns (h / 2 ^ 4 % 2 ^ 4 == 0) _ _ (some (lcn_hole, lcn), refl)
      (chain_returns (number_at mem left (h % 2 ^ 4) (h / 2 ^ 4 % 2 ^ 4)) _
        (number_returns mem left (h % 2 ^ 4) (h / 2 ^ 4 % 2 ^ 4) more)
        (λ delta.
          if_returns (slt (add64 lcn delta) lcn_hole) _ _ (none, refl)
            (some (add64 lcn delta, add64 lcn delta), refl)))

pair_returns :
    (mem : List ℕ) (left h vcn lcn : ℕ)
    → left < length mem
    → HasResult (decode_pair mem left h vcn lcn)
unfolding decode_pair
pair_returns mem left h vcn lcn more =
    chain_returns (length_entry mem left h) _ (length_returns mem left h more) (λ delta.
      if_returns (negative delta) _ _ (none, refl)
        (chain_returns (lcn_entry mem left h lcn) _ (lcn_returns mem left h lcn more)
          (λ ls. (some (record { vcn = vcn; lcn = ls.0; length = delta }, ls.1), refl))))

-- What is left behind a mapping pair is in the memory, or nothing is left.
left_over :
    (mem : List ℕ) (left step : ℕ)
    → left < length mem
    → (left - step ≡ 0) ⊎ (left - step < length (drop step mem))
left_over mem left step more = ground (arith, length-drop step mem)

unpack_returns :
    (fuel : ℕ) (mem : List ℕ) (left vcn lcn : ℕ)
    → left < fuel
    → (left ≡ 0) ⊎ (left < length mem)
    → HasResult (unpack_loop fuel mem left vcn lcn)
unfolding unpack_loop
unpack_returns zero mem left vcn lcn enough more = absurd (omega arith)
unpack_returns (suc fuel) mem left vcn lcn enough (inl e) =
    let q : (left == 0) ≡ true = ground arith in (some ([], vcn, 0), rw q)
unpack_returns (suc fuel) mem left vcn lcn enough (inr more) = elim (Bool-cases (left == 0)) [
  | inl q ↦ (some ([], vcn, 0), rw q)
  | inr q ↦
      let some_left : 0 < left = ground (arith, q) in
      let (h, e) = get_elem?_in mem 0 (omega arith) in
      let step = h % 2 ^ 4 + h / 2 ^ 4 % 2 ^ 4 + 1 in
      rw (q, e)
        (if_returns (h == 0) _ _ (some ([], vcn, left), refl)
          (chain_returns (decode_pair mem left h vcn lcn) _ (pair_returns mem left h vcn lcn more)
            (λ rn.
              chain_returns
                (unpack_loop fuel (drop step mem) (left - step) (add64 vcn (Run.length (rn.0)))
                  (rn.1))
                _
                (unpack_returns fuel (drop step mem) (left - step) (add64 vcn (Run.length (rn.0)))
                  (rn.1) (omega (arith, some_left)) (left_over mem left step more))
                (λ rs. (some (rn.0 ∷ rs.0, rs.1, rs.2), refl)))))
]

-- Where the memory from the attribute record on is longer than the attribute, the decompression returns
-- whatever the bytes are: its loop ends within a turn for each byte of the array and one more, and no
-- read leaves the memory.
pub mapping_pairs_decompress-returns :
    (vol : Volume) (attr : Attribute) (mem : List ℕ)
    → attr.attr_length < length mem
    → (r : UnpackError ⊎ List Run) × (mapping_pairs_decompress vol attr mem ≡ some r)
unfolding mapping_pairs_decompress
mapping_pairs_decompress-returns vol attr mem more =
    let left = attr.attr_length - attr.pairs_offset in
    if_returns (not attr.non_resident || negative attr.lowest_vcn) _ _ (inl bad_argument, refl)
      (elim (Bool-cases (ltb attr.attr_length attr.pairs_offset)) [
        | inl outside ↦ (inl io_error, rw outside)
        | inr inside ↦
            let (r, e) =
              unpack_returns (suc left) (drop attr.pairs_offset mem) left attr.lowest_vcn 0
                (omega arith) (inr (ground (arith, length-drop attr.pairs_offset mem, inside))) in
            (finish vol attr r, rw (inside, e))
      ])
