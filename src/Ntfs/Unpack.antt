-- ===== src/Ntfs/Unpack.antt =====
-- ntfs_mapping_pairs_decompress_i of filesys/ntfs/runlist.c: from the mapping pairs array of an
-- attribute to a runlist, without an old runlist to merge with. `mem` is the memory from the
-- attribute record on, and `left` how many bytes attr_end lies ahead of `buf`; `none` is a read past
-- the memory. Allocations succeed. Each turn of the loop takes a byte or more, so `left` + 1 turns
-- are enough, as Unpack/Total shows. The index rlpos of the runlist's array is a u16: `entered` is what
-- stands below it.
pub mod Entered
pub mod Total
pub mod Round
pub mod Whole
mod Tests
use rohos_disk_browser.Prelude.{
  ℕ, zero, suc, ◌+◌, ◌-◌, ◌*◌, ◌/◌, ◌%◌, ◌^◌, List, [], ◌∷◌, ◌++◌, Option, none, some, Bool, true,
  false, not, ◌&&◌, ◌||◌, if◌then◌else◌, ltb, ◌==◌, ◌>>=◌, length, get_elem?, drop, ◌⊎◌, inl, inr,
}
use rohos_disk_browser.Crypto.Bytes.{read}
use rohos_disk_browser.Ntfs.Number.{negative, read_number}
use rohos_disk_browser.Ntfs.Runs.{Run, lcn_hole, lcn_rl_not_mapped, lcn_enoent, slt, add64, sub64}

-- What the function reads of the attribute record and of the volume.
pub record Attribute : Type 0 where
  pub non_resident : Bool
  pub lowest_vcn : ℕ
  pub highest_vcn : ℕ
  pub allocated_size : ℕ
  pub pairs_offset : ℕ
  pub attr_length : ℕ

pub record Volume : Type 0 where
  pub cluster_size : ℕ
  pub cluster_size_bits : ℕ

pub data UnpackError : Type 0 where
  bad_argument : UnpackError
  io_error : UnpackError

-- A number of `n` bytes at buf[1 + skip]: the check against attr_end, then the read.
unfoldable pub number_at : List ℕ → ℕ → ℕ → ℕ → Option (Option ℕ)
number_at mem left skip n =
    if ltb left (skip + n)
    then some none
    else (read n (drop (suc skip) mem) >>= λ bs. some (some (read_number bs)))

-- The run length: -1 where the entry is missing.
unfoldable pub length_entry : List ℕ → ℕ → ℕ → Option (Option ℕ)
unfolding number_at
length_entry mem left h =
    if h % 2 ^ 4 == 0 then some (some (2 ^ 64 - 1)) else number_at mem left 0 (h % 2 ^ 4)

-- The lcn of the run and the lcn kept for the next one.
unfoldable pub lcn_entry : List ℕ → ℕ → ℕ → ℕ → Option (Option (ℕ × ℕ))
unfolding number_at
lcn_entry mem left h lcn =
    if h / 2 ^ 4 % 2 ^ 4 == 0
    then some (some (lcn_hole, lcn))
    else (number_at mem left (h % 2 ^ 4) (h / 2 ^ 4 % 2 ^ 4) >>= λ d. elim d [
      | none ↦ some none
      | some delta ↦
          if slt (add64 lcn delta) lcn_hole
          then some none
          else some (some (add64 lcn delta, add64 lcn delta))
    ])

-- One mapping pair: the run and the next lcn, `some none` where it is corrupt.
unfoldable pub decode_pair : List ℕ → ℕ → ℕ → ℕ → ℕ → Option (Option (Run × ℕ))
unfolding length_entry lcn_entry
decode_pair mem left h vcn lcn = length_entry mem left h >>= λ l. elim l [
  | none ↦ some none
  | some delta ↦
      if negative delta
      then some none
      else (lcn_entry mem left h lcn >>= λ e. elim e [
        | none ↦ some none
        | some ls ↦ some (some (record { vcn = vcn; lcn = ls.0; length = delta }, ls.1))
      ])
]

-- The runs entered, the vcn behind them and what is left at the end of the loop; `some none` is EIO.
unfoldable pub unpack_loop : ℕ → List ℕ → ℕ → ℕ → ℕ → Option (Option (List Run × ℕ × ℕ))
unfolding decode_pair
unpack_loop zero mem left vcn lcn = none
unpack_loop (suc fuel) mem left vcn lcn =
    if left == 0
    then some (some ([], vcn, 0))
    else (get_elem? mem 0 >>= λ h.
        if h == 0
        then some (some ([], vcn, left))
        else (decode_pair mem left h vcn lcn >>= λ p. elim p [
          | none ↦ some none
          | some rn ↦
              let step = h % 2 ^ 4 + h / 2 ^ 4 % 2 ^ 4 + 1 in
              unpack_loop fuel (drop step mem) (left - step) (add64 vcn (Run.length (rn.0))) (rn.1)
              >>= λ rest. elim rest [
                | none ↦ some none
                | some rs ↦ some (some (rn.0 ∷ rs.0, rs.1, rs.2))
              ]
        ]))

-- `v >> k` on s64.
abbrev pub sar_bits : ℕ → ℕ → ℕ
sar_bits v k = if negative v then 2 ^ 64 - 1 - (2 ^ 64 - 1 - v) / 2 ^ k else v / 2 ^ k

-- The element at the end of a runlist.
abbrev pub end_at : ℕ → ℕ → Run
end_at v e = record { vcn = v; lcn = e; length = 0 }

abbrev pub max_cluster : Volume → Attribute → ℕ
max_cluster vol attr =
    sub64 (sar_bits (sub64 (add64 attr.allocated_size vol.cluster_size) 1) vol.cluster_size_bits) 1

-- What the runlist is closed by: a part that is mapped by other extents, and the terminator.
unfoldable pub closing : Volume → Attribute → ℕ → Option (List Run)
closing vol attr vcn =
    let deltaxcn = attr.highest_vcn in
    let last = max_cluster vol attr in
    if not (deltaxcn == 0) && not (sub64 vcn 1 == deltaxcn)
    then none
    else (if not (attr.lowest_vcn == 0)
        then some (end_at vcn lcn_rl_not_mapped ∷ [])
        else (if deltaxcn == 0
            then some (end_at vcn lcn_enoent ∷ [])
            else (if slt deltaxcn last
                then some (
                    record { vcn = vcn; lcn = lcn_rl_not_mapped; length = sub64 last deltaxcn }
                    ∷ end_at (add64 vcn (sub64 last deltaxcn)) lcn_enoent
                    ∷ [])
                else (if slt last deltaxcn then none else some (end_at vcn lcn_enoent ∷ [])))))

-- The element for the clusters before the attribute's first one.
abbrev pub opening : ℕ → List Run
opening vcn =
    if vcn == 0 then [] else record { vcn = 0; lcn = lcn_rl_not_mapped; length = vcn } ∷ []

-- `rl[rlpos] = r; rlpos++` on a u16, of the elements below rlpos: none are left where it wraps to 0.
abbrev pub advance : List Run → Run → List Run
advance rl r = if length rl == 65535 then [] else rl ++ (r ∷ [])

-- The runlist that the elements make, entered one after the other into rl[rlpos]. The last one is the
-- terminator, behind which rlpos stays.
unfoldable pub entered : List Run → List Run → List Run
entered rl [] = rl
entered rl (r ∷ []) = rl ++ (r ∷ [])
entered rl (r ∷ s ∷ rs) = entered (advance rl r) (s ∷ rs)

abbrev pub finish : Volume → Attribute → Option (List Run × ℕ × ℕ) → UnpackError ⊎ List Run
finish vol attr none = inl io_error
finish vol attr (some (rl, vcn, left)) =
    if left == 0 then inl io_error else elim (closing vol attr vcn) [
      | none ↦ inl io_error
      | some end ↦ inr (entered [] (opening attr.lowest_vcn ++ (rl ++ end)))
    ]

unfoldable pub mapping_pairs_decompress :
    Volume → Attribute → List ℕ → Option (UnpackError ⊎ List Run)
mapping_pairs_decompress vol attr mem =
    let left = attr.attr_length - attr.pairs_offset in
    if not attr.non_resident || negative attr.lowest_vcn
    then some (inl bad_argument)
    else (if ltb attr.attr_length attr.pairs_offset
        then some (inl io_error)
        else (unpack_loop (suc left) (drop attr.pairs_offset mem) left attr.lowest_vcn 0 >>= λ r.
            some (finish vol attr r)))
