-- ===== src/Ntfs/Compress/Tests.antt =====
-- A block of one sub-block: the symbol 7, and a phrase that repeats it.
use rohos_disk_browser.Prelude.{
  ℕ, ◌+◌, ◌≤◌, ◌≡◌, refl, List, [], ◌∷◌, ◌++◌, some, Bool, true, length, arith,
}
use rohos_disk_browser.Ntfs.Compress.{copy_phrase, copy_bytes, decompress}
use rohos_disk_browser.Ntfs.Compress.Format.{
  symbol, repeated, SubBlock, packed, AreSubBlocks, block_bytes, block_value, groups_bytes,
  tokens_bytes, tag_of, extra_digits,
}
use rohos_disk_browser.Ntfs.Compress.Copy.{copy_phrase_lem}
use rohos_disk_browser.Ntfs.Compress.Bounds.{decompress-returns}
use rohos_disk_browser.Ntfs.Compress.Round.{decompress-block_bytes}
use rohos_disk_browser.Ntfs.Compress.Overrun.{decompress_past_end, crowded}

abbrev sevens : List SubBlock
sevens = packed ((symbol 7 ∷ repeated 1 9 ∷ []) ∷ []) ∷ []

sevens-AreSubBlocks : AreSubBlocks sevens
unfolding groups_bytes tokens_bytes extra_digits tag_of
sevens-AreSubBlocks = omega arith

sevens_bytes : block_bytes sevens ≡ 3 ∷ 176 ∷ 2 ∷ 7 ∷ 6 ∷ 0 ∷ []
unfolding block_bytes groups_bytes tokens_bytes extra_digits tag_of
sevens_bytes = refl

sevens_size : length (block_bytes sevens) ≤ 512
unfolding block_bytes groups_bytes tokens_bytes extra_digits tag_of
sevens_size = omega arith

overlapped : copy_phrase 5 1 (1 ∷ 2 ∷ 3 ∷ []) ≡ some (1 ∷ 2 ∷ 3 ∷ 2 ∷ 3 ∷ 2 ∷ 3 ∷ 2 ∷ [])
unfolding copy_phrase copy_bytes
overlapped = refl

copy_phrase_lem_example : copy_phrase 5 1 (1 ∷ 2 ∷ 3 ∷ []) ≡ copy_bytes 5 1 (1 ∷ 2 ∷ 3 ∷ [])
copy_phrase_lem_example = copy_phrase_lem 5 1 (1 ∷ 2 ∷ 3 ∷ []) (omega arith)

decompress-block_bytes_example :
    decompress 4096 512 (block_bytes sevens ++ (0 ∷ 0 ∷ [])) ≡ some (true, block_value sevens [])
decompress-block_bytes_example =
    decompress-block_bytes sevens 4096 512 [] sevens-AreSubBlocks sevens_size (omega arith)

decompress-returns_example :
    (done : Bool) × (out : List ℕ) × (decompress 4096 6 (3 ∷ 176 ∷ 2 ∷ 7 ∷ 6 ∷ 0 ∷ 0 ∷ [])
      ≡ some (done, out))
    × (length out ≤ 4096 + 1)
decompress-returns_example =
    decompress-returns 4096 6 (3 ∷ 176 ∷ 2 ∷ 7 ∷ 6 ∷ 0 ∷ 0 ∷ []) (omega arith)

decompress_past_end_example :
    (out : List ℕ) × (decompress 4096 7 (crowded 1 2 []) ≡ some (true, out)) × (length out ≡ 4097)
decompress_past_end_example = decompress_past_end 1 2 []
