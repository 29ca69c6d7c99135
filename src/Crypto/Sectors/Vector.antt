-- ===== src/Crypto/Sectors/Vector.antt =====
-- The vector of a sector.
use rohos_disk_browser.Prelude.{
  ℕ, ◌/◌, ◌%◌, ◌^◌, ◌<◌, ◌≡◌, ap, ◌∙◌, sym, List, ◌++◌, length, take, drop, length-append,
  length-take, length-drop, bit_xor, drop-append, arith,
}
use rohos_disk_browser.Prelude.Bits.{xor_cancel, bit_xor-lt}
use rohos_disk_browser.Crypto.Bytes.{
  IsBytes, IsBytes-append, IsBytes-take, IsBytes-drop, le32, load32, length-le32, IsBytes-le32,
  load32-le32, load32-lt,
}
use rohos_disk_browser.Crypto.Sectors.{sector_iv}

module _ (iv : List ℕ) where
  abbrev low : ℕ → ℕ
  low s = bit_xor (s % 2 ^ 32) (load32 iv)

  abbrev high : ℕ → ℕ
  high s = bit_xor (s / 2 ^ 32 % 2 ^ 32) (load32 (drop 4 iv))

  pub length-sector_iv : (s : ℕ) → length iv ≡ 64 → length (sector_iv iv s) ≡ 16
  unfolding sector_iv
  length-sector_iv s h = omega (
    arith,
    length-append (le32 (low s)) (le32 (high s) ++ take 8 (drop 8 iv)),
    length-append (le32 (high s)) (take 8 (drop 8 iv)),
    length-le32 (low s),
    length-le32 (high s),
    length-take 8 (drop 8 iv),
    length-drop 8 iv,
  )

  pub sector_iv-IsBytes : (s : ℕ) → IsBytes iv → IsBytes (sector_iv iv s)
  unfolding sector_iv
  sector_iv-IsBytes s p =
      IsBytes-append (le32 (low s)) (le32 (high s) ++ take 8 (drop 8 iv)) (IsBytes-le32 (low s)) (
        IsBytes-append (le32 (high s)) (take 8 (drop 8 iv)) (IsBytes-le32 (high s))
          (IsBytes-take 8 (drop 8 iv) (IsBytes-drop 8 iv p)))

  low_of_vector : (s : ℕ) → IsBytes iv → bit_xor (load32 (sector_iv iv s)) (load32 iv) ≡ s % 2 ^ 32
  unfolding sector_iv
  low_of_vector s p =
      ap (λ (t : ℕ). bit_xor t (load32 iv))
        (load32-le32 (low s) (le32 (high s) ++ take 8 (drop 8 iv))
          (bit_xor-lt 32 (s % 2 ^ 32) (load32 iv) (omega arith) (load32-lt iv p)))
      ∙ xor_cancel (s % 2 ^ 32) (load32 iv)

  high_of_vector :
      (s : ℕ)
      → IsBytes iv
      → bit_xor (load32 (drop 4 (sector_iv iv s))) (load32 (drop 4 iv)) ≡ s / 2 ^ 32 % 2 ^ 32
  unfolding sector_iv
  high_of_vector s p =
      ap (λ (t : List ℕ). bit_xor (load32 t) (load32 (drop 4 iv)))
        (drop-append 4 (le32 (low s)) (le32 (high s) ++ take 8 (drop 8 iv)) (length-le32 (low s)))
      ∙ ap (λ (t : ℕ). bit_xor t (load32 (drop 4 iv)))
          (load32-le32 (high s) (take 8 (drop 8 iv)) (
            bit_xor-lt 32 (s / 2 ^ 32 % 2 ^ 32) (load32 (drop 4 iv)) (omega arith)
              (load32-lt (drop 4 iv) (IsBytes-drop 4 iv p))))
      ∙ xor_cancel (s / 2 ^ 32 % 2 ^ 32) (load32 (drop 4 iv))

  -- Two sectors with the same vector are the same sector.
  pub sector_iv-injective :
      (s t : ℕ) → IsBytes iv → s < 2 ^ 64 → t < 2 ^ 64 → sector_iv iv s ≡ sector_iv iv t → s ≡ t
  sector_iv-injective s t p hs ht e =
      let low_eq : s % 2 ^ 32 ≡ t % 2 ^ 32 =
        sym (low_of_vector s p)
        ∙ ap (λ (v : List ℕ). bit_xor (load32 v) (load32 iv)) e
        ∙ low_of_vector t p in
      let high_eq : s / 2 ^ 32 % 2 ^ 32 ≡ t / 2 ^ 32 % 2 ^ 32 =
        sym (high_of_vector s p)
        ∙ ap (λ (v : List ℕ). bit_xor (load32 (drop 4 v)) (load32 (drop 4 iv))) e
        ∙ high_of_vector t p in
      omega arith
