-- ===== src/Ntfs/Runs.antt =====
-- The runlist of filesys/ntfs/runlist.c: an array of elements, closed by one of length 0. A runlist
-- pointer is the list of the elements from it on, and `none` is an access past the end. A VCN, an
-- LCN and a length are s64, as two's complement words.
pub mod Sample
use rohos_disk_browser.Prelude.{ℕ, ◌+◌, ◌-◌, ◌%◌, ◌^◌, Bool, ltb}

pub record Run : Type 0 where
  pub vcn : ℕ
  pub lcn : ℕ
  pub length : ℕ

abbrev pub lcn_hole : ℕ
lcn_hole = 2 ^ 64 - 1

abbrev pub lcn_rl_not_mapped : ℕ
lcn_rl_not_mapped = 2 ^ 64 - 2

abbrev pub lcn_enoent : ℕ
lcn_enoent = 2 ^ 64 - 3

abbrev pub lcn_einval : ℕ
lcn_einval = 2 ^ 64 - 4

-- `a < b` on s64.
abbrev pub slt : ℕ → ℕ → Bool
slt a b = ltb ((a + 2 ^ 63) % 2 ^ 64) ((b + 2 ^ 63) % 2 ^ 64)

-- `a + b` and `a - b` on s64.
abbrev pub add64 : ℕ → ℕ → ℕ
add64 a b = (a + b) % 2 ^ 64

abbrev pub sub64 : ℕ → ℕ → ℕ
sub64 a b = (a + 2 ^ 64 - b) % 2 ^ 64
