-- ===== src/Backup/Compare.antt =====
-- `files_equal`: two files read side by side into buffers of the same size. A reader says how many
-- bytes each `read` of a file with these bytes left returns.
pub mod Exact
use onix_core.Base.{
  ℕ, zero, suc, ◌+◌, Bool, true, false, Option, none, some, not, nat_eq, length, take, drop, ◌!=◌,
  ◌==◌, list_eq, ℕ-eq, if◌then◌else◌,
}
use onix_core.Base.Text.{Text}

abbrev pub compare_buffer_bytes : ℕ
compare_buffer_bytes = 65536

-- The count of bytes that the read of this round returns.
abbrev pub Reader : Type 0
Reader = ℕ → Text → ℕ

module _ (left_reader right_reader : Reader) where
  -- The loop; none where the fuel is too little.
  unfoldable pub compare_rounds : ℕ → ℕ → Text → Text → Option Bool
  compare_rounds zero round left right = none
  compare_rounds (suc fuel) round left right =
      let left_count = left_reader round left in
      let right_count = right_reader round right in
      let rest = compare_rounds fuel (round + 1) (drop left_count left) (drop right_count right) in
      if not (nat_eq left_count right_count)
      then some false
      else if nat_eq left_count 0
      then some true
      else if take left_count left != take right_count right
      then some false
      else rest

  unfoldable pub files_equal : Text → Text → Option Bool
  unfolding compare_rounds
  files_equal left right = compare_rounds (length left + 1) 0 left right
