-- ===== src/Backup/Compare/Exact.antt =====
-- The comparison always ends, and it says that files are equal only if they are.
use Prim.Native.Nat.{◌≤◌, ◌<◌}
use onix_core.Base.{
  ℕ, zero, suc, ◌+◌, Bool, true, false, Option, some, [], ◌∷◌, ◌++◌, nat_eq, ltb, ◌≡◌, refl, sym,
  ap, ap₂, ◌∙◌, inl, inr, length, take, drop, arith, Bool-cases, eq_of_not-ne, ◌!=◌, list_eq, ℕ-eq,
  if◌then◌else◌, not-ne_of_eq, subst, ◌↔◌,
}
use onix_core.Base.Text.{Text}
use onix_core.Backup.Compare.{compare_buffer_bytes, Reader, compare_rounds, files_equal}

-- What `read` promises: at most the buffer and the bytes left, and nothing only at the end.
pub record IsReader (reader : Reader) : Type 0 where
  pub within : (round : ℕ) (s : Text) → reader round s ≤ length s
  pub buffered : (round : ℕ) (s : Text) → reader round s ≤ compare_buffer_bytes
  pub progress : (round c : ℕ) (s : Text) → 1 ≤ reader round (c ∷ s)

-- A reader that fills the buffer while there are bytes left.
abbrev pub full : Reader
full round s = if ltb (length s) compare_buffer_bytes then length s else compare_buffer_bytes

pub full-IsReader : IsReader full
full-IsReader = record {
  within = λ round s. ground arith;
  buffered = λ round s. ground arith;
  progress = λ round c s. ground arith;
}

take-drop : (n : ℕ) (s : Text) → take n s ++ drop n s ≡ s
take-drop zero s = refl
take-drop (suc n) [] = refl
take-drop (suc n) (c ∷ s) = ap (λ r. c ∷ r) (take-drop n s)

length-drop : (n : ℕ) (s : Text) → n ≤ length s → length (drop n s) + n ≡ length s
length-drop zero s h = omega arith
length-drop (suc n) [] h = absurd (omega arith)
length-drop (suc n) (c ∷ s) h = let rest = length-drop n s (omega arith) in omega arith

no_reader :
    (reader : Reader) → IsReader reader → (round : ℕ) (s : Text) → reader round s ≡ 0 → s ≡ []
no_reader reader i round [] h = refl
no_reader reader i round (c ∷ s) h = let p = i.progress round c s in absurd (omega arith)

abbrev Answers : Option Bool → Text → Text → Type 0
Answers answer left right = (b : Bool) × (answer ≡ some b) × (b ≡ true → left ≡ right)

module _ (left_reader right_reader : Reader) (l : IsReader left_reader)
    (r : IsReader right_reader) where
  compare_rounds-Answers :
      (fuel round : ℕ) (left right : Text)
      → length left < fuel
      → Answers (compare_rounds left_reader right_reader fuel round left right) left right
  unfolding compare_rounds
  compare_rounds-Answers zero round left right h = absurd (omega arith)
  compare_rounds-Answers (suc fuel) round left right h =
      let left_count = left_reader round left in
      let right_count = right_reader round right in
      let in_left = l.within round left in
      let in_right = r.within round right in
      elim (Bool-cases (nat_eq left_count right_count)) [
        | inr other ↦ rw other (false, refl, λ e. cc)
        | inl same ↦ elim (Bool-cases (nat_eq left_count 0)) [
          | inl ended ↦
              rw (same, ended)
                (
                  true,
                  refl,
                  λ e.
                      no_reader left_reader l round left (ground arith)
                      ∙ sym (no_reader right_reader r round right (ground arith)),
                )
          | inr going ↦ elim (Bool-cases (take left_count left != take right_count right)) [
            | inl differ ↦ rw (same, going, differ) (false, refl, λ e. cc)
            | inr agree ↦
                let shorter = length-drop left_count left in_left in
                let below : length (drop left_count left) < fuel = ground arith in
                let (b, answer, sound) =
                  compare_rounds-Answers fuel (round + 1) (drop left_count left)
                    (drop right_count right) below in
                rw (same, going, agree)
                  (
                    b,
                    answer,
                    λ e.
                        sym (take-drop left_count left)
                        ∙ (ap₂ (λ p q. p ++ q) (eq_of_not-ne agree) (sound e)
                            ∙ take-drop right_count right),
                  )
          ]
        ]
      ]

  -- For every pair of readers `files_equal` returns an answer, and if it is true the files hold the
  -- same bytes.
  pub files_equal_sound :
      (left right : Text)
      → (b : Bool) × (files_equal left_reader right_reader left right ≡ some b)
        × (b ≡ true → left ≡ right)
  unfolding files_equal
  files_equal_sound left right = compare_rounds-Answers (length left + 1) 0 left right (omega arith)

compare_rounds_self :
    (reader : Reader)
    → IsReader reader
    → (fuel round : ℕ) (s : Text) → length s < fuel
    → compare_rounds reader reader fuel round s s ≡ some true
unfolding compare_rounds
compare_rounds_self reader i zero round s h = absurd (omega arith)
compare_rounds_self reader i (suc fuel) round s h =
    let count = reader round s in
    let same : nat_eq count count ≡ true = ground arith in
    elim (Bool-cases (nat_eq count 0)) [
      | inl ended ↦ rw (same, ended) refl
      | inr going ↦
          let shorter = length-drop count s (i.within round s) in
          rw (same, going, not-ne_of_eq {a = take count s} refl)
            (compare_rounds_self reader i fuel (round + 1) (drop count s) (ground arith))
    ]

-- Where both files are read in the same portions, `files_equal` says true exactly if they hold the
-- same bytes.
pub files_equal_iff :
    (reader : Reader)
    → IsReader reader
    → (left right : Text) → (files_equal reader reader left right ≡ some true) ↔ (left ≡ right)
unfolding files_equal
files_equal_iff reader i left right =
    let (b, answer, sound) = files_equal_sound reader reader i i left right in
    (
      λ h. sound (ground arith),
      λ e.
          subst (λ t. compare_rounds reader reader (length left + 1) 0 left t ≡ some true) e
            (compare_rounds_self reader i (length left + 1) 0 left (omega arith)),
    )
