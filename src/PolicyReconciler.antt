-- ===== src/PolicyReconciler.antt =====
-- `modules/radicle-node/policy-reconciler.rs`: brings the seeding policies of a Radicle node to a
-- desired set. A `BTreeSet` of texts is the list of its members in order. The `rad` program is a
-- parameter that moves a state of the node.
pub mod Sets
pub mod Converges
pub mod Plans
mod Tests
use onix_core.Base.{
  ℕ, Bool, true, false, Option, none, some, List, [], ◌∷◌, map, not, ◌&&◌, ◌||◌, leb, any, all,
  filter, is_nil, contains, ◌==◌, ◌!=◌, list_eq, ℕ-eq, if◌then◌else◌,
}
use onix_core.Base.Results.{Result, ok, err, ◌>>=◌, ◌>>◌, reject}
use onix_core.Base.Sort.{insert}
use onix_core.Base.Text.{strip_prefix, Text, codes, lines, text_lt, is_whitespace, trim_start, trim}

pub record Plan : Type 0 where
  pub remove : List Text
  pub add : List Text

pub data Error : Type 0 where
  row_before_header : Error
  invalid_repository : Text → Error
  unrecognized_table : Error
  invalid_desired : Text → Error
  duplicate_desired : Text → Error
  run_failed : List Text → Error
  list_diagnostics : Text → Error
  list_not_utf8 : Error
  reconciliation_mismatch : List Text → List Text → Error

unfoldable pub is_base58_character : ℕ → Bool
is_base58_character c =
    (leb b'1' c && leb c b'9')
    || (leb b'A' c && leb c b'H')
    || (leb b'J' c && leb c b'N')
    || (leb b'P' c && leb c b'Z')
    || (leb b'a' c && leb c b'k')
    || (leb b'm' c && leb c b'z')

unfoldable pub is_canonical_rid : Text → Bool
unfolding is_base58_character
is_canonical_rid value = elim (strip_prefix value (codes "rad:z")) [
  | none ↦ false
  | some payload ↦ not (is_nil payload) && all is_base58_character payload
]

-- The text up to the first whitespace.
unfoldable pub word : Text → Text
unfolding is_whitespace
word [] = []
word (c ∷ s) = let rest = word s in if is_whitespace c then [] else c ∷ rest

-- `split_whitespace().next()`
unfoldable pub first_word : Text → Option Text
unfolding trim_start word
first_word s = let w = word (trim_start s) in if is_nil w then none else some w

-- `BTreeSet::insert`; its result says whether the value is new.
unfoldable pub insert_policy : Text → List Text → List Text
insert_policy rid policies = if contains policies rid then policies else insert text_lt rid policies

-- The candidate of a line, or nothing where the loop continues.
unfoldable pub row_candidate : Text → Option Text
row_candidate line = elim (strip_prefix (trim_start line) (codes "│")) [
  | none ↦ none
  | some row ↦ first_word row
]

-- The loop over the lines: whether the header was seen, and the policies so far.
unfoldable pub scan_rows : Bool → List Text → List Text → Result Error (Bool × List Text)
unfolding insert_policy
scan_rows header_seen policies [] = ok (header_seen, policies)
scan_rows header_seen policies (line ∷ others) = elim (row_candidate line) [
  | none ↦ scan_rows header_seen policies others
  | some candidate ↦ elim (candidate == codes "Repository") [
    | Bool.true ↦ scan_rows Bool.true policies others
    | Bool.false ↦ do
      reject (not header_seen) row_before_header
      reject (not (is_canonical_rid candidate)) (invalid_repository candidate)
      scan_rows header_seen (insert_policy candidate policies) others
  ]
]

unfoldable pub policy_set : Text → Result Error (List Text)
policy_set output =
    elim (any (λ line. trim line == codes "No seeding policies to show.") (lines output)) [
      | Bool.true ↦ ok []
      | Bool.false ↦ do
        scanned ← scan_rows Bool.false [] (lines output)
        reject (not scanned.0 || is_nil scanned.1) unrecognized_table
        ok scanned.1
    ]

-- The loop of `desired_set`, with the set so far.
unfoldable pub collect_desired : List Text → List Text → Result Error (List Text)
unfolding insert_policy
collect_desired desired [] = ok desired
collect_desired desired (rid ∷ arguments) = do
  reject (not (is_canonical_rid rid)) (invalid_desired rid)
  reject (contains desired rid) (duplicate_desired rid)
  collect_desired (insert_policy rid desired) arguments

unfoldable pub desired_set : List Text → Result Error (List Text)
desired_set arguments = collect_desired [] arguments

-- `BTreeSet::difference`
unfoldable pub difference : List Text → List Text → List Text
difference xs ys = filter (λ x. not (contains ys x)) xs

unfoldable pub reconcile_plan : List Text → List Text → Plan
reconcile_plan current desired = record {
  remove = difference current desired;
  add = difference desired current;
}

-- What a successful run writes; no text where the output is not UTF-8. The error output is decoded
-- with replacement characters.
pub record Output : Type 0 where
  pub stdout : Option Text
  pub stderr : Text

-- The `rad` program: how its arguments move the node, and the output unless the run fails.
pub record Rad (S : Type 0) : Type 0 where
  pub execute : List Text → S → S × Option Output

-- The arguments of the two commands.
unfoldable pub unseed : Text → List Text
unseed rid = codes "unseed" ∷ rid ∷ []

unfoldable pub seed : Text → List Text
seed rid = codes "seed" ∷ codes "--no-fetch" ∷ codes "--scope" ∷ codes "all" ∷ rid ∷ []

-- `e?` where the state moves along.
infixl 5 ◌>=>◌
abbrev pub ◌>=>◌ :
    {S A B : Type 0} → S × Result Error A → (A → S → S × Result Error B) → S × Result Error B
(s, ok a) >=> k = k a s
(s, err e) >=> k = (s, err e)

abbrev ran : List Text → Option Output → Result Error Output
ran arguments none = err (run_failed arguments)
ran arguments (some output) = ok output

abbrev decoded_policies : Option Text → Result Error (List Text)
decoded_policies none = err list_not_utf8
decoded_policies (some stdout) = policy_set stdout

abbrev pub listed_policies : Output → Result Error (List Text)
listed_policies output =
    if is_nil (trim output.stderr)
    then decoded_policies output.stdout
    else err (list_diagnostics (trim output.stderr))

-- The last check of `reconcile`.
unfoldable pub confirm : List Text → Plan → List Text → Result Error Plan
confirm desired plan observed =
    if observed != desired then err (reconciliation_mismatch desired observed) else ok plan

module _ {S : Type 0} (rad : Rad S) where
  unfoldable pub run : List Text → S → S × Result Error Output
  run arguments s = let (s', output) = rad.execute arguments s in (s', ran arguments output)

  unfoldable pub list : S → S × Result Error (List Text)
  unfolding run
  list s = run (codes "seed" ∷ []) s >=> λ output s'. (s', listed_policies output)

  -- A loop of runs that stops at the first failure.
  unfoldable pub run_all : List (List Text) → S → S × Result Error (Unit {0})
  unfolding run
  run_all [] s = (s, ok tt)
  run_all (arguments ∷ others) s = run arguments s >=> λ output s'. run_all others s'

  unfoldable pub apply : Plan → S → S × Result Error (Unit {0})
  unfolding run_all
  apply plan s = run_all (map unseed plan.remove) s >=> λ u s'. run_all (map seed plan.add) s'

  unfoldable pub reconcile : List Text → S → S × Result Error Plan
  unfolding list apply confirm
  reconcile desired s = list s >=> λ current s₁.
      let plan = reconcile_plan current desired in
      apply plan s₁ >=> λ u s₂. list s₂ >=> λ observed s₃. (s₃, confirm desired plan observed)
