-- ===== src/PolicyReconciler/Tests.antt =====
-- The tests of the policy table, the desired set and the plan.
mod Node
use onix_core.Base.{
  true, none, some, not, List, [], ◌∷◌, ◌++◌, ◌&&◌, ◌||◌, ◌≡◌, refl, contains, filter, ◌==◌,
  list_eq, ℕ-eq, All,
}
use onix_core.Base.Results.{ok, err}
use onix_core.Base.Sort.{insert}
use onix_core.Base.Sort.Distinct.{Distinct}
use onix_core.Base.Text.{strip_prefix, trim, Text, codes, lines, text_lt}
use onix_core.PolicyReconciler.{
  Plan, Rad, Output, difference, reconcile_plan, desired_set, collect_desired, is_canonical_rid,
  reconcile, policy_set, scan_rows, row_candidate, first_word, seed, unseed, unrecognized_table,
  duplicate_desired,
}
use onix_core.PolicyReconciler.Plans.{reconcile_plan-contains, desired_set-members}

abbrev pub rid_a : Text
rid_a = codes "rad:z3gqcJUoA1n9HaHKufZs5FCSGazv5"

abbrev pub rid_b : Text
rid_b = codes "rad:z4GypKmh1gkEfmkXtarcYnkvtFUfE"

reconcile_plan-contains_example :
    let plan = reconcile_plan (rid_a ∷ []) (rid_b ∷ []) in
    (contains plan.remove rid_a
      ≡ (contains (rid_a ∷ []) rid_a && not (contains (rid_b ∷ []) rid_a)))
    × (contains plan.add rid_a ≡ (contains (rid_b ∷ []) rid_a && not (contains (rid_a ∷ []) rid_a)))
    × (((contains (rid_a ∷ []) rid_a && not (contains plan.remove rid_a))
          || contains plan.add rid_a)
        ≡ contains (rid_b ∷ []) rid_a)
reconcile_plan-contains_example = reconcile_plan-contains (rid_a ∷ []) (rid_b ∷ []) rid_a

desired_set_sample : desired_set (rid_b ∷ rid_a ∷ []) ≡ ok (rid_a ∷ rid_b ∷ [])
unfolding desired_set collect_desired is_canonical_rid strip_prefix ℕ-eq contains insert list_eq
    text_lt
desired_set_sample = refl

desired_set-members_example :
    All (λ rid. is_canonical_rid rid ≡ true) (rid_b ∷ rid_a ∷ [])
    × Distinct (rid_b ∷ rid_a ∷ [])
    × ((rid : Text) → contains (rid_a ∷ rid_b ∷ []) rid ≡ contains (rid_b ∷ rid_a ∷ []) rid)
desired_set-members_example =
    desired_set-members (rid_b ∷ rid_a ∷ []) (rid_a ∷ rid_b ∷ []) desired_set_sample

desired_set_duplicate : desired_set (rid_a ∷ rid_a ∷ []) ≡ err (duplicate_desired rid_a)
unfolding desired_set collect_desired is_canonical_rid strip_prefix ℕ-eq contains insert list_eq
    text_lt
desired_set_duplicate = refl

policy_set_unrecognized : policy_set (codes "policy output changed\n") ≡ err unrecognized_table
unfolding policy_set lines list_eq trim ℕ-eq scan_rows row_candidate strip_prefix
policy_set_unrecognized = refl
