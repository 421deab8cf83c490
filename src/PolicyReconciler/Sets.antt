-- ===== src/PolicyReconciler/Sets.antt =====
-- The lists that stand for `BTreeSet`s are strictly ascending, and two with the same members are the
-- same list, so that comparing them is comparing the sets.
use onix_core.Base.{
  Bool, true, false, List, [], ◌∷◌, ◌≡◌, refl, sym, ap, ap₂, ◌∙◌, subst, ◌||◌, not, contains, ◌==◌,
  ==_refl, All, list_eq, ℕ-eq, arith, Bool-cases, Option-cases, inl, inr, any, is_nil,
}
use onix_core.Base.Results.{ok, reject-then, >>=-eq-ok, ok_same}
use onix_core.Base.Sort.Distinct.{All-map}
use onix_core.Base.Sort.Rising
use onix_core.Base.Text.{Text, text_lt, trim, lines, codes}
use onix_core.Base.Text.Order.{text_lt-IsStrict, text_lt_total}
use onix_core.PolicyReconciler.Plans.{text_iff}
use onix_core.PolicyReconciler.{
  insert_policy, row_candidate, scan_rows, policy_set, collect_desired, desired_set,
  is_canonical_rid,
}

abbrev pub IsOrdered : List Text → Type 0
IsOrdered xs = Rising.Rising text_lt xs

differs_of_lt : (a b : Text) → text_lt a b ≡ true → (b == a) ≡ false
differs_of_lt a b h = elim (Bool-cases (b == a)) [
  | inl same ↦
      absurd (text_lt-IsStrict.irrefl a (subst (λ c. text_lt a c ≡ true) ((text_iff b a).0 same) h))
  | inr other ↦ other
]

contains_below :
    (a : Text) (xs : List Text) → All (λ x. text_lt a x ≡ true) xs → contains xs a ≡ false
unfolding contains
contains_below a [] h = refl
contains_below a (x ∷ xs) h = ground (arith, differs_of_lt a x h.0, contains_below a xs h.1)

-- A value below the head of a set is not in it.
contains_smaller :
    (a x : Text) (xs : List Text)
    → text_lt a x ≡ true
    → IsOrdered (x ∷ xs)
    → contains (x ∷ xs) a ≡ false
contains_smaller a x xs h r =
    contains_below a (x ∷ xs) (h, All-map (λ y k. text_lt-IsStrict.trans a x y h k) xs r.0)

contains-nil : (a : Text) → contains [] a ≡ false
unfolding contains
contains-nil a = refl

contains_head : (x : Text) (xs : List Text) → contains (x ∷ xs) x ≡ true
unfolding contains
contains_head x xs = ground (arith, ==_refl x)

same_tails :
    (x : Text) (xs ys : List Text)
    → IsOrdered (x ∷ xs)
    → IsOrdered (x ∷ ys)
    → (a : Text) → contains (x ∷ xs) a ≡ contains (x ∷ ys) a
    → contains xs a ≡ contains ys a
unfolding contains
same_tails x xs ys r s a h = elim (Bool-cases (x == a)) [
  | inl here ↦
      let e = (text_iff x a).0 here in
      subst (λ c. contains xs c ≡ contains ys c) e
        (contains_below x xs r.0 ∙ sym (contains_below x ys s.0))
  | inr there ↦ ground arith
]

pub eq_of_members :
    (xs ys : List Text)
    → IsOrdered xs
    → IsOrdered ys
    → ((a : Text) → contains xs a ≡ contains ys a)
    → xs ≡ ys
eq_of_members [] [] r s h = refl
eq_of_members [] (y ∷ ys) r s h = absurd (ground (arith, h y, contains_head y ys, contains-nil y))
eq_of_members (x ∷ xs) [] r s h = absurd (ground (arith, h x, contains_head x xs, contains-nil x))
eq_of_members (x ∷ xs) (y ∷ ys) r s h = elim (Bool-cases (x == y)) [
  | inl same ↦
      let e = (text_iff x y).0 same in
      let s' : IsOrdered (x ∷ ys) = subst (λ z. IsOrdered (z ∷ ys)) (sym e) s in
      let h' : (a : Text) → contains (x ∷ xs) a ≡ contains (x ∷ ys) a =
        λ a. h a ∙ ap (λ z. contains (z ∷ ys) a) (sym e) in
      ap₂ (λ z zs. z ∷ zs) e (eq_of_members xs ys r.1 s.1 (λ a. same_tails x xs ys r s' a (h' a)))
  | inr apart ↦ elim (text_lt_total x y (λ e. absurd (ground (arith, (text_iff x y).1 e)))) [
    | inl below ↦ absurd (ground (arith, h x, contains_head x xs, contains_smaller x y ys below s))
    | inr above ↦ absurd (ground (arith, h y, contains_head y ys, contains_smaller y x xs above r))
  ]
]

comparable :
    (a : Text) (xs : List Text) → contains xs a ≡ false → All (Rising.Comparable text_lt a) xs
unfolding contains
comparable a [] h = tt
comparable a (x ∷ xs) h = (
  text_lt_total a x (λ e. absurd (ground (arith, (text_iff x a).1 (sym e)))),
  comparable a xs (ground arith),
)

insert_policy-IsOrdered :
    (a : Text) (xs : List Text) → IsOrdered xs → IsOrdered (insert_policy a xs)
unfolding insert_policy
insert_policy-IsOrdered a xs r = elim (Bool-cases (contains xs a)) [
  | inl present ↦ rw present r
  | inr absent ↦
      rw absent
        (Rising.insert-Rising text_lt text_lt-IsStrict.trans a xs r (comparable a xs absent))
]

collect_desired-IsOrdered :
    (before arguments after : List Text)
    → IsOrdered before
    → collect_desired before arguments ≡ ok after
    → IsOrdered after
unfolding collect_desired
collect_desired-IsOrdered before [] after r h = subst IsOrdered (ok_same _ _ h) r
collect_desired-IsOrdered before (rid ∷ arguments) after r h =
    let (good, h₁) = reject-then (not (is_canonical_rid rid)) _ _ h in
    let (absent, h₂) = reject-then (contains before rid) _ _ h₁ in
    collect_desired-IsOrdered (insert_policy rid before) arguments after
      (insert_policy-IsOrdered rid before r) h₂

pub desired_set-IsOrdered :
    (arguments desired : List Text) → desired_set arguments ≡ ok desired → IsOrdered desired
unfolding desired_set
desired_set-IsOrdered arguments desired h = collect_desired-IsOrdered [] arguments desired tt h

scan_rows-IsOrdered :
    (seen : Bool) (before rows : List Text) (after : Bool × List Text)
    → IsOrdered before
    → scan_rows seen before rows ≡ ok after
    → IsOrdered after.1
unfolding scan_rows
scan_rows-IsOrdered seen before [] after r =
    λ h. subst (λ (p : Bool × List Text). IsOrdered p.1) (ok_same _ _ h) r
scan_rows-IsOrdered seen before (line ∷ rows) after r = elim (Option-cases (row_candidate line)) [
  | inl nothing ↦ rw (nothing, scan_rows) (scan_rows-IsOrdered seen before rows after r)
  | inr (candidate, found) ↦ elim (Bool-cases (candidate == codes "Repository")) [
    | inl header ↦ rw (found, scan_rows, header) (scan_rows-IsOrdered true before rows after r)
    | inr row ↦
        rw (found, scan_rows, row)
          (λ h.
            let (a, h₁) = reject-then (not seen) _ _ h in
            let (b, h₂) = reject-then (not (is_canonical_rid candidate)) _ _ h₁ in
            scan_rows-IsOrdered seen (insert_policy candidate before) rows after
              (insert_policy-IsOrdered candidate before r) h₂)
  ]
]

pub policy_set-IsOrdered :
    (output : Text) (policies : List Text) → policy_set output ≡ ok policies → IsOrdered policies
unfolding policy_set
policy_set-IsOrdered output policies =
    elim (Bool-cases
      (any (λ line. trim line == codes "No seeding policies to show.") (lines output))) [
        | inl empty ↦ rw (empty, policy_set) (λ h. subst IsOrdered (ok_same _ _ h) tt)
        | inr table ↦
            rw (table, policy_set)
              (λ h.
                let (scanned, found, h₁) = >>=-eq-ok (scan_rows false [] (lines output)) _ h in
                let (a, h₂) = reject-then (not scanned.0 || is_nil scanned.1) _ _ h₁ in
                subst IsOrdered (ok_same _ _ h₂)
                  (scan_rows-IsOrdered false [] (lines output) scanned tt found))
      ]
