-- ===== src/PolicyReconciler/Plans.antt =====
-- The plan against the sets it is made from, and what a successful reconciliation leaves behind.
use onix_core.Base.{
  Bool, true, false, List, [], ◌∷◌, not, ◌&&◌, ◌||◌, ◌≡◌, ◌↔◌, refl, sym, ap, ap₂, ◌∙◌, ==_refl,
  contains, filter, ◌==◌, All, list_eq, ℕ-eq, arith, Bool-cases, inl, inr,
}
use onix_core.Base.Results.{Result, ok, err, reject-then}
use onix_core.Base.Sort.{insert}
use onix_core.Base.Sort.Distinct.{Distinct, All-map}
use onix_core.Base.Text.{Text, text_lt}
use onix_core.PolicyReconciler.{
  Plan, Error, Rad, difference, reconcile_plan, desired_set, collect_desired, insert_policy,
  is_canonical_rid, list, apply, reconcile, confirm, ◌>=>◌,
}

pub text_iff : (a b : Text) → ((a == b) ≡ true) ↔ (a ≡ b)
text_iff a b = (list_eq ⦃e = ℕ-eq⦄).beq_iff a b

contains-filter :
    (p : Text → Bool) (xs : List Text) (a : Text)
    → contains (filter p xs) a ≡ (contains xs a && p a)
unfolding contains
contains-filter p [] a = refl
contains-filter p (x ∷ xs) a = ground (arith, contains-filter p xs a, text_iff x a)

pub contains-difference :
    (xs ys : List Text) (a : Text)
    → contains (difference xs ys) a ≡ (contains xs a && not (contains ys a))
unfolding difference
contains-difference xs ys a = contains-filter (λ x. not (contains ys x)) xs a

-- The plan removes a policy exactly if it is current and not desired, adds one exactly if it is
-- desired and not current, and the current policies without the removed and with the added ones
-- are the desired ones.
pub reconcile_plan-contains :
    (current desired : List Text) (rid : Text)
    → let plan = reconcile_plan current desired in
      (contains plan.remove rid ≡ (contains current rid && not (contains desired rid)))
      × (contains plan.add rid ≡ (contains desired rid && not (contains current rid)))
      × (((contains current rid && not (contains plan.remove rid)) || contains plan.add rid)
          ≡ contains desired rid)
unfolding reconcile_plan
reconcile_plan-contains current desired rid =
    ground (arith, contains-difference current desired rid, contains-difference desired current rid)

contains-insert :
    (a : Text) (xs : List Text) (b : Text)
    → contains (insert text_lt a xs) b ≡ (a == b || contains xs b)
unfolding contains insert
contains-insert a [] b = refl
contains-insert a (x ∷ xs) b = ground (arith, contains-insert a xs b)

>=>-eq-ok :
    {S A B : Type 0} (r : S × Result Error A) (k : A → S → S × Result Error B) {s : S} {b : B}
    → (r >=> k) ≡ (s, ok b)
    → (a : A) × (s₁ : S) × (r ≡ (s₁, ok a)) × (k a s₁ ≡ (s, ok b))
>=>-eq-ok (s₁, ok a) k h = (a, s₁, refl, h)
>=>-eq-ok (s₁, err e) k h = cc

confirm-eq-ok :
    (desired observed : List Text) (plan plan' : Plan)
    → confirm desired plan observed ≡ ok plan'
    → (observed ≡ desired) × (plan' ≡ plan)
unfolding confirm
confirm-eq-ok desired observed plan plan' h = elim (Bool-cases (observed == desired)) [
  | inl same ↦ ((list_eq.beq_iff observed desired).0 same, ground arith)
  | inr different ↦ ground arith
]

confirm_self : (desired : List Text) (plan : Plan) → confirm desired plan desired ≡ ok plan
unfolding confirm
confirm_self desired plan = ground (arith, ==_refl desired)

module _ {S : Type 0} (rad : Rad S) where
  -- The steps of a run that reports a plan.
  pub reconcile_steps :
      (desired : List Text) (s s' : S) (plan : Plan)
      → (reconcile rad desired s ≡ (s', ok plan)) ↔ (
          (current : List Text) × (s₁ : S) × (s₂ : S) × (list rad s ≡ (s₁, ok current))
          × (plan ≡ reconcile_plan current desired)
          × (apply rad (reconcile_plan current desired) s₁ ≡ (s₂, ok tt))
          × (list rad s₂ ≡ (s', ok desired)))
  unfolding reconcile
  reconcile_steps desired s s' plan = (
    λ h.
        let (current, s₁, listed, h₁) = >=>-eq-ok (list rad s) _ h in
        let (u, s₂, applied, h₂) = >=>-eq-ok (apply rad (reconcile_plan current desired) s₁) _ h₁ in
        let (observed, s₃, again, h₃) = >=>-eq-ok (list rad s₂) _ h₂ in
        let sure : confirm desired (reconcile_plan current desired) observed ≡ ok plan =
          ap (λ p. p.1) h₃ in
        let last : s₃ ≡ s' = ap (λ p. p.0) h₃ in
        let (same, made) = confirm-eq-ok desired observed _ plan sure in
        (current, s₁, s₂, listed, made, applied, again ∙ ap₂ (λ t o. (t, ok o)) last same),
    λ (current, s₁, s₂, listed, made, applied, again). rw listed (
        rw applied (
          rw again (
            ap (λ r. (s', r))
              (confirm_self desired (reconcile_plan current desired) ∙ ap ok (sym made))))),
  )

-- What `desired_set` has collected once it has read the arguments.
pub record IsCollected (before arguments after : List Text) : Type 0 where
  pub canonical : All (λ rid. is_canonical_rid rid ≡ true) arguments
  pub distinct : Distinct arguments
  pub fresh : All (λ rid. contains before rid ≡ false) arguments
  pub members : (rid : Text) → contains after rid ≡ (contains before rid || contains arguments rid)

contains-insert_policy :
    (x : Text) (xs : List Text) (a : Text)
    → contains (insert_policy x xs) a ≡ (x == a || contains xs a)
unfolding insert_policy
contains-insert_policy x xs a = elim (Bool-cases (contains xs x)) [
  | inl present ↦ rw present (ground (arith, text_iff x a))
  | inr absent ↦ rw absent (contains-insert x xs a)
]

IsCollected-step :
    (rid : Text) (before arguments after : List Text)
    → is_canonical_rid rid ≡ true
    → contains before rid ≡ false
    → IsCollected (insert_policy rid before) arguments after
    → IsCollected before (rid ∷ arguments) after
unfolding contains
IsCollected-step rid before arguments after good absent c = record {
  canonical = (good, c.canonical);
  distinct = (
    All-map (λ a f e. ground (arith, contains-insert_policy rid before a, text_iff rid a)) arguments
        c.fresh,
    c.distinct,
  );
  fresh = (
    absent,
    All-map (λ a f. ground (arith, contains-insert_policy rid before a)) arguments c.fresh,
  );
  members = λ a. ground (arith, c.members a, contains-insert_policy rid before a);
}

collect_desired-IsCollected :
    (before arguments after : List Text)
    → collect_desired before arguments ≡ ok after
    → IsCollected before arguments after
unfolding collect_desired contains
collect_desired-IsCollected before [] after h = record {
  canonical = tt;
  distinct = tt;
  fresh = tt;
  members = λ rid. ground arith;
}
collect_desired-IsCollected before (rid ∷ arguments) after h =
    let (good, h₁) = reject-then (not (is_canonical_rid rid)) _ _ h in
    let (absent, h₂) = reject-then (contains before rid) _ _ h₁ in
    IsCollected-step rid before arguments after (ground arith) absent
      (collect_desired-IsCollected (insert_policy rid before) arguments after h₂)

-- If the arguments are accepted, then all are canonical repository identifiers, no two are the same,
-- and the desired set has exactly them as its members.
pub desired_set-members :
    (arguments desired : List Text)
    → desired_set arguments ≡ ok desired
    → All (λ rid. is_canonical_rid rid ≡ true) arguments
      × Distinct arguments
      × ((rid : Text) → contains desired rid ≡ contains arguments rid)
unfolding desired_set contains
desired_set-members arguments desired h =
    let c = collect_desired-IsCollected [] arguments desired h in
    (c.canonical, c.distinct, c.members)
