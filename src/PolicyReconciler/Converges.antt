-- ===== src/PolicyReconciler/Converges.antt =====
-- A reconciliation against a node whose `rad` program does what it documents: `rad seed` shows the
-- policies, `rad unseed` removes one and `rad seed --no-fetch --scope all` adds one.
use onix_core.Base.{
  true, some, List, [], ◌∷◌, ◌≡◌, refl, sym, ap, ◌∙◌, ◌&&◌, ◌||◌, not, map, contains, ◌==◌, ==_refl,
  All, list_eq, ℕ-eq, arith,
}
use onix_core.Base.Results.{Result, ok, ok_same}
use onix_core.Base.Sort.Distinct.{filter-All}
use onix_core.Base.Text.{Text, codes, trim}
use onix_core.PolicyReconciler.{
  Error, Plan, Rad, Output, run, list, run_all, apply, reconcile, reconcile_plan, unseed, seed,
  policy_set, difference, desired_set,
}
use onix_core.PolicyReconciler.Plans.{reconcile_plan-contains, reconcile_steps}
use onix_core.PolicyReconciler.Sets.{
  IsOrdered, eq_of_members, policy_set-IsOrdered, desired_set-IsOrdered,
}

same_listing :
    {S : Type 0} (s s' : S) (p p' : List Text)
    → ◌≡◌ {A = S × Result Error (List Text)} (s, ok p) (s', ok p')
    → (s ≡ s') × (p ≡ p')
same_listing s s' p p' h = (ap (λ r. r.0) h, ok_same _ _ (ap (λ r. r.1) h))

module _ {S : Type 0} (rad : Rad S) (policies : S → List Text) where
  -- `rad seed` leaves the node as it is and prints a table of its policies.
  pub record IsListing : Type 0 where
    pub lists :
        (s : S)
        → (table : Text) × (rad.execute (codes "seed" ∷ []) s
            ≡ (s, some (record { stdout = some table; stderr = [] })))
          × (policy_set table ≡ ok (policies s))

  -- The policies are of existing repositories, for which the two commands run without an error and
  -- remove and add exactly the policy that they name.
  pub record IsPolicyStore (Exists : Text → Type 0) : Type 0 where
    pub listing : IsListing
    pub known : (s : S) (rid : Text) → contains (policies s) rid ≡ true → Exists rid
    pub unseeds :
        (s : S) (rid : Text)
        → Exists rid
        → (s' : S) × (output : Output) × (rad.execute (unseed rid) s ≡ (s', some output))
          × ((a : Text) → contains (policies s') a ≡ (contains (policies s) a && not (rid == a)))
    pub seeds :
        (s : S) (rid : Text)
        → Exists rid
        → (s' : S) × (output : Output) × (rad.execute (seed rid) s ≡ (s', some output))
          × ((a : Text) → contains (policies s') a ≡ (rid == a || contains (policies s) a))

  IsListing-list : IsListing → (s : S) → list rad s ≡ (s, ok (policies s))
  unfolding list run trim
  IsListing-list l s = let (table, printed, parsed) = l.lists s in rw (printed, parsed) refl

  policies-IsOrdered : IsListing → (s : S) → IsOrdered (policies s)
  policies-IsOrdered l s =
      let (table, printed, parsed) = l.lists s in policy_set-IsOrdered table (policies s) parsed

  -- Where `rad seed` leaves the node as it is and prints a table of its policies, and whatever the
  -- other commands do, failures included: if `reconcile` reports a plan, then the node's policies are
  -- the desired ones in the end, and the plan is the difference to those that it began with.
  pub reconcile_sound :
      (desired : List Text) (s s' : S) (plan : Plan)
      → IsListing
      → reconcile rad desired s ≡ (s', ok plan)
      → (policies s' ≡ desired) × (plan ≡ reconcile_plan (policies s) desired)
  reconcile_sound desired s s' plan l h =
      let (current, s₁, s₂, listed, made, applied, again) =
        (reconcile_steps rad desired s s' plan).0 h in
      let (same, now) = same_listing _ _ _ _ (sym (IsListing-list l s) ∙ listed) in
      let (end, last) = same_listing _ _ _ _ (sym (IsListing-list l s₂) ∙ again) in
      (ap policies (sym end) ∙ last, made ∙ ap (λ c. reconcile_plan c desired) (sym now))

  module _ (Exists : Text → Type 0) (store : IsPolicyStore Exists) where
    run_unseeds :
        (rids : List Text) (s : S)
        → All Exists rids
        → (s' : S) × (run_all rad (map unseed rids) s ≡ (s', ok tt))
          × ((a : Text)
              → contains (policies s') a ≡ (contains (policies s) a && not (contains rids a)))
    unfolding run_all run contains
    run_unseeds [] s h = (s, refl, λ a. ground arith)
    run_unseeds (rid ∷ rids) s h =
        let (s₁, output, executed, removed) = store.unseeds s rid h.0 in
        let (s₂, ran, left) = run_unseeds rids s₁ h.1 in
        (s₂, rw executed ran, λ a. ground (arith, removed a, left a))

    run_seeds :
        (rids : List Text) (s : S)
        → All Exists rids
        → (s' : S) × (run_all rad (map seed rids) s ≡ (s', ok tt))
          × ((a : Text) → contains (policies s') a ≡ (contains rids a || contains (policies s) a))
    unfolding run_all run contains
    run_seeds [] s h = (s, refl, λ a. ground arith)
    run_seeds (rid ∷ rids) s h =
        let (s₁, output, executed, added) = store.seeds s rid h.0 in
        let (s₂, ran, left) = run_seeds rids s₁ h.1 in
        (s₂, rw executed ran, λ a. ground (arith, added a, left a))

    All-contains :
        (rids : List Text) → ((a : Text) → contains rids a ≡ true → Exists a) → All Exists rids
    unfolding contains
    All-contains [] h = tt
    All-contains (rid ∷ rids) h =
        (h rid (ground (arith, ==_refl rid)), All-contains rids (λ a m. h a (ground arith)))

    -- On a node whose policies are of existing repositories, where `rad seed` prints a table of the
    -- policies and, for an existing repository, `unseed` and `seed` run without an error and remove
    -- and add just its policy: if the arguments are accepted and the desired repositories exist, then
    -- `reconcile` succeeds, its plan is the difference of the node's policies and the desired ones,
    -- and the node's policies are the desired ones afterwards.
    pub reconcile_converges :
        (arguments desired : List Text) (s : S)
        → desired_set arguments ≡ ok desired
        → All Exists desired
        → (s' : S) × (reconcile rad desired s ≡ (s', ok (reconcile_plan (policies s) desired)))
          × (policies s' ≡ desired)
    unfolding apply reconcile_plan difference
    reconcile_converges arguments desired s wanted exist =
        let plan = reconcile_plan (policies s) desired in
        let current : All Exists plan.remove =
          filter-All Exists _ (policies s) (All-contains (policies s) (store.known s)) in
        let additions : All Exists plan.add = filter-All Exists _ desired exist in
        let (s₁, unseeded, less) = run_unseeds plan.remove s current in
        let (s₂, seeded, more) = run_seeds plan.add s₁ additions in
        let same : policies s₂ ≡ desired =
          eq_of_members (policies s₂) desired (policies-IsOrdered store.listing s₂)
            (desired_set-IsOrdered arguments desired wanted)
            (λ a. ground (arith, less a, more a, reconcile_plan-contains (policies s) desired a)) in
        let again = IsListing-list store.listing s₂ ∙ ap (λ p. (s₂, ok p)) same in
        (
          s₂,
          (reconcile_steps rad desired s s₂ plan).1
              (policies s, s, s₂, IsListing-list store.listing s, refl, rw unseeded seeded, again),
          same,
        )
