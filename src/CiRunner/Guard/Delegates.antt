-- ===== src/CiRunner/Guard/Delegates.antt =====
-- The quorum behind an admitting guard, from `pkgs/radicle-ci-runner/src/guard.rs`.
use onix_core.Base.{
  ◌≤◌, ◌<◌, String, Bool, true, false, not, ◌||◌, List, [], ◌∷◌, length, any, contains, All, ◌≡◌,
  ◌≢◌, subst, inl, inr, arith, Bool-cases, ◌==◌, Eq, string_eq, list_eq, ℕ-eq,
}
use onix_core.Base.Text.{codes}
use onix_core.Base.Text.Order.{text_lt-IsStrict}
use onix_core.Base.Sort.Distinct.{
  Distinct, IsStrict, All-map, All-filter, filter-Distinct, unique_sorted-Distinct,
}
use onix_core.CiRunner.Types.{AdmittedEventV1, JobResultV1}
use onix_core.CiRunner.Digest.{Digest}
use onix_core.CiRunner.GuardTypes.{
  ForgeGuardPolicyV1, ValenceAdmissionReceiptV1, LiveGuardObservationV1, string_lt,
}
use onix_core.CiRunner.GuardChecks.{did}
use onix_core.CiRunner.Guard.{
  policy_invalid, any_foreign, signed_refs_invalid, signing_approvals, evaluate_canonical_guard,
}
use onix_core.CiRunner.Guard.Report.{evaluate_canonical_guard_iff}

string_lt-IsStrict : IsStrict string_lt
unfolding string_lt
string_lt-IsStrict = record {
  irrefl = λ a. text_lt-IsStrict.irrefl (codes a);
  trans = λ a b c. text_lt-IsStrict.trans (codes a) (codes b) (codes c);
}

any-eq-false {ℓ} :
    {A : Type ℓ} (p : A → Bool) (xs : List A) → any p xs ≡ false → All (λ x. p x ≡ false) xs
any-eq-false p [] h = tt
any-eq-false p (x ∷ xs) h = (ground arith, any-eq-false p xs (ground arith))

-- What holds of every member holds of a value that the list contains.
All-contains {ℓ κ} :
    {A : Type ℓ} ⦃e : Eq A⦄ (P : A → Type κ) (xs : List A) (a : A)
    → All P xs
    → contains xs a ≡ true
    → P a
unfolding contains
All-contains P [] a h c = cc
All-contains ⦃e⦄ P (x ∷ xs) a h c = elim (Bool-cases (e.beq x a)) [
  | inl same ↦ subst P ((e.beq_iff x a).0 same) h.0
  | inr other ↦ All-contains P xs a h.1 (ground arith)
]

module _ (policy : ForgeGuardPolicyV1) (live : LiveGuardObservationV1) where
  -- Enough different delegates of the policy both approve and have signed, none of them the bot.
  pub record HasQuorum : Type 0 where
    pub positive : 0 < policy.threshold
    pub enough : policy.threshold ≤ length (signing_approvals live)
    pub distinct : Distinct (signing_approvals live)
    pub delegated :
        All
          (λ delegate.
            (contains policy.delegates delegate ≡ true)
            × (contains live.approving_delegates delegate ≡ true)
            × (delegate ≢ policy.bot_did))
          (signing_approvals live)

  abbrev IsTrusted : String → Type 0
  IsTrusted delegate = (contains policy.delegates delegate ≡ true) × (delegate ≢ policy.bot_did)

  ne_bot :
      (delegate : String)
      → (not (did delegate) || delegate == policy.bot_did) ≡ false
      → delegate ≢ policy.bot_did
  ne_bot delegate h e = ground (arith, (string_eq.beq_iff delegate policy.bot_did).1 e)

  not-bot :
      policy_invalid policy ≡ false → All (λ delegate. delegate ≢ policy.bot_did) policy.delegates
  unfolding policy_invalid
  not-bot h = All-map ne_bot policy.delegates (
      any-eq-false (λ delegate. not (did delegate) || delegate == policy.bot_did) policy.delegates
        (ground arith))

  any_foreign-IsTrusted :
      policy_invalid policy ≡ false
      → (delegates : List String) → any_foreign policy delegates ≡ false
      → All IsTrusted delegates
  unfolding any_foreign
  any_foreign-IsTrusted p delegates h =
      All-map
        (λ x k.
          let member : contains policy.delegates x ≡ true = ground arith in
          (
            member,
            All-contains (λ delegate. delegate ≢ policy.bot_did) policy.delegates x (not-bot p)
                member,
          ))
        delegates (any-eq-false _ delegates h)

  quorum : policy_invalid policy ≡ false → signed_refs_invalid policy live ≡ false → HasQuorum
  unfolding policy_invalid signed_refs_invalid signing_approvals ℕ-eq
  quorum p s = record {
    positive = ground arith;
    enough = ground arith;
    distinct =
        filter-Distinct _ live.signing_delegates (
          unique_sorted-Distinct string_lt string_lt-IsStrict live.signing_delegates
            (ground arith));
    delegated =
        All-map (λ x k. (k.0.0, k.1, k.0.1)) (signing_approvals live)
          (All-filter IsTrusted _ live.signing_delegates
            (any_foreign-IsTrusted p live.signing_delegates (ground arith)));
  }

module _ (d : Digest) (policy : ForgeGuardPolicyV1) (event : AdmittedEventV1) (result : JobResultV1)
    (valence : ValenceAdmissionReceiptV1) (live : LiveGuardObservationV1) where
  -- If the guard admits, then at least the policy's threshold, which is positive, of pairwise
  -- different delegates both approve live and have signed. Each is a delegate of the policy, and
  -- none is the CI bot.
  pub evaluate_canonical_guard-HasQuorum :
      (evaluate_canonical_guard d policy event result valence live).admitted ≡ true
      → HasQuorum policy live
  evaluate_canonical_guard-HasQuorum h =
      let p = (evaluate_canonical_guard_iff d policy event result valence live).0.0 h in
      quorum policy live p.policy_passes p.signed_refs_pass
