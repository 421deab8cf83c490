-- ===== src/CiRunner/Guard/Report.antt =====
-- The shape of the guard's report, from `evaluate_canonical_guard` of
-- `pkgs/radicle-ci-runner/src/guard.rs`.
use onix_core.Base.{
  Bool, true, false, not, none, some, ◌&&◌, List, [], ◌∷◌, is_nil, ◌≡◌, refl, ◌∙◌, ◌≢◌, ◌↔◌, arith,
  Eq, String,
}
use onix_core.Base.Sort.{insert, sort, dedup}
use onix_core.CiRunner.Types.{AdmittedEventV1, JobResultV1}
use onix_core.CiRunner.Digest.{Digest}
use onix_core.CiRunner.GuardTypes.{
  ForgeGuardPolicyV1, ValenceAdmissionReceiptV1, LiveGuardObservationV1, GuardIssue, issue_lt,
  issue_eq,
}
use onix_core.CiRunner.Guard.{
  issue_if, policy_invalid, event_invalid, result_invalid, receipt_invalid, live_patch_invalid,
  live_status_invalid, approvals_invalid, signed_refs_invalid, event_digest, result_digest,
  guard_issues, guard_decision, evaluate_canonical_guard,
}

module _ {ℓ} {A : Type ℓ} (lt : A → A → Bool) where
  is_nil-insert : (a : A) (xs : List A) → is_nil (insert lt a xs) ≡ false
  unfolding insert
  is_nil-insert a [] = refl
  is_nil-insert a (x ∷ xs) = ground arith

  is_nil-sort : (xs : List A) → is_nil (sort lt xs) ≡ is_nil xs
  unfolding sort
  is_nil-sort [] = refl
  is_nil-sort (x ∷ xs) = is_nil-insert x (sort lt xs)

is_nil-dedup {ℓ} : {A : Type ℓ} ⦃e : Eq A⦄ (xs : List A) → is_nil (dedup xs) ≡ is_nil xs
unfolding dedup
is_nil-dedup [] = refl
is_nil-dedup (x ∷ []) = refl
is_nil-dedup (x ∷ y ∷ xs) = ground (arith, is_nil-dedup (y ∷ xs))

is_nil-issue_if :
    (bad : Bool) (code path : String) (issues : List GuardIssue)
    → is_nil (issue_if bad code path issues) ≡ (is_nil issues && not bad)
unfolding issue_if
is_nil-issue_if bad code path [] = ground arith
is_nil-issue_if bad code path (i ∷ issues) = ground arith

module _ (d : Digest) (policy : ForgeGuardPolicyV1) (event : AdmittedEventV1) (result : JobResultV1)
    (valence : ValenceAdmissionReceiptV1) (live : LiveGuardObservationV1) where
  -- Every one of the eight checks passes.
  pub record AllPass : Type 0 where
    pub policy_passes : policy_invalid policy ≡ false
    pub event_passes : event_invalid policy event (event_digest d event) ≡ false
    pub result_passes : result_invalid policy event result (result_digest d result) ≡ false
    pub receipt_passes :
        receipt_invalid d policy valence (event_digest d event) (result_digest d result) ≡ false
    pub patch_passes : live_patch_invalid policy event result valence live ≡ false
    pub status_passes :
        live_status_invalid d policy event result live
          (event_digest d event)
          (result_digest d result)
        ≡ false
    pub approvals_pass : approvals_invalid policy valence live ≡ false
    pub signed_refs_pass : signed_refs_invalid policy live ≡ false

  guard_issues_iff : (is_nil (guard_issues d policy event result valence live) ≡ true) ↔ AllPass
  unfolding guard_issues
  guard_issues_iff = (
    λ h.
        let passes = simp is_nil-issue_if at h in
        record {
          policy_passes = ground arith;
          event_passes = ground arith;
          result_passes = ground arith;
          receipt_passes = ground arith;
          patch_passes = ground arith;
          status_passes = ground arith;
          approvals_pass = ground arith;
          signed_refs_pass = ground arith;
        },
    λ p. simp (
      is_nil-issue_if, p.policy_passes, p.event_passes, p.result_passes, p.receipt_passes,
      p.patch_passes, p.status_passes, p.approvals_pass, p.signed_refs_pass,
    ),
  )

  is_nil-issues :
      is_nil (dedup (sort issue_lt (guard_issues d policy event result valence live)))
      ≡ is_nil (guard_issues d policy event result valence live)
  is_nil-issues = is_nil-dedup (sort issue_lt _) ∙ is_nil-sort issue_lt _

  -- The guard admits exactly if all eight checks pass. An admitting report has no issue and carries
  -- the decision; a denying one has at least one issue and carries no decision.
  pub evaluate_canonical_guard_iff :
      let report = evaluate_canonical_guard d policy event result valence live in
      ((report.admitted ≡ true) ↔ AllPass)
      × ((report.admitted ≡ true)
          → (report.issues ≡ [])
            × (report.decision ≡ some (guard_decision d policy event result valence live)))
      × ((report.admitted ≡ false) → (report.issues ≢ []) × (report.decision ≡ none))
  unfolding evaluate_canonical_guard
  evaluate_canonical_guard_iff =
      let same = is_nil-issues in
      (
        (
          λ h. guard_issues_iff.0 (ground (arith, same)),
          λ p. ground (arith, same, guard_issues_iff.1 p),
        ),
        λ h. (ground (arith, same), ground (arith, same)),
        λ h. (ground (arith, same), ground (arith, same)),
      )
