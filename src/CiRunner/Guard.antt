-- ===== src/CiRunner/Guard.antt =====
-- The canonical guard of `pkgs/radicle-ci-runner/src/guard.rs`. Each `validate_*` function pushes
-- its issue under one condition, which is a definition of its own; `push_issue` with its guard is
-- `issue_if`, and the vector of issues is the list that the steps extend.
pub mod Report
pub mod Facts
pub mod Delegates
use onix_core.Base.{
  ℕ, String, Bool, true, false, Option, none, some, List, [], ◌∷◌, ◌++◌, not, ◌||◌, ltb, any,
  filter, length, is_nil, contains, ◌==◌, ◌!=◌, string_eq, option_eq, list_eq, ℕ-eq, if◌then◌else◌,
}
use onix_core.Base.Results.{Result, ok, err}
use onix_core.Base.Sort.{sort, dedup, unique_sorted}
use onix_core.CiRunner.Types.{
  patch, AdmittedEventV1, JobResultV1, succeeded, int_eq, Diagnostic, trigger_eq, disposition_eq,
}
use onix_core.CiRunner.Checks.{event_schema, result_schema, required_signed_refs_feature}
use onix_core.CiRunner.Digest.{Fact, text, texts, number, Digest}
use onix_core.CiRunner.Admission.{success_exit_code}
use onix_core.CiRunner.GuardTypes.{
  SignedStatusV1, ForgeGuardPolicyV1, ValenceAdmissionReceiptV1, LiveGuardObservationV1, GuardIssue,
  GuardDecisionV1, GuardReportV1, string_lt, issue_lt, issue_eq,
}
use onix_core.CiRunner.GuardChecks.{
  status_schema, guard_policy_schema, guard_decision_schema, valence_admission_schema,
  guard_claim_scope, valence_claim_scope, succeeded_disposition, canonical_target_ref,
  admission_non_claims, guard_non_claims, one_line, did, radicle_id, git_oid, blake3_digest,
  event_facts, result_facts, canonical_blake3,
}
use onix_core.CiRunner.Status.{validate_signed_status}

-- `unwrap_or_default` and `is_err` of a result, and of an optional text.
unfoldable pub text_or_default : Result Diagnostic String → String
text_or_default (ok s) = s
text_or_default (err e) = ""

unfoldable pub is_err : Result Diagnostic (Unit {0}) → Bool
is_err (ok u) = false
is_err (err e) = true

unfoldable pub option_or_default : Option String → String
option_or_default (some s) = s
option_or_default none = ""

-- `value.is_none_or(|value| !git_oid(value))`
unfoldable pub is_none_or_no_oid : Option String → Bool
is_none_or_no_oid none = true
is_none_or_no_oid (some value) = not (git_oid value)

-- `if bad { push_issue(issues, code, path); }`
unfoldable pub issue_if : Bool → String → String → List GuardIssue → List GuardIssue
issue_if bad code path issues =
    if bad then issues ++ (record { code = code; path = path } ∷ []) else issues

unfoldable pub policy_invalid : ForgeGuardPolicyV1 → Bool
policy_invalid policy =
    policy.schema != guard_policy_schema
    || policy.status_schema != status_schema
    || policy.admission_schema != valence_admission_schema
    || policy.event_schema != event_schema
    || policy.result_schema != result_schema
    || not (radicle_id policy.rid)
    || not (blake3_digest policy.ci_policy_blake3)
    || not (git_oid policy.valence_revision)
    || not (did policy.bot_did)
    || is_nil policy.delegates
    || policy.threshold == 0
    || ltb (length policy.delegates) policy.threshold
    || not (unique_sorted string_lt policy.delegates)
    || any (λ delegate. not (did delegate) || delegate == policy.bot_did) policy.delegates
    || not (one_line policy.required_check)
    || policy.target_ref != canonical_target_ref
    || policy.signed_refs_feature != required_signed_refs_feature
    || policy.admission_non_claims != admission_non_claims
    || policy.required_non_claims != guard_non_claims

unfoldable pub event_invalid : ForgeGuardPolicyV1 → AdmittedEventV1 → String → Bool
event_invalid policy event event_blake3 =
    event.schema != policy.event_schema
    || event.policy_blake3 != policy.ci_policy_blake3
    || event.rid != policy.rid
    || event.trigger != patch
    || is_none_or_no_oid event.patch_id
    || is_none_or_no_oid event.revision_id
    || not (git_oid event.object_oid)
    || event.signed_refs_feature != policy.signed_refs_feature
    || not (blake3_digest event_blake3)

unfoldable pub result_invalid : ForgeGuardPolicyV1 → AdmittedEventV1 → JobResultV1 → String → Bool
result_invalid policy event result result_blake3 =
    result.schema != policy.result_schema
    || result.job_id != event.job_id
    || result.rid != event.rid
    || result.trigger != event.trigger
    || result.object_oid != event.object_oid
    || result.patch_id != event.patch_id
    || result.revision_id != event.revision_id
    || result.disposition != succeeded
    || result.exit_code != some success_exit_code
    || not (blake3_digest result.artifact_blake3)
    || not (blake3_digest result_blake3)

abbrev pub receipt_facts : ValenceAdmissionReceiptV1 → List String → List Fact
receipt_facts r delegates =
    text valence_admission_schema
    ∷ text r.policy_blake3
    ∷ text r.rid
    ∷ text r.patch_id
    ∷ text r.revision_id
    ∷ text r.current_canonical_oid
    ∷ text r.candidate_oid
    ∷ text r.job_id
    ∷ text r.event_blake3
    ∷ text r.result_blake3
    ∷ text r.bot_did
    ∷ texts delegates
    ∷ number r.threshold
    ∷ text r.disposition
    ∷ text r.claim_scope
    ∷ texts r.required_non_claims
    ∷ []

unfoldable pub live_patch_invalid :
    ForgeGuardPolicyV1
    → AdmittedEventV1
    → JobResultV1
    → ValenceAdmissionReceiptV1
    → LiveGuardObservationV1
    → Bool
live_patch_invalid policy event result valence live =
    live.rid != policy.rid
    || live.patch_id != option_or_default event.patch_id
    || live.patch_id != valence.patch_id
    || live.revision_id != option_or_default event.revision_id
    || live.revision_id != valence.revision_id
    || live.candidate_oid != event.object_oid
    || live.candidate_oid != result.object_oid
    || live.candidate_oid != valence.candidate_oid
    || live.current_canonical_oid != valence.current_canonical_oid
    || live.target_ref != policy.target_ref
    || live.base_oid != live.current_canonical_oid
    || not live.candidate_present
    || not live.candidate_is_descendant
    || not live.canonical_observation_current
    || not live.evaluator_verified
    || live.signed_refs_feature != policy.signed_refs_feature

-- Not every one of the values is among the policy's delegates.
unfoldable pub any_foreign : ForgeGuardPolicyV1 → List String → Bool
any_foreign policy delegates = any (λ delegate. not (contains policy.delegates delegate)) delegates

unfoldable pub approvals_invalid :
    ForgeGuardPolicyV1 → ValenceAdmissionReceiptV1 → LiveGuardObservationV1 → Bool
approvals_invalid policy valence live =
    live.approving_delegates != valence.approving_delegates
    || ltb (length live.approving_delegates) policy.threshold
    || not (unique_sorted string_lt live.approving_delegates)
    || any_foreign policy live.approving_delegates

-- The signing delegates that also approve.
unfoldable pub signing_approvals : LiveGuardObservationV1 → List String
signing_approvals live =
    filter (λ delegate. contains live.approving_delegates delegate) live.signing_delegates

unfoldable pub signed_refs_invalid : ForgeGuardPolicyV1 → LiveGuardObservationV1 → Bool
signed_refs_invalid policy live =
    ltb (length live.signing_delegates) policy.threshold
    || ltb (length (signing_approvals live)) policy.threshold
    || not (unique_sorted string_lt live.signing_delegates)
    || any_foreign policy live.signing_delegates

unfoldable pub validate_guard_policy : ForgeGuardPolicyV1 → List GuardIssue → List GuardIssue
validate_guard_policy policy = issue_if (policy_invalid policy) "guard-policy" "policy"

unfoldable pub validate_event_result :
    ForgeGuardPolicyV1
    → AdmittedEventV1
    → JobResultV1
    → String
    → String
    → List GuardIssue
    → List GuardIssue
validate_event_result policy event result event_blake3 result_blake3 issues =
    issue_if (result_invalid policy event result result_blake3) "guard-result" "result"
      (issue_if (event_invalid policy event event_blake3) "guard-event" "event" issues)

module _ (d : Digest) where
  unfoldable pub receipt_invalid :
      ForgeGuardPolicyV1 → ValenceAdmissionReceiptV1 → String → String → Bool
  receipt_invalid policy receipt event_blake3 result_blake3 =
      let delegates = sort string_lt receipt.approving_delegates in
      let expected = text_or_default (canonical_blake3 d (receipt_facts receipt delegates)) in
      receipt.schema != policy.admission_schema
      || receipt.receipt_blake3 != expected
      || receipt.policy_blake3 != policy.ci_policy_blake3
      || receipt.rid != policy.rid
      || receipt.event_blake3 != event_blake3
      || receipt.result_blake3 != result_blake3
      || receipt.bot_did != policy.bot_did
      || receipt.threshold != policy.threshold
      || receipt.approving_delegates != delegates
      || ltb (length receipt.approving_delegates) policy.threshold
      || any_foreign policy receipt.approving_delegates
      || receipt.disposition != succeeded_disposition
      || receipt.claim_scope != valence_claim_scope
      || receipt.required_non_claims != policy.admission_non_claims
      || not (git_oid receipt.patch_id)
      || not (git_oid receipt.revision_id)
      || not (git_oid receipt.current_canonical_oid)
      || not (git_oid receipt.candidate_oid)

  unfoldable pub live_status_invalid :
      ForgeGuardPolicyV1
      → AdmittedEventV1
      → JobResultV1
      → LiveGuardObservationV1
      → String
      → String
      → Bool
  live_status_invalid policy event result live event_blake3 result_blake3 =
      is_err (validate_signed_status d live.status)
      || live.status_author_did != policy.bot_did
      || live.status.policy_blake3 != policy.ci_policy_blake3
      || live.status.rid != policy.rid
      || live.status.patch_id != live.patch_id
      || live.status.revision_id != live.revision_id
      || live.status.check_name != policy.required_check
      || live.status.job_id != event.job_id
      || live.status.object_oid != live.candidate_oid
      || live.status.disposition != result.disposition
      || live.status.artifact_blake3 != result.artifact_blake3
      || live.status.event_blake3 != event_blake3
      || live.status.result_blake3 != result_blake3

  unfoldable pub validate_valence_receipt :
      ForgeGuardPolicyV1
      → ValenceAdmissionReceiptV1
      → String
      → String
      → List GuardIssue
      → List GuardIssue
  validate_valence_receipt policy receipt event_blake3 result_blake3 =
      issue_if (receipt_invalid policy receipt event_blake3 result_blake3) "guard-valence-receipt"
        "valence"

  unfoldable pub validate_live_observation :
      ForgeGuardPolicyV1
      → AdmittedEventV1
      → JobResultV1
      → ValenceAdmissionReceiptV1
      → LiveGuardObservationV1
      → String
      → String
      → List GuardIssue
      → List GuardIssue
  validate_live_observation policy event result valence live event_blake3 result_blake3 issues =
      issue_if (signed_refs_invalid policy live) "guard-live-signed-refs" "live.signing_delegates" (
        issue_if (approvals_invalid policy valence live) "guard-live-approvals"
          "live.approving_delegates"
          (issue_if (live_status_invalid policy event result live event_blake3 result_blake3)
            "guard-live-status" "live.status"
            (issue_if (live_patch_invalid policy event result valence live) "guard-live-patch"
              "live" issues)))

  -- The digests that the guard computes for itself.
  unfoldable pub event_digest : AdmittedEventV1 → String
  unfolding text_or_default
  event_digest event = text_or_default (canonical_blake3 d (event_facts event))

  unfoldable pub result_digest : JobResultV1 → String
  unfolding text_or_default
  result_digest result = text_or_default (canonical_blake3 d (result_facts result))

  module _ (policy : ForgeGuardPolicyV1) (event : AdmittedEventV1) (result : JobResultV1)
      (valence : ValenceAdmissionReceiptV1) (live : LiveGuardObservationV1) where
    -- The issues in the order in which the checks push them.
    unfoldable pub guard_issues : List GuardIssue
    unfolding validate_guard_policy validate_event_result validate_valence_receipt
        validate_live_observation
    guard_issues =
        validate_live_observation policy event result valence live (event_digest event)
          (result_digest result)
          (validate_valence_receipt policy valence (event_digest event) (result_digest result) (
            validate_event_result policy event result (event_digest event) (result_digest result)
              (validate_guard_policy policy [])))

    abbrev pub decision_facts : List Fact
    decision_facts =
        text guard_decision_schema
        ∷ text policy.ci_policy_blake3
        ∷ text policy.valence_revision
        ∷ text policy.rid
        ∷ text live.patch_id
        ∷ text live.revision_id
        ∷ text policy.target_ref
        ∷ text live.current_canonical_oid
        ∷ text live.candidate_oid
        ∷ text event.job_id
        ∷ text (event_digest event)
        ∷ text (result_digest result)
        ∷ text live.status.status_blake3
        ∷ text valence.receipt_blake3
        ∷ texts live.approving_delegates
        ∷ texts live.signing_delegates
        ∷ number policy.threshold
        ∷ text guard_claim_scope
        ∷ texts policy.required_non_claims
        ∷ []

    abbrev pub guard_decision : GuardDecisionV1
    guard_decision = record {
      schema = guard_decision_schema;
      decision_blake3 = text_or_default (canonical_blake3 d decision_facts);
      ci_policy_blake3 = policy.ci_policy_blake3;
      valence_revision = policy.valence_revision;
      rid = policy.rid;
      patch_id = live.patch_id;
      revision_id = live.revision_id;
      target_ref = policy.target_ref;
      expected_old_oid = live.current_canonical_oid;
      candidate_oid = live.candidate_oid;
      job_id = event.job_id;
      event_blake3 = event_digest event;
      result_blake3 = result_digest result;
      status_blake3 = live.status.status_blake3;
      valence_receipt_blake3 = valence.receipt_blake3;
      approving_delegates = live.approving_delegates;
      signing_delegates = live.signing_delegates;
      threshold = policy.threshold;
      claim_scope = guard_claim_scope;
      required_non_claims = policy.required_non_claims;
    }

    -- Validate and materialize a deterministic exact-revision guard decision.
    unfoldable pub evaluate_canonical_guard : GuardReportV1
    unfolding sort dedup
    evaluate_canonical_guard =
        let issues = dedup (sort issue_lt guard_issues) in
        if not (is_nil issues)
        then record {
          schema = guard_decision_schema;
          admitted = false;
          issues = issues;
          decision = none;
        }
        else record {
          schema = guard_decision_schema;
          admitted = true;
          issues = [];
          decision = some guard_decision;
        }
