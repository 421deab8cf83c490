-- ===== src/CiRunner/Guard/Facts.antt =====
-- What the inputs of an admitting guard agree on, from `pkgs/radicle-ci-runner/src/guard.rs`.
use onix_core.Base.{
  String, true, false, Option, none, some, ◌≡◌, refl, ap, sym, ◌∙◌, arith, string_eq, option_eq,
  list_eq, ℕ-eq, eq_of_not-ne,
}
use onix_core.Base.Results.{Result, ok, err}
use onix_core.CiRunner.Types.{
  patch, AdmittedEventV1, JobResultV1, succeeded, int_eq, trigger_eq, disposition_eq, Diagnostic,
}
use onix_core.CiRunner.Digest.{Digest}
use onix_core.CiRunner.Admission.{success_exit_code}
use onix_core.CiRunner.GuardTypes.{
  ForgeGuardPolicyV1, ValenceAdmissionReceiptV1, LiveGuardObservationV1,
}
use onix_core.CiRunner.GuardChecks.{canonical_target_ref}
use onix_core.CiRunner.Status.{validate_signed_status}
use onix_core.CiRunner.Guard.{
  option_or_default, is_none_or_no_oid, is_err, policy_invalid, event_invalid, result_invalid,
  receipt_invalid, live_patch_invalid, live_status_invalid, event_digest, result_digest,
  evaluate_canonical_guard,
}
use onix_core.CiRunner.Guard.Report.{AllPass, evaluate_canonical_guard_iff}

some_of_oid :
    (o : Option String) {s : String}
    → is_none_or_no_oid o ≡ false
    → s ≡ option_or_default o
    → o ≡ some s
unfolding is_none_or_no_oid option_or_default
some_of_oid none h e = cc
some_of_oid (some t) h e = ap some (sym e)

ok_of_not-err : (r : Result Diagnostic (Unit {0})) → is_err r ≡ false → r ≡ ok tt
unfolding is_err
ok_of_not-err (ok u) h = refl
ok_of_not-err (err e) h = cc

module _ (d : Digest) (policy : ForgeGuardPolicyV1) (event : AdmittedEventV1) (result : JobResultV1)
    (valence : ValenceAdmissionReceiptV1) (live : LiveGuardObservationV1) where
  -- One exact revision: every input names the same repository, patch, revision and object, the event,
  -- the result and the status the same job, and the canonical head that the receipt and the
  -- observation saw is the patch's base. The receipt's own job identity is not among the fields: the
  -- code compares it with nothing but the receipt's digest.
  pub record IsExactRevision : Type 0 where
    pub main : live.target_ref ≡ canonical_target_ref
    pub event_rid : event.rid ≡ policy.rid
    pub result_rid : result.rid ≡ policy.rid
    pub receipt_rid : valence.rid ≡ policy.rid
    pub live_rid : live.rid ≡ policy.rid
    pub status_rid : live.status.rid ≡ policy.rid
    pub triggered : event.trigger ≡ patch
    pub event_patch : event.patch_id ≡ some live.patch_id
    pub result_trigger : result.trigger ≡ patch
    pub result_patch : result.patch_id ≡ some live.patch_id
    pub receipt_patch : valence.patch_id ≡ live.patch_id
    pub status_patch : live.status.patch_id ≡ live.patch_id
    pub event_revision : event.revision_id ≡ some live.revision_id
    pub result_revision : result.revision_id ≡ some live.revision_id
    pub receipt_revision : valence.revision_id ≡ live.revision_id
    pub status_revision : live.status.revision_id ≡ live.revision_id
    pub event_object : event.object_oid ≡ live.candidate_oid
    pub result_object : result.object_oid ≡ live.candidate_oid
    pub receipt_object : valence.candidate_oid ≡ live.candidate_oid
    pub status_object : live.status.object_oid ≡ live.candidate_oid
    pub result_job : result.job_id ≡ event.job_id
    pub status_job : live.status.job_id ≡ event.job_id
    pub base : live.base_oid ≡ live.current_canonical_oid
    pub receipt_base : valence.current_canonical_oid ≡ live.current_canonical_oid
    pub present : live.candidate_present ≡ true
    pub descendant : live.candidate_is_descendant ≡ true
    pub current : live.canonical_observation_current ≡ true
    pub evaluated : live.evaluator_verified ≡ true
    pub success : result.disposition ≡ succeeded
    pub exit_zero : result.exit_code ≡ some success_exit_code
    pub status_success : live.status.disposition ≡ succeeded
    pub artifact : live.status.artifact_blake3 ≡ result.artifact_blake3
    pub receipt_policy : valence.policy_blake3 ≡ policy.ci_policy_blake3
    pub receipt_threshold : valence.threshold ≡ policy.threshold
    pub receipt_event : valence.event_blake3 ≡ event_digest d event
    pub status_event : live.status.event_blake3 ≡ event_digest d event
    pub receipt_result : valence.result_blake3 ≡ result_digest d result
    pub status_result : live.status.result_blake3 ≡ result_digest d result
    pub author : live.status_author_did ≡ policy.bot_did
    pub receipt_bot : valence.bot_did ≡ policy.bot_did
    pub status_valid : validate_signed_status d live.status ≡ ok tt

  event_check :
      event_invalid policy event (event_digest d event) ≡ false
      → (event.rid ≡ policy.rid)
        × (event.trigger ≡ patch)
        × (is_none_or_no_oid event.patch_id ≡ false)
        × (is_none_or_no_oid event.revision_id ≡ false)
  unfolding event_invalid
  event_check h =
      (eq_of_not-ne (ground arith), eq_of_not-ne (ground arith), ground arith, ground arith)

  result_check :
      result_invalid policy event result (result_digest d result) ≡ false
      → (result.job_id ≡ event.job_id)
        × (result.rid ≡ event.rid)
        × (result.object_oid ≡ event.object_oid)
        × (result.disposition ≡ succeeded)
        × (result.exit_code ≡ some success_exit_code)
        × (result.trigger ≡ event.trigger)
        × (result.patch_id ≡ event.patch_id)
        × (result.revision_id ≡ event.revision_id)
  unfolding result_invalid
  result_check h = (
    eq_of_not-ne (ground arith),
    eq_of_not-ne (ground arith),
    eq_of_not-ne (ground arith),
    eq_of_not-ne (ground arith),
    eq_of_not-ne (ground arith),
    eq_of_not-ne (ground arith),
    eq_of_not-ne (ground arith),
    eq_of_not-ne (ground arith),
  )

  receipt_check :
      receipt_invalid d policy valence (event_digest d event) (result_digest d result) ≡ false
      → (valence.rid ≡ policy.rid)
        × (valence.event_blake3 ≡ event_digest d event)
        × (valence.result_blake3 ≡ result_digest d result)
        × (valence.bot_did ≡ policy.bot_did)
        × (valence.policy_blake3 ≡ policy.ci_policy_blake3)
        × (valence.threshold ≡ policy.threshold)
  unfolding receipt_invalid
  receipt_check h = (
    eq_of_not-ne (ground arith),
    eq_of_not-ne (ground arith),
    eq_of_not-ne (ground arith),
    eq_of_not-ne (ground arith),
    eq_of_not-ne (ground arith),
    eq_of_not-ne (ground arith),
  )

  live_check :
      live_patch_invalid policy event result valence live ≡ false
      → (live.rid ≡ policy.rid)
        × (live.patch_id ≡ option_or_default event.patch_id)
        × (live.patch_id ≡ valence.patch_id)
        × (live.revision_id ≡ option_or_default event.revision_id)
        × (live.revision_id ≡ valence.revision_id)
        × (live.candidate_oid ≡ event.object_oid)
        × (live.candidate_oid ≡ valence.candidate_oid)
        × (live.current_canonical_oid ≡ valence.current_canonical_oid)
        × (live.target_ref ≡ policy.target_ref)
        × (live.base_oid ≡ live.current_canonical_oid)
        × (live.candidate_present ≡ true)
        × (live.candidate_is_descendant ≡ true)
        × (live.canonical_observation_current ≡ true)
        × (live.evaluator_verified ≡ true)
  unfolding live_patch_invalid
  live_check h = (
    eq_of_not-ne (ground arith),
    eq_of_not-ne (ground arith),
    eq_of_not-ne (ground arith),
    eq_of_not-ne (ground arith),
    eq_of_not-ne (ground arith),
    eq_of_not-ne (ground arith),
    eq_of_not-ne (ground arith),
    eq_of_not-ne (ground arith),
    eq_of_not-ne (ground arith),
    eq_of_not-ne (ground arith),
    ground arith,
    ground arith,
    ground arith,
    ground arith,
  )

  status_check :
      live_status_invalid d policy event result live (event_digest d event) (result_digest d result)
        ≡ false
      → (is_err (validate_signed_status d live.status) ≡ false)
        × (live.status_author_did ≡ policy.bot_did)
        × (live.status.rid ≡ policy.rid)
        × (live.status.patch_id ≡ live.patch_id)
        × (live.status.revision_id ≡ live.revision_id)
        × (live.status.job_id ≡ event.job_id)
        × (live.status.object_oid ≡ live.candidate_oid)
        × (live.status.disposition ≡ result.disposition)
        × (live.status.artifact_blake3 ≡ result.artifact_blake3)
        × (live.status.event_blake3 ≡ event_digest d event)
        × (live.status.result_blake3 ≡ result_digest d result)
  unfolding live_status_invalid
  status_check h = (
    ground arith,
    eq_of_not-ne (ground arith),
    eq_of_not-ne (ground arith),
    eq_of_not-ne (ground arith),
    eq_of_not-ne (ground arith),
    eq_of_not-ne (ground arith),
    eq_of_not-ne (ground arith),
    eq_of_not-ne (ground arith),
    eq_of_not-ne (ground arith),
    eq_of_not-ne (ground arith),
    eq_of_not-ne (ground arith),
  )

  policy_check : policy_invalid policy ≡ false → policy.target_ref ≡ canonical_target_ref
  unfolding policy_invalid
  policy_check h = eq_of_not-ne (ground arith)

  AllPass-IsExactRevision : AllPass d policy event result valence live → IsExactRevision
  AllPass-IsExactRevision p =
      let e = event_check p.event_passes in
      let r = result_check p.result_passes in
      let v = receipt_check p.receipt_passes in
      let l = live_check p.patch_passes in
      let s = status_check p.status_passes in
      record {
        main = l.8 ∙ policy_check p.policy_passes;
        event_rid = e.0;
        result_rid = r.1 ∙ e.0;
        receipt_rid = v.0;
        live_rid = l.0;
        status_rid = s.2;
        triggered = e.1;
        event_patch = some_of_oid event.patch_id e.2 l.1;
        result_trigger = r.5 ∙ e.1;
        result_patch = r.6 ∙ some_of_oid event.patch_id e.2 l.1;
        receipt_patch = sym l.2;
        status_patch = s.3;
        event_revision = some_of_oid event.revision_id e.3 l.3;
        result_revision = r.7 ∙ some_of_oid event.revision_id e.3 l.3;
        receipt_revision = sym l.4;
        status_revision = s.4;
        event_object = sym l.5;
        result_object = r.2 ∙ sym l.5;
        receipt_object = sym l.6;
        status_object = s.6;
        result_job = r.0;
        status_job = s.5;
        base = l.9;
        receipt_base = sym l.7;
        present = l.10;
        descendant = l.11;
        current = l.12;
        evaluated = l.13;
        success = r.3;
        exit_zero = r.4;
        status_success = s.7 ∙ r.3;
        artifact = s.8;
        receipt_policy = v.4;
        receipt_threshold = v.5;
        receipt_event = v.1;
        status_event = s.9;
        receipt_result = v.2;
        status_result = s.10;
        author = s.1;
        receipt_bot = v.3;
        status_valid = ok_of_not-err (validate_signed_status d live.status) s.0;
      }

  -- An admitted revision is exact: the event, the result, the receipt, the live observation and the
  -- signed status name one repository, patch, revision and object, and the event, the result and the
  -- status one job (the job that the receipt names is not compared); the run succeeded with exit code
  -- 0, the digests in the receipt and the status are those of this event and this result, the receipt
  -- is for the policy's digest and threshold, the target is the canonical main branch, and the head it
  -- replaces is the patch's base as seen live.
  pub evaluate_canonical_guard-IsExactRevision :
      (evaluate_canonical_guard d policy event result valence live).admitted ≡ true
      → IsExactRevision
  evaluate_canonical_guard-IsExactRevision h =
      AllPass-IsExactRevision
        ((evaluate_canonical_guard_iff d policy event result valence live).0.0 h)
