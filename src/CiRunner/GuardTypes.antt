-- ===== src/CiRunner/GuardTypes.antt =====
-- The guard's data, from `pkgs/radicle-ci-runner/src/lib.rs`.
use onix_core.Base.{ℕ, String, Bool, Option, List, ◌≡◌, ◌↔◌, true, ◌&&◌, ◌||◌, arith}
use onix_core.Base.{Eq, ◌==◌, string_eq}
use onix_core.Base.Text.{codes, text_lt}
use onix_core.CiRunner.Types.{RunnerDisposition}

pub record SignedStatusV1 : Type 0 where
  pub schema : String
  pub status_blake3 : String
  pub policy_blake3 : String
  pub rid : String
  pub patch_id : String
  pub revision_id : String
  pub check_name : String
  pub job_id : String
  pub object_oid : String
  pub disposition : RunnerDisposition
  pub artifact_blake3 : String
  pub event_blake3 : String
  pub result_blake3 : String
  pub claim_scope : String
  pub non_claim : String

pub record ForgeGuardPolicyV1 : Type 0 where
  pub schema : String
  pub status_schema : String
  pub admission_schema : String
  pub event_schema : String
  pub result_schema : String
  pub rid : String
  pub ci_policy_blake3 : String
  pub valence_revision : String
  pub bot_did : String
  pub delegates : List String
  pub threshold : ℕ
  pub required_check : String
  pub target_ref : String
  pub signed_refs_feature : String
  pub admission_non_claims : List String
  pub required_non_claims : List String

pub record ValenceAdmissionReceiptV1 : Type 0 where
  pub schema : String
  pub receipt_blake3 : String
  pub policy_blake3 : String
  pub rid : String
  pub patch_id : String
  pub revision_id : String
  pub current_canonical_oid : String
  pub candidate_oid : String
  pub job_id : String
  pub event_blake3 : String
  pub result_blake3 : String
  pub bot_did : String
  pub approving_delegates : List String
  pub threshold : ℕ
  pub disposition : String
  pub claim_scope : String
  pub required_non_claims : List String

pub record LiveGuardObservationV1 : Type 0 where
  pub rid : String
  pub patch_id : String
  pub revision_id : String
  pub base_oid : String
  pub candidate_oid : String
  pub target_ref : String
  pub current_canonical_oid : String
  pub candidate_present : Bool
  pub candidate_is_descendant : Bool
  pub canonical_observation_current : Bool
  pub evaluator_verified : Bool
  pub signed_refs_feature : String
  pub status_author_did : String
  pub status : SignedStatusV1
  pub approving_delegates : List String
  pub signing_delegates : List String

pub record GuardIssue : Type 0 where
  pub code : String
  pub path : String

pub record GuardDecisionV1 : Type 0 where
  pub schema : String
  pub decision_blake3 : String
  pub ci_policy_blake3 : String
  pub valence_revision : String
  pub rid : String
  pub patch_id : String
  pub revision_id : String
  pub target_ref : String
  pub expected_old_oid : String
  pub candidate_oid : String
  pub job_id : String
  pub event_blake3 : String
  pub result_blake3 : String
  pub status_blake3 : String
  pub valence_receipt_blake3 : String
  pub approving_delegates : List String
  pub signing_delegates : List String
  pub threshold : ℕ
  pub claim_scope : String
  pub required_non_claims : List String

pub record GuardReportV1 : Type 0 where
  pub schema : String
  pub admitted : Bool
  pub issues : List GuardIssue
  pub decision : Option GuardDecisionV1

-- The order of `String`.
unfoldable pub string_lt : String → String → Bool
unfolding text_lt
string_lt a b = text_lt (codes a) (codes b)

-- The derived order: by code, then by path.
unfoldable pub issue_lt : GuardIssue → GuardIssue → Bool
unfolding string_lt
issue_lt a b = string_lt a.code b.code || (a.code == b.code && string_lt a.path b.path)

issue_beq : GuardIssue → GuardIssue → Bool
issue_beq a b = a.code == b.code && a.path == b.path

issue_beq_iff : (a b : GuardIssue) → (issue_beq a b ≡ true) ↔ (a ≡ b)
unfolding issue_beq
issue_beq_iff a b = ground (arith, string_eq.beq_iff a.code b.code, string_eq.beq_iff a.path b.path)

instance unfoldable pub issue_eq : Eq GuardIssue
unfolding issue_beq issue_beq_iff
issue_eq = record { beq = issue_beq; beq_iff = issue_beq_iff }
