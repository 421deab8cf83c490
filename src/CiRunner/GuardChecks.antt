-- ===== src/CiRunner/GuardChecks.antt =====
-- The constants and text predicates of `pkgs/radicle-ci-runner/src/guard.rs`, and its digest of a
-- serialized value. Its `radicle_id` is stricter than that of `lib.rs`.
use Prim.Native.String.{len}
use onix_core.Base.{
  ℕ, String, Bool, List, [], ◌∷◌, not, ◌&&◌, ◌||◌, leb, ltb, all, any, ◌==◌, string_eq, ℕ-eq,
}
use onix_core.Base.Results.{Result, ok, ◌>>=◌, ok_or}
use onix_core.Base.Text.{codes, is_control, is_ascii_digit, is_ascii_alphanumeric}
use onix_core.CiRunner.Types.{AdmittedEventV1, JobResultV1, Diagnostic, diagnostic}
use onix_core.CiRunner.Checks.{
  blake3_hex_length, git_oid_hex_length, max_text_bytes, has_prefix, is_empty,
}
use onix_core.CiRunner.Digest.{
  Fact, text, texts, number, optional_text, optional_int, trigger_class, runner_disposition,
  lock_identity, Digest,
}

abbrev pub status_schema : String
status_schema = "onix.radicle-ci-status.v1"

abbrev pub guard_policy_schema : String
guard_policy_schema = "onix.radicle-forge-guard.v1"

abbrev pub guard_decision_schema : String
guard_decision_schema = "onix.radicle-forge-guard-decision.v1"

abbrev pub valence_admission_schema : String
valence_admission_schema = "valence.radicle-forge-operations.ci-admission.v1"

abbrev pub status_claim_scope : String
status_claim_scope = "signed-bot-ci-observation-only"

abbrev pub status_non_claim : String
status_non_claim =
    "signed CI status records one bounded observation; it is not merge, canonical-ref, or release approval"

abbrev pub guard_claim_scope : String
guard_claim_scope = "operator-atomic-compare-and-swap-input"

abbrev pub valence_claim_scope : String
valence_claim_scope = "external-guarded-compare-and-swap-input"

abbrev pub succeeded_disposition : String
succeeded_disposition = "succeeded"

abbrev pub canonical_target_ref : String
canonical_target_ref = "refs/heads/main"

abbrev pub admission_non_claims : List String
admission_non_claims =
    "migration records normalized source metadata and observed native COB state; it does not prove source export completeness, source actor authenticity, original signature or timestamp preservation, or semantic equivalence"
    ∷ "imported review metadata is recorded attribution only and does not create Radicle approval, merge eligibility, delegate authority, or canonical-ref authority"
    ∷ "CI admission is bounded input for an external guarded compare-and-swap; it is not protocol-enforced mandatory CI, bypass-proof delegate behavior, canonical mutation, CI correctness, or release readiness"
    ∷ []

abbrev pub guard_non_claims : List String
guard_non_claims =
    "guard admission does not provide Radicle protocol-enforced mandatory CI, bypass-proof delegate behavior, or merge semantics"
    ∷ "guard execution does not grant canonical authority to the CI bot, credentialless runner, seeds, or Valence"
    ∷ "guard execution receipt does not prove CI correctness, seed convergence, replication, release readiness, or post-update durability"
    ∷ []

unfoldable pub one_line : String → Bool
unfolding is_control is_empty
one_line value =
    not (is_empty value)
    && leb (len value) max_text_bytes
    && not (any (λ c. c == 0) (codes value))
    && not (any is_control (codes value))

-- The part that `did` and `radicle_id` share: longer than the prefix, bounded, and made of ASCII
-- letters, digits and colons.
unfoldable pub prefixed_id : String → String → Bool
unfolding has_prefix is_ascii_alphanumeric
prefixed_id prefix value =
    has_prefix value prefix
    && ltb (len prefix) (len value)
    && leb (len value) max_text_bytes
    && all (λ c. is_ascii_alphanumeric c || c == b':') (codes value)

unfoldable pub did : String → Bool
unfolding prefixed_id
did = prefixed_id "did:key:z"

unfoldable pub radicle_id : String → Bool
unfolding prefixed_id
radicle_id = prefixed_id "rad:z"

-- A digit, or a letter from a to f.
unfoldable pub lower_hex_byte : ℕ → Bool
unfolding is_ascii_digit
lower_hex_byte c = is_ascii_digit c || (leb b'a' c && leb c b'f')

unfoldable pub lower_hex : String → ℕ → Bool
unfolding lower_hex_byte
lower_hex value length = len value == length && all lower_hex_byte (codes value)

unfoldable pub git_oid : String → Bool
unfolding lower_hex
git_oid value = lower_hex value git_oid_hex_length

unfoldable pub blake3_digest : String → Bool
unfolding lower_hex
blake3_digest value = lower_hex value blake3_hex_length

-- The fields of a serialized event, and of a serialized result, in their order.
abbrev pub event_facts : AdmittedEventV1 → List Fact
event_facts e =
    text e.schema
    ∷ text e.job_id
    ∷ text e.policy_blake3
    ∷ text e.rid
    ∷ trigger_class e.trigger
    ∷ text e.reference
    ∷ text e.object_oid
    ∷ optional_text e.patch_id
    ∷ optional_text e.revision_id
    ∷ text e.signed_refs_feature
    ∷ text e.source_archive_blake3
    ∷ lock_identity e.locks
    ∷ text e.claim_scope
    ∷ []

abbrev pub result_facts : JobResultV1 → List Fact
result_facts r =
    text r.schema
    ∷ text r.job_id
    ∷ text r.rid
    ∷ trigger_class r.trigger
    ∷ text r.object_oid
    ∷ optional_text r.patch_id
    ∷ optional_text r.revision_id
    ∷ runner_disposition r.disposition
    ∷ optional_int r.exit_code
    ∷ number r.stdout_observed_bytes
    ∷ number r.stdout_retained_bytes
    ∷ text r.stdout_blake3
    ∷ number r.stderr_observed_bytes
    ∷ number r.stderr_retained_bytes
    ∷ text r.stderr_blake3
    ∷ number r.artifact_bytes
    ∷ text r.artifact_blake3
    ∷ text r.status_authority
    ∷ text r.claim_scope
    ∷ texts r.non_claims
    ∷ []

module _ (d : Digest) where
  unfoldable pub canonical_blake3 : List Fact → Result Diagnostic String
  canonical_blake3 value = do
    bytes ←
        ok_or (d.to_vec value)
          (diagnostic "guard-canonical-json" "guard identity facts could not be serialized")
    ok (d.blake3_hex bytes)
