-- ===== src/CiRunner/Tests/Samples.antt =====
-- The sample values of the tests in `pkgs/radicle-ci-runner/src/guard.rs`.
use onix_core.Base.{String, true, some, List, [], ◌∷◌}
use onix_core.Base.Text.{Text, codes}
use onix_core.CiRunner.Types.{
  LockIdentityV1, RunnerLimitsV1, RunnerConfigV1, patch, CandidateV1, AdmittedEventV1, succeeded,
  pos, ObservationV1, JobResultV1,
}
use onix_core.CiRunner.Checks.{
  config_schema, event_schema, result_schema, required_signed_refs_feature,
}
use onix_core.CiRunner.Digest.{Digest}
use onix_core.CiRunner.Admission.{admitted_event, job_result}
use onix_core.CiRunner.GuardTypes.{
  SignedStatusV1, ForgeGuardPolicyV1, ValenceAdmissionReceiptV1, LiveGuardObservationV1,
}
use onix_core.CiRunner.GuardChecks.{
  status_schema, guard_policy_schema, valence_admission_schema, status_claim_scope,
  status_non_claim, valence_claim_scope, succeeded_disposition, canonical_target_ref,
  admission_non_claims, guard_non_claims,
}

abbrev pub digest_a : String
digest_a = "aaaaaaaaaaaaaaaaaaaaaaaaaaaaaaaaaaaaaaaaaaaaaaaaaaaaaaaaaaaaaaaa"

abbrev pub sample_rid : String
sample_rid = "rad:z2CpqLFpdP36fZXYUK5ZNWxMibpCo"

abbrev pub sample_patch : String
sample_patch = "1111111111111111111111111111111111111111"

abbrev pub sample_revision : String
sample_revision = "2222222222222222222222222222222222222222"

abbrev pub sample_base : String
sample_base = "3333333333333333333333333333333333333333"

abbrev pub sample_head : String
sample_head = "4444444444444444444444444444444444444444"

abbrev pub sample_bot : String
sample_bot = "did:key:z6Mbotbotbotbotbotbotbotbotbotbotbotbotbotbotbotbot"

abbrev pub sample_delegates : List String
sample_delegates =
    "did:key:z6MdelegateAAAAAAAAAAAAAAAAAAAAAAAAAAAAAAAAAAAAAAAA"
    ∷ "did:key:z6MdelegateBBBBBBBBBBBBBBBBBBBBBBBBBBBBBBBBBBBBBBBB" ∷ []

-- A digest of one text, which meets the documented form.
abbrev pub constant_digest : Digest
constant_digest = record { to_vec = λ facts. some []; blake3_hex = λ bytes. digest_a }

abbrev pub sample_locks : LockIdentityV1
sample_locks = record {
  cargo_toml_blake3 = digest_a;
  cargo_lock_blake3 = digest_a;
  flake_nix_blake3 = digest_a;
  flake_lock_blake3 = digest_a;
}

abbrev pub sample_limits : RunnerLimitsV1
sample_limits = record {
  timeout_ms = 900_000;
  stdin_max_bytes = 1;
  stdout_max_bytes = 1_048_576;
  stderr_max_bytes = 1_048_576;
  poll_interval_ms = 25;
  teardown_timeout_ms = 5_000;
  artifact_max_bytes = 67_108_864;
  memory_max_bytes = 8_589_934_592;
  cpu_quota_percent = 200;
  max_parallel_jobs = 1;
}

abbrev pub sample_config : RunnerConfigV1
sample_config = record {
  schema = config_schema;
  rid = sample_rid;
  signed_refs_feature = required_signed_refs_feature;
  production_seed = "z6Mkseed@127.0.0.1:8776";
  production_seed_node_id = "z6Mkseed";
  production_seed_address = "127.0.0.1:8776";
  reviewed_commit = sample_base;
  policy_blake3 = digest_a;
  check_name = "onix/ci/v1";
  bot_public_key = "ssh-ed25519 AAAA";
  bot_node_id = "z6Mbot";
  bot_fingerprint = "SHA256:bot";
  delegates = sample_delegates;
  expected_locks = sample_locks;
  command_program = "/nix/store/nix/bin/nix";
  command_arguments = "build" ∷ "--no-update-lock-file" ∷ [];
  allowed_input_uris = "github:NixOS/nixpkgs/revision" ∷ [];
  git_program = "/nix/store/git/bin/git";
  nix_program = "/nix/store/nix/bin/nix";
  nix_conf_dir = "/nix/store/nix-conf";
  tar_program = "/nix/store/tar/bin/tar";
  rad_program = "/nix/store/rad/bin/rad";
  ssh_program = "/nix/store/ssh/bin/ssh";
  storage_path = "/var/lib/bot/storage";
  bot_state_path = "/var/lib/bot";
  exchange_path = "/var/lib/exchange";
  runner_state_path = "/var/lib/runner";
  artifact_path = "/var/lib/artifacts";
  local_store_root = "/var/lib/runner/store";
  limits = sample_limits;
}

abbrev pub sample_candidate : CandidateV1
sample_candidate = record {
  rid = sample_rid;
  trigger = patch;
  reference = "refs/cobs/xyz.radicle.patch/1111111111111111111111111111111111111111";
  object_oid = sample_head;
  patch_id = some sample_patch;
  revision_id = some sample_revision;
  object_present_locally = true;
  object_is_current = true;
  signed_refs_feature = required_signed_refs_feature;
  delegate_alignment_verified = true;
  observed_locks = sample_locks;
}

abbrev pub sample_event : AdmittedEventV1
sample_event = admitted_event sample_config sample_candidate digest_a digest_a

abbrev pub sample_observation : ObservationV1
sample_observation = record {
  disposition = succeeded;
  exit_code = some (pos 0);
  stdout_observed_bytes = 1;
  stdout_retained_bytes = 1;
  stdout_blake3 = digest_a;
  stderr_observed_bytes = 0;
  stderr_retained_bytes = 0;
  stderr_blake3 = digest_a;
  artifact_bytes = 1;
  artifact_blake3 = digest_a;
}

abbrev pub sample_result : JobResultV1
sample_result = job_result sample_event sample_observation

abbrev pub sample_status : SignedStatusV1
sample_status = record {
  schema = status_schema;
  status_blake3 = digest_a;
  policy_blake3 = digest_a;
  rid = sample_rid;
  patch_id = sample_patch;
  revision_id = sample_revision;
  check_name = "onix/ci/v1";
  job_id = digest_a;
  object_oid = sample_head;
  disposition = succeeded;
  artifact_blake3 = digest_a;
  event_blake3 = digest_a;
  result_blake3 = digest_a;
  claim_scope = status_claim_scope;
  non_claim = status_non_claim;
}

abbrev pub sample_policy : ForgeGuardPolicyV1
sample_policy = record {
  schema = guard_policy_schema;
  status_schema = status_schema;
  admission_schema = valence_admission_schema;
  event_schema = event_schema;
  result_schema = result_schema;
  rid = sample_rid;
  ci_policy_blake3 = digest_a;
  valence_revision = "e822bdf5395d6e1a77786c538ac0aaa13ef8c165";
  bot_did = sample_bot;
  delegates = sample_delegates;
  threshold = 2;
  required_check = "onix/ci/v1";
  target_ref = canonical_target_ref;
  signed_refs_feature = required_signed_refs_feature;
  admission_non_claims = admission_non_claims;
  required_non_claims = guard_non_claims;
}

abbrev pub sample_receipt : ValenceAdmissionReceiptV1
sample_receipt = record {
  schema = valence_admission_schema;
  receipt_blake3 = digest_a;
  policy_blake3 = digest_a;
  rid = sample_rid;
  patch_id = sample_patch;
  revision_id = sample_revision;
  current_canonical_oid = sample_base;
  candidate_oid = sample_head;
  job_id = digest_a;
  event_blake3 = digest_a;
  result_blake3 = digest_a;
  bot_did = sample_bot;
  approving_delegates = sample_delegates;
  threshold = 2;
  disposition = succeeded_disposition;
  claim_scope = valence_claim_scope;
  required_non_claims = admission_non_claims;
}

abbrev pub sample_live : LiveGuardObservationV1
sample_live = record {
  rid = sample_rid;
  patch_id = sample_patch;
  revision_id = sample_revision;
  base_oid = sample_base;
  candidate_oid = sample_head;
  target_ref = canonical_target_ref;
  current_canonical_oid = sample_base;
  candidate_present = true;
  candidate_is_descendant = true;
  canonical_observation_current = true;
  evaluator_verified = true;
  signed_refs_feature = required_signed_refs_feature;
  status_author_did = sample_bot;
  status = sample_status;
  approving_delegates = sample_delegates;
  signing_delegates = sample_delegates;
}

abbrev pub sample_text : Text
sample_text = codes "{}"
