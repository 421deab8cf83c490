-- ===== src/CiRunner/Types.antt =====
-- The data of `pkgs/radicle-ci-runner/src/lib.rs`. Its `u64` and `usize` fields are plain numbers:
-- the crate's pure part compares and copies them and does no arithmetic on them.
use onix_core.Base.{ℕ, String, Bool, Option, List, ◌≡◌, ◌↔◌, true, false, ◌&&◌, arith}
use onix_core.Base.{Eq, ◌==◌, string_eq, ℕ-eq}

pub record LockIdentityV1 : Type 0 where
  pub cargo_toml_blake3 : String
  pub cargo_lock_blake3 : String
  pub flake_nix_blake3 : String
  pub flake_lock_blake3 : String

pub record RunnerLimitsV1 : Type 0 where
  pub timeout_ms : ℕ
  pub stdin_max_bytes : ℕ
  pub stdout_max_bytes : ℕ
  pub stderr_max_bytes : ℕ
  pub poll_interval_ms : ℕ
  pub teardown_timeout_ms : ℕ
  pub artifact_max_bytes : ℕ
  pub memory_max_bytes : ℕ
  pub cpu_quota_percent : ℕ
  pub max_parallel_jobs : ℕ

pub record RunnerConfigV1 : Type 0 where
  pub schema : String
  pub rid : String
  pub signed_refs_feature : String
  pub production_seed : String
  pub production_seed_node_id : String
  pub production_seed_address : String
  pub reviewed_commit : String
  pub policy_blake3 : String
  pub check_name : String
  pub bot_public_key : String
  pub bot_node_id : String
  pub bot_fingerprint : String
  pub delegates : List String
  pub expected_locks : LockIdentityV1
  pub command_program : String
  pub command_arguments : List String
  pub allowed_input_uris : List String
  pub git_program : String
  pub nix_program : String
  pub nix_conf_dir : String
  pub tar_program : String
  pub rad_program : String
  pub ssh_program : String
  pub storage_path : String
  pub bot_state_path : String
  pub exchange_path : String
  pub runner_state_path : String
  pub artifact_path : String
  pub local_store_root : String
  pub limits : RunnerLimitsV1

pub data TriggerClass : Type 0 where
  patch canonical_branch canonical_tag : TriggerClass

pub record CandidateV1 : Type 0 where
  pub rid : String
  pub trigger : TriggerClass
  pub reference : String
  pub object_oid : String
  pub patch_id : Option String
  pub revision_id : Option String
  pub object_present_locally : Bool
  pub object_is_current : Bool
  pub signed_refs_feature : String
  pub delegate_alignment_verified : Bool
  pub observed_locks : LockIdentityV1

pub record AdmittedEventV1 : Type 0 where
  pub schema : String
  pub job_id : String
  pub policy_blake3 : String
  pub rid : String
  pub trigger : TriggerClass
  pub reference : String
  pub object_oid : String
  pub patch_id : Option String
  pub revision_id : Option String
  pub signed_refs_feature : String
  pub source_archive_blake3 : String
  pub locks : LockIdentityV1
  pub claim_scope : String

pub data RunnerDisposition : Type 0 where
  succeeded exit_failed timed_out cancelled : RunnerDisposition
  output_limit_exceeded infrastructure_failed : RunnerDisposition

-- An `i32`; `negsuc n` is -(n + 1).
pub data ℤ : Type 0 where
  pos : ℕ → ℤ
  negsuc : ℕ → ℤ

pub record ObservationV1 : Type 0 where
  pub disposition : RunnerDisposition
  pub exit_code : Option ℤ
  pub stdout_observed_bytes : ℕ
  pub stdout_retained_bytes : ℕ
  pub stdout_blake3 : String
  pub stderr_observed_bytes : ℕ
  pub stderr_retained_bytes : ℕ
  pub stderr_blake3 : String
  pub artifact_bytes : ℕ
  pub artifact_blake3 : String

pub record JobResultV1 : Type 0 where
  pub schema : String
  pub job_id : String
  pub rid : String
  pub trigger : TriggerClass
  pub object_oid : String
  pub patch_id : Option String
  pub revision_id : Option String
  pub disposition : RunnerDisposition
  pub exit_code : Option ℤ
  pub stdout_observed_bytes : ℕ
  pub stdout_retained_bytes : ℕ
  pub stdout_blake3 : String
  pub stderr_observed_bytes : ℕ
  pub stderr_retained_bytes : ℕ
  pub stderr_blake3 : String
  pub artifact_bytes : ℕ
  pub artifact_blake3 : String
  pub status_authority : String
  pub claim_scope : String
  pub non_claims : List String

pub record Diagnostic : Type 0 where
  pub code : String
  pub message : String

unfoldable pub diagnostic : String → String → Diagnostic
diagnostic code message = record { code = code; message = message }

locks_beq : LockIdentityV1 → LockIdentityV1 → Bool
locks_beq a b =
    a.cargo_toml_blake3 == b.cargo_toml_blake3
    && a.cargo_lock_blake3 == b.cargo_lock_blake3
    && a.flake_nix_blake3 == b.flake_nix_blake3
    && a.flake_lock_blake3 == b.flake_lock_blake3

locks_beq_iff : (a b : LockIdentityV1) → (locks_beq a b ≡ true) ↔ (a ≡ b)
unfolding locks_beq
locks_beq_iff a b = ground (
  arith,
  string_eq.beq_iff a.cargo_toml_blake3 b.cargo_toml_blake3,
  string_eq.beq_iff a.cargo_lock_blake3 b.cargo_lock_blake3,
  string_eq.beq_iff a.flake_nix_blake3 b.flake_nix_blake3,
  string_eq.beq_iff a.flake_lock_blake3 b.flake_lock_blake3,
)

instance unfoldable pub locks_eq : Eq LockIdentityV1
unfolding locks_beq locks_beq_iff
locks_eq = record { beq = locks_beq; beq_iff = locks_beq_iff }

trigger_beq : TriggerClass → TriggerClass → Bool
trigger_beq patch patch = true
trigger_beq canonical_branch canonical_branch = true
trigger_beq canonical_tag canonical_tag = true
trigger_beq _ _ = false

trigger_beq_iff : (a b : TriggerClass) → (trigger_beq a b ≡ true) ↔ (a ≡ b)
unfolding trigger_beq
trigger_beq_iff a b = ground arith

instance unfoldable pub trigger_eq : Eq TriggerClass
unfolding trigger_beq trigger_beq_iff
trigger_eq = record { beq = trigger_beq; beq_iff = trigger_beq_iff }

disposition_beq : RunnerDisposition → RunnerDisposition → Bool
disposition_beq succeeded succeeded = true
disposition_beq exit_failed exit_failed = true
disposition_beq timed_out timed_out = true
disposition_beq cancelled cancelled = true
disposition_beq output_limit_exceeded output_limit_exceeded = true
disposition_beq infrastructure_failed infrastructure_failed = true
disposition_beq _ _ = false

disposition_beq_iff : (a b : RunnerDisposition) → (disposition_beq a b ≡ true) ↔ (a ≡ b)
unfolding disposition_beq
disposition_beq_iff a b = ground arith

instance unfoldable pub disposition_eq : Eq RunnerDisposition
unfolding disposition_beq disposition_beq_iff
disposition_eq = record { beq = disposition_beq; beq_iff = disposition_beq_iff }

int_beq : ℤ → ℤ → Bool
int_beq (pos a) (pos b) = a == b
int_beq (negsuc a) (negsuc b) = a == b
int_beq _ _ = false

int_beq_iff : (a b : ℤ) → (int_beq a b ≡ true) ↔ (a ≡ b)
unfolding int_beq ℕ-eq
int_beq_iff a b = ground arith

instance unfoldable pub int_eq : Eq ℤ
unfolding int_beq int_beq_iff ℕ-eq
int_eq = record { beq = int_beq; beq_iff = int_beq_iff }
