-- ===== src/CiRunner/Config.antt =====
-- `validate_config`, `validate_locks` and `validate_limits` of `pkgs/radicle-ci-runner/src/lib.rs`.
-- The condition of each early return is a definition of its own, in the source's order.
pub mod Limits
use Prim.Native.String.{len}
use onix_core.Base.{
  ℕ, String, Bool, List, [], ◌∷◌, not, ◌&&◌, ◌||◌, ltb, any, is_nil, length, ◌==◌, ◌!=◌, string_eq,
  ℕ-eq,
}
use onix_core.Base.Results.{Result, ok, ◌>>=◌, ◌>>◌, reject}
use onix_core.Base.Text.{Text, codes, ends_with, is_whitespace}
use onix_core.CiRunner.Types.{
  LockIdentityV1, RunnerLimitsV1, RunnerConfigV1, Diagnostic, diagnostic,
}
use onix_core.CiRunner.Checks.{
  config_schema, required_signed_refs_feature, max_text_bytes, has_prefix, is_empty, one_line,
  absolute_path, radicle_id, git_oid, blake3_digest,
}

abbrev pub max_argument_count : ℕ
max_argument_count = 64

abbrev pub max_allowed_input_uris : ℕ
max_allowed_input_uris = 4

abbrev pub max_delegate_count : ℕ
max_delegate_count = 16

abbrev pub max_timeout_ms : ℕ
max_timeout_ms = 3_600_000

abbrev pub max_output_bytes : ℕ
max_output_bytes = 16_777_216

abbrev pub max_artifact_bytes : ℕ
max_artifact_bytes = 1_073_741_824

abbrev pub max_memory_bytes : ℕ
max_memory_bytes = 68_719_476_736

abbrev pub max_cpu_quota_percent : ℕ
max_cpu_quota_percent = 800

abbrev pub max_parallel_jobs_limit : ℕ
max_parallel_jobs_limit = 8

-- `str::ends_with` on whole texts.
unfoldable pub has_suffix : String → String → Bool
unfolding ends_with
has_suffix s p = ends_with (codes s) (codes p)

-- The number of maximal runs of characters that are not whitespace; the flag says that the
-- previous character is in such a run.
unfoldable pub count_words : Bool → Text → ℕ
unfolding is_whitespace
count_words inside [] = 0
count_words inside (c ∷ s) = elim (is_whitespace c) [
  | Bool.true ↦ count_words Bool.false s
  | Bool.false ↦ elim inside [
    | Bool.true ↦ count_words Bool.true s
    | Bool.false ↦ ℕ.suc (count_words Bool.true s)
  ]
]

header_invalid : RunnerConfigV1 → Bool
header_invalid config =
    config.schema != config_schema
    || not (radicle_id config.rid)
    || config.signed_refs_feature != required_signed_refs_feature

pub identity_invalid : RunnerConfigV1 → Bool
identity_invalid config =
    not (git_oid config.reviewed_commit)
    || not (blake3_digest config.policy_blake3)
    || not (one_line config.check_name)
    || not (has_prefix config.production_seed config.production_seed_node_id)
    || not (has_suffix config.production_seed config.production_seed_address)
    || config.production_seed_node_id == config.bot_node_id
    || any (λ delegate. has_suffix delegate config.bot_node_id) config.delegates

bot_invalid : RunnerConfigV1 → Bool
bot_invalid config =
    is_nil config.delegates
    || ltb max_delegate_count (length config.delegates)
    || count_words Bool.false (codes config.bot_public_key) != 2
    || not (has_prefix config.bot_public_key "ssh-ed25519 ")
    || not (has_prefix config.bot_fingerprint "SHA256:")

unfoldable pub validate_locks : LockIdentityV1 → Result Diagnostic (Unit {0})
unfolding diagnostic
validate_locks locks =
    reject
      (any (λ digest. not (blake3_digest digest))
        (locks.cargo_toml_blake3 ∷ locks.cargo_lock_blake3 ∷ locks.flake_nix_blake3
          ∷ locks.flake_lock_blake3 ∷ []))
      (diagnostic "ci-config-locks" "expected source-control BLAKE3 identities are malformed")

limits_invalid : RunnerLimitsV1 → Bool
limits_invalid limits =
    limits.timeout_ms == 0
    || ltb max_timeout_ms limits.timeout_ms
    || limits.stdin_max_bytes == 0
    || limits.stdout_max_bytes == 0
    || ltb max_output_bytes limits.stdout_max_bytes
    || limits.stderr_max_bytes == 0
    || ltb max_output_bytes limits.stderr_max_bytes
    || limits.poll_interval_ms == 0
    || ltb limits.timeout_ms limits.poll_interval_ms
    || limits.teardown_timeout_ms == 0
    || limits.artifact_max_bytes == 0
    || ltb max_artifact_bytes limits.artifact_max_bytes
    || limits.memory_max_bytes == 0
    || ltb max_memory_bytes limits.memory_max_bytes
    || limits.cpu_quota_percent == 0
    || ltb max_cpu_quota_percent limits.cpu_quota_percent
    || limits.max_parallel_jobs == 0
    || ltb max_parallel_jobs_limit limits.max_parallel_jobs

unfoldable pub validate_limits : RunnerLimitsV1 → Result Diagnostic (Unit {0})
unfolding limits_invalid diagnostic
validate_limits limits =
    reject (limits_invalid limits)
      (diagnostic "ci-config-limits" "runner limits are zero, inconsistent, or above hard maxima")

command_invalid : RunnerConfigV1 → Bool
command_invalid config =
    not (absolute_path config.command_program)
    || not (absolute_path config.git_program)
    || not (absolute_path config.nix_program)
    || not (absolute_path config.tar_program)
    || not (absolute_path config.rad_program)
    || not (absolute_path config.ssh_program)
    || config.command_program != config.nix_program
    || is_nil config.command_arguments
    || ltb max_argument_count (length config.command_arguments)
    || any (λ argument. is_empty argument || ltb max_text_bytes (len argument))
        config.command_arguments
    || not (any (λ argument. argument == "--no-update-lock-file") config.command_arguments)

input_uris_invalid : RunnerConfigV1 → Bool
input_uris_invalid config =
    is_nil config.allowed_input_uris
    || ltb max_allowed_input_uris (length config.allowed_input_uris)
    || any
        (λ uri.
          not (has_prefix uri "github:")
          || ltb max_text_bytes (len uri)
          || any is_whitespace (codes uri))
        config.allowed_input_uris

-- The loop over the state paths returns at the first that is not absolute, with one diagnostic.
paths_invalid : RunnerConfigV1 → Bool
paths_invalid config =
    any (λ path. not (absolute_path path))
      (config.storage_path ∷ config.bot_state_path ∷ config.nix_conf_dir ∷ config.exchange_path
        ∷ config.runner_state_path ∷ config.artifact_path ∷ config.local_store_root ∷ [])

unfoldable pub validate_config : RunnerConfigV1 → Result Diagnostic (Unit {0})
unfolding header_invalid identity_invalid bot_invalid validate_locks validate_limits command_invalid
    input_uris_invalid paths_invalid
validate_config config = do
  reject (header_invalid config) (
      diagnostic "ci-config-header"
        "configuration schema, RID, or signed-reference feature is invalid")
  reject (identity_invalid config) (
      diagnostic "ci-config-identity" "reviewed source, seed, bot, or delegate identity is invalid")
  reject (bot_invalid config)
      (diagnostic "ci-config-bot" "bot public identity or delegate policy is malformed")
  validate_locks config.expected_locks
  validate_limits config.limits
  reject (command_invalid config)
      (diagnostic "ci-config-command" "runner command or executable path is invalid")
  reject (input_uris_invalid config)
      (diagnostic "ci-config-input-uris" "restricted evaluation input URI allowlist is invalid")
  reject (paths_invalid config) (diagnostic "ci-config-path" "runner state paths must be absolute")
  ok tt
