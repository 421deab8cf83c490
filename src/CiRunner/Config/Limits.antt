-- ===== src/CiRunner/Config/Limits.antt =====
-- What the limits of an accepted configuration are: `validate_limits` of
-- `pkgs/radicle-ci-runner/src/lib.rs`.
use onix_core.Base.{◌≤◌, ◌<◌, ℕ, ◌≡◌, arith, ℕ-eq}
use onix_core.Base.Results.{ok}
use onix_core.CiRunner.Types.{RunnerLimitsV1, RunnerConfigV1}
use onix_core.CiRunner.Config.{
  max_timeout_ms, max_output_bytes, max_artifact_bytes, max_memory_bytes, max_cpu_quota_percent,
  max_parallel_jobs_limit, validate_limits, validate_config,
}

-- The positive limits and, of those that have one, the hard maximum.
pub record IsWithin (limits : RunnerLimitsV1) : Type 0 where
  pub timeout : limits.timeout_ms ≤ max_timeout_ms
  pub stdin : 0 < limits.stdin_max_bytes
  pub stdout : 0 < limits.stdout_max_bytes
  pub stdout_most : limits.stdout_max_bytes ≤ max_output_bytes
  pub stderr : 0 < limits.stderr_max_bytes
  pub stderr_most : limits.stderr_max_bytes ≤ max_output_bytes
  pub poll : 0 < limits.poll_interval_ms
  pub poll_most : limits.poll_interval_ms ≤ limits.timeout_ms
  pub teardown : 0 < limits.teardown_timeout_ms
  pub artifact : 0 < limits.artifact_max_bytes
  pub artifact_most : limits.artifact_max_bytes ≤ max_artifact_bytes
  pub memory : 0 < limits.memory_max_bytes
  pub memory_most : limits.memory_max_bytes ≤ max_memory_bytes
  pub cpu : 0 < limits.cpu_quota_percent
  pub cpu_most : limits.cpu_quota_percent ≤ max_cpu_quota_percent
  pub jobs : 0 < limits.max_parallel_jobs
  pub jobs_most : limits.max_parallel_jobs ≤ max_parallel_jobs_limit

validate_limits-IsWithin :
    (limits : RunnerLimitsV1) → validate_limits limits ≡ ok tt → IsWithin limits
unfolding validate_limits ℕ-eq
validate_limits-IsWithin limits h = ground arith

-- Two limits have no maximum: accepted limits stay accepted with any positive bound on the input and
-- any positive teardown time.
validate_limits_unbounded :
    (limits : RunnerLimitsV1) (stdin teardown : ℕ)
    → 0 < stdin
    → 0 < teardown
    → validate_limits limits ≡ ok tt
    → validate_limits (record limits { stdin_max_bytes = stdin; teardown_timeout_ms = teardown })
      ≡ ok tt
unfolding validate_limits ℕ-eq
validate_limits_unbounded limits stdin teardown s t h = ground arith

pub validate_config-IsWithin :
    (config : RunnerConfigV1) → validate_config config ≡ ok tt → IsWithin config.limits
unfolding validate_config
validate_config-IsWithin config h = validate_limits-IsWithin config.limits (ground arith)
