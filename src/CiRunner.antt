-- ===== src/CiRunner.antt =====
-- The Radicle CI runner's pure crate, `pkgs/radicle-ci-runner/src/lib.rs` and `guard.rs`.
pub mod Types
pub mod Checks
pub mod Config
pub mod Digest
pub mod Admission
pub mod GuardTypes
pub mod GuardChecks
pub mod Status
pub mod Guard
mod Tests
