-- ===== src/Lib.antt =====
-- The pure cores of the repository's Rust programs.
--
-- The Radicle CI runner (pkgs/radicle-ci-runner/src/lib.rs and guard.rs) admits a candidate object
-- under a fixed configuration, revalidates the persisted event before it runs, classifies the
-- bounded run, signs a status about it, and lets a guard decide from the event, the result, an
-- admission receipt and a live observation whether the canonical head may move.
-- CiRunner/Types and GuardTypes: the structs and enums, field by field. u64, usize and i32 fields
--   are plain numbers, since the crate only compares and copies them.
-- CiRunner/Checks and GuardChecks: constants and text predicates of lib.rs and of guard.rs, which
--   has stricter ones of the same names.
-- CiRunner/Config: validate_config, validate_locks, validate_limits.
-- CiRunner/Admission: admit_candidate, validate_trigger, derive_job_id, validate_event,
--   classify_observation, validate_result.
-- CiRunner/Status: build_signed_status, render_signed_status, parse_signed_status,
--   validate_signed_status, expected_status_blake3.
-- CiRunner/Guard: evaluate_canonical_guard and its four passes, each of which extends the list of
--   issues.
-- An early return is a test of a Boolean condition that has a name of its own (header_invalid,
-- policy_invalid and so on), and a function is the do block of its tests in the source's order.
-- serde_json and blake3 are not under the repository: CiRunner/Digest takes both as a parameter, and
-- a theorem that needs it assumes that a digest's text is 64 lower-case hexadecimal characters.
-- CiRunner/Status takes the JSON codec of a status as a parameter; its round trip assumes that the
-- codec writes one line and reads back what it wrote.
--
-- hx-oil (pkgs/hx-oil/src/lib.rs) edits a directory as a text: it compares the edited entries with
-- the snapshot, plans operations, checks their targets and executes them.
-- HxOil/Types: kinds, marks, scopes, entries, operations and plans.
-- HxOil/Plan: build_plan and plan_hunk. The mutable positions are arguments of a recursion over
--   the matches, and the appended operations are its result.
-- HxOil/Directory: one directory as names with nodes, and what the functions of std::fs that
--   hx-oil calls do with it, failures included. A subdirectory shows only whether it is empty.
-- HxOil/Apply: validate_apply_targets and execute_plan, whose three loops run over all operations.
-- HxOil/Manifest: the manifest document, validate_entry_name and validate_document_entries;
--   Manifest/Document: render_manifest_document and parse_manifest_document. The open block is an
--   argument of the loop over the lines.
-- HxOil/Marks: mark_toggle, flag_delete and clear_marks, on the document between reading and writing.
-- HxOil/Snapshot: collect_snapshot_with_ids, from what read_dir says of the entries. The ids are on
--   u64; the theorem about them asks for a bound that leaves room for the new ids.
-- HxOil/Transform: build_transform_plan and execute_transform_plan in one directory. The regular
--   expressions and Unicode's case mappings are a parameter.
-- HxOil/Sidecar: the sidecar's data and upgrade_sidecar, with saturating and wrapping u64.
-- HxOil/Plans: build_apply_plans and validate_visible_subdir_roots. The map from scopes to entries is
--   a list in the order of the scopes.
-- A failing loop returns an error and no directory: what was already done on disk by then is not
-- described. Error values keep the operands of the message and not its text.
--
-- The Radicle policy reconciler (modules/radicle-node/policy-reconciler.rs) lists a node's seeding
-- policies, plans removals and additions, runs them and lists again.
-- PolicyReconciler: policy_set, desired_set, reconcile_plan, list, apply, reconcile. The rad program
--   is a parameter that moves a state of the node and may fail. Converges assumes what rad documents:
--   listing prints a table of the policies, and unseed and seed remove and add the policy they name.
--   A BTreeSet is the list of its members in ascending order, which Sets shows of both sets.
--
-- The Radicle backup manifest (modules/radicle-node/backup-manifest/src/main.rs) writes one line for
-- each file, directory and symbolic link under a root, and checks later that the lines still hold.
-- Backup/Types: kinds, records, statistics and errors. Backup/Hex, Backup/Numbers: hex_encode and
--   hex_decode, and what the program uses of Rust's printing and parsing of integers.
-- Backup/Paths: validate_relative_path and compare_relative_path_bytes on bytes of paths.
-- Backup/Records: write_record and parse_record. Backup/Format: validate_manifest_format.
-- Backup/Walk: walk_directory and record_for_path. A tree as data gives the entries of each directory
--   in the order of read_dir, and of a file the metadata before and after it is hashed. The walk of a
--   directory's entries is a list of parts that are sorted by name and run one after the other.
-- Backup/Compare: files_equal, with the counts that read returns as a parameter. The fuel is one more
--   than the length of the left file, and each round reads at least one byte of it.
-- Backup/Commands: create_manifest_atomic and verify_manifest on the manifest and the temporary file.
--   Which calls of the operating system fail is a parameter. Failing reads of a directory or of a
--   file in the middle of a walk are not described, and neither is a manifest inside its own root.
-- The BLAKE3 text of a file or of a link target is a parameter; a theorem that needs it assumes 64
-- lower-case hexadecimal digits.
--
-- The Radicle replica's identity verifier (modules/radicle-seed-replica/identity-verifier.rs) compares
-- a declared public key with one that ssh-keygen derives, and a fingerprint with the expected one.
-- IdentityVerifier: verify_observations with its parsers, and verify_identity over what the files and
--   the runs of ssh-keygen give.
--
-- Other recursion is structural, so no other fuel occurs. Base holds what the parts share: an equality
-- class, results with early returns, code-point texts with Rust's str tests, sorting and slices.
-- The theorems of a component stand in its child modules, and runs on concrete inputs in Tests.
--
-- Not modelled: the CI runner's main.rs (processes, sockets, files), hx-oil's sessions, inserted
-- directories and bulk operations, the backup tool's argument handling, the DGX tool, the benchmark
-- and the archived run-book checkers. The vendored pueue plugin is another project's.
pub mod Backup
pub mod Base
pub mod CiRunner
pub mod HxOil
pub mod IdentityVerifier
pub mod PolicyReconciler
