-- ===== src/CiRunner/Checks.antt =====
-- The constants and text predicates of `pkgs/radicle-ci-runner/src/lib.rs`. `len` counts bytes, as
-- the source's `len` does; a byte of a character outside ASCII meets no ASCII test, and neither
-- does the character's code point.
use Prim.Native.String.{len}
use onix_core.Base.{
  ℕ, String, Bool, List, [], ◌∷◌, not, ◌&&◌, ◌||◌, leb, all, any, ◌==◌, string_eq, ℕ-eq,
}
use onix_core.Base.Text.{codes, starts_with, is_control, is_ascii_digit}

abbrev pub config_schema : String
config_schema = "onix.radicle-ci-runner.v1"

abbrev pub event_schema : String
event_schema = "onix.radicle-ci-event.v1"

abbrev pub result_schema : String
result_schema = "onix.radicle-ci-result.v1"

abbrev pub required_signed_refs_feature : String
required_signed_refs_feature = "parent"

abbrev pub job_id_domain : String
job_id_domain = "onix/radicle-ci/job/v1"

abbrev pub blake3_hex_length : ℕ
blake3_hex_length = 64

abbrev pub git_oid_hex_length : ℕ
git_oid_hex_length = 40

abbrev pub max_text_bytes : ℕ
max_text_bytes = 1024

-- `str::starts_with` on whole texts.
unfoldable pub has_prefix : String → String → Bool
unfolding starts_with
has_prefix s p = starts_with (codes s) (codes p)

-- `str::is_empty`
unfoldable pub is_empty : String → Bool
is_empty s = len s == 0

unfoldable pub one_line : String → Bool
unfolding is_control is_empty
one_line value =
    not (is_empty value)
    && leb (len value) max_text_bytes
    && not (any (λ c. c == 0) (codes value))
    && not (any is_control (codes value))

unfoldable pub absolute_path : String → Bool
unfolding has_prefix
absolute_path value =
    has_prefix value "/" && leb (len value) max_text_bytes && not (any (λ c. c == 0) (codes value))

unfoldable pub radicle_id : String → Bool
unfolding has_prefix
radicle_id value = has_prefix value "rad:z" && leb (len value) max_text_bytes

-- `is_ascii_hexdigit` and not `is_ascii_uppercase`.
unfoldable pub is_lower_hex : ℕ → Bool
unfolding is_ascii_digit
is_lower_hex c =
    (is_ascii_digit c || (leb b'A' c && leb c b'F') || (leb b'a' c && leb c b'f'))
    && not (leb b'A' c && leb c b'Z')

unfoldable pub git_oid : String → Bool
unfolding is_lower_hex
git_oid value = len value == git_oid_hex_length && all is_lower_hex (codes value)

unfoldable pub blake3_digest : String → Bool
unfolding is_lower_hex
blake3_digest value = len value == blake3_hex_length && all is_lower_hex (codes value)

-- Return the fixed deployment non-claims in deterministic order.
abbrev pub required_non_claims : List String
required_non_claims =
    "ci-result-does-not-prove-source-correctness" ∷ "ci-result-does-not-prove-nix-correctness"
    ∷ "ci-result-does-not-prove-host-sandboxing"
    ∷ "ci-result-does-not-prove-canonical-ref-authority"
    ∷ "ci-result-does-not-prove-release-readiness"
    ∷ "artifact-publication-does-not-prove-remote-durability"
    ∷ "status-publication-does-not-prove-merge-eligibility"
    ∷ "bot-replication-does-not-grant-production-seed-policy-authority" ∷ []
