-- ===== src/IdentityVerifier.antt =====
-- The Radicle replica's identity verifier: `modules/radicle-seed-replica/identity-verifier.rs`. What
-- ssh-keygen and the files give are parameters, as texts or as errors.
pub mod Observed
mod Tests
use onix_core.Base.{
  ℕ, Bool, true, false, Option, none, some, List, [], ◌∷◌, ◌++◌, ◌==◌, ◌!=◌, list_eq, ℕ-eq,
  if◌then◌else◌, not,
}
use onix_core.Base.Results.{Result, ok, err, ◌>>=◌, ◌>>◌, reject, ok_or}
use onix_core.Base.Text.{Text, codes, is_whitespace}

pub data Error : Type 0 where
  incomplete_key wrong_key_type incomplete_fingerprint mismatched_halves : Error
  changed_fingerprint no_credentials unreadable_key keygen_failed usage : Error

-- One more byte of the first field, which starts here where `started` is false.
extend : ℕ → Bool → List Text → List Text
extend c true (field ∷ fields) = (c ∷ field) ∷ fields
extend c _ fields = (c ∷ []) ∷ fields

starts_field : Text → Bool
starts_field [] = false
starts_field (c ∷ s) = not (is_whitespace c)

-- `str::split_whitespace`
unfoldable pub split_whitespace : Text → List Text
unfolding extend starts_field is_whitespace
split_whitespace [] = []
split_whitespace (c ∷ s) =
    let rest = split_whitespace s in
    if is_whitespace c then rest else extend c (starts_field s) rest

abbrev pub key_type : Text
key_type = codes "ssh-ed25519"

normalize_fields : List Text → Result Error Text
normalize_fields [] = err incomplete_key
normalize_fields (kind ∷ []) = err incomplete_key
normalize_fields (kind ∷ data_field ∷ others) =
    reject (kind != key_type) wrong_key_type >> ok (kind ++ (b' ' ∷ data_field))

unfoldable pub normalize_public_key : Text → Result Error Text
unfolding split_whitespace normalize_fields
normalize_public_key input = normalize_fields (split_whitespace input)

second_field : List Text → Option Text
second_field (first ∷ second ∷ others) = some second
second_field _ = none

unfoldable pub parse_fingerprint : Text → Result Error Text
unfolding split_whitespace second_field
parse_fingerprint output = ok_or (second_field (split_whitespace output)) incomplete_fingerprint

unfoldable pub verify_observations : Text → Text → Text → Text → Result Error (Unit {0})
unfolding normalize_public_key parse_fingerprint
verify_observations expected_fingerprint declared_public_key derived_public_key fingerprint_output =
    do
      declared ← normalize_public_key declared_public_key
      derived ← normalize_public_key derived_public_key
      reject (declared != derived) mismatched_halves
      observed ← parse_fingerprint fingerprint_output
      reject (observed != expected_fingerprint) changed_fingerprint

-- What the files and the runs of ssh-keygen give, in the order in which they are asked.
pub record Surroundings : Type 0 where
  pub credential_path : Result Error Text
  pub declared_public_key : Text → Result Error Text
  pub derived_public_key : Text → Result Error Text
  pub fingerprint_output : Text → Result Error Text

unfoldable pub verify_identity : Surroundings → Text → Text → Result Error (Unit {0})
unfolding verify_observations
verify_identity around expected_fingerprint public_key_path = do
  private_key_path ← around.credential_path
  declared ← around.declared_public_key public_key_path
  derived ← around.derived_public_key private_key_path
  output ← around.fingerprint_output public_key_path
  verify_observations expected_fingerprint declared derived output
