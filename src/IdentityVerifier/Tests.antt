-- ===== src/IdentityVerifier/Tests.antt =====
-- A matching pair of keys with its fingerprint.
use onix_core.Base.{◌≡◌, ◌↔◌, refl, list_eq, ℕ-eq}
use onix_core.Base.Results.{ok}
use onix_core.Base.Text.{Text, codes}
use onix_core.IdentityVerifier.{verify_observations}
use onix_core.IdentityVerifier.Observed.{HasKey, HasFingerprint, verify_observations_iff}

abbrev declared : Text
declared = codes "ssh-ed25519 AAAA replica"

abbrev derived : Text
derived = codes "ssh-ed25519\tAAAA\n"

abbrev output : Text
output = codes "256 SHA256:a replica (ED25519)"

passes : verify_observations (codes "SHA256:a") declared derived output ≡ ok tt
unfolding verify_observations list_eq ℕ-eq
passes = refl

verify_observations_iff_example :
    (verify_observations (codes "SHA256:a") declared derived output ≡ ok tt) ↔ (
      ((key : Text) × HasKey declared key × HasKey derived key)
      × HasFingerprint output (codes "SHA256:a"))
verify_observations_iff_example = verify_observations_iff (codes "SHA256:a") declared derived output
