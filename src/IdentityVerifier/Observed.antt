-- ===== src/IdentityVerifier/Observed.antt =====
-- When the observations pass.
use mathlib.Core.List.{tail-eq_of_cons-eq}
use onix_core.Base.{
  List, [], ◌∷◌, ◌++◌, ◌≡◌, ◌↔◌, refl, sym, ap, ◌∙◌, subst, ◌!=◌, list_eq, ℕ-eq, eq_of_not-ne,
  not-ne_of_eq,
}
use onix_core.Base.Results.{ok_same, ok, ok_or, >>=-eq-ok, reject-then, reject-eq-ok}
use onix_core.Base.Text.{Text}
use onix_core.IdentityVerifier.{
  incomplete_fingerprint, key_type, split_whitespace, normalize_fields, normalize_public_key,
  second_field, parse_fingerprint, verify_observations,
}

-- The text's first field is the key type and its second the key's data.
abbrev pub HasKey : Text → Text → Type 0
HasKey input key = (others : List Text) × (split_whitespace input ≡ key_type ∷ key ∷ others)

normalize_fields-HasKey :
    (fields : List Text) (normal : Text)
    → normalize_fields fields ≡ ok normal
    → (key : Text) × (normal ≡ key_type ++ (b' ' ∷ key))
      × ((others : List Text) × (fields ≡ key_type ∷ key ∷ others))
unfolding normalize_fields
normalize_fields-HasKey [] normal h = cc
normalize_fields-HasKey (kind ∷ []) normal h = cc
normalize_fields-HasKey (kind ∷ key ∷ others) normal h =
    let (typed, made) = reject-then (kind != key_type) _ _ h in
    let same : kind ≡ key_type = eq_of_not-ne typed in
    (
      key,
      sym (ok_same _ _ made) ∙ ap (λ k. k ++ (b' ' ∷ key)) same,
      (others, ap (λ k. k ∷ key ∷ others) same),
    )

append_same : (a s t : Text) → (a ++ s) ≡ (a ++ t) → s ≡ t
append_same [] s t h = h
append_same (c ∷ a) s t h = append_same a s t (tail-eq_of_cons-eq h)

abbrev pub HasFingerprint : Text → Text → Type 0
HasFingerprint output fingerprint =
    (first : Text) × (others : List Text) × (split_whitespace output ≡ first ∷ fingerprint ∷ others)

second_field-HasFingerprint :
    (fields : List Text) (field : Text)
    → ok_or (second_field fields) incomplete_fingerprint ≡ ok field
    → (first : Text) × (others : List Text) × (fields ≡ first ∷ field ∷ others)
unfolding second_field
second_field-HasFingerprint [] field h = cc
second_field-HasFingerprint (a ∷ []) field h = cc
second_field-HasFingerprint (a ∷ b ∷ others) field h =
    (a, others, ap (λ f. a ∷ f ∷ others) (ok_same _ _ h))

verify_fields :
    (expected declared derived output key : Text)
    → HasKey declared key
    → HasKey derived key
    → HasFingerprint output expected
    → verify_observations expected declared derived output ≡ ok tt
unfolding verify_observations normalize_public_key parse_fingerprint normalize_fields second_field
verify_fields expected declared derived output key (others, one) (others', two)
      (first, rest, three) =
    rw
      (
        one,
        two,
        three,
        not-ne_of_eq {a = key_type} refl,
        not-ne_of_eq {a = key_type ++ (b' ' ∷ key)} refl,
        not-ne_of_eq {a = expected} refl,
      )
      refl

-- `verify_observations` succeeds exactly if the declared and the derived text both start with the
-- type ssh-ed25519 and one and the same key, and the second field of the fingerprint output is the
-- expected fingerprint.
pub verify_observations_iff :
    (expected declared derived output : Text)
    → (verify_observations expected declared derived output ≡ ok tt)
      ↔ (((key : Text) × HasKey declared key × HasKey derived key) × HasFingerprint output expected)
unfolding verify_observations normalize_public_key parse_fingerprint normalize_fields second_field
verify_observations_iff expected declared derived output = (
  λ h.
      let (a, one, h₁) = >>=-eq-ok (normalize_public_key declared) _ h in
      let (b, two, h₂) = >>=-eq-ok (normalize_public_key derived) _ h₁ in
      let (halves, h₃) = reject-then (a != b) _ _ h₂ in
      let (observed, three, h₄) = >>=-eq-ok (parse_fingerprint output) _ h₃ in
      let (key, made, fields) = normalize_fields-HasKey (split_whitespace declared) a one in
      let (key', made', fields') = normalize_fields-HasKey (split_whitespace derived) b two in
      let (first, others, found) =
        second_field-HasFingerprint (split_whitespace output) observed three in
      let equal : a ≡ b = eq_of_not-ne halves in
      let keys : key' ≡ key =
        tail-eq_of_cons-eq (append_same key_type _ _ (sym made' ∙ (sym equal ∙ made))) in
      let last : observed ≡ expected = eq_of_not-ne (reject-eq-ok _ _ h₄) in
      (
        (key, fields, subst (λ k. HasKey derived k) keys fields'),
        subst (HasFingerprint output) last (first, others, found),
      ),
  λ p. verify_fields expected declared derived output p.0.0 p.0.1 p.0.2 p.1,
)
