-- ===== src/HxOil/Manifest/Names.antt =====
-- What the validation of a manifest document's entries accepts.
use mathlib.Core.List.{reverse, reverse-cons}
use onix_core.Base.{
  ℕ, Bool, false, List, [], ◌∷◌, ◌≡◌, ◌≢◌, ◌↔◌, refl, ap, ◌∙◌, any, All, arith, ◌==◌, list_eq, ℕ-eq,
  not-ne_of_eq, eq_of_not-ne,
}
use onix_core.Base.Results.{ok, >>=-eq-ok, reject-then}
use onix_core.Base.Text.Lines.{any-append}
use onix_core.Base.Text.{Text, codes, starts_with, ends_with, trim}
use onix_core.HxOil.Types.{EntryKind, kind_eq, scope_eq, ManifestEntry, text_iff}
use onix_core.HxOil.Manifest.{
  ManifestDocument, entries, has_slash, validate_entry_name, same_target, validate_entries,
  validate_document_entries,
}

-- A name that the manifest can hold.
pub record IsEntryName (name : Text) : Type 0 where
  pub not_empty : name ≢ []
  pub trimmed : name ≡ trim name
  pub flat : has_slash name ≡ false
  pub not_dot : name ≢ codes "."
  pub not_dots : name ≢ codes ".."
  pub no_comment : starts_with name (codes "#") ≡ false

pub any-reverse : (p : ℕ → Bool) (xs : Text) → any p (reverse xs) ≡ any p xs
any-reverse p [] = refl
any-reverse p (x ∷ xs) =
    ap (any p) (reverse-cons x xs)
    ∙ (any-append p (reverse xs) (x ∷ []) ∙ ground (arith, any-reverse p xs))

starts_with-slash : (s : Text) → any (λ c. c == b'/') s ≡ false → starts_with s (codes "/") ≡ false
unfolding starts_with ℕ-eq
starts_with-slash [] h = refl
starts_with-slash (c ∷ s) h = ground arith

has_slash-ends_with : (name : Text) → has_slash name ≡ false → ends_with name (codes "/") ≡ false
unfolding has_slash ends_with
has_slash-ends_with name h =
    starts_with-slash (reverse name) (any-reverse (λ c. c == b'/') name ∙ h)

pub validate_entry_name_iff :
    (name : Text) (kind : EntryKind) (line_number : ℕ)
    → (validate_entry_name name kind line_number ≡ ok tt) ↔ IsEntryName name
unfolding validate_entry_name
validate_entry_name_iff name kind line_number = (
  λ h. record {
    not_empty = ground arith;
    trimmed = eq_of_not-ne (ground arith);
    flat = ground arith;
    not_dot = ground (arith, text_iff name (codes "."));
    not_dots = ground (arith, text_iff name (codes ".."));
    no_comment = ground arith;
  },
  λ n. ground (
    arith,
    not-ne_of_eq n.trimmed,
    has_slash-ends_with name n.flat,
    text_iff name (codes "."),
    text_iff name (codes ".."),
  ),
)

-- No two of the entries have the same scope and name, and none has those of an entry before them.
abbrev pub DistinctTargets : List ManifestEntry → List ManifestEntry → Type 0
DistinctTargets seen [] = Unit
DistinctTargets seen (e ∷ others) =
    (any (λ s. same_target s e) seen ≡ false) × DistinctTargets (e ∷ seen) others

validate_entries_iff :
    (seen others : List ManifestEntry)
    → (validate_entries seen others ≡ ok tt)
      ↔ (All (λ e. IsEntryName e.relative_path) others × DistinctTargets seen others)
unfolding validate_entries
validate_entries_iff seen [] = (λ h. (tt, tt), λ h. refl)
validate_entries_iff seen (e ∷ others) = (
  λ h.
      let (u, named, h₁) =
        >>=-eq-ok (validate_entry_name e.relative_path e.kind e.line_number) _ h in
      let (new, h₂) = reject-then (any (λ s. same_target s e) seen) _ _ h₁ in
      let (names, targets) = (validate_entries_iff (e ∷ seen) others).0 h₂ in
      (
        ((validate_entry_name_iff e.relative_path e.kind e.line_number).0 named, names),
        (new, targets),
      ),
  λ (names, targets).
      rw
        (
          (validate_entry_name_iff e.relative_path e.kind e.line_number).1 names.0,
          targets.0,
          (validate_entries_iff (e ∷ seen) others).1 (names.1, targets.1),
        )
        refl,
)

module _ (document : ManifestDocument) where
  -- A document's entries are accepted exactly if each name is not empty, has no whitespace at its
  -- ends, no slash and no leading number sign, and is neither of the dot names, and no two entries
  -- have the same scope and name.
  pub validate_document_entries_iff : (validate_document_entries document ≡ ok tt) ↔ (
      All (λ e. IsEntryName e.relative_path) (entries document)
      × DistinctTargets [] (entries document))
  unfolding validate_document_entries
  validate_document_entries_iff = validate_entries_iff [] (entries document)
