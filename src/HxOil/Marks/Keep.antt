-- ===== src/HxOil/Marks/Keep.antt =====
-- The mark commands change nothing but marks, and what they write is read back.
use onix_core.Base.{
  ℕ, ◌+◌, Option, none, some, List, [], ◌∷◌, ◌≡◌, refl, ap, ◌∙◌, subst, arith, map, nat_eq,
  Bool-cases, inl, inr, ◌==◌,
}
use onix_core.Base.Results.{ok_same, ok, ◌>>=◌, >>=-eq-ok}
use onix_core.HxOil.Types.{unmarked, marked, mark_eq}
use onix_core.HxOil.Manifest.{
  ManifestLine, blank, comment, entry, subdir_start, subdir_end, ManifestDocument,
}
use onix_core.HxOil.Manifest.Document.{render_manifest_document, parse_manifest_document}
use onix_core.HxOil.Manifest.Fit.{Fits, after, IsDocument}
use onix_core.HxOil.Manifest.RoundTrip.{parse_manifest_document-render_manifest_document}
use onix_core.HxOil.Marks.{
  with_mark, with_lines, Change, toggle, flag, change_at, change_marks, mark_toggle, flag_delete,
  clear_line, clear_marks,
}

-- The line without its mark.
abbrev pub unmark : ManifestLine → ManifestLine
unmark (entry e) = entry (with_mark unmarked e)
unmark l = l

-- The same document but for its marks, and one that its text keeps.
abbrev pub Kept : ManifestDocument → ManifestDocument → Type 0
Kept document changed =
    (map unmark changed.lines ≡ map unmark document.lines)
    × (changed.base ≡ document.base)
    × (parse_manifest_document (render_manifest_document changed) ≡ ok changed)

abbrev KeptLines : ℕ → Option (List ℕ) → List ManifestLine → List ManifestLine → Type 0
KeptLines n current ls ls' = Fits n current ls' × (map unmark ls' ≡ map unmark ls)

-- The first line stays as it is.
later_keeps :
    (change : Change) (m n : ℕ) (current : Option (List ℕ)) (l : ManifestLine)
    (ls ls' : List ManifestLine)
    → Fits n current (l ∷ ls)
    → ((rest : List ManifestLine)
        → change_at change m ls ≡ ok rest
        → KeptLines (n + 1) (after current l) ls rest)
    → (change_at change m ls >>= λ rest. ok (l ∷ rest)) ≡ ok ls'
    → KeptLines n current (l ∷ ls) ls'
later_keeps change m n current l ls ls' f keeps h =
    let (rest, changed, made) = >>=-eq-ok (change_at change m ls) _ h in
    let k = keeps rest changed in
    subst (KeptLines n current (l ∷ ls)) (ok_same _ _ made) ((f.0, k.0), ap (λ r. unmark l ∷ r) k.1)

change_at-keeps :
    (change : Change) (m n : ℕ) (current : Option (List ℕ)) (ls ls' : List ManifestLine)
    → Fits n current ls
    → change_at change m ls ≡ ok ls'
    → KeptLines n current ls ls'
unfolding change_at
change_at-keeps change m n current [] ls' f = λ h. absurd (ground arith)
change_at-keeps change m n current (blank k ∷ ls) ls' f =
    later_keeps change m n current (blank k) ls ls' f
      (λ rest. change_at-keeps change m (n + 1) current ls rest f.1)
change_at-keeps change m n current (comment text k ∷ ls) ls' f =
    later_keeps change m n current (comment text k) ls ls' f
      (λ rest. change_at-keeps change m (n + 1) current ls rest f.1)
change_at-keeps change m n current (subdir_start name k ∷ ls) ls' f =
    later_keeps change m n current (subdir_start name k) ls ls' f
      (λ rest. change_at-keeps change m (n + 1) _ ls rest f.1)
change_at-keeps change m n current (subdir_end name k ∷ ls) ls' f =
    later_keeps change m n current (subdir_end name k) ls ls' f
      (λ rest. change_at-keeps change m (n + 1) _ ls rest f.1)
change_at-keeps change m n current (entry e ∷ ls) ls' f =
    elim (Bool-cases (nat_eq e.line_number m)) [
      | inl here ↦ rw here (λ h.
          let (mark, changed, made) = >>=-eq-ok (change m e.mark) _ h in
          subst (KeptLines n current (entry e ∷ ls)) (ok_same _ _ made) (f, refl))
      | inr other ↦ rw other (
          later_keeps change m n current (entry e) ls ls' f
            (λ rest. change_at-keeps change m (n + 1) current ls rest f.1))
    ]

change_marks-keeps :
    (change : Change) (numbers : List ℕ) (n : ℕ) (current : Option (List ℕ))
    (ls ls' : List ManifestLine)
    → Fits n current ls
    → change_marks change numbers ls ≡ ok ls'
    → KeptLines n current ls ls'
unfolding change_marks
change_marks-keeps change [] n current ls ls' f h =
    subst (KeptLines n current ls) (ok_same _ _ h) (f, refl)
change_marks-keeps change (m ∷ numbers) n current ls ls' f h =
    let (middle, changed, h') = >>=-eq-ok (change_at change m ls) _ h in
    let k = change_at-keeps change m n current ls middle f changed in
    let k' = change_marks-keeps change numbers n current middle ls' k.0 h' in (k'.0, k'.1 ∙ k.1)

clear-keeps :
    (n : ℕ) (current : Option (List ℕ)) (ls : List ManifestLine)
    → Fits n current ls
    → KeptLines n current ls (map clear_line ls)
unfolding clear_line
clear-keeps n current [] f = (f, refl)
clear-keeps n current (blank k ∷ ls) f =
    let rest = clear-keeps (n + 1) current ls f.1 in ((f.0, rest.0), ap (λ r. blank k ∷ r) rest.1)
clear-keeps n current (comment text k ∷ ls) f =
    let rest = clear-keeps (n + 1) current ls f.1 in
    ((f.0, rest.0), ap (λ r. comment text k ∷ r) rest.1)
clear-keeps n current (subdir_start name k ∷ ls) f =
    let rest = clear-keeps (n + 1) (some name) ls f.1 in
    ((f.0, rest.0), ap (λ r. subdir_start name k ∷ r) rest.1)
clear-keeps n current (subdir_end name k ∷ ls) f =
    let rest = clear-keeps (n + 1) none ls f.1 in
    ((f.0, rest.0), ap (λ r. subdir_end name k ∷ r) rest.1)
clear-keeps n current (entry e ∷ ls) f =
    let rest = clear-keeps (n + 1) current ls f.1 in
    elim (Bool-cases (e.mark == marked)) [
      | inl cleared ↦ rw cleared ((f.0, rest.0), ap (λ r. entry (with_mark unmarked e) ∷ r) rest.1)
      | inr other ↦ rw other ((f.0, rest.0), ap (λ r. entry (with_mark unmarked e) ∷ r) rest.1)
    ]

kept :
    (document : ManifestDocument) (ls : List ManifestLine)
    → IsDocument document
    → KeptLines 3 none document.lines ls
    → Kept document (with_lines document ls)
kept document ls d k = (
  k.1,
  refl,
  parse_manifest_document-render_manifest_document (with_lines document ls)
      (record { base_whole = d.base_whole; lines_fit = k.0 }),
)

-- `mark_toggle`, `flag_delete` and `clear_marks`, on a document that its text keeps, change nothing
-- but marks, and the document that they write is read back as it is.
pub mark_commands-Kept :
    (document : ManifestDocument)
    → IsDocument document
    → ((numbers : List ℕ) (changed : ManifestDocument)
        → mark_toggle numbers document ≡ ok changed
        → Kept document changed)
      × ((numbers : List ℕ) (changed : ManifestDocument)
          → flag_delete numbers document ≡ ok changed
          → Kept document changed)
      × Kept document (clear_marks document)
unfolding mark_toggle flag_delete clear_marks
mark_commands-Kept document d = (
  λ numbers changed h.
      let (ls, done, made) = >>=-eq-ok (change_marks toggle numbers document.lines) _ h in
      subst (Kept document) (ok_same _ _ made) (
        kept document ls d
          (change_marks-keeps toggle numbers 3 none document.lines ls d.lines_fit done)),
  λ numbers changed h.
      let (ls, done, made) = >>=-eq-ok (change_marks flag numbers document.lines) _ h in
      subst (Kept document) (ok_same _ _ made) (
        kept document ls d
          (change_marks-keeps flag numbers 3 none document.lines ls d.lines_fit done)),
  kept document (map clear_line document.lines) d (clear-keeps 3 none document.lines d.lines_fit),
)
