-- ===== src/HxOil/Marks/Toggle.antt =====
-- Toggling the mark of a line twice.
use onix_core.Base.{ℕ, List, [], ◌∷◌, ◌≡◌, refl, subst, arith, nat_eq, Bool-cases, inl, inr}
use onix_core.Base.Results.{ok_same, ok, ◌>>=◌, >>=-eq-ok}
use onix_core.HxOil.Types.{EntryMark, unmarked, marked, delete_flagged}
use onix_core.HxOil.Manifest.{
  ManifestLine, blank, comment, entry, subdir_start, subdir_end, ManifestDocument,
}
use onix_core.HxOil.Marks.{toggle, change_at, change_marks, mark_toggle}

toggle_back : (n : ℕ) (mark mark' : EntryMark) → toggle n mark ≡ ok mark' → toggle n mark' ≡ ok mark
unfolding toggle
toggle_back n unmarked mark' h = subst (λ m. toggle n m ≡ ok unmarked) (ok_same _ _ h) refl
toggle_back n marked mark' h = subst (λ m. toggle n m ≡ ok marked) (ok_same _ _ h) refl
toggle_back n delete_flagged mark' h = absurd (ground arith)

abbrev Back : ℕ → List ManifestLine → List ManifestLine → Type 0
Back n ls ls' = change_at toggle n ls' ≡ ok ls

-- The first line is not the one that is toggled.
abbrev IsOther : ℕ → ManifestLine → Type 0
IsOther n l =
    (ls : List ManifestLine)
    → change_at toggle n (l ∷ ls) ≡ (change_at toggle n ls >>= λ rest. ok (l ∷ rest))

later-Back :
    (n : ℕ) (l : ManifestLine) (ls ls' : List ManifestLine)
    → IsOther n l
    → ((rest : List ManifestLine) → change_at toggle n ls ≡ ok rest → Back n ls rest)
    → (change_at toggle n ls >>= λ rest. ok (l ∷ rest)) ≡ ok ls'
    → Back n (l ∷ ls) ls'
later-Back n l ls ls' other back h =
    let (rest, changed, made) = >>=-eq-ok (change_at toggle n ls) _ h in
    subst (Back n (l ∷ ls)) (ok_same _ _ made) (rw (other rest, back rest changed) refl)

change_at-back :
    (n : ℕ) (ls ls' : List ManifestLine)
    → change_at toggle n ls ≡ ok ls'
    → change_at toggle n ls' ≡ ok ls
unfolding change_at
change_at-back n [] ls' = λ h. absurd (ground arith)
change_at-back n (blank k ∷ ls) ls' =
    later-Back n (blank k) ls ls' (λ _. refl) (change_at-back n ls)
change_at-back n (comment text k ∷ ls) ls' =
    later-Back n (comment text k) ls ls' (λ _. refl) (change_at-back n ls)
change_at-back n (subdir_start name k ∷ ls) ls' =
    later-Back n (subdir_start name k) ls ls' (λ _. refl) (change_at-back n ls)
change_at-back n (subdir_end name k ∷ ls) ls' =
    later-Back n (subdir_end name k) ls ls' (λ _. refl) (change_at-back n ls)
change_at-back n (entry e ∷ ls) ls' = elim (Bool-cases (nat_eq e.line_number n)) [
  | inl here ↦ rw here (λ h.
      let (mark, changed, made) = >>=-eq-ok (toggle n e.mark) _ h in
      subst (Back n (entry e ∷ ls)) (ok_same _ _ made)
        (rw (here, toggle_back n e.mark mark changed) refl))
  | inr other ↦ rw other (later-Back n (entry e) ls ls' (λ _. rw other refl) (change_at-back n ls))
]

-- Where `mark_toggle` of one line succeeds, a second `mark_toggle` of that line succeeds and gives
-- back the document.
pub mark_toggle-twice :
    (n : ℕ) (document changed : ManifestDocument)
    → mark_toggle (n ∷ []) document ≡ ok changed
    → mark_toggle (n ∷ []) changed ≡ ok document
unfolding mark_toggle change_marks
mark_toggle-twice n document changed h =
    let (ls, done, made) = >>=-eq-ok (change_marks toggle (n ∷ []) document.lines) _ h in
    let (ls', changes, same) = >>=-eq-ok (change_at toggle n document.lines) _ done in
    let back =
      change_at-back n document.lines ls
        (subst (λ k. change_at toggle n document.lines ≡ ok k) (ok_same _ _ same) changes) in
    subst (λ d. mark_toggle (n ∷ []) d ≡ ok document) (ok_same _ _ made) (rw (back) refl)
