-- ===== src/HxOil/Marks.antt =====
-- `mark_toggle`, `clear_marks` and `flag_delete`, on the document that they read and write back.
pub mod Keep
pub mod Toggle
use onix_core.Base.{ℕ, Bool, true, false, List, [], ◌∷◌, nat_eq, if◌then◌else◌, map, ◌==◌}
use onix_core.Base.Results.{Result, ok, err, ◌>>=◌}
use onix_core.HxOil.Types.{
  EntryMark, unmarked, marked, delete_flagged, mark_eq, ManifestEntry, Error, delete_flagged_entry,
  not_editable,
}
use onix_core.HxOil.Manifest.{
  ManifestLine, blank, comment, entry, subdir_start, subdir_end, ManifestDocument,
}

abbrev pub with_mark : EntryMark → ManifestEntry → ManifestEntry
with_mark mark e = record {
  relative_path = e.relative_path;
  kind = e.kind;
  line_number = e.line_number;
  mark = mark;
  scope = e.scope;
}

abbrev pub with_lines : ManifestDocument → List ManifestLine → ManifestDocument
with_lines document ls = record { base = document.base; lines = ls }

-- What a command does to the mark of one line's entry.
abbrev pub Change : Type 0
Change = ℕ → EntryMark → Result Error EntryMark

unfoldable pub toggle : Change
toggle line unmarked = ok marked
toggle line marked = ok unmarked
toggle line delete_flagged = err (delete_flagged_entry line)

unfoldable pub flag : Change
flag line delete_flagged = ok unmarked
flag line unmarked = ok delete_flagged
flag line marked = ok delete_flagged

-- `entry_at_line_mut` and the assignment to the mark: the first entry with the line number.
unfoldable pub change_at : Change → ℕ → List ManifestLine → Result Error (List ManifestLine)
change_at change n [] = err (not_editable n)
change_at change n (l ∷ ls) =
    let later = change_at change n ls >>= λ rest. ok (l ∷ rest) in
    elim l [
      | blank m ↦ later
      | comment text m ↦ later
      | subdir_start name m ↦ later
      | subdir_end name m ↦ later
      | entry e ↦
          if nat_eq e.line_number n
          then (change n e.mark >>= λ mark. ok (entry (with_mark mark e) ∷ ls))
          else later
    ]

-- The loop over the given lines.
unfoldable pub change_marks : Change → List ℕ → List ManifestLine → Result Error (List ManifestLine)
unfolding change_at
change_marks change [] ls = ok ls
change_marks change (n ∷ others) ls = change_at change n ls >>= change_marks change others

unfoldable pub mark_toggle : List ℕ → ManifestDocument → Result Error ManifestDocument
unfolding change_marks toggle
mark_toggle lines document =
    change_marks toggle lines document.lines >>= λ ls. ok (with_lines document ls)

unfoldable pub flag_delete : List ℕ → ManifestDocument → Result Error ManifestDocument
unfolding change_marks flag
flag_delete lines document =
    change_marks flag lines document.lines >>= λ ls. ok (with_lines document ls)

unfoldable pub clear_line : ManifestLine → ManifestLine
clear_line (entry e) = if e.mark == marked then entry (with_mark unmarked e) else entry e
clear_line l = l

unfoldable pub clear_marks : ManifestDocument → ManifestDocument
unfolding clear_line
clear_marks document = with_lines document (map clear_line document.lines)
