-- ===== src/HxOil/Tests/Documents.antt =====
-- A manifest document with an inserted directory, and a listing of two entries.
use Prim.Native.Nat.{◌<◌}
use mathlib.Core.List.{head-eq_of_cons-eq}
use onix_core.Base.{ℕ, ◌+◌, Option, some, List, [], ◌∷◌, ◌≡◌, ◌≢◌, refl, arith, list_eq, ℕ-eq}
use onix_core.Base.Results.{ok}
use onix_core.Base.Sort.Rising
use onix_core.Base.Text.{Text, codes, trim, starts_with, ends_with, strip_prefix, text_lt}
use onix_core.Base.Text.Lines.{is_break}
use onix_core.HxOil.Types.{
  Plan, delete, file, directory, unmarked, marked, delete_flagged, root, subdir, SnapshotEntry,
  ManifestEntry, kind_eq,
}
use onix_core.HxOil.Manifest.{
  ManifestDocument, entry, blank, comment, subdir_start, subdir_end, entries, has_slash,
  validate_entry_name,
}
use onix_core.HxOil.Manifest.Names.{IsEntryName, validate_entry_name_iff}
use onix_core.HxOil.Manifest.Document.{render_manifest_document, parse_manifest_document}
use onix_core.HxOil.Manifest.Fit.{IsDocument}
use onix_core.HxOil.Manifest.RoundTrip.{parse_manifest_document-render_manifest_document}
use onix_core.HxOil.Marks.{with_mark, mark_toggle, flag_delete, clear_marks}
use onix_core.HxOil.Marks.Keep.{Kept, mark_commands-Kept}
use onix_core.HxOil.Marks.Toggle.{mark_toggle-twice}
use onix_core.HxOil.Snapshot.{Listed, entry_lt, max_id, first_id, collect_snapshot_with_ids}
use onix_core.HxOil.Snapshot.Ids.{DistinctIds, Assigned}
use onix_core.HxOil.Snapshot.Sorted.{DistinctNames, collect_snapshot_with_ids_sound}
use onix_core.HxOil.Plans.{Snapshots, build_apply_plans, visible_subdirs}
use onix_core.HxOil.Plans.Groups.{build_apply_plans-flagged}

abbrev top : ManifestEntry
top = record {
  relative_path = codes "d";
  kind = directory;
  line_number = 3;
  mark = unmarked;
  scope = root;
}

abbrev inner : ManifestEntry
inner = record {
  relative_path = codes "x";
  kind = file;
  line_number = 5;
  mark = marked;
  scope = subdir (codes "d");
}

abbrev document : ManifestDocument
document = record {
  base = codes "/r";
  lines =
      entry top
      ∷ subdir_start (codes "d") 4
      ∷ entry inner
      ∷ subdir_end (codes "d") 6
      ∷ blank 7
      ∷ comment (codes "#c") 8
      ∷ [];
}

rendered :
    render_manifest_document document
    ≡ codes
        "# hx-oil root: /r\n# blank lines and comment lines are ignored\n  d/\n# hx-oil subdir: d\n    * x\n# hx-oil end-subdir: d\n\n#c\n"
unfolding render_manifest_document
rendered = refl

d_fine : IsEntryName (codes "d")
unfolding validate_entry_name trim has_slash starts_with ends_with list_eq ℕ-eq kind_eq
d_fine = (validate_entry_name_iff (codes "d") directory 3).0 refl

x_fine : IsEntryName (codes "x")
unfolding validate_entry_name trim has_slash starts_with ends_with list_eq ℕ-eq kind_eq
x_fine = (validate_entry_name_iff (codes "x") file 5).0 refl

document_fine : IsDocument document
unfolding is_break starts_with strip_prefix
document_fine = record {
  base_whole = refl;
  lines_fit = (
    (refl, refl, d_fine, refl),
    (
      (refl, refl, refl),
      (
        (refl, refl, x_fine, refl),
        (
          (refl, refl, refl),
          (
            refl,
            (
              (refl, record { hash_sign = refl; no_start = refl; no_end = refl; whole = refl }),
              refl,
            ),
          ),
        ),
      ),
    ),
  );
}

parse_manifest_document-render_manifest_document_example :
    parse_manifest_document (render_manifest_document document) ≡ ok document
parse_manifest_document-render_manifest_document_example =
    parse_manifest_document-render_manifest_document document document_fine

mark_commands-Kept_example :
    ((numbers : List ℕ) (changed : ManifestDocument)
      → mark_toggle numbers document ≡ ok changed
      → Kept document changed)
    × ((numbers : List ℕ) (changed : ManifestDocument)
        → flag_delete numbers document ≡ ok changed
        → Kept document changed)
    × Kept document (clear_marks document)
mark_commands-Kept_example = mark_commands-Kept document document_fine

abbrev toggled : ManifestDocument
toggled = record {
  base = codes "/r";
  lines =
      entry (with_mark marked top)
      ∷ subdir_start (codes "d") 4
      ∷ entry inner
      ∷ subdir_end (codes "d") 6
      ∷ blank 7
      ∷ comment (codes "#c") 8
      ∷ [];
}

toggled_once : mark_toggle (3 ∷ []) document ≡ ok toggled
unfolding mark_toggle
toggled_once = refl

mark_toggle-twice_example : mark_toggle (3 ∷ []) toggled ≡ ok document
mark_toggle-twice_example = mark_toggle-twice 3 document toggled toggled_once

-- One entry was there before, with the id 7.
abbrev listing : List Listed
listing =
    record { name = some (codes "x"); kind = file; mtime_ns = 1; size = 2 }
    ∷ record { name = some (codes "d"); kind = directory; mtime_ns = 3; size = 4 }
    ∷ []

abbrev before : List SnapshotEntry
before =
    record { id = 7; index = 0; relative_path = codes "x"; kind = file; mtime_ns = 0; size = 0 }
    ∷ []

abbrev collected : List SnapshotEntry
collected =
    record {
      id = 8;
      index = 0;
      relative_path = codes "d";
      kind = directory;
      mtime_ns = 3;
      size = 4;
    }
    ∷ record { id = 7; index = 1; relative_path = codes "x"; kind = file; mtime_ns = 1; size = 2 }
    ∷ []

collects : collect_snapshot_with_ids listing before 2 ≡ ok (collected, 9)
unfolding collect_snapshot_with_ids text_lt list_eq ℕ-eq kind_eq
collects = refl

some_same : (s t : Text) → ◌≡◌ {A = Option Text} (some s) (some t) → s ≡ t
some_same s t h = ground arith

x_not_d : codes "x" ≢ codes "d"
x_not_d e = let heads : ◌≡◌ {A = ℕ} 120 100 = head-eq_of_cons-eq e in absurd (omega (arith, heads))

names_apart : DistinctNames listing
names_apart = (((λ e. x_not_d (some_same _ _ e)), tt), (tt, tt))

below : max_id before + 1 < 10
unfolding max_id
below = omega arith

collect_snapshot_with_ids_sound_example :
    Rising.Rising entry_lt collected
    × DistinctIds collected
    × Assigned before (first_id before 2) (collected, 9)
collect_snapshot_with_ids_sound_example =
    collect_snapshot_with_ids_sound before listing 2 9 10 collected names_apart (tt, tt) below
      (omega arith) (omega arith) (omega arith) collects

abbrev sidecar : Snapshots
sidecar = record {
  base = codes "/r";
  entries = collected;
  subdirs = record { relative_path = codes "d"; entries = before } ∷ [];
}

abbrev two_plans : List (Text × Plan)
two_plans =
    (
      codes "/r",
      record {
        base = codes "/r";
        operations = delete (codes "x") file ∷ [];
        final_entries = top ∷ [];
      },
    )
    ∷ (codes "/r/d", record { base = codes "/r/d"; operations = []; final_entries = inner ∷ [] })
    ∷ []

abbrev flagged : ManifestDocument
flagged = record { base = codes "/r"; lines = entry (with_mark delete_flagged top) ∷ [] }

build_apply_plans-flagged_example :
    build_apply_plans (record { base = codes "/r"; entries = before; subdirs = [] }) flagged ≡ ok []
unfolding entries visible_subdirs
build_apply_plans-flagged_example =
    build_apply_plans-flagged (record { base = codes "/r"; entries = before; subdirs = [] }) flagged
      (refl, tt) refl
