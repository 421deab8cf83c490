-- ===== src/HxOil/Transform.antt =====
-- `build_transform_plan` and `execute_transform_plan`: new names for the marked entries of one
-- directory. The regular expressions and Unicode's case mappings are a parameter.
pub mod Sound
pub mod Run
use onix_core.Base.{
  ℕ, Bool, true, false, Option, none, some, List, [], ◌∷◌, ◌++◌, map, not, filter, is_nil, all,
  contains, ◌==◌, ◌!=◌, list_eq, ℕ-eq, if◌then◌else◌,
}
use onix_core.Base.Results.{Result, ok, err, ◌>>=◌, ◌>>◌, reject, ok_or}
use onix_core.Base.Text.{Text}
use onix_core.HxOil.Types.{
  EntryKind, marked, mark_eq, EntryScope, scope_eq, absolute_root, ManifestEntry, Error,
  nothing_marked, several_scopes, invalid_pattern, transform_no_op, transform_collision,
}
use onix_core.HxOil.Manifest.{ManifestDocument, entries, validate_entry_name}
use onix_core.HxOil.Directory.{Directory, rename_entry}

pub data TransformKind : Type 0 where
  regex : Text → Text → TransformKind
  add_prefix : Text → TransformKind
  add_suffix : Text → TransformKind
  lower upper : TransformKind

pub record TransformItem : Type 0 where
  pub kind : EntryKind
  pub from : Text
  pub to : Text

pub record TransformPlan : Type 0 where
  pub scope_root : Text
  pub items : List TransformItem

-- A pattern that compiles replaces all its matches in a text by the given replacement.
pub record Engine : Type 0 where
  pub compile : Text → Option (Text → Text → Text)
  pub to_lowercase : Text → Text
  pub to_uppercase : Text → Text

unfoldable pub marked_entries : ManifestDocument → Result Error (List ManifestEntry)
unfolding entries
marked_entries document =
    let selected = filter (λ e. e.mark == marked) (entries document) in
    reject (is_nil selected) nothing_marked >> ok selected

unfoldable pub single_scope : List ManifestEntry → Result Error EntryScope
single_scope [] = err nothing_marked
single_scope (e ∷ es) =
    reject (not (all (λ other. other.scope == e.scope) es)) several_scopes >> ok e.scope

-- `apply_transform`, once the pattern is compiled.
unfoldable pub apply_transform : Engine → TransformKind → Result Error (Text → Text)
apply_transform engine (regex pattern replace) =
    ok_or (engine.compile pattern) invalid_pattern >>= λ matcher.
    ok (λ input. matcher replace input)
apply_transform engine (add_prefix value) = ok (λ input. value ++ input)
apply_transform engine (add_suffix value) = ok (λ input. input ++ value)
apply_transform engine lower = ok engine.to_lowercase
apply_transform engine upper = ok engine.to_uppercase

abbrev pub names_of : List ManifestEntry → List Text
names_of = map (λ (e : ManifestEntry). e.relative_path)

module _ (transform : Text → Text) (unmarked_names marked_source_names : List Text) where
  -- The loop over the marked entries, with the names that it has produced.
  unfoldable pub transform_items :
      List Text → List ManifestEntry → Result Error (List TransformItem)
  transform_items produced [] = ok []
  transform_items produced (e ∷ others) = do
    reject (transform e.relative_path == e.relative_path) (transform_no_op e.relative_path)
    validate_entry_name (transform e.relative_path) e.kind e.line_number
    reject (contains unmarked_names (transform e.relative_path))
        (transform_collision (transform e.relative_path))
    reject (contains produced (transform e.relative_path))
        (transform_collision (transform e.relative_path))
    reject (contains marked_source_names (transform e.relative_path))
        (transform_collision (transform e.relative_path))
    rest ← transform_items (transform e.relative_path ∷ produced) others
    ok (record { kind = e.kind; from = e.relative_path; to = transform e.relative_path } ∷ rest)

-- The names of the scope's entries that are not marked.
unfoldable pub unmarked_in : EntryScope → List Text → ManifestDocument → List Text
unmarked_in scope marked_source_names document =
    filter (λ name. not (contains marked_source_names name))
      (names_of (filter (λ e. e.scope == scope) (entries document)))

unfoldable pub build_transform_plan :
    Engine → Text → ManifestDocument → TransformKind → Result Error TransformPlan
unfolding marked_entries single_scope apply_transform transform_items unmarked_in absolute_root
build_transform_plan engine base document kind = do
  selected ← marked_entries document
  scope ← single_scope selected
  transform ← apply_transform engine kind
  items ←
      transform_items transform (unmarked_in scope (names_of selected) document) (names_of selected)
        [] selected
  reject (is_nil items) nothing_marked
  ok (record { scope_root = absolute_root scope base; items = items })

-- `execute_transform_plan` in the directory that is the scope's root.
unfoldable pub execute_transform_plan : List TransformItem → Directory → Result Error Directory
unfolding rename_entry
execute_transform_plan [] dir = ok dir
execute_transform_plan (item ∷ items) dir =
    rename_entry item.from item.to dir >>= execute_transform_plan items
