-- ===== src/HxOil/Types.antt =====
-- The data of `pkgs/hx-oil/src/lib.rs`, with its errors as a type of the model's own.
use onix_core.Base.{
  ℕ, Bool, true, false, List, ◌++◌, ◌≡◌, ◌↔◌, arith, Eq, ◌==◌, list_eq, ℕ-eq, if◌then◌else◌,
}
use onix_core.Base.Text.{Text, codes, starts_with, ends_with}

pub text_iff : (a b : Text) → ((a == b) ≡ true) ↔ (a ≡ b)
text_iff a b = (list_eq ⦃e = ℕ-eq⦄).beq_iff a b

pub data EntryKind : Type 0 where
  file directory : EntryKind

kind_beq : EntryKind → EntryKind → Bool
kind_beq file file = true
kind_beq directory directory = true
kind_beq _ _ = false

kind_beq_iff : (a b : EntryKind) → (kind_beq a b ≡ true) ↔ (a ≡ b)
unfolding kind_beq
kind_beq_iff a b = ground arith

instance unfoldable pub kind_eq : Eq EntryKind
unfolding kind_beq kind_beq_iff
kind_eq = record { beq = kind_beq; beq_iff = kind_beq_iff }

unfoldable pub label : EntryKind → Text
label file = codes "FILE"
label directory = codes "DIR"

unfoldable pub render_path : EntryKind → Text → Text
render_path file path = path
render_path directory path = path ++ codes "/"

pub data EntryMark : Type 0 where
  unmarked marked delete_flagged : EntryMark

mark_beq : EntryMark → EntryMark → Bool
mark_beq unmarked unmarked = true
mark_beq marked marked = true
mark_beq delete_flagged delete_flagged = true
mark_beq _ _ = false

mark_beq_iff : (a b : EntryMark) → (mark_beq a b ≡ true) ↔ (a ≡ b)
unfolding mark_beq
mark_beq_iff a b = ground arith

instance unfoldable pub mark_eq : Eq EntryMark
unfolding mark_beq mark_beq_iff
mark_eq = record { beq = mark_beq; beq_iff = mark_beq_iff }

unfoldable pub prefix : EntryMark → Text
prefix unmarked = codes "  "
prefix marked = codes "* "
prefix delete_flagged = codes "D "

pub data EntryScope : Type 0 where
  root : EntryScope
  subdir : Text → EntryScope

scope_beq : EntryScope → EntryScope → Bool
scope_beq root root = true
scope_beq (subdir a) (subdir b) = a == b
scope_beq _ _ = false

scope_beq_iff : (a b : EntryScope) → (scope_beq a b ≡ true) ↔ (a ≡ b)
unfolding scope_beq
scope_beq_iff root root = ground arith
scope_beq_iff root (subdir b) = ground arith
scope_beq_iff (subdir a) root = ground arith
scope_beq_iff (subdir a) (subdir b) = ground (arith, text_iff a b)

instance unfoldable pub scope_eq : Eq EntryScope
unfolding scope_beq scope_beq_iff
scope_eq = record { beq = scope_beq; beq_iff = scope_beq_iff }

-- `Path::join`.
unfoldable pub join : Text → Text → Text
unfolding starts_with ends_with
join base path =
    if starts_with path (codes "/")
    then path
    else (if ends_with base (codes "/") then base ++ path else base ++ (codes "/" ++ path))

unfoldable pub absolute_root : EntryScope → Text → Text
unfolding join
absolute_root root base = base
absolute_root (subdir path) base = join base path

unfoldable pub actual_relative_path : EntryScope → Text → Text
actual_relative_path root relative_path = relative_path
actual_relative_path (subdir path) relative_path = path ++ (codes "/" ++ relative_path)

pub record SnapshotEntry : Type 0 where
  pub id : ℕ
  pub index : ℕ
  pub relative_path : Text
  pub kind : EntryKind
  pub mtime_ns : ℕ
  pub size : ℕ

pub record SubdirState : Type 0 where
  pub relative_path : Text
  pub entries : List SnapshotEntry

pub record ManifestEntry : Type 0 where
  pub relative_path : Text
  pub kind : EntryKind
  pub line_number : ℕ
  pub mark : EntryMark
  pub scope : EntryScope

pub data Operation : Type 0 where
  create : Text → EntryKind → Operation
  rename : Text → Text → EntryKind → Operation
  delete : Text → EntryKind → Operation

pub record Plan : Type 0 where
  pub base : Text
  pub operations : List Operation
  pub final_entries : List ManifestEntry

pub data Error : Type 0 where
  unsupported_reordering : Error
  unsupported_kind_change : Text → Text → Error
  ambiguous_edit_hunk : ℕ → ℕ → Error
  directory_not_empty : Text → Error
  target_already_exists : Text → Error
  rename_target_already_exists : Text → Error
  failed_to_delete : Text → Error
  failed_to_rename : Text → Text → Error
  failed_to_create : Text → Error
  failed_to_read : Text → Error
  empty_entry : ℕ → Error
  surrounding_whitespace : ℕ → Error
  nested_path : ℕ → Error
  dot_entry : ℕ → Error
  comment_name : ℕ → Error
  repeated_marker : ℕ → Error
  duplicate_target : Text → Error
  missing_root : Error
  nested_subdir : Error
  unexpected_end : ℕ → Error
  mismatched_end : ℕ → Text → Error
  missing_indent : ℕ → Error
  unterminated_subdir : Error
  delete_flagged_entry : ℕ → Error
  not_editable : ℕ → Error
  non_utf8_entry : Error
  missing_subdir_metadata : Error
  unsafe_subtree : Text → Error
  nothing_marked : Error
  several_scopes : Error
  invalid_pattern : Error
  transform_no_op : Text → Error
  transform_collision : Text → Error
