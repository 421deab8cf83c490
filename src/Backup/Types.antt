-- ===== src/Backup/Types.antt =====
-- The data of the backup manifest, with its errors as a type of the model's own.
use onix_core.Base.{ℕ, Bool, true, false, ◌≡◌, ◌↔◌, arith, Eq}
use onix_core.Base.Text.{Text, codes}

pub data EntryKind : Type 0 where
  directory file symlink : EntryKind

kind_beq : EntryKind → EntryKind → Bool
kind_beq directory directory = true
kind_beq file file = true
kind_beq symlink symlink = true
kind_beq _ _ = false

kind_beq_iff : (a b : EntryKind) → (kind_beq a b ≡ true) ↔ (a ≡ b)
unfolding kind_beq
kind_beq_iff a b = ground arith

instance unfoldable pub kind_eq : Eq EntryKind
unfolding kind_beq kind_beq_iff
kind_eq = record { beq = kind_beq; beq_iff = kind_beq_iff }

unfoldable pub marker : EntryKind → Text
marker directory = codes "D"
marker file = codes "F"
marker symlink = codes "L"

pub record ManifestRecord : Type 0 where
  pub kind : EntryKind
  pub hash : Text
  pub size : ℕ
  pub mode : ℕ
  pub uid : ℕ
  pub gid : ℕ
  pub relative_path : Text

pub record ManifestStats : Type 0 where
  pub records : ℕ
  pub bytes : ℕ

-- The calls of the operating system that may fail.
pub data Operation : Type 0 where
  inspect_root open_temporary write flush sync rename remove open_manifest read : Operation

pub data Error : Type 0 where
  unsupported_kind : Text → Error
  odd_hex : Error
  invalid_hex : Error
  invalid_path : Error
  forbidden_component : Error
  wrong_field_count : Error
  directory_hash : Error
  invalid_hash : Error
  invalid_size : Error
  invalid_mode : Error
  mode_above_mask : Error
  invalid_uid : Error
  invalid_gid : Error
  empty_manifest : Error
  not_utf8 : Error
  invalid_header : Error
  path_order : Error
  record_overflow : Error
  byte_overflow : Error
  crosses_filesystem : Text → Error
  changed_while_hashing : Text → Error
  unsupported_entry : Text → Error
  not_a_directory : Error
  mismatch : Error
  io : Operation → Error
  out_of_rounds : Error
