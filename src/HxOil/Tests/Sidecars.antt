-- ===== src/HxOil/Tests/Sidecars.antt =====
-- A sidecar whose entries have no ids.
use Prim.Native.Nat.{◌<◌}
use onix_core.Base.{[], ◌∷◌, All, arith, ◌+◌, length}
use onix_core.Base.Text.{codes}
use onix_core.HxOil.Types.{file, SubdirState}
use onix_core.HxOil.Snapshot.{word}
use onix_core.HxOil.Sidecar.{Sidecar, above_subdirs, upgrade_sidecar}
use onix_core.HxOil.Sidecar.Upgraded.{HaveIds, start_id, count, upgrade_sidecar-HaveIds}

abbrev old : Sidecar
old = record {
  version = 1;
  base = codes "/r";
  manifest_path = codes "/m";
  created_at = 5;
  next_entry_id = 0;
  entries =
      record { id = 0; index = 0; relative_path = codes "x"; kind = file; mtime_ns = 1; size = 2 }
      ∷ [];
  subdirs = [];
}

room : start_id old + 1 + length old.entries + count old.subdirs < word
unfolding start_id count above_subdirs
room = omega arith

upgrade_sidecar-HaveIds_example :
    HaveIds (upgrade_sidecar old).next_entry_id (upgrade_sidecar old).entries
    × All
        (λ (s : SubdirState). HaveIds (upgrade_sidecar old).next_entry_id s.entries)
        (upgrade_sidecar old).subdirs
upgrade_sidecar-HaveIds_example = upgrade_sidecar-HaveIds old (omega arith, tt) tt room
