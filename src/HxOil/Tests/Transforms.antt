-- ===== src/HxOil/Tests/Transforms.antt =====
-- A transform of one marked entry.
use onix_core.Base.{[], ◌∷◌, ◌≡◌, refl, none, list_eq, ℕ-eq}
use onix_core.Base.Results.{ok}
use onix_core.Base.Text.{Text, codes}
use onix_core.HxOil.Types.{file, marked, unmarked, root}
use onix_core.HxOil.Manifest.{ManifestDocument, entry}
use onix_core.HxOil.Directory.{Directory, file_node, find}
use onix_core.HxOil.Transform.{Engine, TransformItem, TransformPlan, execute_transform_plan}
use onix_core.HxOil.Transform.Run.{IsRunnable, Done, execute_transform_plan-Done}

abbrev engine : Engine
engine = record { compile = λ pattern. none; to_lowercase = λ s. s; to_uppercase = λ s. s }

abbrev document : ManifestDocument
document = record {
  base = codes "/r";
  lines =
      entry (record {
        relative_path = codes "x";
        kind = file;
        line_number = 3;
        mark = marked;
        scope = root;
      })
      ∷ entry (record {
        relative_path = codes "y";
        kind = file;
        line_number = 4;
        mark = unmarked;
        scope = root;
      })
      ∷ [];
}

abbrev item : TransformItem
item = record { kind = file; from = codes "x"; to = codes "nx" }

abbrev plan : TransformPlan
plan = record { scope_root = codes "/r"; items = item ∷ [] }

abbrev dir : Directory
dir = (codes "y", file_node) ∷ (codes "x", file_node) ∷ []

runnable : IsRunnable dir (item ∷ [])
unfolding find list_eq ℕ-eq
runnable = ((file_node, refl), refl, refl, tt, tt)

execute_transform_plan-Done_example :
    (dir' : Directory) × (execute_transform_plan (item ∷ []) dir ≡ ok dir')
    × Done dir (item ∷ []) dir'
execute_transform_plan-Done_example = execute_transform_plan-Done dir (item ∷ []) runnable
