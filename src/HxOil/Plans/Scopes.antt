-- ===== src/HxOil/Plans/Scopes.antt =====
-- The plans of `build_apply_plans`, scope by scope.
use onix_core.Base.{true, false, List, [], ◌∷◌, map, is_nil, filter, ◌≡◌, All}
use onix_core.Base.Results.{ok}
use onix_core.Base.Text.{Text}
use onix_core.HxOil.Types.{mark_eq, EntryScope, absolute_root, SnapshotEntry, ManifestEntry, Plan}
use onix_core.HxOil.Plan.{build_plan}
use onix_core.HxOil.Plans.{Groups, scope_lt, Snapshots, original_entries}
use onix_core.HxOil.Plans.Groups.{is_edited}

-- No group is empty.
abbrev AreFilled : Groups → Type 0
AreFilled gs = All (λ (g : EntryScope × List ManifestEntry). is_nil g.1 ≡ false) gs

abbrev scopes_of : Groups → List EntryScope
scopes_of gs = map (λ (g : EntryScope × List ManifestEntry). g.0) gs

-- Strictly ascending: the root first, then the inserted directories by their bytes.
abbrev pub AreAscending : List EntryScope → Type 0
AreAscending [] = Unit
AreAscending (s ∷ scopes) = All (λ other. scope_lt s other ≡ true) scopes × AreAscending scopes

-- One plan for each scope, made from what the snapshot holds for it and from its entries in `es`
-- that are not flagged for deletion.
abbrev pub Planned : Snapshots → List ManifestEntry → List EntryScope → List (Text × Plan) → Type 0
Planned sidecar es [] [] = Unit
Planned sidecar es (s ∷ scopes) (p ∷ plans) =
    (p.0 ≡ absolute_root s sidecar.base)
    × ((original : List SnapshotEntry) × (original_entries sidecar s ≡ ok original)
        × (build_plan p.0 original (filter (is_edited s) es) ≡ ok p.1))
    × Planned sidecar es scopes plans
Planned sidecar es _ _ = ⊥
