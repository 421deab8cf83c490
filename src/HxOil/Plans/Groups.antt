-- ===== src/HxOil/Plans/Groups.antt =====
-- What the groups hold, and a deletion that they lose.
use mathlib.Core.List.{append-nil, append_assoc}
use onix_core.Base.{
  Bool, true, false, List, [], ◌∷◌, ◌++◌, ◌≡◌, ◌≢◌, refl, sym, ap, ◌∙◌, subst, All, ◌&&◌, filter,
  arith, Bool-cases, inl, inr, if◌then◌else◌, ◌==◌, ◌!=◌, ==_refl, not-ne_of_eq,
}
use onix_core.Base.Results.{ok}
use onix_core.Base.Sort.Distinct.{All-map}
use onix_core.Base.Text.Order.{text_lt-IsStrict, text_lt_total}
use onix_core.HxOil.Types.{
  delete_flagged, mark_eq, EntryScope, root, subdir, scope_eq, SubdirState, ManifestEntry,
}
use onix_core.HxOil.Manifest.{ManifestDocument, entries}
use onix_core.HxOil.Plans.{
  visible_subdirs, Groups, scope_lt, push_entry, group_entries, Snapshots, scope_plans, is_emptied,
  build_apply_plans,
}

scope_lt_trans :
    (a b c : EntryScope) → scope_lt a b ≡ true → scope_lt b c ≡ true → scope_lt a c ≡ true
unfolding scope_lt
scope_lt_trans root root c h k = cc
scope_lt_trans root (subdir b) root h k = cc
scope_lt_trans root (subdir b) (subdir c) h k = refl
scope_lt_trans (subdir a) root c h k = cc
scope_lt_trans (subdir a) (subdir b) root h k = cc
scope_lt_trans (subdir a) (subdir b) (subdir c) h k = text_lt-IsStrict.trans a b c h k

scope_lt_irrefl : (a : EntryScope) → ¬ (scope_lt a a ≡ true)
unfolding scope_lt
scope_lt_irrefl root h = cc
scope_lt_irrefl (subdir a) h = text_lt-IsStrict.irrefl a h

pub scope_lt_apart : (a b : EntryScope) → scope_lt a b ≡ true → (b == a) ≡ false
unfolding scope_lt
scope_lt_apart a b h = elim (Bool-cases (b == a)) [
  | inl same ↦
      absurd
        (scope_lt_irrefl a (subst (λ c. scope_lt a c ≡ true) ((scope_eq.beq_iff b a).0 same) h))
  | inr other ↦ other
]

scope_lt_total : (a b : EntryScope) → (a == b) ≡ false → scope_lt a b ≡ false → scope_lt b a ≡ true
unfolding scope_lt
scope_lt_total root root h k = absurd (ground (arith, ==_refl ⦃e = scope_eq⦄ root))
scope_lt_total root (subdir b) h k = cc
scope_lt_total (subdir a) root h k = refl
scope_lt_total (subdir a) (subdir b) h k =
    let apart : a ≢ b =
      λ e. absurd (ground (arith, (scope_eq.beq_iff (subdir a) (subdir b)).1 (ap subdir e))) in
    elim (text_lt_total a b apart) [ inl before ↦ absurd (ground arith) | inr behind ↦ behind ]

-- Strictly ascending scopes.
abbrev pub Ascending : Groups → Type 0
Ascending [] = Unit
Ascending (g ∷ gs) =
    All (λ (other : EntryScope × List ManifestEntry). scope_lt g.0 other.0 ≡ true) gs × Ascending gs

-- The entries of a scope.
unfoldable pub members : EntryScope → Groups → List ManifestEntry
members scope [] = []
members scope ((other, es) ∷ groups) =
    let rest = members scope groups in if other == scope then es else rest

members_none :
    (scope : EntryScope) (gs : Groups)
    → All (λ (other : EntryScope × List ManifestEntry). scope_lt scope other.0 ≡ true) gs
    → members scope gs ≡ []
unfolding members
members_none scope [] h = refl
members_none scope ((other, es) ∷ gs) h =
    rw (scope_lt_apart scope other h.0) (members_none scope gs h.1)

abbrev one_if : Bool → ManifestEntry → List ManifestEntry
one_if b e = if b then e ∷ [] else []

push_entry-All :
    (P : EntryScope → Type 0) (scope : EntryScope) (e : ManifestEntry) (gs : Groups)
    → P scope
    → All (λ (g : EntryScope × List ManifestEntry). P g.0) gs
    → All (λ (g : EntryScope × List ManifestEntry). P g.0) (push_entry scope e gs)
unfolding push_entry
push_entry-All P scope e [] p a = (p, tt)
push_entry-All P scope e ((other, es) ∷ gs) p a = elim (Bool-cases (scope == other)) [
  | inl same ↦ rw same a
  | inr apart ↦ elim (Bool-cases (scope_lt scope other)) [
    | inl before ↦ rw (apart, before) (p, a)
    | inr behind ↦ rw (apart, behind) (a.0, push_entry-All P scope e gs p a.1)
  ]
]

push_entry-Ascending :
    (scope : EntryScope) (e : ManifestEntry) (gs : Groups)
    → Ascending gs
    → Ascending (push_entry scope e gs)
unfolding push_entry
push_entry-Ascending scope e [] a = (tt, tt)
push_entry-Ascending scope e ((other, es) ∷ gs) a = elim (Bool-cases (scope == other)) [
  | inl same ↦ rw same a
  | inr apart ↦ elim (Bool-cases (scope_lt scope other)) [
    | inl before ↦
        rw (apart, before)
          ((before, All-map (λ g h. scope_lt_trans scope other g.0 before h) gs a.0), a)
    | inr behind ↦
        rw (apart, behind)
          (
            push_entry-All (λ s. scope_lt other s ≡ true) scope e gs
                (scope_lt_total scope other apart behind) a.0,
            push_entry-Ascending scope e gs a.1,
          )
  ]
]

members-push_entry :
    (s scope : EntryScope) (e : ManifestEntry) (gs : Groups)
    → Ascending gs
    → members s (push_entry scope e gs) ≡ members s gs ++ one_if (scope == s) e
unfolding members push_entry
members-push_entry s scope e [] a = ground arith
members-push_entry s scope e ((other, es) ∷ gs) a = elim (Bool-cases (scope == other)) [
  | inl same ↦
      let its : (scope == s) ≡ (other == s) =
        ap (λ o. o == s) ((scope_eq.beq_iff scope other).0 same) in
      elim (Bool-cases (other == s)) [
        | inl here ↦ rw (same, members, its, here) refl
        | inr there ↦ rw (same, members, its, there) (sym (append-nil (members s gs)))
      ]
  | inr apart ↦ elim (Bool-cases (scope_lt scope other)) [
    | inl before ↦ elim (Bool-cases (scope == s)) [
      | inl here ↦
          let its = (scope_eq.beq_iff scope s).0 here in
          let none_yet = members_none s ((other, es) ∷ gs) (
            subst
              (λ c.
                All (λ (g : EntryScope × List ManifestEntry). scope_lt c g.0 ≡ true)
                  ((other, es) ∷ gs))
              its (before, All-map (λ g h. scope_lt_trans scope other g.0 before h) gs a.0)) in
          rw (apart, before, members, here) (ap (λ m. m ++ (e ∷ [])) (sym none_yet))
      | inr there ↦
          rw (apart, before, members, there) (sym (append-nil (members s ((other, es) ∷ gs))))
    ]
    | inr behind ↦ elim (Bool-cases (other == s)) [
      | inl here ↦
          let there : (scope == s) ≡ false =
            subst (λ c. (scope == c) ≡ false) ((scope_eq.beq_iff other s).0 here) apart in
          rw (apart, behind, members, here, there) (sym (append-nil es))
      | inr there ↦ rw (apart, behind, members, there) (members-push_entry s scope e gs a.1)
    ]
  ]
]

-- The entries of the scope that are not flagged for deletion.
abbrev pub is_edited : EntryScope → ManifestEntry → Bool
is_edited s e = e.mark != delete_flagged && e.scope == s

group_entries-members-from :
    (s : EntryScope) (gs : Groups) (es : List ManifestEntry)
    → Ascending gs
    → (members s (group_entries gs es) ≡ members s gs ++ filter (is_edited s) es)
      × Ascending (group_entries gs es)
unfolding group_entries
group_entries-members-from s gs [] a = (sym (append-nil (members s gs)), a)
group_entries-members-from s gs (e ∷ es) a = elim (Bool-cases (e.mark != delete_flagged)) [
  | inr flagged ↦ rw flagged (group_entries-members-from s gs es a)
  | inl edited ↦
      let rest =
        group_entries-members-from s (push_entry e.scope e gs) es
          (push_entry-Ascending e.scope e gs a) in
      let pushed = members-push_entry s e.scope e gs a in
      elim (Bool-cases (e.scope == s)) [
        | inl here ↦
            rw (edited, here)
              (
                rest.0
                    ∙ (ap (λ m. m ++ filter (is_edited s) es)
                          (pushed ∙ ap (λ b. members s gs ++ one_if b e) here)
                        ∙ append_assoc (members s gs) (e ∷ []) (filter (is_edited s) es)),
                rest.1,
              )
        | inr there ↦
            rw (edited, there)
              (
                rest.0
                    ∙ ap (λ m. m ++ filter (is_edited s) es)
                        (pushed
                          ∙ (ap (λ b. members s gs ++ one_if b e) there
                              ∙ append-nil (members s gs))),
                rest.1,
              )
      ]
]

-- The group of each scope is exactly the entries of that scope that are not flagged for deletion, in
-- their order, and the groups have their scopes in strictly ascending order.
pub group_entries-members :
    (s : EntryScope) (es : List ManifestEntry)
    → (members s (group_entries [] es) ≡ filter (is_edited s) es) × Ascending (group_entries [] es)
unfolding members
group_entries-members s es = group_entries-members-from s [] es tt

group_entries-flagged :
    (es : List ManifestEntry)
    → All (λ (e : ManifestEntry). e.mark ≡ delete_flagged) es
    → group_entries [] es ≡ []
unfolding group_entries
group_entries-flagged [] h = refl
group_entries-flagged (e ∷ es) h = rw (not-ne_of_eq h.0) (group_entries-flagged es h.1)

nothing_emptied :
    (document : ManifestDocument) (states : List SubdirState)
    → visible_subdirs document ≡ []
    → filter (is_emptied document) states ≡ []
unfolding is_emptied
nothing_emptied document [] v = refl
nothing_emptied document (state ∷ states) v = rw (v) (nothing_emptied document states v)

-- Where every entry of a document without inserted directories is flagged for deletion, or it has no
-- entry at all, `build_apply_plans` makes no plan, whatever the snapshot holds: the deletions are lost.
pub build_apply_plans-flagged :
    (sidecar : Snapshots) (document : ManifestDocument)
    → All (λ (e : ManifestEntry). e.mark ≡ delete_flagged) (entries document)
    → visible_subdirs document ≡ []
    → build_apply_plans sidecar document ≡ ok []
unfolding build_apply_plans scope_plans
build_apply_plans-flagged sidecar document h v =
    rw (group_entries-flagged (entries document) h, nothing_emptied document sidecar.subdirs v) refl
