-- ===== src/PolicyReconciler/Tests/Node.antt =====
-- A node that may hold policies of two repositories, and reconciliations of it.
use onix_core.Base.{
  Bool, true, false, Option, none, some, List, [], ◌∷◌, ◌++◌, ◌≡◌, ◌⊎◌, inl, inr, refl, sym, not,
  ◌&&◌, ◌||◌, contains, ◌==◌, list_eq, ℕ-eq, arith, if◌then◌else◌, Bool-cases,
}
use onix_core.Base.Results.{ok}
use onix_core.Base.Sort.{insert}
use onix_core.Base.Text.{strip_prefix, trim, Text, codes, lines, text_lt}
use onix_core.PolicyReconciler.{
  Plan, Rad, Output, difference, reconcile_plan, desired_set, collect_desired, is_canonical_rid,
  reconcile, policy_set, scan_rows, row_candidate, first_word, seed, unseed,
}
use onix_core.PolicyReconciler.Tests.{rid_a, rid_b}
use onix_core.PolicyReconciler.Plans.{text_iff}
use onix_core.PolicyReconciler.Converges.{
  IsListing, IsPolicyStore, reconcile_sound, reconcile_converges,
}

abbrev State : Type 0
State = Bool × Bool

abbrev held : Text → Text → State → List Text
held a b (true, true) = a ∷ b ∷ []
held a b (true, false) = a ∷ []
held a b (false, true) = b ∷ []
held a b (false, false) = []

abbrev kept : State → List Text
kept s = held rid_a rid_b s

abbrev row : Text → Text
row rid = codes "│ " ++ (rid ++ codes " heartwood allow all │\n")

abbrev shown : List Text → Text
shown [] = codes "No seeding policies to show.\n"
shown (a ∷ []) = codes "│ Repository Name Policy Scope │\n" ++ row a
shown (a ∷ b ∷ others) = codes "│ Repository Name Policy Scope │\n" ++ (row a ++ row b)

abbrev said : Text → Output
said s = record { stdout = some s; stderr = [] }

abbrev obey : List Text → State → State × Option Output
obey arguments (a, b) =
    if arguments == codes "seed" ∷ []
    then ((a, b), some (said (shown (kept (a, b)))))
    else if arguments == unseed rid_a
    then ((false, b), some (said []))
    else if arguments == unseed rid_b
    then ((a, false), some (said []))
    else if arguments == seed rid_a
    then ((true, b), some (said []))
    else if arguments == seed rid_b
    then ((a, true), some (said []))
    else ((a, b), none)

abbrev node : Rad State
node = record { execute = obey }

abbrev Exists : Text → Type 0
Exists rid = (rid ≡ rid_a) ⊎ (rid ≡ rid_b)

-- What the two commands do to two different repositories' policies.
unseeds_first :
    (a b : Text) (p q : Bool) (x : Text)
    → (a == b) ≡ false
    → contains (held a b (false, q)) x ≡ (contains (held a b (p, q)) x && not (a == x))
unfolding contains
unseeds_first a b true true x h = ground (arith, text_iff a x, text_iff b x, text_iff a b)
unseeds_first a b true false x h = ground (arith, text_iff a x, text_iff b x, text_iff a b)
unseeds_first a b false true x h = ground (arith, text_iff a x, text_iff b x, text_iff a b)
unseeds_first a b false false x h = refl

unseeds_second :
    (a b : Text) (p q : Bool) (x : Text)
    → (a == b) ≡ false
    → contains (held a b (p, false)) x ≡ (contains (held a b (p, q)) x && not (b == x))
unfolding contains
unseeds_second a b true true x h = ground (arith, text_iff a x, text_iff b x, text_iff a b)
unseeds_second a b true false x h = ground (arith, text_iff a x, text_iff b x, text_iff a b)
unseeds_second a b false true x h = ground (arith, text_iff a x, text_iff b x, text_iff a b)
unseeds_second a b false false x h = refl

seeds_first :
    (a b : Text) (p q : Bool) (x : Text)
    → contains (held a b (true, q)) x ≡ (a == x || contains (held a b (p, q)) x)
unfolding contains
seeds_first a b true true x = ground arith
seeds_first a b true false x = ground arith
seeds_first a b false true x = ground arith
seeds_first a b false false x = ground arith

seeds_second :
    (a b : Text) (p q : Bool) (x : Text)
    → contains (held a b (p, true)) x ≡ (b == x || contains (held a b (p, q)) x)
unfolding contains
seeds_second a b true true x = ground arith
seeds_second a b true false x = ground arith
seeds_second a b false true x = ground arith
seeds_second a b false false x = ground arith

second :
    (a b : Text) (s : State) (x : Text)
    → (a == x) ≡ false
    → contains (held a b s) x ≡ true
    → (b == x) ≡ true
unfolding contains
second a b (true, true) x h k = ground arith
second a b (true, false) x h k = ground arith
second a b (false, true) x h k = ground arith
second a b (false, false) x h k = ground arith

contains-held :
    (a b : Text) (s : State) (x : Text) → contains (held a b s) x ≡ true → (x ≡ a) ⊎ (x ≡ b)
contains-held a b s x h = elim (Bool-cases (a == x)) [
  | inl here ↦ inl (sym ((text_iff a x).0 here))
  | inr there ↦ inr (sym ((text_iff b x).0 (second a b s x there h)))
]

apart : (rid_a == rid_b) ≡ false
unfolding list_eq ℕ-eq
apart = refl

node_shows :
    (s : State)
    → (table : Text) × (obey (codes "seed" ∷ []) s
        ≡ (s, some (record { stdout = some table; stderr = [] })))
      × (policy_set table ≡ ok (kept s))
unfolding trim policy_set lines list_eq ℕ-eq scan_rows row_candidate strip_prefix first_word
    is_canonical_rid contains insert text_lt
node_shows (true, true) = (shown (rid_a ∷ rid_b ∷ []), refl, refl)
node_shows (true, false) = (shown (rid_a ∷ []), refl, refl)
node_shows (false, true) = (shown (rid_b ∷ []), refl, refl)
node_shows (false, false) = (shown [], refl, refl)

node_lists : IsListing node kept
node_lists = record { lists = node_shows }

node_unseeds :
    (s : State) (rid : Text)
    → Exists rid
    → (s' : State) × (output : Output) × (obey (unseed rid) s ≡ (s', some output))
      × ((a : Text) → contains (kept s') a ≡ (contains (kept s) a && not (rid == a)))
unfolding list_eq ℕ-eq unseed seed
node_unseeds (p, q) rid (inl e) =
    rw e ((false, q), said [], refl, λ x. unseeds_first rid_a rid_b p q x apart)
node_unseeds (p, q) rid (inr e) =
    rw e ((p, false), said [], refl, λ x. unseeds_second rid_a rid_b p q x apart)

node_seeds :
    (s : State) (rid : Text)
    → Exists rid
    → (s' : State) × (output : Output) × (obey (seed rid) s ≡ (s', some output))
      × ((a : Text) → contains (kept s') a ≡ (rid == a || contains (kept s) a))
unfolding list_eq ℕ-eq unseed seed
node_seeds (p, q) rid (inl e) = rw e ((true, q), said [], refl, λ x. seeds_first rid_a rid_b p q x)
node_seeds (p, q) rid (inr e) = rw e ((p, true), said [], refl, λ x. seeds_second rid_a rid_b p q x)

node_stores : IsPolicyStore node kept Exists
node_stores = record {
  listing = node_lists;
  known = contains-held rid_a rid_b;
  unseeds = node_unseeds;
  seeds = node_seeds;
}

desired_b : desired_set (rid_b ∷ []) ≡ ok (rid_b ∷ [])
unfolding desired_set collect_desired is_canonical_rid strip_prefix ℕ-eq contains insert list_eq
    text_lt
desired_b = refl

-- The node held the first repository's policy and gets the second's.
reconcile_converges_example :
    (s' : State) × (reconcile node (rid_b ∷ []) (true, false)
      ≡ (s', ok (reconcile_plan (kept (true, false)) (rid_b ∷ []))))
    × (kept s' ≡ rid_b ∷ [])
reconcile_converges_example =
    reconcile_converges node kept Exists node_stores (rid_b ∷ []) (rid_b ∷ []) (true, false)
      desired_b (inr refl, tt)

abbrev swap : Plan
swap = record { remove = rid_a ∷ []; add = rid_b ∷ [] }

swapped : reconcile node (rid_b ∷ []) (true, false) ≡ ((false, true), ok swap)
unfolding reconcile trim policy_set lines list_eq ℕ-eq scan_rows row_candidate strip_prefix
    first_word is_canonical_rid contains insert reconcile_plan difference unseed seed
swapped = refl

reconcile_sound_example :
    (kept (false, true) ≡ rid_b ∷ []) × (swap ≡ reconcile_plan (kept (true, false)) (rid_b ∷ []))
reconcile_sound_example =
    reconcile_sound node kept (rid_b ∷ []) (true, false) (false, true) swap node_lists swapped
