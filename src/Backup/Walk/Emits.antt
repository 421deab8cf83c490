-- ===== src/Backup/Walk/Emits.antt =====
-- What a part of the walk writes: records that the manifest can hold, in ascending order, all below
-- one path, with the statistics counted.
use onix_core.Base.{true, List, [], ◌∷◌, ◌++◌, ◌≡◌, refl, sym, subst, ◌∙◌, All, All-append, arith}
use onix_core.Base.Results.{ok, >>=-eq-ok}
use onix_core.Base.Sort.Distinct.{All-map, All-both}
use onix_core.Base.Text.{Text, text_lt}
use onix_core.Backup.Types.{ManifestRecord, ManifestStats}
use onix_core.Backup.Paths.{split}
use onix_core.Backup.Paths.Order.{Before, Before-name}
use onix_core.Backup.Records.RoundTrip.{IsRecord}
use onix_core.Backup.Format.Accepts.{Ascending, count_all}
use onix_core.Backup.Walk.{Walk, walk_all, add_record}

-- The record's path has the components `start`, then a name that meets `L`, then any others.
abbrev pub Below : List Text → (Text → Type 0) → ManifestRecord → Type 0
Below start L r =
    (name : Text) × (others : List Text) × (split b'/' r.relative_path ≡ start ++ (name ∷ others))
    × L name

pub record Emitted (start : List Text) (L : Text → Type 0) (stats stats' : ManifestStats)
    (rs : List ManifestRecord) : Type 0 where
  pub are_records : All IsRecord rs
  pub ascending : Ascending rs
  pub below : All (Below start L) rs
  pub counted : count_all stats rs ≡ ok stats'

abbrev pub Emits : List Text → (Text → Type 0) → Walk → Type 0
Emits start L walk =
    (stats stats' : ManifestStats) (rs : List ManifestRecord)
    → walk stats ≡ ok (rs, stats')
    → Emitted start L stats stats' rs

count_all-append :
    (stats middle : ManifestStats) (rs qs : List ManifestRecord)
    → count_all stats rs ≡ ok middle
    → count_all stats (rs ++ qs) ≡ count_all middle qs
unfolding count_all
count_all-append stats middle [] qs h = ground arith
count_all-append stats middle (r ∷ rs) qs h =
    let (next, added, h') = >>=-eq-ok (add_record stats r.size) _ h in
    rw added (count_all-append next middle rs qs h')

Ascending-append :
    (rs qs : List ManifestRecord)
    → Ascending rs
    → Ascending qs
    → All (λ r. All (λ q. Before r.relative_path q.relative_path) qs) rs
    → Ascending (rs ++ qs)
Ascending-append [] qs a b c = b
Ascending-append (r ∷ rs) qs a b c = (All-append _ rs qs a.0 c.0, Ascending-append rs qs a.1 b c.1)

module _ (start : List Text) where
  -- Records below a name come before those below a later name.
  crosses :
      (name : Text) (rs qs : List ManifestRecord)
      → All (Below start (λ n. n ≡ name)) rs
      → All (Below start (λ n. text_lt name n ≡ true)) qs
      → All (λ r. All (λ q. Before r.relative_path q.relative_path) qs) rs
  crosses name rs qs hr hq =
      All-map
        (λ r (b : Below start (λ n. n ≡ name) r).
          All-map
            (λ q (c : Below start (λ n. text_lt name n ≡ true) q).
              Before-name start b.1 c.1 b.0 c.0 r.relative_path q.relative_path
                (subst (λ n. text_lt n c.0 ≡ true) (sym b.3) c.3) b.2 c.2)
            qs hq)
        rs hr

  -- The parts in the order of their names.
  abbrev pub Ordered : List (Text × Walk) → Type 0
  Ordered [] = Unit
  Ordered (x ∷ xs) = All (λ y. text_lt x.0 y.0 ≡ true) xs × Ordered xs

  widen :
      (L M : Text → Type 0) (rs : List ManifestRecord)
      → ((n : Text) → L n → M n)
      → All (Below start L) rs
      → All (Below start M) rs
  widen L M rs f h = All-map (λ r (b : Below start L r). (b.0, b.1, b.2, f b.0 b.3)) rs h

  pub nothing-Emitted : (L : Text → Type 0) (stats : ManifestStats) → Emitted start L stats stats []
  unfolding count_all
  nothing-Emitted L stats = record { are_records = tt; ascending = tt; below = tt; counted = refl }

  append-Emitted :
      (L : Text → Type 0) (name : Text) (stats middle stats' : ManifestStats)
      (rs qs : List ManifestRecord)
      → L name
      → Emitted start (λ n. n ≡ name) stats middle rs
      → Emitted start (λ n. L n × (text_lt name n ≡ true)) middle stats' qs
      → Emitted start L stats stats' (rs ++ qs)
  append-Emitted L name stats middle stats' rs qs l a b = record {
    are_records = All-append IsRecord rs qs a.are_records b.are_records;
    ascending =
        Ascending-append rs qs a.ascending b.ascending
          (crosses name rs qs a.below (widen _ _ qs (λ n p. p.1) b.below));
    below =
        All-append (Below start L) rs qs
          (widen (λ n. n ≡ name) L rs (λ n e. subst L (sym e) l) a.below)
          (widen _ L qs (λ n p. p.0) b.below);
    counted = count_all-append stats middle rs qs a.counted ∙ b.counted;
  }

  pub walk_all-Emits :
      (L : Text → Type 0) (xs : List (Text × Walk))
      → All (λ x. L x.0) xs
      → Ordered xs
      → All (λ x. Emits start (λ n. n ≡ x.0) x.1) xs
      → Emits start L (walk_all xs)
  unfolding walk_all
  walk_all-Emits L [] l o e stats stats' rs h =
      let same : ◌≡◌ {A = List ManifestRecord × ManifestStats} ([], stats) (rs, stats') =
        ground arith in
      subst (λ p. Emitted start L stats p.1 p.0) same (nothing-Emitted L stats)
  walk_all-Emits L ((name, walk) ∷ xs) l o e stats stats' rs h =
      let (first, h₁, h') = >>=-eq-ok (walk stats) _ h in
      let (rest, h₂, made) = >>=-eq-ok (walk_all xs first.1) _ h' in
      let same : ◌≡◌ {A = List ManifestRecord × ManifestStats} (first.0 ++ rest.0, rest.1)
          (rs, stats') =
        ground arith in
      let ordered = All-both _ _ xs l.1 o.0 in
      subst (λ p. Emitted start L stats p.1 p.0) same
        (append-Emitted L name stats first.1 rest.1 first.0 rest.0 l.0
          (e.0 stats first.1 first.0 h₁)
          (walk_all-Emits (λ n. L n × (text_lt name n ≡ true)) xs ordered o.1 e.1 first.1 rest.1
            rest.0 h₂))
