-- ===== src/Backup/Walk/Whole.antt =====
-- The walk over a whole tree: by induction on the tree, each directory with its entries sorted.
use onix_core.Base.{ℕ, Bool, List, [], ◌∷◌, ◌≡◌, ◌≢◌, subst, All}
use onix_core.Base.Results.{ok_same}
use onix_core.Base.Sort.Rising
use onix_core.Base.Text.{Text, text_lt}
use onix_core.Base.Text.Order.{text_lt-IsStrict, text_lt_total}
use onix_core.Backup.Hex.{IsByte}
use onix_core.Backup.Paths.{join, IsFileName}
use onix_core.Backup.Paths.Order.{parts, split-join, parts-join}
use onix_core.Backup.Walk.{
  Walk, Node, directory_node, file_node, symlink_node, other_node, Entries, nil, cons, walk_all,
  sort_entries, no_entries, walk_node, walk_entries, walk_directory,
}
use onix_core.Backup.Walk.Trees.{IsTree, AreEntries, names}
use onix_core.Backup.Walk.Emits.{Emitted, Emits, Ordered, nothing-Emitted, walk_all-Emits}
use onix_core.Backup.Walk.Sound.{IsHexHash, join-IsByte, visit-Emits}

abbrev name_lt : Text × Walk → Text × Walk → Bool
name_lt a b = text_lt a.0 b.0

Rising-Ordered :
    (start : List Text) (xs : List (Text × Walk)) → Rising.Rising name_lt xs → Ordered start xs
Rising-Ordered start [] r = tt
Rising-Ordered start (x ∷ xs) r = (r.0, Rising-Ordered start xs r.1)

no_entries-Emits : (start : List Text) (L : Text → Type 0) → Emits start L no_entries
unfolding no_entries
no_entries-Emits start L stats stats' rs h =
    subst (λ p. Emitted start L stats p.1 p.0) (ok_same _ _ h) (nothing-Emitted start L stats)

everywhere : {A : Type 0} (xs : List A) → All (λ x. Unit {0}) xs
everywhere [] = tt
everywhere (x ∷ xs) = (tt, everywhere xs)

module _ (hash : Text → Text) (hex : IsHexHash hash) (root_device : ℕ) where
  walk_entries-Comparable :
      (path name : Text) (walk : Walk) (entries : Entries)
      → All (λ other. name ≢ other) (names entries)
      → All (Rising.Comparable name_lt (name, walk)) (walk_entries hash root_device path entries)
  unfolding walk_entries
  walk_entries-Comparable path name walk nil h = tt
  walk_entries-Comparable path name walk (cons other node entries) h =
      (text_lt_total name other h.0, walk_entries-Comparable path name walk entries h.1)

  walk_entries-PairwiseComparable :
      (path : Text) (entries : Entries)
      → AreEntries entries
      → Rising.PairwiseComparable name_lt (walk_entries hash root_device path entries)
  unfolding walk_entries
  walk_entries-PairwiseComparable path nil h = tt
  walk_entries-PairwiseComparable path (cons name node entries) (f, b, other, t, h) = (
    walk_entries-Comparable path name (walk_node hash root_device (join path name) node) entries
        other,
    walk_entries-PairwiseComparable path entries h,
  )

  sorted-Ordered :
      (path : Text) (entries : Entries)
      → AreEntries entries
      → Ordered (parts path) (sort_entries (walk_entries hash root_device path entries))
  unfolding sort_entries
  sorted-Ordered path entries h = Rising-Ordered (parts path) _ (
      Rising.sort-Rising name_lt (λ a b c. text_lt-IsStrict.trans a.0 b.0 c.0) _
        (walk_entries-PairwiseComparable path entries h))

  -- The sorted entries' walks, once each of them is known.
  sorted-Emits :
      (path : Text) (entries : Entries)
      → AreEntries entries
      → All
          (λ x. Emits (parts path) (λ n. n ≡ x.0) x.1)
          (walk_entries hash root_device path entries)
      → Emits
          (parts path)
          (λ n. Unit {0})
          (walk_all (sort_entries (walk_entries hash root_device path entries)))
  unfolding sort_entries
  sorted-Emits path entries h e =
      walk_all-Emits (parts path) (λ n. Unit {0}) _ (everywhere _) (sorted-Ordered path entries h)
        (Rising.sort-All name_lt _ _ e)

  mutual
    unfolding walk_node walk_entries

    walk_node-Emits :
        (directory name : Text) (node : Node)
        → IsFileName name
        → All IsByte directory
        → All IsByte name
        → IsTree node
        → Emits
            (parts directory)
            (λ n. n ≡ name)
            (walk_node hash root_device (join directory name) node)
    walk_node-Emits directory name (directory_node m entries) f d b t =
        visit-Emits hash hex root_device (parts directory) name (join directory name)
          (directory_node m entries) _ (split-join directory name f)
          (join-IsByte directory name d b) t
          (subst
            (λ s.
              Emits s (λ n. Unit {0})
                (walk_all
                  (sort_entries (walk_entries hash root_device (join directory name) entries))))
            (parts-join directory name f)
            (sorted-Emits (join directory name) entries t.1 (
              walk_entries-Emits (join directory name) entries (join-IsByte directory name d b)
                t.1)))
    walk_node-Emits directory name (file_node before after content) f d b t =
        visit-Emits hash hex root_device (parts directory) name (join directory name)
          (file_node before after content) no_entries (split-join directory name f)
          (join-IsByte directory name d b) t (no_entries-Emits _ _)
    walk_node-Emits directory name (symlink_node m target) f d b t =
        visit-Emits hash hex root_device (parts directory) name (join directory name)
          (symlink_node m target) no_entries (split-join directory name f)
          (join-IsByte directory name d b) t (no_entries-Emits _ _)
    walk_node-Emits directory name (other_node m) f d b t =
        visit-Emits hash hex root_device (parts directory) name (join directory name) (other_node m)
          no_entries (split-join directory name f) (join-IsByte directory name d b) t
          (no_entries-Emits _ _)

    walk_entries-Emits :
        (path : Text) (entries : Entries)
        → All IsByte path
        → AreEntries entries
        → All
            (λ x. Emits (parts path) (λ n. n ≡ x.0) x.1)
            (walk_entries hash root_device path entries)
    walk_entries-Emits path nil b h = tt
    walk_entries-Emits path (cons name node entries) b (f, c, other, t, h) =
        (walk_node-Emits path name node f b c t, walk_entries-Emits path entries b h)

  pub walk_directory-Emits :
      (entries : Entries)
      → AreEntries entries
      → Emits [] (λ n. Unit {0}) (walk_directory hash root_device [] entries)
  unfolding walk_directory
  walk_directory-Emits entries h = sorted-Emits [] entries h (walk_entries-Emits [] entries tt h)
