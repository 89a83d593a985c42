-- ===== src/Tests/TreeRuns.antt =====
-- src/cyberd/tree.c on small trees of numbers, as in test/cyberd-tree.c.
use cyberd.Base.{
  ℕ, ◌+◌, ◌*◌, ◌^◌, ◌≤◌, ◌≡◌, refl, ◌⊎◌, compare, lt, ◌>>=◌, List, [], ◌∷◌, ◌++◌, none, some, arith,
  ok, fault, aborted, Returns, All, length,
}
use mathlib.Core.List.{Perm}
use cyberd.Tree.{
  null, node, Tree, height, insert, remove, tree_insert, tree_remove, tree_find, tree_last,
  tree_mutate, tree_deinit, grow_left, grow_right, rotate_left, rotate_right, rotate_left_right,
  rotate_right_left, rotate_heavy, rebalance, successor, unlink_root, destroy,
}
use cyberd.Tree.Valid.{IsValid, elements}
use cyberd.Tree.Sequence.{IsLawful, lookup}
use cyberd.Tree.Insert.{tree_insert-IsValid, tree_insert_duplicate, Inserts}
use cyberd.Tree.Remove.{tree_remove-IsValid, Removes}
use cyberd.Tree.Search.{tree_find-lookup, tree_last_greatest}
use cyberd.Tree.Traversal.{tree_mutate_once, tree_deinit_once, preorder, run_over}
use cyberd.Tree.Height.{Built-height}
use cyberd.Tree.History.{Built, start, inserted, empty, Built-IsValid}

compare-IsLawful : IsLawful compare
compare-IsLawful = ground arith

-- Four, two, six and five.
abbrev sample : Tree ℕ
sample = record {
  compare = compare;
  root = node 4 (node 2 null null 1) (node 6 (node 5 null null 1) null 2) 3;
}

sample-IsValid : IsValid sample
sample-IsValid = record { lawful = compare-IsLawful; balanced = omega arith; sorted = ground arith }

tree_insert-IsValid_example : Returns (Inserts sample 3) (tree_insert sample 3)
unfolding lookup
tree_insert-IsValid_example = tree_insert-IsValid sample 3 sample-IsValid refl

tree_insert_duplicate_example : tree_insert sample 5 ≡ fault aborted
unfolding lookup
tree_insert_duplicate_example = tree_insert_duplicate sample 5 5 sample-IsValid refl

tree_remove-IsValid_example : Returns (Removes sample 4) (tree_remove sample 4)
tree_remove-IsValid_example = tree_remove-IsValid sample 4 sample-IsValid

tree_find-lookup_example : tree_find sample 5 ≡ lookup sample.compare 5 (elements sample)
tree_find-lookup_example = tree_find-lookup sample 5 sample-IsValid

tree_last_greatest_example :
    (sample.root ≡ null) × (tree_last sample ≡ none)
    ⊎ ((x : ℕ) × (ys : List ℕ) × (tree_last sample ≡ some x)
        × (elements sample ≡ ys ++ x ∷ [])
        × All (λ y. compare y x ≡ lt) ys)
tree_last_greatest_example = tree_last_greatest sample sample-IsValid

tree_mutate_once_example :
    (tree_mutate sample (λ x n. x + 2 * n) 0 ≡ run_over (λ x n. x + 2 * n) (preorder sample.root) 0)
    × Perm (preorder sample.root) (elements sample)
tree_mutate_once_example = tree_mutate_once sample (λ x n. x + 2 * n) 0

tree_deinit_once_example : Perm (tree_deinit sample) (elements sample)
tree_deinit_once_example = tree_deinit_once sample

-- Rising insertions, which rotate to the left, then a removal of the root.
run_insertions :
    (do
      a ← tree_insert (empty compare) 1
      b ← tree_insert a 2
      c ← tree_insert b 3
      d ← tree_insert c 4
      tree_remove d 2)
    ≡ ok (
      record { compare = compare; root = node 3 (node 1 null null 1) (node 4 null null 1) 2 },
      some 2,
      2 ∷ [],
    )
unfolding empty tree_insert tree_remove insert remove grow_left grow_right rotate_left rotate_right
    rotate_left_right rotate_right_left rotate_heavy rebalance successor unlink_root destroy
run_insertions = refl

-- Three rising insertions.
abbrev risen : Tree ℕ
risen = record { compare = compare; root = node 2 (node 1 null null 1) (node 3 null null 1) 2 }

risen-Built : Built compare risen
unfolding empty tree_insert insert grow_left grow_right rotate_left
risen-Built =
    inserted {t = record { compare = compare; root = node 1 null (node 2 null null 1) 2 }} 3
      (inserted {t = record { compare = compare; root = node 1 null null 1 }} 2
        (inserted {t = empty compare} 1 start refl) refl)
      refl

Built-height_example :
    2 ^ height risen.root ≤ (length (elements risen) + 1) * (length (elements risen) + 1)
Built-height_example = Built-height compare-IsLawful risen-Built

Built-IsValid_example : IsValid (record { compare = compare; root = node 1 null null 1 })
unfolding empty tree_insert insert
Built-IsValid_example = Built-IsValid compare-IsLawful (inserted {t = empty compare} 1 start refl)
