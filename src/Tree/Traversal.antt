-- ===== src/Tree/Traversal.antt =====
-- tree_mutate and tree_deinit of src/cyberd/tree.h: every element is met exactly once.
use mathlib.Core.List.{Perm, perm_middle, perm_append_comm}
use mathlib.Core.List.Perm
use cyberd.Base.{
  ◌≡◌, refl, ◌∙◌, ap, sym, List, [], ◌∷◌, ◌++◌, All, All-append, All-append_left, All-append_right,
}
use cyberd.Tree.{Node, null, node, Tree, preorder_mutate, tree_mutate, destroy, tree_deinit}
use cyberd.Tree.Valid.{elements}
use cyberd.Tree.Sequence.{to_list}

module _ {ℓ} {E : Type ℓ} where
  -- The elements, a root before its subtrees.
  abbrev pub preorder : Node E → List E
  preorder null = []
  preorder (node x l r h) = x ∷ (preorder l ++ preorder r)

  preorder-perm : (t : Node E) → Perm (preorder t) (to_list t)
  preorder-perm null = Perm.refl []
  preorder-perm (node x l r h) =
      Perm.trans (Perm.cons x (Perm.append (preorder-perm l) (preorder-perm r)))
        (Perm.symm (perm_middle (to_list l) (to_list r)))

  -- A predicate on all elements does not depend on the order.
  pub All-preorder {κ} : (P : E → Type κ) (t : Node E) → All P (to_list t) → All P (preorder t)
  All-preorder P null h = tt
  All-preorder P (node x l r n) h =
      let right = All-append_right P (to_list l) (x ∷ to_list r) h in
      (
        right.0,
        All-append P (preorder l) (preorder r)
            (All-preorder P l (All-append_left P (to_list l) (x ∷ to_list r) h))
            (All-preorder P r right.1),
      )

  pub All-inorder {κ} : (P : E → Type κ) (t : Node E) → All P (preorder t) → All P (to_list t)
  All-inorder P null h = tt
  All-inorder P (node x l r n) h =
      All-append P (to_list l) (x ∷ to_list r)
        (All-inorder P l (All-append_left P (preorder l) (preorder r) h.1))
        (h.0, All-inorder P r (All-append_right P (preorder l) (preorder r) h.1))

  -- A callback run on each element of a list in turn.
  abbrev pub run_over {κ} : {S : Type κ} → (E → S → S) → List E → S → S
  run_over f [] s = s
  run_over f (x ∷ xs) s = run_over f xs (f x s)

  run_over-append {κ} :
      {S : Type κ} (f : E → S → S) (xs ys : List E) (s : S)
      → run_over f (xs ++ ys) s ≡ run_over f ys (run_over f xs s)
  run_over-append f [] ys s = refl
  run_over-append f (x ∷ xs) ys s = run_over-append f xs ys (f x s)

  preorder_mutate-run_over {κ} :
      {S : Type κ} (t : Node E) (f : E → S → S) (s : S)
      → preorder_mutate t f s ≡ run_over f (preorder t) s
  unfolding preorder_mutate
  preorder_mutate-run_over null f s = refl
  preorder_mutate-run_over (node x l r h) f s =
      preorder_mutate-run_over r f _
      ∙ ap (run_over f (preorder r)) (preorder_mutate-run_over l f (f x s))
      ∙ sym (run_over-append f (preorder l) (preorder r) (f x s))

  -- tree_mutate runs the callback once on each element of the tree, in some order.
  pub tree_mutate_once {κ} :
      {S : Type κ} (t : Tree E) (f : E → S → S) (s : S)
      → (tree_mutate t f s ≡ run_over f (preorder t.root) s) × Perm (preorder t.root) (elements t)
  unfolding tree_mutate
  tree_mutate_once t f s = (preorder_mutate-run_over t.root f s, preorder-perm t.root)

  destroy-perm : (t : Node E) → Perm (destroy t) (to_list t)
  unfolding destroy
  destroy-perm null = Perm.refl []
  destroy-perm (node x l r h) =
      Perm.append (destroy-perm l)
        (Perm.trans (perm_append_comm (destroy r) (x ∷ [])) (Perm.cons x (destroy-perm r)))

  -- tree_deinit frees the node of each element exactly once.
  pub tree_deinit_once : (t : Tree E) → Perm (tree_deinit t) (elements t)
  unfolding tree_deinit
  tree_deinit_once t = destroy-perm t.root
