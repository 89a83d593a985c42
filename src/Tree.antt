-- ===== src/Tree.antt =====
-- src/cyberd/tree.c and tree.h: the AVL tree that stores daemons, spawns and socket nodes.
--
-- A `struct tree_node *` is a `Node`, null or a node with its element, children and height. A
-- function that takes a `struct tree_node **` and replaces the root returns the new root.
-- `compare` is C's comparison function, read by the sign of its result. A balance is never kept:
-- it is compared by the two heights it stands for (`right - left == -2` is `left == right + 2`).
pub mod Balance
pub mod Rebalance
pub mod Sequence
pub mod Valid
pub mod Middle
pub mod Elements
pub mod Insert
pub mod Remove
pub mod Search
pub mod Traversal
pub mod Height
pub mod History
pub mod Members
use cyberd.Base.{
  ℕ, ◌+◌, max, Bool, true, false, ◌||◌, List, [], ◌∷◌, ◌++◌, Option, none, some, Ordering, lt, eq,
  gt, ltb, leb, ◌==◌, if◌then◌else◌, Outcome, ok, fault, aborted, null_dereference, ◌>>=◌, ◌>>◌,
  assert,
}

pub data Node {ℓ} (E : Type ℓ) : Type ℓ where
  null : Node E
  node : E → Node E → Node E → ℕ → Node E

-- `struct tree`
pub record Tree {ℓ} (E : Type ℓ) : Type ℓ where
  pub compare : E → E → Ordering
  pub root : Node E

module _ {ℓ} {E : Type ℓ} where
  abbrev pub height : Node E → ℕ
  height null = 0
  height (node x l r h) = h

  abbrev pub not_null : Node E → Bool
  not_null null = false
  not_null (node x l r h) = true

  -- The heights of the children, 0 for the balance of a null node.
  abbrev pub left_height : Node E → ℕ
  left_height null = 0
  left_height (node x l r h) = height l

  abbrev pub right_height : Node E → ℕ
  right_height null = 0
  right_height (node x l r h) = height r

  -- tree_node_rotate_right: a null `node` or `node->left` is dereferenced.
  unfoldable pub rotate_right : Node E → Outcome (Node E)
  rotate_right null = fault null_dereference
  rotate_right (node x null r h) = fault null_dereference
  rotate_right (node x (node y ll lr lh) r h) =
      let moved = max (height lr) (height r) + 1 in
      ok (node y ll (node x lr r moved) (max (height ll) moved + 1))

  unfoldable pub rotate_left : Node E → Outcome (Node E)
  rotate_left null = fault null_dereference
  rotate_left (node x l null h) = fault null_dereference
  rotate_left (node x l (node y rl rr rh) h) =
      let moved = max (height l) (height rl) + 1 in
      ok (node y (node x l rl moved) rr (max (height rr) moved + 1))

  unfoldable pub rotate_left_right : Node E → Outcome (Node E)
  rotate_left_right null = fault null_dereference
  rotate_left_right (node x l r h) = do l' ← rotate_left l; rotate_right (node x l' r h)

  unfoldable pub rotate_right_left : Node E → Outcome (Node E)
  rotate_right_left null = fault null_dereference
  rotate_right_left (node x l r h) = do r' ← rotate_right r; rotate_left (node x l r' h)

  -- `root->height = max(...) + 1`
  abbrev pub update_height : Node E → Node E
  update_height null = null
  update_height (node x l r h) = node x l r (max (height l) (height r) + 1)

  -- The element of a node that the code dereferences unchecked.
  abbrev pub element : Node E → Outcome E
  element null = fault null_dereference
  element (node x l r h) = ok x

  -- tree_node_create; malloc(3) is asserted to succeed.
  abbrev pub create : E → Node E
  create x = node x null null 1

  -- tree_node_destroy, as the elements of the nodes it frees, in its order.
  unfoldable pub destroy : Node E → List E
  destroy null = []
  destroy (node x l r h) = destroy l ++ (destroy r ++ (x ∷ []))

  -- tree_node_preorder_mutate; the callback acts on a state `S` through an element.
  unfoldable pub preorder_mutate {κ} : {S : Type κ} → Node E → (E → S → S) → S → S
  preorder_mutate null mutate s = s
  preorder_mutate (node x l r h) mutate s =
      preorder_mutate r mutate (preorder_mutate l mutate (mutate x s))

  -- The rest of tree_node_insert after the insertion of `e` on the left of `root`.
  unfoldable pub grow_left : (E → E → Ordering) → E → Node E → Outcome (Node E)
  grow_left cmp e null = fault null_dereference
  grow_left cmp e (node x l r h) =
      let rotated = do
        y ← element l
        root ← elim (cmp e y) [
          | lt ↦ rotate_right (node x l r h)
          | _ ↦ rotate_left_right (node x l r h)
        ]
        ok (update_height root)
      in if height l == height r + 2 then rotated else ok (update_height (node x l r h))

  -- The same, on the right.
  unfoldable pub grow_right : (E → E → Ordering) → E → Node E → Outcome (Node E)
  grow_right cmp e null = fault null_dereference
  grow_right cmp e (node x l r h) =
      let rotated = do
        y ← element r
        root ← elim (cmp e y) [
          | gt ↦ rotate_left (node x l r h)
          | _ ↦ rotate_right_left (node x l r h)
        ]
        ok (update_height root)
      in if height r == height l + 2 then rotated else ok (update_height (node x l r h))

  -- tree_node_insert of a node made by `create`; an element that compares equal aborts.
  unfoldable pub insert : (E → E → Ordering) → Node E → E → Outcome (Node E)
  insert cmp null e = ok (create e)
  insert cmp (node x l r h) e = elim (cmp e x) [
    | lt ↦ do l' ← insert cmp l e; grow_left cmp e (node x l' r h)
    | gt ↦ do r' ← insert cmp r e; grow_right cmp e (node x l r' h)
    | eq ↦ fault aborted
  ]

  -- The rotations at the end of tree_node_remove.
  unfoldable pub rotate_heavy : Node E → Outcome (Node E)
  rotate_heavy null = fault null_dereference
  rotate_heavy (node x l r h) =
      if ltb (height l + 1) (height r)
      then if leb (left_height r) (right_height r)
        then rotate_left (node x l r h)
        else rotate_right_left (node x l r h)
      else if ltb (height r + 1) (height l)
      then if leb (right_height l) (left_height l)
        then rotate_right (node x l r h)
        else rotate_left_right (node x l r h)
      else ok (node x l r h)

  -- The last part of tree_node_remove: assertions, height and rotations of the new root.
  unfoldable pub rebalance : Node E → Outcome (Node E)
  rebalance null = ok null
  rebalance (node x l r h) = do
    assert (not_null l || leb (height l) (height r))
    assert (not_null r || leb (height r) (height l))
    rotate_heavy (update_height (node x l r h))

  -- The leftmost element under `root->right`, which the `while` loop finds.
  unfoldable pub successor : Node E → Outcome E
  successor null = fault null_dereference
  successor (node x null r h) = ok x
  successor (node x (node y ll lr lh) r h) = successor (node y ll lr lh)

  abbrev pub found : Node E → Option E
  found null = none
  found (node x l r h) = some x

  -- The removed successor takes over the children of the removed root.
  abbrev relink : Node E → Node E → Node E → Outcome (Node E)
  relink null l r = fault null_dereference
  relink (node y _ _ h) l r = ok (node y l r h)

  -- The new root where the element is found; `spliced` is the removal of the successor from `r`,
  -- which runs only if both children are there.
  unfoldable pub unlink_root : Node E → Node E → Outcome (Node E × Node E) → Outcome (Node E)
  unlink_root null r spliced = ok r
  unlink_root (node y ll lr lh) null spliced = ok (node y ll lr lh)
  unlink_root (node y ll lr lh) (node z rl rr rh) spliced = do
    (r', next) ← spliced
    relink next (node y ll lr lh) r'

  -- tree_node_remove: the new root, and the removed node with its links reset (null if not found).
  unfoldable pub remove : (E → E → Ordering) → Node E → E → Outcome (Node E × Node E)
  remove cmp null e = ok (null, null)
  remove cmp (node x l r h) e = elim (cmp e x) [
    | lt ↦ do (l', removed) ← remove cmp l e; root ← rebalance (node x l' r h); ok (root, removed)
    | gt ↦ do (r', removed) ← remove cmp r e; root ← rebalance (node x l r' h); ok (root, removed)
    | eq ↦ do
      root ← unlink_root l r (successor r >>= λ s. remove cmp r s)
      root' ← rebalance root
      ok (root', create x)
  ]

  -- The loop of tree_find.
  unfoldable pub find_from : (E → E → Ordering) → Node E → E → Option E
  find_from cmp null e = none
  find_from cmp (node x l r h) e = elim (cmp e x) [
    | lt ↦ find_from cmp l e
    | gt ↦ find_from cmp r e
    | eq ↦ some x
  ]

  -- The loop of tree_last.
  unfoldable pub last_from : Node E → Option E
  last_from null = none
  last_from (node x l null h) = some x
  last_from (node x l (node y rl rr rh) h) = last_from (node y rl rr rh)

  unfoldable pub tree_insert : Tree E → E → Outcome (Tree E)
  tree_insert t e = do root ← insert t.compare t.root e; ok (record t { root = root })

  -- tree_remove: the tree, the element returned, and the elements of the nodes that were freed.
  unfoldable pub tree_remove : Tree E → E → Outcome (Tree E × Option E × List E)
  tree_remove t e = do
    (root, removed) ← remove t.compare t.root e
    ok (record t { root = root }, found removed, destroy removed)

  unfoldable pub tree_find : Tree E → E → Option E
  tree_find t e = find_from t.compare t.root e

  unfoldable pub tree_last : Tree E → Option E
  tree_last t = last_from t.root

  unfoldable pub tree_mutate {κ} : {S : Type κ} → Tree E → (E → S → S) → S → S
  tree_mutate t mutate s = preorder_mutate t.root mutate s

  -- tree_deinit, as the elements of the nodes it frees.
  unfoldable pub tree_deinit : Tree E → List E
  tree_deinit t = destroy t.root
