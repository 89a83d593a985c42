-- ===== src/Sockets/Kept.antt =====
-- The invariant of the socket switch, src/cyberd/socket_switch.c.
use cyberd.Base.{
  ℕ, ◌<◌, true, false, none, some, List, ◌==◌, ◌≡◌, ◌≢◌, refl, sym, ap, ◌∙◌, subst, arith, Among,
  ◌⊎◌, inl, inr, Bool-cases, ltb, eq, Returns, returns, Returns->>=, ok,
}
use cyberd.Tree.{Node}
use cyberd.Tree.Balance.{IsAvl}
use cyberd.Tree.Valid.{IsValid}
use cyberd.Tree.Sequence.{IsLawful, IsSorted, to_list, insert_sorted}
use cyberd.Tree.Insert.{tree_insert-IsValid}
use cyberd.Tree.Members.{insert_sorted-Among, insert_sorted_self, Among-insert_sorted, lookup-none}
use cyberd.Sockets.{
  SocketNode, Switch, fd_setsize, write, socket_nodes_compare, tree_of, fd_write,
  socket_switch_insert, fetch_node,
}

pub socket_nodes_compare-IsLawful : IsLawful socket_nodes_compare
unfolding socket_nodes_compare
socket_nodes_compare-IsLawful = record {
  cmp_refl = λ a. ground arith;
  gt_of_lt = λ a b. ground arith;
  lt_of_gt = λ a b. ground arith;
  lt_trans = λ a b c. ground arith;
  gt_of_eq = λ a b c. ground arith;
  lt_of_eq = λ a b c. ground arith;
}

pub compare_same : (a : ℕ) → socket_nodes_compare a a ≡ eq
unfolding socket_nodes_compare
compare_same a = ground arith

pub compare_other : (a b : ℕ) → (a == b) ≡ false → socket_nodes_compare a b ≢ eq
unfolding socket_nodes_compare
compare_other a b h = ground arith

pub compare_equal : (a b : ℕ) → socket_nodes_compare a b ≡ eq → a ≡ b
unfolding socket_nodes_compare
compare_equal a b h = ground arith

abbrev pub descriptors : Switch → List ℕ
descriptors sw = to_list sw.snodes

-- The tree is a valid AVL tree by descriptor, its elements are the nodes that are allocated and the
-- descriptors of the active set, and they are below FD_SETSIZE.
pub record Kept (sw : Switch) : Type 0 where
  pub balanced : IsAvl sw.snodes
  pub sorted : IsSorted socket_nodes_compare (descriptors sw)
  pub allocated :
      (fd : ℕ) → Among fd (descriptors sw) → (snode : SocketNode) × (sw.nodes fd ≡ some snode)
  pub stored : (fd : ℕ) (snode : SocketNode) → sw.nodes fd ≡ some snode → Among fd (descriptors sw)
  pub active : (fd : ℕ) → Among fd (descriptors sw) → sw.activeset fd ≡ true
  pub only_active : (fd : ℕ) → sw.activeset fd ≡ true → Among fd (descriptors sw)
  pub in_set : (fd : ℕ) → Among fd (descriptors sw) → fd < fd_setsize

-- Every node but the one at `fd` is still there, and the set of ready descriptors is the same.
abbrev pub Serves : ℕ → Switch → Switch → Type 0
Serves fd sw t =
    ((n : ℕ) → (n == fd) ≡ false → Among n (descriptors sw) → Among n (descriptors t))
    × (t.readset ≡ sw.readset)

-- A descriptor of no node, that fits in the sets.
abbrev pub IsNew : Switch → ℕ → Type 0
IsNew sw fd = (sw.nodes fd ≡ none) × (fd < fd_setsize)

pub switch-IsValid : (sw : Switch) → Kept sw → IsValid (tree_of sw)
switch-IsValid sw h = record {
  lawful = socket_nodes_compare-IsLawful;
  balanced = h.balanced;
  sorted = h.sorted;
}

pub fetch_node-ok :
    (sw : Switch) (fd : ℕ) (snode : SocketNode)
    → sw.nodes fd ≡ some snode
    → fetch_node sw fd ≡ ok snode
unfolding fetch_node
fetch_node-ok sw fd snode a = rw (a, fetch_node) refl

pub same-fd : (n fd : ℕ) → (n == fd) ≡ true → n ≡ fd
same-fd n fd h = ground arith

-- A new node.
module _ (sw : Switch) (fd : ℕ) (snode : SocketNode) (h : Kept sw) (new : IsNew sw fd) where
  absent : Among fd (descriptors sw) → ⊥
  absent m = let (x, a) = h.allocated fd m in absurd (cc (new.0, a))

  inserted-Kept :
      (root : Node ℕ)
      → IsAvl root
      → IsSorted socket_nodes_compare (to_list root)
      → to_list root ≡ insert_sorted socket_nodes_compare fd (descriptors sw)
      → Kept (record sw {
        snodes = root;
        nodes = write sw.nodes fd (some snode);
        activeset = write sw.activeset fd true;
      })
  inserted-Kept root b s e =
      let old : (n : ℕ) → Among n (to_list root) → (n ≡ fd) ⊎ Among n (descriptors sw) = λ n m.
        Among-insert_sorted socket_nodes_compare fd n (descriptors sw) (subst (Among n) e m) in
      let kept : (n : ℕ) → Among n (descriptors sw) → Among n (to_list root) = λ n m.
        subst (Among n) (sym e)
          (insert_sorted-Among socket_nodes_compare fd n (descriptors sw) m) in
      let own : Among fd (to_list root) =
        subst (Among fd) (sym e) (insert_sorted_self socket_nodes_compare fd (descriptors sw)) in
      record {
        balanced = b;
        sorted = s;
        allocated = λ n m. elim (Bool-cases (n == fd)) [
          | inl k ↦ (snode, rw k refl)
          | inr k ↦ elim (old n m) [
            | inl q ↦ absurd (cc (k, ap (λ i. i == fd) q, fd_same))
            | inr i ↦ let (x, a) = h.allocated n i in (x, rw k a)
          ]
        ];
        stored = λ n x a. elim (Bool-cases (n == fd)) [
          | inl k ↦ subst (λ i. Among i (to_list root)) (sym (same-fd n fd k)) own
          | inr k ↦ kept n (h.stored n x (sym (elsewhere n k) ∙ a))
        ];
        active = λ n m. elim (Bool-cases (n == fd)) [
          | inl k ↦ rw k refl
          | inr k ↦ elim (old n m) [
            | inl q ↦ absurd (cc (k, ap (λ i. i == fd) q, fd_same))
            | inr i ↦ rw k (h.active n i)
          ]
        ];
        only_active = λ n a. elim (Bool-cases (n == fd)) [
          | inl k ↦ subst (λ i. Among i (to_list root)) (sym (same-fd n fd k)) own
          | inr k ↦ kept n (h.only_active n (sym (elsewhere_active n k) ∙ a))
        ];
        in_set = λ n m. elim (old n m) [
          | inl q ↦ subst (λ i. i < fd_setsize) (sym q) new.1
          | inr i ↦ h.in_set n i
        ];
      }
    where
      fd_same : (fd == fd) ≡ true
      fd_same = ground arith

      elsewhere : (n : ℕ) → (n == fd) ≡ false → write sw.nodes fd (some snode) n ≡ sw.nodes n
      elsewhere n k = rw k refl

      elsewhere_active : (n : ℕ) → (n == fd) ≡ false → write sw.activeset fd true n ≡ sw.activeset n
      elsewhere_active n k = rw k refl

  pub socket_switch_insert-Kept :
      Returns (λ t. Kept t × ((n : ℕ) → Serves n sw t)) (socket_switch_insert sw fd snode)
  unfolding socket_switch_insert fd_write
  socket_switch_insert-Kept =
      let inside : ltb fd fd_setsize ≡ true = ground (arith, new.1) in
      rw inside (
        Returns->>=
          (tree_insert-IsValid (tree_of sw) fd (switch-IsValid sw h) (
            lookup-none socket_nodes_compare fd (descriptors sw) (λ x m q.
              absent (subst (λ i. Among i (descriptors sw)) (sym (compare_equal fd x q)) m))))
          λ t _ g. returns _ refl (
            inserted-Kept t.root g.0.balanced
                (subst (λ order. IsSorted order (to_list t.root)) g.1 (g.0.sorted)) g.2,
            λ n. (
              (λ i o m.
                  subst (Among i) (sym g.2)
                    (insert_sorted-Among socket_nodes_compare fd i (descriptors sw) m)),
              refl,
            ),
          ))
