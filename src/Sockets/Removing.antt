-- ===== src/Sockets/Removing.antt =====
-- socket_switch_remove of src/cyberd/socket_switch.c on the invariant of the switch.
use cyberd.Base.{
  ℕ, Bool, true, false, none, some, List, ◌==◌, ◌≡◌, refl, sym, ap, ◌∙◌, subst, arith, Among, inl,
  inr, Bool-cases, ltb, Returns, returns, Returns->>=,
}
use cyberd.Tree.{Node}
use cyberd.Tree.Balance.{IsAvl}
use cyberd.Tree.Sequence.{IsSorted, to_list, lookup, erase}
use cyberd.Tree.Remove.{tree_remove-IsValid}
use cyberd.Tree.Members.{erase-Among, Among-erase, erase_other, Among-lookup}
use cyberd.Sockets.{
  SocketNode, endpoint, connection, Switch, Kernel, fd_setsize, write, socket_nodes_compare,
  tree_of, fd_write, fetch_node, socket_node_destroy, socket_switch_remove,
}
use cyberd.Sockets.{write_file}
use cyberd.Sockets.Kept.{
  socket_nodes_compare-IsLawful, compare_same, compare_other, descriptors, Kept, Serves,
  switch-IsValid, same-fd,
}

-- The paths of sockets are no part of the invariant.
pub files-Kept :
    (sw : Switch) (files : List ℕ → Bool) → Kept sw → Kept (record sw { files = files })
files-Kept sw files h = record {
  balanced = h.balanced;
  sorted = h.sorted;
  allocated = h.allocated;
  stored = h.stored;
  active = h.active;
  only_active = h.only_active;
  in_set = h.in_set;
}

-- What a node holds may change.
pub written-Kept :
    (sw : Switch) (fd : ℕ) (snode : SocketNode)
    → Kept sw
    → Among fd (descriptors sw)
    → Kept (record sw { nodes = write sw.nodes fd (some snode) })
written-Kept sw fd snode h m = record {
  balanced = h.balanced;
  sorted = h.sorted;
  allocated = λ n i. elim (Bool-cases (n == fd)) [
    | inl k ↦ (snode, rw k refl)
    | inr k ↦ let (x, a) = h.allocated n i in (x, rw k a)
  ];
  stored = λ n x a. elim (Bool-cases (n == fd)) [
    | inl k ↦ subst (λ i. Among i (descriptors sw)) (sym (same-fd n fd k)) m
    | inr k ↦ h.stored n x (sym (elsewhere n k) ∙ a)
  ];
  active = h.active;
  only_active = h.only_active;
  in_set = h.in_set;
}
  where
    elsewhere : (n : ℕ) → (n == fd) ≡ false → write sw.nodes fd (some snode) n ≡ sw.nodes n
    elsewhere n k = rw k refl

module _ (k : Kernel) (sw : Switch) (fd : ℕ) (h : Kept sw) (m : Among fd (descriptors sw)) where
  abbrev removed : Node ℕ → Switch
  removed root = record sw {
    snodes = root;
    nodes = write sw.nodes fd none;
    activeset = write sw.activeset fd false;
  }

  removed-Kept :
      (root : Node ℕ)
      → IsAvl root
      → IsSorted socket_nodes_compare (to_list root)
      → to_list root ≡ erase socket_nodes_compare fd (descriptors sw)
      → Kept (removed root)
  removed-Kept root b s e =
      let old : (n : ℕ) → Among n (to_list root) → Among n (descriptors sw) =
        λ n i. erase-Among socket_nodes_compare fd n (descriptors sw) (subst (Among n) e i) in
      let other : (n : ℕ) → Among n (to_list root) → (n == fd) ≡ false = λ n i.
        elim (Bool-cases (n == fd)) [
          | inl q ↦ absurd (
              erase_other socket_nodes_compare socket_nodes_compare-IsLawful fd n (descriptors sw)
                h.sorted (subst (Among n) e i)
                (ap (socket_nodes_compare fd) (same-fd n fd q) ∙ compare_same fd))
          | inr q ↦ q
        ] in
      let kept : (n : ℕ) → (n == fd) ≡ false → Among n (descriptors sw) → Among n (to_list root) =
        λ n o i. subst (Among n) (sym e) (
          Among-erase socket_nodes_compare fd n (descriptors sw) (compare_other fd n (swap n o))
            i) in
      record {
        balanced = b;
        sorted = s;
        allocated = λ n i. let (x, a) = h.allocated n (old n i) in (x, rw (other n i) a);
        stored = λ n x a. elim (Bool-cases (n == fd)) [
          | inl q ↦ absurd (cc (freed n q, a))
          | inr q ↦ kept n q (h.stored n x (sym (elsewhere n q) ∙ a))
        ];
        active = λ n i. rw (other n i) (h.active n (old n i));
        only_active = λ n a. elim (Bool-cases (n == fd)) [
          | inl q ↦ absurd (cc (inactive n q, a))
          | inr q ↦ kept n q (h.only_active n (sym (elsewhere_active n q) ∙ a))
        ];
        in_set = λ n i. h.in_set n (old n i);
      }
    where
      swap : (n : ℕ) → (n == fd) ≡ false → (fd == n) ≡ false
      swap n o = ground arith

      freed : (n : ℕ) → (n == fd) ≡ true → write sw.nodes fd none n ≡ none
      freed n q = rw q refl

      inactive : (n : ℕ) → (n == fd) ≡ true → write sw.activeset fd false n ≡ false
      inactive n q = rw q refl

      elsewhere : (n : ℕ) → (n == fd) ≡ false → write sw.nodes fd none n ≡ sw.nodes n
      elsewhere n q = rw q refl

      elsewhere_active :
          (n : ℕ) → (n == fd) ≡ false → write sw.activeset fd false n ≡ sw.activeset n
      elsewhere_active n q = rw q refl

  abbrev Removed : Switch → Type 0
  Removed t = Kept t × Serves fd sw t

  closed-Removed :
      (root : Node ℕ) (snode : SocketNode)
      → sw.nodes fd ≡ some snode
      → Removed (removed root)
      → Returns Removed (
          socket_node_destroy k
            (record sw { snodes = root; activeset = write sw.activeset fd false })
            fd)
  unfolding socket_node_destroy fetch_node
  closed-Removed root (connection parser) a g = returns (removed root) (rw a refl) g
  closed-Removed root (endpoint path capabilities) a g =
      let closing = record sw { snodes = root; activeset = write sw.activeset fd false } in
      elim (Bool-cases (k.getsockname closing fd)) [
        | inl q ↦
            returns (record (removed root) { files = write_file sw.files path false })
              (rw (a, q) refl) (files-Kept (removed root) (write_file sw.files path false) g.0, g.1)
        | inr q ↦ returns (removed root) (rw (a, q) refl) g
      ]

  destroyed-Removed :
      (root : Node ℕ)
      → Removed (removed root)
      → Returns Removed (
          socket_node_destroy k
            (record sw { snodes = root; activeset = write sw.activeset fd false })
            fd)
  destroyed-Removed root g = let (snode, a) = h.allocated fd m in closed-Removed root snode a g

  pub socket_switch_remove-Removed : Returns Removed (socket_switch_remove k sw fd)
  unfolding socket_switch_remove fd_write
  socket_switch_remove-Removed =
      let inside : ltb fd fd_setsize ≡ true = ground (arith, h.in_set fd m) in
      let same : (fd == fd) ≡ true = ground arith in
      let there : lookup socket_nodes_compare fd (descriptors sw) ≡ some fd =
        Among-lookup socket_nodes_compare socket_nodes_compare-IsLawful fd fd (descriptors sw)
          h.sorted m (compare_same fd) in
      Returns->>= (tree_remove-IsValid (tree_of sw) fd (switch-IsValid sw h)) λ t _ g.
        let found : t.1 ≡ some fd = g.3 ∙ there in
        rw (found, same, inside)
          (destroyed-Removed t.0.root (
            removed-Kept t.0.root g.0.balanced
                (subst (λ order. IsSorted order (to_list t.0.root)) g.1 (g.0.sorted)) g.2,
            (
              (λ n o i. subst (Among n) (sym g.2) (
                  Among-erase socket_nodes_compare fd n (descriptors sw)
                    (compare_other fd n (swap n o)) i)),
              refl,
            ),
          ))
    where
      swap : (n : ℕ) → (n == fd) ≡ false → (fd == n) ≡ false
      swap n o = ground arith
