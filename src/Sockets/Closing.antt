-- ===== src/Sockets/Closing.antt =====
-- socket_switch_teardown of src/cyberd/socket_switch.c, which main.c calls at the end.
use cyberd.Base.{
  ℕ, Bool, true, false, none, some, List, [], ◌∷◌, ◌==◌, ◌≡◌, refl, sym, ap, ◌∙◌, subst, arith, inl,
  inr, Among, Option-cases, Bool-cases, some_inj, Distinct, same_string, Returns, returns,
  Returns-imp, Outcome, ok, ◌>>=◌,
}
use cyberd.Tree.Traversal.{preorder, run_over, tree_mutate_once}
use cyberd.Tree.Members.{Among-preorder, preorder-Among, preorder-Distinct}
use cyberd.Sockets.{
  SocketNode, endpoint, connection, Switch, Kernel, write, write_file, tree_of,
  socket_nodes_compare, socket_node_destroy, socket_switch_teardown,
}
use cyberd.Sockets.Kept.{fetch_node-ok, Kept, socket_nodes_compare-IsLawful, same-fd}
use cyberd.Sockets.Stealing.{write_file_same}

-- What the destruction of the nodes `xs` leaves: no node of them, the others as they were, no new file, and
-- no file of an endpoint among them.
pub record Closes (xs : List ℕ) (sw t : Switch) : Type 0 where
  pub freed : (fd : ℕ) → Among fd xs → t.nodes fd ≡ none
  pub others : (fd : ℕ) → (Among fd xs → ⊥) → t.nodes fd ≡ sw.nodes fd
  pub no_file : (path : List ℕ) → sw.files path ≡ false → t.files path ≡ false
  pub unlinked :
      (fd : ℕ) (path : List ℕ) (capabilities : ℕ)
      → Among fd xs
      → sw.nodes fd ≡ some (endpoint path capabilities)
      → t.files path ≡ false

-- No node is left, and no file of an endpoint.
abbrev pub Unlinked : Switch → Switch → Type 0
Unlinked sw t =
    ((fd : ℕ) → t.nodes fd ≡ none)
    × ((fd : ℕ) (path : List ℕ) (capabilities : ℕ)
        → sw.nodes fd ≡ some (endpoint path capabilities)
        → t.files path ≡ false)

module _ (k : Kernel) (tells : (sw : Switch) (fd : ℕ) → k.getsockname sw fd ≡ true) where
  unlinked_file :
      (files : List ℕ → Bool) (path p : List ℕ)
      → files p ≡ false
      → write_file files path false p ≡ false
  unlinked_file files path p h = elim (Bool-cases (same_string p path)) [
    | inl b ↦ rw b refl
    | inr b ↦ rw b h
  ]

  only : (n fd : ℕ) → Among n (fd ∷ []) → (n == fd) ≡ true
  only n fd (inl q) = ground (arith, q)
  only n fd (inr m) = absurd m

  outside : (n fd : ℕ) → (Among n (fd ∷ []) → ⊥) → (n == fd) ≡ false
  outside n fd f = elim (Bool-cases (n == fd)) [
    | inl q ↦ absurd (f (inl (same-fd n fd q)))
    | inr q ↦ q
  ]

  closed_freed : (sw : Switch) (fd n : ℕ) → Among n (fd ∷ []) → write sw.nodes fd none n ≡ none
  closed_freed sw fd n m = rw (only n fd m) refl

  closed_others :
      (sw : Switch) (fd n : ℕ) → (Among n (fd ∷ []) → ⊥) → write sw.nodes fd none n ≡ sw.nodes n
  closed_others sw fd n f = rw (outside n fd f) refl

  the_node :
      (sw : Switch) (fd n : ℕ) (x y : SocketNode)
      → sw.nodes fd ≡ some x
      → Among n (fd ∷ [])
      → sw.nodes n ≡ some y
      → x ≡ y
  the_node sw fd n x y a m b = some_inj (sym a ∙ ap sw.nodes (sym (same-fd n fd (only n fd m))) ∙ b)

  destroyed-Closes :
      (sw : Switch) (fd : ℕ) (snode : SocketNode)
      → sw.nodes fd ≡ some snode
      → Returns (Closes (fd ∷ []) sw) (socket_node_destroy k sw fd)
  unfolding socket_node_destroy
  destroyed-Closes sw fd (connection parser) a =
      returns (record sw { nodes = write sw.nodes fd none }) (rw (fetch_node-ok sw fd _ a) refl)
        (record {
          freed = closed_freed sw fd;
          others = closed_others sw fd;
          no_file = λ path h. h;
          unlinked = λ n path capabilities m b. absurd (cc (the_node sw fd n _ _ a m b));
        })
  destroyed-Closes sw fd (endpoint path capabilities) a =
      returns (record sw { nodes = write sw.nodes fd none; files = write_file sw.files path false })
        (rw (fetch_node-ok sw fd _ a, tells sw fd) refl)
        (record {
          freed = closed_freed sw fd;
          others = closed_others sw fd;
          no_file = unlinked_file sw.files path;
          unlinked = λ n q others m b.
              let same : path ≡ q = same_path (the_node sw fd n _ _ a m b) in
              subst (λ x. write_file sw.files path false x ≡ false) same
                (write_file_same sw.files path false);
        })
    where
      same_path : {p q : List ℕ} {c d : ℕ} → endpoint p c ≡ endpoint q d → p ≡ q
      same_path h = cc

  destroy_all-Closes :
      (xs : List ℕ) (sw : Switch) (m : Outcome Switch)
      → m ≡ ok sw
      → ((fd : ℕ) → Among fd xs → (snode : SocketNode) × (sw.nodes fd ≡ some snode))
      → Distinct xs
      → Returns (Closes xs sw) (run_over (λ fd n. n >>= λ s. socket_node_destroy k s fd) xs m)
  destroy_all-Closes [] sw m e a d = returns sw e (record {
    freed = λ fd i. absurd i;
    others = λ fd f. refl;
    no_file = λ path h. h;
    unlinked = λ fd path capabilities i b. absurd i;
  })
  destroy_all-Closes (x ∷ xs) sw m e a d =
      let (snode, there) = a x (inl refl) in
      elim (destroyed-Closes sw x snode there) [
        | returns t q g ↦
            let kept : (fd : ℕ) → Among fd xs → t.nodes fd ≡ sw.nodes fd =
              λ fd i. g.others fd (λ o. later fd i o) in
            Returns-imp
              (destroy_all-Closes xs t (m >>= λ s. socket_node_destroy k s x) (rw e q)
                (λ fd i. let (y, b) = a fd (inr i) in (y, kept fd i ∙ b)) d.1)
              λ u h. record {
                freed = λ fd i.
                    first_or_later u fd i (h.others x d.0 ∙ g.freed x (inl refl)) (h.freed fd);
                others = λ fd f. h.others fd (λ i. f (inr i)) ∙ g.others fd (λ o. f (widen fd o));
                no_file = λ path z. h.no_file path (g.no_file path z);
                unlinked =
                    λ fd path capabilities i b. unlinked_one fd path capabilities i b t g u h kept;
              }
      ]
    where
      later : (fd : ℕ) → Among fd xs → Among fd (x ∷ []) → ⊥
      later fd i (inl q) = d.0 (subst (λ z. Among z xs) q i)
      later fd i (inr o) = o

      widen : (fd : ℕ) → Among fd (x ∷ []) → Among fd (x ∷ xs)
      widen fd (inl q) = inl q
      widen fd (inr o) = absurd o

      first_or_later :
          (u : Switch) (fd : ℕ)
          → Among fd (x ∷ xs)
          → u.nodes x ≡ none
          → (Among fd xs → u.nodes fd ≡ none)
          → u.nodes fd ≡ none
      first_or_later u fd (inl q) f g = ap u.nodes q ∙ f
      first_or_later u fd (inr i) f g = g i

      unlinked_one :
          (fd : ℕ) (path : List ℕ) (capabilities : ℕ)
          → Among fd (x ∷ xs)
          → sw.nodes fd ≡ some (endpoint path capabilities)
          → (t : Switch) → Closes (x ∷ []) sw t
          → (u : Switch) → Closes xs t u
          → ((n : ℕ) → Among n xs → t.nodes n ≡ sw.nodes n)
          → u.files path ≡ false
      unlinked_one fd path capabilities (inl q) b t g u h kept =
          h.no_file path (g.unlinked fd path capabilities (inl q) b)
      unlinked_one fd path capabilities (inr i) b t g u h kept =
          h.unlinked fd path capabilities i (kept fd i ∙ b)

  pub socket_switch_teardown-Unlinked :
      (sw : Switch) → Kept sw → Returns (Unlinked sw) (socket_switch_teardown k sw)
  unfolding socket_switch_teardown
  socket_switch_teardown-Unlinked sw h =
      let (e, _) =
        tree_mutate_once (tree_of sw) (λ fd m. m >>= λ s. socket_node_destroy k s fd) (ok sw) in
      let met : (fd : ℕ) (snode : SocketNode)
          → sw.nodes fd ≡ some snode
          → Among fd (preorder sw.snodes) =
        λ fd snode a. Among-preorder fd sw.snodes (h.stored fd snode a) in
      rw e (
        Returns-imp
          (destroy_all-Closes (preorder sw.snodes) sw (ok sw) refl
            (λ fd m. h.allocated fd (preorder-Among fd sw.snodes m))
            (preorder-Distinct socket_nodes_compare socket_nodes_compare-IsLawful sw.snodes
              h.sorted))
          λ t g. (
            (λ fd. elim (Option-cases (t.nodes fd)) [
              | inl n ↦ n
              | inr (snode, a) ↦
                  let absent : Among fd (preorder sw.snodes) → ⊥ =
                    λ m. absurd (cc (a, g.freed fd m)) in
                  absurd (absent (met fd snode (sym (g.others fd absent) ∙ a)))
            ]),
            λ fd path capabilities a. g.unlinked fd path capabilities (met fd _ a) a,
          ))
