-- ===== src/Tree/Remove.antt =====
-- tree_node_remove and tree_remove of src/cyberd/tree.c against the sorted sequence.
use cyberd.Base.{
  ℕ, ◌+◌, ◌≡◌, refl, sym, ap, subst, ◌∙◌, ◌⊎◌, inl, inr, Ordering, Ordering-cases, List, [], ◌∷◌,
  ◌++◌, append-nil, Option, none, some, arith, ok, ◌>>=◌, Returns, returns, Returns->>=,
  Returns-imp,
}
use cyberd.Tree.{
  Node, null, node, Tree, height, create, found, successor, unlink_root, rebalance, remove,
  tree_remove, destroy,
}
use cyberd.Tree.Valid.{IsValid, elements}
use cyberd.Tree.Balance.{IsAvl}
use cyberd.Tree.Rebalance.{Shrunk, rebalance_left, rebalance_right, rebalance_balanced}
use cyberd.Tree.Sequence.{
  IsLawful, to_list, IsSorted, lookup, erase, IsSorted-left, IsSorted-right, erase-IsSorted,
}
use cyberd.Tree.Middle.{lookup-lt, lookup-gt, lookup-eq, erase-lt, erase-gt, erase-eq}
use cyberd.Tree.Elements.{rebalance-Preserves}

module _ {ℓ} {E : Type ℓ} where
  -- The node handed back: unlinked, or null.
  abbrev pub node_of : Option E → Node E
  node_of none = null
  node_of (some x) = create x

  successor-head :
      (x : E) (l r : Node E) (h : ℕ)
      → Returns (λ s. (ys : List E) × (to_list (node x l r h) ≡ s ∷ ys)) (successor (node x l r h))
  unfolding successor
  successor-head x null r h = returns x refl (to_list r, refl)
  successor-head x (node y ll lr lh) r h =
      Returns-imp (successor-head y ll lr lh) (λ s (ys, e). (ys ++ x ∷ to_list r, rw e))

module _ {ℓ} {E : Type ℓ} (cmp : E → E → Ordering) where
  -- What the removal of `e` from `t` gives.
  abbrev pub Removed : E → Node E → Node E × Node E → Type ℓ
  Removed e t p =
      Shrunk t p.0
      × (to_list p.0 ≡ erase cmp e (to_list t))
      × (p.1 ≡ node_of (lookup cmp e (to_list t)))

  -- A removal below `root`, followed by the end of tree_node_remove.
  rebalanced :
      (e : E) (t root removed : Node E)
      → Returns (Shrunk t) (rebalance root)
      → to_list root ≡ erase cmp e (to_list t)
      → removed ≡ node_of (lookup cmp e (to_list t))
      → Returns (Removed e t) (rebalance root >>= λ u. ok (u, removed))
  rebalanced e t root removed b p q =
      Returns->>= b λ u f s. returns (u, removed) refl (s, rebalance-Preserves root u f ∙ p, q)

module _ {ℓ} {E : Type ℓ} (cmp : E → E → Ordering) (o : IsLawful cmp) where
  -- The root that takes the place of `x`, over both subtrees of `x`.
  abbrev Unlinked : E → Node E → Node E → ℕ → Node E → Type ℓ
  Unlinked x l r h root =
      Returns (Shrunk (node x l r h)) (rebalance root) × (to_list root ≡ to_list l ++ to_list r)

  -- The removal of the least element of `r`, as the code finds it.
  abbrev Spliced : Node E → Node E × Node E → Type ℓ
  Spliced r p = (s : E) × (p.1 ≡ create s) × Shrunk r p.0 × (to_list r ≡ s ∷ to_list p.0)

  successor-Spliced :
      (x : E) (l r : Node E) (h : ℕ)
      → IsSorted cmp (to_list (node x l r h))
      → ((s : E) → Returns (Removed cmp s (node x l r h)) (remove cmp (node x l r h) s))
      → Returns
          (Spliced (node x l r h))
          (successor (node x l r h) >>= λ s. remove cmp (node x l r h) s)
  successor-Spliced x l r h t rec = Returns->>= (successor-head x l r h) λ s _ (ys, e).
      Returns-imp (rec s) λ p g.
        (s, g.2 ∙ ap node_of (first s ys e), g.0, e ∙ ap (λ zs. s ∷ zs) (sym (g.1 ∙ rest s ys e)))
    where
      first :
          (s : E) (ys : List E)
          → to_list (node x l r h) ≡ s ∷ ys
          → lookup cmp s (to_list (node x l r h)) ≡ some s
      first s ys e = rw e (lookup-eq cmp o s s [] ys (subst (IsSorted cmp) e t) (o.cmp_refl s))

      rest :
          (s : E) (ys : List E)
          → to_list (node x l r h) ≡ s ∷ ys
          → erase cmp s (to_list (node x l r h)) ≡ ys
      rest s ys e = rw e (erase-eq cmp o s s [] ys (subst (IsSorted cmp) e t) (o.cmp_refl s))

  unlink_root-Unlinked :
      (x : E) (l r : Node E) (h : ℕ)
      → IsAvl (node x l r h)
      → IsSorted cmp (to_list r)
      → ((s : E) → Returns (Removed cmp s r) (remove cmp r s))
      → Returns (Unlinked x l r h) (unlink_root l r (successor r >>= λ s. remove cmp r s))
  unfolding unlink_root
  unlink_root-Unlinked x null r h a t rec =
      returns r refl (Returns-imp (rebalance_balanced r a.1) (λ u g. (g.0, omega arith)), refl)
  unlink_root-Unlinked x (node y ll lr lh) null h a t rec = returns _ refl (
    Returns-imp (rebalance_balanced (node y ll lr lh) a.0) (λ u g. (g.0, omega arith)),
    sym (append-nil _),
  )
  unlink_root-Unlinked x (node y ll lr lh) (node z rl rr rh) h a t rec =
      Returns->>= (successor-Spliced z rl rr rh t rec) λ p _ (s, n, g, e).
        returns (node s (node y ll lr lh) p.0 1) (rw n) (
          rebalance_right x s (node y ll lr lh) (node z rl rr rh) p.0 h 1 a g,
          ap (λ zs. to_list (node y ll lr lh) ++ zs) (sym e),
        )

  pub remove-Removed :
      (e : E) (t : Node E)
      → IsAvl t
      → IsSorted cmp (to_list t)
      → Returns (Removed cmp e t) (remove cmp t e)
  unfolding remove erase lookup
  remove-Removed e null a s = returns _ refl ((tt, inl refl), refl, refl)
  remove-Removed e (node x l r h) a s =
      let xs = to_list l in
      let ys = to_list r in
      elim (Ordering-cases (cmp e x)) [
        | inl c ↦
            rw (c, remove)
              (Returns->>= (remove-Removed e l a.0 (IsSorted-left cmp xs (x ∷ ys) s)) λ p _ g.
                rebalanced cmp e (node x l r h) (node x p.0 r h) p.1
                  (rebalance_left x x l p.0 r h h a g.0)
                  (rw g.1 (sym (erase-lt cmp o e x xs ys s c)))
                  (g.2 ∙ ap node_of (sym (lookup-lt cmp o e x xs ys s c))))
        | inr (inl c) ↦
            rw (c, remove)
              (Returns->>=
                (unlink_root-Unlinked x l r h a (IsSorted-right cmp xs (x ∷ ys) s).1
                  (λ s'. remove-Removed s' r a.1 (IsSorted-right cmp xs (x ∷ ys) s).1))
                λ root _ u.
                  rebalanced cmp e (node x l r h) root (create x) u.0
                    (u.1 ∙ sym (erase-eq cmp o e x xs ys s c))
                    (ap node_of (sym (lookup-eq cmp o e x xs ys s c))))
        | inr (inr c) ↦
            rw (c, remove)
              (Returns->>= (remove-Removed e r a.1 (IsSorted-right cmp xs (x ∷ ys) s).1) λ p _ g.
                rebalanced cmp e (node x l r h) (node x l p.0 h) p.1
                  (rebalance_right x x l r p.0 h h a g.0)
                  (rw g.1 (sym (erase-gt cmp o e x xs ys s c)))
                  (g.2 ∙ ap node_of (sym (lookup-gt cmp o e x xs ys s c))))
      ]

module _ {ℓ} {E : Type ℓ} where
  found-node_of : (m : Option E) → found (node_of m) ≡ m
  found-node_of none = refl
  found-node_of (some x) = refl

  abbrev pub option_list : Option E → List E
  option_list none = []
  option_list (some x) = x ∷ []

  destroy-node_of : (m : Option E) → destroy (node_of m) ≡ option_list m
  unfolding destroy
  destroy-node_of none = refl
  destroy-node_of (some x) = refl

  -- `p` is a valid tree with the comparison of `t` and the elements of `t` without the one that
  -- compares equal to `e`, as high or one level lower; then that element, if there is one, and the
  -- elements of the nodes that were freed, which is the same one.
  abbrev pub Removes : Tree E → E → Tree E × Option E × List E → Type ℓ
  Removes t e p =
      IsValid p.0
      × (p.0.compare ≡ t.compare)
      × (elements p.0 ≡ erase t.compare e (elements t))
      × (p.1 ≡ lookup t.compare e (elements t))
      × (p.2 ≡ option_list (lookup t.compare e (elements t)))
      × ((height p.0.root ≡ height t.root) ⊎ (height p.0.root + 1 ≡ height t.root))

  -- Removing from a valid tree never faults and returns a valid tree with the same comparison. The
  -- element returned is the one that compares equal, or null if there is none; its node is the only
  -- one freed; the other elements stay, and the tree is as high as before or one level lower.
  pub tree_remove-IsValid :
      (t : Tree E) (e : E) → IsValid t → Returns (Removes t e) (tree_remove t e)
  unfolding tree_remove
  tree_remove-IsValid t e v =
      Returns->>= (remove-Removed t.compare v.lawful e t.root v.balanced v.sorted) λ p _ g.
        returns (record t { root = p.0 }, found p.1, destroy p.1) refl
          (
            record {
              lawful = v.lawful;
              balanced = g.0.0;
              sorted = rw g.1 (erase-IsSorted t.compare v.lawful e (elements t) v.sorted);
            },
            refl,
            g.1,
            ap found g.2 ∙ found-node_of _,
            ap destroy g.2 ∙ destroy-node_of _,
            g.0.1,
          )
