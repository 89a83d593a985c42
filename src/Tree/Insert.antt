-- ===== src/Tree/Insert.antt =====
-- tree_node_insert and tree_insert of src/cyberd/tree.c against the sorted sequence.
use cyberd.Base.{
  ◌+◌, ◌≤◌, ◌≡◌, refl, sym, ◌∙◌, inl, inr, Ordering, lt, eq, gt, Ordering-cases, ◌∷◌, none, some,
  arith, Outcome, fault, aborted, Returns, returns, Returns->>=, ◌==◌,
}
use cyberd.Tree.{
  Node, null, node, Tree, height, grow_left, grow_right, insert, tree_insert, rotate_left,
  rotate_right, rotate_left_right, rotate_right_left,
}
use cyberd.Tree.Valid.{IsValid, elements}
use cyberd.Tree.Balance.{IsAvl, Grown, grow_left-Grown, grow_right-Grown}
use cyberd.Tree.Sequence.{
  IsLawful, to_list, IsSorted, insert_sorted, lookup, IsSorted-left, IsSorted-right,
  insert_sorted-IsSorted,
}
use cyberd.Tree.Middle.{lookup-lt, lookup-gt, lookup-eq, insert-lt, insert-gt}
use cyberd.Tree.Elements.{
  Preserves, rotate_left-Preserves, rotate_right-Preserves, rotate_left_right-Preserves,
  rotate_right_left-Preserves, ok-Preserves, if-Preserves, update_height-Preserves,
}

module _ {ℓ} {E : Type ℓ} (cmp : E → E → Ordering) where
  grow_left-Preserves : (e : E) (t : Node E) → Preserves t (grow_left cmp e t)
  unfolding grow_left
  grow_left-Preserves e null = λ u q. cc
  grow_left-Preserves e (node x null r h) =
      let t = node x null r h in
      if-Preserves t (0 == height r + 2) (λ u q. cc) (ok-Preserves t _ refl)
  grow_left-Preserves e (node x (node y ll lr lh) r h) =
      let t = node x (node y ll lr lh) r h in
      if-Preserves t (lh == height r + 2) (update_height-Preserves t (choice (cmp e y)))
        (ok-Preserves t _ refl)
    where
      choice :
          (o : Ordering)
          → Preserves (node x (node y ll lr lh) r h) (elim o [
            | lt ↦ rotate_right (node x (node y ll lr lh) r h)
            | _ ↦ rotate_left_right (node x (node y ll lr lh) r h)
          ])
      choice lt = rotate_right-Preserves (node x (node y ll lr lh) r h)
      choice eq = rotate_left_right-Preserves (node x (node y ll lr lh) r h)
      choice gt = rotate_left_right-Preserves (node x (node y ll lr lh) r h)

  grow_right-Preserves : (e : E) (t : Node E) → Preserves t (grow_right cmp e t)
  unfolding grow_right
  grow_right-Preserves e null = λ u q. cc
  grow_right-Preserves e (node x l null h) =
      let t = node x l null h in
      if-Preserves t (0 == height l + 2) (λ u q. cc) (ok-Preserves t _ refl)
  grow_right-Preserves e (node x l (node y rl rr rh) h) =
      let t = node x l (node y rl rr rh) h in
      if-Preserves t (rh == height l + 2) (update_height-Preserves t (choice (cmp e y)))
        (ok-Preserves t _ refl)
    where
      choice :
          (o : Ordering)
          → Preserves (node x l (node y rl rr rh) h) (elim o [
            | gt ↦ rotate_left (node x l (node y rl rr rh) h)
            | _ ↦ rotate_right_left (node x l (node y rl rr rh) h)
          ])
      choice gt = rotate_left-Preserves (node x l (node y rl rr rh) h)
      choice eq = rotate_right_left-Preserves (node x l (node y rl rr rh) h)
      choice lt = rotate_right_left-Preserves (node x l (node y rl rr rh) h)

  -- What an insertion of `e` into `t` gives.
  abbrev pub Inserted : E → Node E → Node E → Type ℓ
  Inserted e t t' = Grown cmp e t t' × (to_list t' ≡ insert_sorted cmp e (to_list t))

  -- The parts of the result together: shape from `Grown`, elements from `Preserves`.
  with_elements :
      (e : E) (t t' : Node E) {m : Outcome (Node E)}
      → Returns (Grown cmp e t) m
      → Preserves t' m
      → to_list t' ≡ insert_sorted cmp e (to_list t)
      → Returns (Inserted e t) m
  with_elements e t t' (returns u q g) p i = returns u q (g, p u q ∙ i)

module _ {ℓ} {E : Type ℓ} (cmp : E → E → Ordering) (o : IsLawful cmp) where
  pub insert-Inserted :
      (e : E) (t : Node E)
      → IsAvl t
      → IsSorted cmp (to_list t)
      → lookup cmp e (to_list t) ≡ none
      → Returns (Inserted cmp e t) (insert cmp t e)
  unfolding insert insert_sorted
  insert-Inserted e null a s n =
      returns _ refl
        (((tt, tt, refl, omega arith, omega arith), inr (refl, inl (refl, refl))), refl)
  insert-Inserted e (node x l r h) a s n =
      let xs = to_list l in
      let ys = to_list r in
      elim (Ordering-cases (cmp e x)) [
        | inl c ↦
            rw (c, insert)
              (Returns->>=
                (insert-Inserted e l a.0 (IsSorted-left cmp xs (x ∷ ys) s)
                  (sym (lookup-lt cmp o e x xs ys s c) ∙ n))
                λ l' _ g.
                  with_elements cmp e (node x l r h) (node x l' r h)
                    (grow_left-Grown cmp e x l l' r h c a g.0)
                    (grow_left-Preserves cmp e (node x l' r h))
                    (rw g.1 (sym (insert-lt cmp o e x xs ys s c))))
        | inr (inl c) ↦ absurd (cc (sym (lookup-eq cmp o e x xs ys s c) ∙ n))
        | inr (inr c) ↦
            rw (c, insert)
              (Returns->>=
                (insert-Inserted e r a.1 (IsSorted-right cmp xs (x ∷ ys) s).1
                  (sym (lookup-gt cmp o e x xs ys s c) ∙ n))
                λ r' _ g.
                  with_elements cmp e (node x l r h) (node x l r' h)
                    (grow_right-Grown cmp e x l r r' h c a g.0)
                    (grow_right-Preserves cmp e (node x l r' h))
                    (rw g.1 (sym (insert-gt cmp o e x xs ys s c))))
      ]

  insert_found :
      (e : E) (t : Node E) {y : E}
      → IsAvl t
      → IsSorted cmp (to_list t)
      → lookup cmp e (to_list t) ≡ some y
      → insert cmp t e ≡ fault aborted
  unfolding insert lookup
  insert_found e null a s n = cc
  insert_found e (node x l r h) a s n =
      let xs = to_list l in
      let ys = to_list r in
      elim (Ordering-cases (cmp e x)) [
        | inl c ↦ rw (
          c,
          insert,
          insert_found e l a.0 (IsSorted-left cmp xs (x ∷ ys) s)
              (sym (lookup-lt cmp o e x xs ys s c) ∙ n),
        )
        | inr (inl c) ↦ rw (c, insert)
        | inr (inr c) ↦ rw (
          c,
          insert,
          insert_found e r a.1 (IsSorted-right cmp xs (x ∷ ys) s).1
              (sym (lookup-gt cmp o e x xs ys s c) ∙ n),
        )
      ]

module _ {ℓ} {E : Type ℓ} where
  -- `u` is a valid tree with the comparison of `t`; its elements are those of `t` with `e` at its
  -- sorted place, and it is at most one level higher.
  abbrev pub Inserts : Tree E → E → Tree E → Type ℓ
  Inserts t e u =
      IsValid u
      × (u.compare ≡ t.compare)
      × (elements u ≡ insert_sorted t.compare e (elements t))
      × (height u.root ≤ height t.root + 1)

  -- Inserting an element that compares equal to none of a valid tree returns a valid tree with the
  -- same comparison; its elements are the old ones with the new one at its sorted place, and the
  -- tree is at most one level higher.
  pub tree_insert-IsValid :
      (t : Tree E) (e : E)
      → IsValid t
      → lookup t.compare e (elements t) ≡ none
      → Returns (Inserts t e) (tree_insert t e)
  unfolding tree_insert
  tree_insert-IsValid t e v n =
      Returns->>= (insert-Inserted t.compare v.lawful e t.root v.balanced v.sorted n) λ root _ g.
        returns (record t { root = root }) refl
          (
            record {
              lawful = v.lawful;
              balanced = g.0.0;
              sorted = rw g.1 (insert_sorted-IsSorted t.compare v.lawful e (elements t) v.sorted n);
            },
            refl,
            g.1,
            omega arith,
          )

  -- Inserting an element that compares equal to one of a valid tree calls abort(3).
  pub tree_insert_duplicate :
      (t : Tree E) (e y : E)
      → IsValid t
      → lookup t.compare e (elements t) ≡ some y
      → tree_insert t e ≡ fault aborted
  unfolding tree_insert
  tree_insert_duplicate t e y v n =
      rw (insert_found t.compare v.lawful e t.root v.balanced v.sorted n)
