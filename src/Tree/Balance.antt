-- ===== src/Tree/Balance.antt =====
-- The AVL invariant of src/cyberd/tree.c: stored heights are exact and siblings differ by one.
use cyberd.Base.{
  ℕ, ◌+◌, ◌≤◌, ◌≡◌, refl, ◌≢◌, ℕ_discrete, dec_le, ◌⊎◌, inl, inr, max, Ordering, lt, gt, arith, ok,
  ◌>>=◌, Returns, returns,
}
use cyberd.Tree.{
  Node, null, node, height, update_height, rotate_right, rotate_left, rotate_left_right,
  rotate_right_left, grow_left, grow_right,
}

module _ {ℓ} {E : Type ℓ} where
  abbrev pub IsAvl : Node E → Type 0
  IsAvl null = Unit
  IsAvl (node x l r h) =
      IsAvl l
      × IsAvl r
      × (h ≡ max (height l) (height r) + 1)
      × (height l ≤ height r + 1)
      × (height r ≤ height l + 1)

  -- Where an insertion made a tree higher, the new element went down its higher side.
  abbrev pub Leans : (E → E → Ordering) → E → Node E → Type 0
  Leans cmp e null = ⊥
  Leans cmp e (node x l r h) =
      (height l ≡ 0) × (height r ≡ 0)
      ⊎ (cmp e x ≡ lt) × (height l ≡ height r + 1)
      ⊎ (cmp e x ≡ gt) × (height r ≡ height l + 1)

  abbrev pub Grown : (E → E → Ordering) → E → Node E → Node E → Type 0
  Grown cmp e t t' =
      IsAvl t' × ((height t' ≡ height t) ⊎ (height t' ≡ height t + 1) × Leans cmp e t')

  module _ (cmp : E → E → Ordering) where
    grow_left_even :
        (e x : E) (l r : Node E) (h : ℕ)
        → height l ≢ height r + 2
        → grow_left cmp e (node x l r h) ≡ ok (update_height (node x l r h))
    unfolding grow_left
    grow_left_even e x l r h n = ground arith

    grow_left_single :
        (e x y : E) (ll lr r : Node E) (lh h : ℕ)
        → cmp e y ≡ lt
        → lh ≡ height r + 2
        → grow_left cmp e (node x (node y ll lr lh) r h)
          ≡ (do t ← rotate_right (node x (node y ll lr lh) r h); ok (update_height t))
    unfolding grow_left
    grow_left_single e x y ll lr r lh h c n = ground arith

    grow_left_double :
        (e x y : E) (ll lr r : Node E) (lh h : ℕ)
        → cmp e y ≡ gt
        → lh ≡ height r + 2
        → grow_left cmp e (node x (node y ll lr lh) r h)
          ≡ (do t ← rotate_left_right (node x (node y ll lr lh) r h); ok (update_height t))
    unfolding grow_left
    grow_left_double e x y ll lr r lh h c n = ground arith

    single_right :
        (e x y : E) (l ll lr r : Node E) (lh h : ℕ)
        → IsAvl (node x l r h)
        → Grown cmp e l (node y ll lr lh)
        → cmp e y ≡ lt
        → lh ≡ height r + 2
        → Returns
            (Grown cmp e (node x l r h))
            (do t ← rotate_right (node x (node y ll lr lh) r h); ok (update_height t))
    unfolding rotate_right
    single_right e x y l ll lr r lh h a g c n = returns _ refl (ground arith)

    double_right :
        (e x y : E) (l ll lr r : Node E) (lh h : ℕ)
        → IsAvl (node x l r h)
        → Grown cmp e l (node y ll lr lh)
        → cmp e y ≡ gt
        → lh ≡ height r + 2
        → Returns
            (Grown cmp e (node x l r h))
            (do t ← rotate_left_right (node x (node y ll lr lh) r h); ok (update_height t))
    unfolding rotate_left_right rotate_left rotate_right
    double_right e x y l ll null r lh h a g c n = absurd (ground arith)
    double_right e x y l ll (node z lrl lrr lrh) r lh h a g c n = returns _ refl (ground arith)

    heavy_left :
        (e x : E) (l l' r : Node E) (h : ℕ)
        → IsAvl (node x l r h)
        → Grown cmp e l l'
        → height l' ≡ height r + 2
        → Returns (Grown cmp e (node x l r h)) (grow_left cmp e (node x l' r h))
    heavy_left e x l null r h a g n = absurd (omega arith)
    heavy_left e x l (node y ll lr lh) r h a (b, inl s) n = absurd (omega arith)
    heavy_left e x l (node y ll lr lh) r h a (b, inr (s, inl z)) n = absurd (omega arith)
    heavy_left e x l (node y ll lr lh) r h a (b, inr (s, inr (inl d))) n =
        rw (grow_left_single e x y ll lr r lh h d.0 n)
          (single_right e x y l ll lr r lh h a (b, inr (s, inr (inl d))) d.0 n)
    heavy_left e x l (node y ll lr lh) r h a (b, inr (s, inr (inr d))) n =
        rw (grow_left_double e x y ll lr r lh h d.0 n)
          (double_right e x y l ll lr r lh h a (b, inr (s, inr (inr d))) d.0 n)

    even_left :
        (e x : E) (l l' r : Node E) (h : ℕ)
        → cmp e x ≡ lt
        → IsAvl (node x l r h)
        → Grown cmp e l l'
        → height l' ≢ height r + 2
        → Grown cmp e (node x l r h) (update_height (node x l' r h))
    even_left e x l l' r h c a (b, inl s) n =
        ((b, a.1, refl, omega arith, omega arith), inl (omega arith))
    even_left e x l l' r h c a (b, inr (s, d)) n = elim (dec_le (height l') (height r)) [
      | yes p ↦ ((b, a.1, refl, omega arith, omega arith), inl (omega arith))
      | no p ↦
          ((b, a.1, refl, omega arith, omega arith), inr (omega arith, inr (inl (c, omega arith))))
    ]

    -- tree_node_insert restores the invariant after an insertion on the left.
    pub grow_left-Grown :
        (e x : E) (l l' r : Node E) (h : ℕ)
        → cmp e x ≡ lt
        → IsAvl (node x l r h)
        → Grown cmp e l l'
        → Returns (Grown cmp e (node x l r h)) (grow_left cmp e (node x l' r h))
    grow_left-Grown e x l l' r h c a g = elim (ℕ_discrete (height l') (height r + 2)) [
      | yes n ↦ heavy_left e x l l' r h a g n
      | no n ↦ returns _ (grow_left_even e x l' r h n) (even_left e x l l' r h c a g n)
    ]

    grow_right_even :
        (e x : E) (l r : Node E) (h : ℕ)
        → height r ≢ height l + 2
        → grow_right cmp e (node x l r h) ≡ ok (update_height (node x l r h))
    unfolding grow_right
    grow_right_even e x l r h n = ground arith

    grow_right_single :
        (e x y : E) (l rl rr : Node E) (rh h : ℕ)
        → cmp e y ≡ gt
        → rh ≡ height l + 2
        → grow_right cmp e (node x l (node y rl rr rh) h)
          ≡ (do t ← rotate_left (node x l (node y rl rr rh) h); ok (update_height t))
    unfolding grow_right
    grow_right_single e x y l rl rr rh h c n = ground arith

    grow_right_double :
        (e x y : E) (l rl rr : Node E) (rh h : ℕ)
        → cmp e y ≡ lt
        → rh ≡ height l + 2
        → grow_right cmp e (node x l (node y rl rr rh) h)
          ≡ (do t ← rotate_right_left (node x l (node y rl rr rh) h); ok (update_height t))
    unfolding grow_right
    grow_right_double e x y l rl rr rh h c n = ground arith

    single_left :
        (e x y : E) (l rl rr r : Node E) (rh h : ℕ)
        → IsAvl (node x l r h)
        → Grown cmp e r (node y rl rr rh)
        → cmp e y ≡ gt
        → rh ≡ height l + 2
        → Returns
            (Grown cmp e (node x l r h))
            (do t ← rotate_left (node x l (node y rl rr rh) h); ok (update_height t))
    unfolding rotate_left
    single_left e x y l rl rr r rh h a g c n = returns _ refl (ground arith)

    double_left :
        (e x y : E) (l rl rr r : Node E) (rh h : ℕ)
        → IsAvl (node x l r h)
        → Grown cmp e r (node y rl rr rh)
        → cmp e y ≡ lt
        → rh ≡ height l + 2
        → Returns
            (Grown cmp e (node x l r h))
            (do t ← rotate_right_left (node x l (node y rl rr rh) h); ok (update_height t))
    unfolding rotate_right_left rotate_left rotate_right
    double_left e x y l null rr r rh h a g c n = absurd (ground arith)
    double_left e x y l (node z rll rlr rlh) rr r rh h a g c n = returns _ refl (ground arith)

    heavy_right :
        (e x : E) (l r r' : Node E) (h : ℕ)
        → IsAvl (node x l r h)
        → Grown cmp e r r'
        → height r' ≡ height l + 2
        → Returns (Grown cmp e (node x l r h)) (grow_right cmp e (node x l r' h))
    heavy_right e x l r null h a g n = absurd (omega arith)
    heavy_right e x l r (node y rl rr rh) h a (b, inl s) n = absurd (omega arith)
    heavy_right e x l r (node y rl rr rh) h a (b, inr (s, inl z)) n = absurd (omega arith)
    heavy_right e x l r (node y rl rr rh) h a (b, inr (s, inr (inr d))) n =
        rw (grow_right_single e x y l rl rr rh h d.0 n)
          (single_left e x y l rl rr r rh h a (b, inr (s, inr (inr d))) d.0 n)
    heavy_right e x l r (node y rl rr rh) h a (b, inr (s, inr (inl d))) n =
        rw (grow_right_double e x y l rl rr rh h d.0 n)
          (double_left e x y l rl rr r rh h a (b, inr (s, inr (inl d))) d.0 n)

    even_right :
        (e x : E) (l r r' : Node E) (h : ℕ)
        → cmp e x ≡ gt
        → IsAvl (node x l r h)
        → Grown cmp e r r'
        → height r' ≢ height l + 2
        → Grown cmp e (node x l r h) (update_height (node x l r' h))
    even_right e x l r r' h c a (b, inl s) n =
        ((a.0, b, refl, omega arith, omega arith), inl (omega arith))
    even_right e x l r r' h c a (b, inr (s, d)) n = elim (dec_le (height r') (height l)) [
      | yes p ↦ ((a.0, b, refl, omega arith, omega arith), inl (omega arith))
      | no p ↦
          ((a.0, b, refl, omega arith, omega arith), inr (omega arith, inr (inr (c, omega arith))))
    ]

    -- The same after an insertion on the right.
    pub grow_right-Grown :
        (e x : E) (l r r' : Node E) (h : ℕ)
        → cmp e x ≡ gt
        → IsAvl (node x l r h)
        → Grown cmp e r r'
        → Returns (Grown cmp e (node x l r h)) (grow_right cmp e (node x l r' h))
    grow_right-Grown e x l r r' h c a g = elim (ℕ_discrete (height r') (height l + 2)) [
      | yes n ↦ heavy_right e x l r r' h a g n
      | no n ↦ returns _ (grow_right_even e x l r' h n) (even_right e x l r r' h c a g n)
    ]
