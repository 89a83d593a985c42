-- ===== src/Tree/Rebalance.antt =====
-- The end of tree_node_remove in src/cyberd/tree.c: assertions, height and rotations.
use cyberd.Base.{
  ℕ, ◌+◌, ◌≤◌, ◌≡◌, refl, ◌⊎◌, inl, inr, max, arith, ok, Returns, returns, Returns-imp, dec_le,
  le→ltb, ℕ_discrete,
}
use cyberd.Tree.{
  Node, null, node, height, update_height, left_height, right_height, rotate_right, rotate_left,
  rotate_left_right, rotate_right_left, rotate_heavy, rebalance,
}
use cyberd.Tree.Balance.{IsAvl}

module _ {ℓ} {E : Type ℓ} where
  -- `t` is balanced, and as high as a node over children of these heights, or one less where they
  -- differ by two.
  abbrev pub Levelled : ℕ → ℕ → Node E → Type 0
  Levelled hl hr t =
      IsAvl t
      × ((height t ≡ max hl hr + 1) ⊎ (height t ≡ max hl hr) × ((hl ≡ hr + 2) ⊎ (hr ≡ hl + 2)))

  pub rebalance-rotate_heavy :
      (x : E) (l r : Node E) (h : ℕ)
      → rebalance (node x l r h) ≡ rotate_heavy (update_height (node x l r h))
  unfolding rebalance
  rebalance-rotate_heavy x null null h = ground arith
  rebalance-rotate_heavy x null (node y rl rr rh) h = ground arith
  rebalance-rotate_heavy x (node y ll lr lh) null h = ground arith
  rebalance-rotate_heavy x (node y ll lr lh) (node z rl rr rh) h = ground arith

  rotate_heavy_even :
      (x : E) (l r : Node E) (h : ℕ)
      → height l ≤ height r + 1
      → height r ≤ height l + 1
      → rotate_heavy (node x l r h) ≡ ok (node x l r h)
  unfolding rotate_heavy
  rotate_heavy_even x l r h p q =
      rw (le→ltb (height l + 1) (height r) q, le→ltb (height r + 1) (height l) p)

  rotate_heavy_left :
      (x : E) (l r : Node E) (h : ℕ)
      → height l ≡ height r + 2
      → right_height l ≤ left_height l
      → rotate_heavy (node x l r h) ≡ rotate_right (node x l r h)
  unfolding rotate_heavy
  rotate_heavy_left x l r h p q = ground arith

  rotate_heavy_left_right :
      (x : E) (l r : Node E) (h : ℕ)
      → height l ≡ height r + 2
      → ¬ (right_height l ≤ left_height l)
      → rotate_heavy (node x l r h) ≡ rotate_left_right (node x l r h)
  unfolding rotate_heavy
  rotate_heavy_left_right x l r h p q = ground arith

  rotate_heavy_right :
      (x : E) (l r : Node E) (h : ℕ)
      → height r ≡ height l + 2
      → left_height r ≤ right_height r
      → rotate_heavy (node x l r h) ≡ rotate_left (node x l r h)
  unfolding rotate_heavy
  rotate_heavy_right x l r h p q = ground arith

  rotate_heavy_right_left :
      (x : E) (l r : Node E) (h : ℕ)
      → height r ≡ height l + 2
      → ¬ (left_height r ≤ right_height r)
      → rotate_heavy (node x l r h) ≡ rotate_right_left (node x l r h)
  unfolding rotate_heavy
  rotate_heavy_right_left x l r h p q = ground arith

  rotate_right-Levelled :
      (x : E) (l r : Node E) (h : ℕ)
      → IsAvl l
      → IsAvl r
      → height l ≡ height r + 2
      → right_height l ≤ left_height l
      → Returns (Levelled (height l) (height r)) (rotate_right (node x l r h))
  unfolding rotate_right
  rotate_right-Levelled x null r h a b p q = absurd (omega arith)
  rotate_right-Levelled x (node y ll lr lh) r h a b p q = returns _ refl (
    (a.0, (a.1, b, refl, omega arith, omega arith), refl, omega arith, omega arith),
    elim (ℕ_discrete (height ll) (height lr)) [
      | yes e ↦ inl (omega arith)
      | no n ↦ inr (omega arith, inl p)
    ],
  )

  rotate_left_right-Levelled :
      (x : E) (l r : Node E) (h : ℕ)
      → IsAvl l
      → IsAvl r
      → height l ≡ height r + 2
      → ¬ (right_height l ≤ left_height l)
      → Returns (Levelled (height l) (height r)) (rotate_left_right (node x l r h))
  unfolding rotate_left_right rotate_left rotate_right
  rotate_left_right-Levelled x null r h a b p q = absurd (omega arith)
  rotate_left_right-Levelled x (node y ll null lh) r h a b p q = absurd (omega arith)
  rotate_left_right-Levelled x (node y ll (node z lrl lrr lrh) lh) r h a b p q =
      returns _ refl (ground arith)

  rotate_left-Levelled :
      (x : E) (l r : Node E) (h : ℕ)
      → IsAvl l
      → IsAvl r
      → height r ≡ height l + 2
      → left_height r ≤ right_height r
      → Returns (Levelled (height l) (height r)) (rotate_left (node x l r h))
  unfolding rotate_left
  rotate_left-Levelled x l null h a b p q = absurd (omega arith)
  rotate_left-Levelled x l (node y rl rr rh) h a b p q = returns _ refl (
    ((a, b.0, refl, omega arith, omega arith), b.1, omega arith, omega arith, omega arith),
    elim (ℕ_discrete (height rl) (height rr)) [
      | yes e ↦ inl (omega arith)
      | no n ↦ inr (omega arith, inr p)
    ],
  )

  rotate_right_left-Levelled :
      (x : E) (l r : Node E) (h : ℕ)
      → IsAvl l
      → IsAvl r
      → height r ≡ height l + 2
      → ¬ (left_height r ≤ right_height r)
      → Returns (Levelled (height l) (height r)) (rotate_right_left (node x l r h))
  unfolding rotate_right_left rotate_left rotate_right
  rotate_right_left-Levelled x l null h a b p q = absurd (omega arith)
  rotate_right_left-Levelled x l (node y null rr rh) h a b p q = absurd (omega arith)
  rotate_right_left-Levelled x l (node y (node z rll rlr rlh) rr rh) h a b p q =
      returns _ refl (ground arith)

  left_heavy :
      (x : E) (l r : Node E) (h : ℕ)
      → IsAvl l
      → IsAvl r
      → height l ≡ height r + 2
      → Returns (Levelled (height l) (height r)) (rotate_heavy (node x l r h))
  left_heavy x l r h a b p = elim (dec_le (right_height l) (left_height l)) [
    | yes q ↦ rw (rotate_heavy_left x l r h p q) (rotate_right-Levelled x l r h a b p q)
    | no q ↦ rw (rotate_heavy_left_right x l r h p q) (rotate_left_right-Levelled x l r h a b p q)
  ]

  right_heavy :
      (x : E) (l r : Node E) (h : ℕ)
      → IsAvl l
      → IsAvl r
      → height r ≡ height l + 2
      → Returns (Levelled (height l) (height r)) (rotate_heavy (node x l r h))
  right_heavy x l r h a b p = elim (dec_le (left_height r) (right_height r)) [
    | yes q ↦ rw (rotate_heavy_right x l r h p q) (rotate_left-Levelled x l r h a b p q)
    | no q ↦ rw (rotate_heavy_right_left x l r h p q) (rotate_right_left-Levelled x l r h a b p q)
  ]

  -- Over balanced children that differ by two at most, the end of tree_node_remove passes its
  -- assertions and levels the root.
  pub rebalance-Levelled :
      (x : E) (l r : Node E) (h : ℕ)
      → IsAvl l
      → IsAvl r
      → height l ≤ height r + 2
      → height r ≤ height l + 2
      → Returns (Levelled (height l) (height r)) (rebalance (node x l r h))
  rebalance-Levelled x l r h a b p q =
      rw (rebalance-rotate_heavy x l r h) (elim (ℕ_discrete (height l) (height r + 2)) [
        | yes e ↦ left_heavy x l r _ a b e
        | no n ↦ elim (ℕ_discrete (height r) (height l + 2)) [
          | yes e ↦ right_heavy x l r _ a b e
          | no m ↦
              returns _ (rotate_heavy_even x l r _ (omega arith) (omega arith))
                ((a, b, refl, omega arith, omega arith), inl refl)
        ]
      ])

  -- A removal leaves a tree balanced, and at most one level lower.
  abbrev pub Shrunk : Node E → Node E → Type 0
  Shrunk t t' = IsAvl t' × ((height t' ≡ height t) ⊎ (height t' + 1 ≡ height t))

  level_Shrunk :
      (x : E) (l r u : Node E) (h hl hr : ℕ)
      → IsAvl (node x l r h)
      → (hl ≡ height l) × (hr ≡ height r)
        ⊎ (hl + 1 ≡ height l) × (hr ≡ height r)
        ⊎ (hl ≡ height l) × (hr + 1 ≡ height r)
      → Levelled hl hr u
      → Shrunk (node x l r h) u
  level_Shrunk x l r u h hl hr a d (b, inl e) = (b, omega arith)
  level_Shrunk x l r u h hl hr a d (b, inr e) = (b, omega arith)

  pub rebalance_left :
      (x y : E) (l l' r : Node E) (h k : ℕ)
      → IsAvl (node x l r h)
      → Shrunk l l'
      → Returns (Shrunk (node x l r h)) (rebalance (node y l' r k))
  rebalance_left x y l l' r h k a s =
      Returns-imp (rebalance-Levelled y l' r k s.0 a.1 (omega arith) (omega arith))
        (λ u g. level_Shrunk x l r u h (height l') (height r) a (omega arith) g)

  pub rebalance_right :
      (x y : E) (l r r' : Node E) (h k : ℕ)
      → IsAvl (node x l r h)
      → Shrunk r r'
      → Returns (Shrunk (node x l r h)) (rebalance (node y l r' k))
  rebalance_right x y l r r' h k a s =
      Returns-imp (rebalance-Levelled y l r' k a.0 s.0 (omega arith) (omega arith))
        (λ u g. level_Shrunk x l r u h (height l) (height r') a (omega arith) g)

  -- A balanced root keeps its height.
  pub rebalance_balanced :
      (t : Node E) → IsAvl t → Returns (λ u. IsAvl u × (height u ≡ height t)) (rebalance t)
  unfolding rebalance
  rebalance_balanced null a = returns null refl (tt, refl)
  rebalance_balanced (node x l r h) a =
      Returns-imp (rebalance-Levelled x l r h a.0 a.1 (omega arith) (omega arith))
        (λ u g. (g.0, omega arith))
