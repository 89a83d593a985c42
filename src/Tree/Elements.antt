-- ===== src/Tree/Elements.antt =====
-- The steps of src/cyberd/tree.c that move nodes keep the elements in their order.
use cyberd.Base.{
  ◌≡◌, refl, ◌∙◌, ◌∷◌, append_assoc, arith, Bool, true, false, if◌then◌else◌, Outcome, ok, fault,
  ◌>>=◌, ◌+◌, ltb, leb, sym, >>=-eq-ok,
}
use cyberd.Tree.{
  Node, null, node, update_height, rotate_right, rotate_left, rotate_left_right, rotate_right_left,
  rotate_heavy, rebalance, height, left_height, right_height,
}
use cyberd.Tree.Sequence.{to_list}
use cyberd.Tree.Rebalance.{rebalance-rotate_heavy}

module _ {ℓ} {E : Type ℓ} where
  -- What the code returns, if it does, has the elements of `t`.
  abbrev pub Preserves : Node E → Outcome (Node E) → Type ℓ
  Preserves t m = (u : Node E) → m ≡ ok u → to_list u ≡ to_list t

  pub rotate_right-Preserves : (t : Node E) → Preserves t (rotate_right t)
  unfolding rotate_right
  rotate_right-Preserves null u q = cc
  rotate_right-Preserves (node x null r h) u q = cc
  rotate_right-Preserves (node x (node y ll lr lh) r h) u q =
      ground (arith, append_assoc (to_list ll) (y ∷ to_list lr) (x ∷ to_list r))

  pub rotate_left-Preserves : (t : Node E) → Preserves t (rotate_left t)
  unfolding rotate_left
  rotate_left-Preserves null u q = cc
  rotate_left-Preserves (node x l null h) u q = cc
  rotate_left-Preserves (node x l (node y rl rr rh) h) u q =
      ground (arith, append_assoc (to_list l) (x ∷ to_list rl) (y ∷ to_list rr))

  pub rotate_left_right-Preserves : (t : Node E) → Preserves t (rotate_left_right t)
  unfolding rotate_left_right
  rotate_left_right-Preserves null u q = cc
  rotate_left_right-Preserves (node x l r h) u q =
      let (l', e, f) = >>=-eq-ok (rotate_left l) _ q in
      rotate_right-Preserves (node x l' r h) u f ∙ rw (rotate_left-Preserves l l' e)

  pub rotate_right_left-Preserves : (t : Node E) → Preserves t (rotate_right_left t)
  unfolding rotate_right_left
  rotate_right_left-Preserves null u q = cc
  rotate_right_left-Preserves (node x l r h) u q =
      let (r', e, f) = >>=-eq-ok (rotate_right r) _ q in
      rotate_left-Preserves (node x l r' h) u f ∙ rw (rotate_right-Preserves r r' e)

  pub ok-Preserves : (t u : Node E) → to_list u ≡ to_list t → Preserves t (ok u)
  ok-Preserves t u p v q = ground arith

  pub if-Preserves :
      (t : Node E) (b : Bool) {m n : Outcome (Node E)}
      → Preserves t m
      → Preserves t n
      → Preserves t (if b then m else n)
  if-Preserves t true p q = p
  if-Preserves t false p q = q

  pub update_height-Preserves :
      (t : Node E) {m : Outcome (Node E)}
      → Preserves t m
      → Preserves t (m >>= λ root. ok (update_height root))
  update_height-Preserves t {m = ok null} p u q = ground (arith, p null refl)
  update_height-Preserves t {m = ok (node x l r h)} p u q = ground (arith, p (node x l r h) refl)
  update_height-Preserves t {m = fault f} p u q = cc

  rotate_heavy-Preserves : (t : Node E) → Preserves t (rotate_heavy t)
  unfolding rotate_heavy
  rotate_heavy-Preserves null = λ u q. cc
  rotate_heavy-Preserves (node x l r h) =
      let t = node x l r h in
      if-Preserves t (ltb (height l + 1) (height r))
        (if-Preserves t (leb (left_height r) (right_height r)) (rotate_left-Preserves t)
          (rotate_right_left-Preserves t))
        (if-Preserves t (ltb (height r + 1) (height l))
          (if-Preserves t (leb (right_height l) (left_height l)) (rotate_right-Preserves t)
            (rotate_left_right-Preserves t))
          (ok-Preserves t t refl))

  pub rebalance-Preserves : (t : Node E) → Preserves t (rebalance t)
  unfolding rebalance
  rebalance-Preserves null u q = ok-Preserves null null refl u q
  rebalance-Preserves (node x l r h) u q =
      rotate_heavy-Preserves (update_height (node x l r h)) u
        (sym (rebalance-rotate_heavy x l r h) ∙ q)
