-- ===== src/Tree/Height.antt =====
-- The AVL trees of src/cyberd/tree.c are of logarithmic height.
use cyberd.Base.{
  Ordering, ℕ, suc, ◌+◌, ◌*◌, ◌^◌, ◌≤◌, ◌≡◌, max, ◌∷◌, arith, length, length-append, dec_le,
  ℕ_discrete,
}
use native.Mathlib.Numerals.{towards_suc}
use cyberd.Tree.{Node, null, node, Tree, height}
use cyberd.Tree.Balance.{IsAvl}
use cyberd.Tree.Valid.{elements}
use cyberd.Tree.History.{Built, Built-IsValid}
use cyberd.Tree.Sequence.{IsLawful, to_list}

square_sum : (a b q : ℕ) → q ≤ a * a → q ≤ b * b → 4 * q ≤ (a + b) * (a + b)
square_sum a b q p r = elim (dec_le a b) [ yes h ↦ grind arith | no h ↦ grind arith ]

double : (k : ℕ) → 2 ^ (k + 1) ≡ 2 * 2 ^ k
double k = simp towards_suc (omega arith)

quadruple : (k : ℕ) → 2 ^ (k + 2) ≡ 4 * 2 ^ k
quadruple k = simp towards_suc (omega arith)

-- A parent is two levels above its lower child at most.
higher :
    (hl hr h a b : ℕ)
    → h ≡ max hl hr + 1
    → hl ≤ hr + 1
    → hr ≤ hl + 1
    → 2 ^ hl ≤ a * a
    → 2 ^ hr ≤ b * b
    → 2 ^ h ≤ (a + b) * (a + b)
higher hl hr h a b e p q x y = elim (ℕ_discrete hl hr) [
  | yes s ↦
      rw (let f : h ≡ hl + 1 = omega arith in f, double)
        (omega (arith, square_sum a b (2 ^ hl) x (rw s y)))
  | no n ↦ elim (ℕ_discrete hl (hr + 1)) [
    | yes s ↦
        rw (let f : h ≡ hr + 2 = omega arith in f, quadruple)
          (square_sum a b (2 ^ hr) (omega (arith, double hr, rw (s, double) at x)) y)
    | no m ↦
        rw (let f : h ≡ hl + 2 = omega arith in f, quadruple)
          (square_sum a b (2 ^ hl) x
            (omega (arith, rw ((let s : hr ≡ hl + 1 = omega arith in s), double) at y)))
  ]
]

module _ {ℓ} {E : Type ℓ} where
  IsAvl-high :
      (t : Node E) → IsAvl t → 2 ^ height t ≤ (length (to_list t) + 1) * (length (to_list t) + 1)
  IsAvl-high null a = omega arith
  IsAvl-high (node x l r h) a =
      rw (length-append (to_list l) (x ∷ to_list r), add_shift _ _)
        (higher (height l) (height r) h (length (to_list l) + 1) (length (to_list r) + 1) a.2 a.3
          a.4 (IsAvl-high l a.0) (IsAvl-high r a.1))
    where
      add_shift : (n m : ℕ) → n + suc m + 1 ≡ n + 1 + (m + 1)
      add_shift n m = omega arith

  -- A tree of n elements that insertions and removals make from an empty one, however they follow on each
  -- other, has a height h with 2 ^ h at most (n + 1) squared, provided that its comparison is a strict
  -- weak order.
  pub Built-height :
      {cmp : E → E → Ordering} {t : Tree E}
      → IsLawful cmp
      → Built cmp t
      → 2 ^ height t.root ≤ (length (elements t) + 1) * (length (elements t) + 1)
  Built-height {t = t} o b = IsAvl-high t.root (Built-IsValid o b).balanced
