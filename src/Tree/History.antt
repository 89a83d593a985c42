-- ===== src/Tree/History.antt =====
-- Every tree that the callers of src/cyberd/tree.h can build is valid.
use cyberd.Base.{◌≡◌, sym, ◌∙◌, inl, inr, Option-cases, Ordering, List, Option, ok, Returns-ok}
use cyberd.Tree.{null, Tree, tree_insert, tree_remove}
use cyberd.Tree.Valid.{IsValid, elements}
use cyberd.Tree.Sequence.{IsLawful, lookup}
use cyberd.Tree.Insert.{tree_insert-IsValid, tree_insert_duplicate}
use cyberd.Tree.Remove.{tree_remove-IsValid}

module _ {ℓ} {E : Type ℓ} where
  -- `static struct tree t = { .compare = cmp };`
  unfoldable pub empty : (E → E → Ordering) → Tree E
  empty cmp = record { compare = cmp; root = null }

  -- The trees that insertions and removals make from an empty one.
  pub data Built (cmp : E → E → Ordering) : Tree E → Type ℓ where
    start : Built cmp (empty cmp)
    inserted : {t u : Tree E} (e : E) → Built cmp t → tree_insert t e ≡ ok u → Built cmp u
    removed :
        {t u : Tree E} (e : E) (p : Option E × List E)
        → Built cmp t
        → tree_remove t e ≡ ok (u, p.0, p.1)
        → Built cmp u

  insert-ok_IsValid : (t u : Tree E) (e : E) → IsValid t → tree_insert t e ≡ ok u → IsValid u
  insert-ok_IsValid t u e v q = elim (Option-cases (lookup t.compare e (elements t))) [
    | inl n ↦ (Returns-ok (tree_insert-IsValid t e v n) q).0
    | inr (y, f) ↦ absurd (cc (sym (tree_insert_duplicate t e y v f) ∙ q))
  ]

  -- A tree made from an empty one by insertions and removals that return is valid,
  -- provided that its comparison is a strict weak order.
  pub Built-IsValid : {cmp : E → E → Ordering} {t : Tree E} → IsLawful cmp → Built cmp t → IsValid t
  unfolding empty
  Built-IsValid o start = record { lawful = o; balanced = tt; sorted = tt }
  Built-IsValid o (inserted {t = t} {u = u} e b q) = insert-ok_IsValid t u e (Built-IsValid o b) q
  Built-IsValid o (removed {t = t} {u = u} e p b q) =
      (Returns-ok (tree_remove-IsValid t e (Built-IsValid o b)) q).0
