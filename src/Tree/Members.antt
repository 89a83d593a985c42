-- ===== src/Tree/Members.antt =====
-- Which elements the operations of src/cyberd/tree.c leave in a sorted sequence.
use cyberd.Base.{
  Ordering, lt, eq, none, some, List, [], ◌∷◌, ◌++◌, ◌≡◌, ◌≢◌, refl, ap, ◌∙◌, arith, Among,
  Distinct, ◌⊎◌, inl, inr, All-Among, Among-left, Among-right, Among-split, Distinct-append,
  Among-All,
}
use cyberd.Tree.{Node, null, node}
use cyberd.Tree.Sequence.{
  IsLawful, IsSorted, insert_sorted, lookup, erase, to_list, IsSorted-left, IsSorted-right,
}
use cyberd.Tree.Traversal.{preorder}

module _ {E : Type 0} (cmp : E → E → Ordering) where
  pub insert_sorted-Among : (e x : E) (xs : List E) → Among x xs → Among x (insert_sorted cmp e xs)
  unfolding insert_sorted
  insert_sorted-Among e x [] m = absurd m
  insert_sorted-Among e x (y ∷ ys) (inl q) = ground arith
  insert_sorted-Among e x (y ∷ ys) (inr m) = ground (arith, insert_sorted-Among e x ys m)

  pub insert_sorted_self : (e : E) (xs : List E) → Among e (insert_sorted cmp e xs)
  unfolding insert_sorted
  insert_sorted_self e [] = inl refl
  insert_sorted_self e (y ∷ ys) = ground (arith, insert_sorted_self e ys)

  pub Among-insert_sorted :
      (e x : E) (xs : List E) → Among x (insert_sorted cmp e xs) → (x ≡ e) ⊎ Among x xs
  unfolding insert_sorted
  Among-insert_sorted e x [] (inl q) = inl q
  Among-insert_sorted e x [] (inr m) = absurd m
  Among-insert_sorted e x (y ∷ ys) m = ground (arith, Among-insert_sorted e x ys)

  pub erase-Among : (e x : E) (xs : List E) → Among x (erase cmp e xs) → Among x xs
  unfolding erase
  erase-Among e x [] m = absurd m
  erase-Among e x (y ∷ ys) m = ground (arith, erase-Among e x ys)

  pub Among-erase : (e x : E) (xs : List E) → cmp e x ≢ eq → Among x xs → Among x (erase cmp e xs)
  unfolding erase
  Among-erase e x [] n m = absurd m
  Among-erase e x (y ∷ ys) n (inl q) = ground (arith, n, ap (cmp e) q)
  Among-erase e x (y ∷ ys) n (inr m) = ground (arith, Among-erase e x ys n m)

  pub lookup-Among :
      (e r : E) (xs : List E) → lookup cmp e xs ≡ some r → Among r xs × (cmp e r ≡ eq)
  unfolding lookup
  lookup-Among e r [] h = absurd cc
  lookup-Among e r (y ∷ ys) h = ground (arith, lookup-Among e r ys)

  pub lookup-none :
      (e : E) (xs : List E) → ((x : E) → Among x xs → cmp e x ≢ eq) → lookup cmp e xs ≡ none
  unfolding lookup
  lookup-none e [] f = refl
  lookup-none e (y ∷ ys) f = ground (arith, lookup-none e ys (λ x m. f x (inr m)), f y (inl refl))

  pub none-lookup : (e x : E) (xs : List E) → lookup cmp e xs ≡ none → Among x xs → cmp e x ≢ eq
  unfolding lookup
  none-lookup e x [] h m = absurd m
  none-lookup e x (y ∷ ys) h (inl q) = ground (arith, ap (cmp e) q)
  none-lookup e x (y ∷ ys) h (inr m) = ground (arith, none-lookup e x ys)

  -- Two comparisons that agree on the elements give the same order.
  pub agree-IsSorted :
      (cmp' : E → E → Ordering) (xs : List E)
      → ((x y : E) → Among x xs → Among y xs → cmp' x y ≡ cmp x y)
      → IsSorted cmp xs
      → IsSorted cmp' xs
  agree-IsSorted cmp' [] f s = tt
  agree-IsSorted cmp' (x ∷ xs) f s = (
    Among-All (λ y. cmp' x y ≡ lt) xs
        (λ y m. f x y (inl refl) (inr m) ∙ All-Among (λ y. cmp x y ≡ lt) y xs s.0 m),
    agree-IsSorted cmp' xs (λ y z m n. f y z (inr m) (inr n)) s.1,
  )

module _ {E : Type 0} (cmp : E → E → Ordering) (o : IsLawful cmp) where
  pub erase_other :
      (e x : E) (xs : List E) → IsSorted cmp xs → Among x (erase cmp e xs) → cmp e x ≢ eq
  unfolding erase
  erase_other e x [] s m = absurd m
  erase_other e x (y ∷ ys) s m = ground (arith, erase_other e x ys s.1, behind)
    where
      behind : cmp e y ≡ eq → Among x ys → cmp e x ≢ eq
      behind c k h =
          absurd (cc (o.lt_of_eq e y x c (All-Among (λ z. cmp y z ≡ lt) x ys (s.0) k), h))

  -- The only element that compares equal is found.
  pub Among-lookup :
      (e r : E) (xs : List E)
      → IsSorted cmp xs
      → Among r xs
      → cmp e r ≡ eq
      → lookup cmp e xs ≡ some r
  unfolding lookup
  Among-lookup e r [] s m c = absurd m
  Among-lookup e r (y ∷ ys) s (inl q) c = ground (arith, ap (cmp e) q)
  Among-lookup e r (y ∷ ys) s (inr m) c =
      let below = All-Among (λ z. cmp y z ≡ lt) r ys (s.0) m in
      ground (arith, Among-lookup e r ys s.1 m c, o.lt_of_eq e y r, below)

  sorted_Distinct : (xs : List E) → IsSorted cmp xs → Distinct xs
  sorted_Distinct [] s = tt
  sorted_Distinct (x ∷ xs) s = (
    λ m. absurd (cc (All-Among (λ z. cmp x z ≡ lt) x xs (s.0) m, o.cmp_refl x)),
    sorted_Distinct xs s.1,
  )

  -- What stands before a place in a sorted list is other than what stands behind.
  sorted_apart : (xs ys : List E) → IsSorted cmp (xs ++ ys) → (x : E) → Among x xs → Among x ys → ⊥
  sorted_apart [] ys s x m n = m
  sorted_apart (z ∷ xs) ys s x (inl q) n = absurd (
      cc (
        All-Among (λ y. cmp z y ≡ lt) x (xs ++ ys) (s.0) (Among-right x xs ys n),
        ap (λ y. cmp z y) q,
        o.cmp_refl z,
      ))
  sorted_apart (z ∷ xs) ys s x (inr m) n = sorted_apart xs ys s.1 x m n

module _ {E : Type 0} where
  pub Among-preorder : (x : E) (t : Node E) → Among x (to_list t) → Among x (preorder t)
  Among-preorder x null m = m
  Among-preorder x (node y l r h) m = elim (Among-split x (to_list l) (y ∷ to_list r) m) [
    | inl a ↦ inr (Among-left x (preorder l) (preorder r) (Among-preorder x l a))
    | inr (inl q) ↦ inl q
    | inr (inr b) ↦ inr (Among-right x (preorder l) (preorder r) (Among-preorder x r b))
  ]

  pub preorder-Among : (x : E) (t : Node E) → Among x (preorder t) → Among x (to_list t)
  preorder-Among x null m = m
  preorder-Among x (node y l r h) (inl q) = Among-right x (to_list l) (y ∷ to_list r) (inl q)
  preorder-Among x (node y l r h) (inr m) = elim (Among-split x (preorder l) (preorder r) m) [
    | inl a ↦ Among-left x (to_list l) (y ∷ to_list r) (preorder-Among x l a)
    | inr b ↦ Among-right x (to_list l) (y ∷ to_list r) (inr (preorder-Among x r b))
  ]

  -- A traversal of a sorted tree meets no element twice.
  pub preorder-Distinct :
      (cmp : E → E → Ordering)
      → IsLawful cmp
      → (t : Node E) → IsSorted cmp (to_list t)
      → Distinct (preorder t)
  preorder-Distinct cmp o null s = tt
  preorder-Distinct cmp o (node y l r h) s =
      let right = IsSorted-right cmp (to_list l) (y ∷ to_list r) s in
      let apart = sorted_apart cmp o (to_list l) (y ∷ to_list r) s in
      (
        λ m. elim (Among-split y (preorder l) (preorder r) m) [
          | inl a ↦ apart y (preorder-Among y l a) (inl refl)
          | inr b ↦ (sorted_Distinct cmp o (y ∷ to_list r) right).0 (preorder-Among y r b)
        ],
        Distinct-append (preorder l) (preorder r)
            (preorder-Distinct cmp o l (IsSorted-left cmp (to_list l) (y ∷ to_list r) s))
            (preorder-Distinct cmp o r right.1)
            (λ x a b. apart x (preorder-Among x l a) (inr (preorder-Among x r b))),
      )
