-- ===== src/Tree/Sequence.antt =====
-- What src/cyberd/tree.h promises: a tree stands for its elements from least to greatest.
--
-- The elements are compared by a function that is no more than a strict weak order: two distinct
-- elements may compare equal, as a daemon and the key made of its name do.
use cyberd.Base.{
  ◌≡◌, refl, ap, Ordering, lt, eq, gt, List, [], ◌∷◌, ◌++◌, Option, none, some, arith, All,
  All-append_left, All-append_right, All-imp,
}
use cyberd.Tree.{Node, null, node}

-- What the callers' comparison functions satisfy.
pub record IsLawful {ℓ} {E : Type ℓ} (cmp : E → E → Ordering) : Type ℓ where
  pub cmp_refl : (a : E) → cmp a a ≡ eq
  pub gt_of_lt : (a b : E) → cmp a b ≡ lt → cmp b a ≡ gt
  pub lt_of_gt : (a b : E) → cmp a b ≡ gt → cmp b a ≡ lt
  pub lt_trans : (a b c : E) → cmp a b ≡ lt → cmp b c ≡ lt → cmp a c ≡ lt
  pub gt_of_eq : (a b c : E) → cmp a b ≡ eq → cmp b c ≡ gt → cmp a c ≡ gt
  pub lt_of_eq : (a b c : E) → cmp a b ≡ eq → cmp b c ≡ lt → cmp a c ≡ lt

module _ {ℓ} {E : Type ℓ} where
  -- The elements, from least to greatest.
  abbrev pub to_list : Node E → List E
  to_list null = []
  to_list (node x l r h) = to_list l ++ x ∷ to_list r

  module _ (cmp : E → E → Ordering) where
    abbrev pub IsSorted : List E → Type 0
    IsSorted [] = Unit
    IsSorted (x ∷ xs) = All (λ y. cmp x y ≡ lt) xs × IsSorted xs

    -- The place of a new element in a sorted list.
    unfoldable pub insert_sorted : E → List E → List E
    insert_sorted e [] = e ∷ []
    insert_sorted e (x ∷ xs) = elim (cmp e x) [ lt ↦ e ∷ x ∷ xs | _ ↦ x ∷ insert_sorted e xs ]

    -- The first element that compares equal.
    unfoldable pub lookup : E → List E → Option E
    lookup e [] = none
    lookup e (x ∷ xs) = elim (cmp e x) [ eq ↦ some x | _ ↦ lookup e xs ]

    -- The list without that element.
    unfoldable pub erase : E → List E → List E
    erase e [] = []
    erase e (x ∷ xs) = elim (cmp e x) [ eq ↦ xs | _ ↦ x ∷ erase e xs ]

    pub IsSorted-left : (xs ys : List E) → IsSorted (xs ++ ys) → IsSorted xs
    IsSorted-left [] ys s = tt
    IsSorted-left (x ∷ xs) ys s = (All-append_left _ xs ys s.0, IsSorted-left xs ys s.1)

    pub IsSorted-right : (xs ys : List E) → IsSorted (xs ++ ys) → IsSorted ys
    IsSorted-right [] ys s = s
    IsSorted-right (x ∷ xs) ys s = IsSorted-right xs ys s.1

    pub below_middle :
        (xs : List E) (x : E) (ys : List E) → IsSorted (xs ++ x ∷ ys) → All (λ y. cmp y x ≡ lt) xs
    below_middle [] x ys s = tt
    below_middle (y ∷ xs) x ys s =
        ((All-append_right _ xs (x ∷ ys) s.0).0, below_middle xs x ys s.1)

    pub insert_sorted-left :
        (e : E) (xs : List E) (x : E) (ys : List E)
        → cmp e x ≡ lt
        → insert_sorted e (xs ++ x ∷ ys) ≡ insert_sorted e xs ++ x ∷ ys
    unfolding insert_sorted
    insert_sorted-left e [] x ys c = rw (c, insert_sorted)
    insert_sorted-left e (z ∷ xs) x ys c = ground (arith, insert_sorted-left e xs x ys c)

    pub insert_sorted-right :
        (e : E) (xs ys : List E)
        → All (λ y. cmp e y ≡ gt) xs
        → insert_sorted e (xs ++ ys) ≡ xs ++ insert_sorted e ys
    unfolding insert_sorted
    insert_sorted-right e [] ys c = refl
    insert_sorted-right e (z ∷ xs) ys c =
        rw (c.0, insert_sorted) (ap (λ zs. z ∷ zs) (insert_sorted-right e xs ys c.1))

    -- Passing over a prefix that compares below.
    pub lookup-right :
        (e : E) (xs ys : List E) → All (λ y. cmp e y ≡ gt) xs → lookup e (xs ++ ys) ≡ lookup e ys
    unfolding lookup
    lookup-right e [] ys c = refl
    lookup-right e (z ∷ xs) ys c = rw (c.0, lookup) (lookup-right e xs ys c.1)

    pub erase-right :
        (e : E) (xs ys : List E)
        → All (λ y. cmp e y ≡ gt) xs
        → erase e (xs ++ ys) ≡ xs ++ erase e ys
    unfolding erase
    erase-right e [] ys c = refl
    erase-right e (z ∷ xs) ys c = rw (c.0, erase) (ap (λ zs. z ∷ zs) (erase-right e xs ys c.1))

    pub lookup_above : (e : E) (ys : List E) → All (λ y. cmp e y ≡ lt) ys → lookup e ys ≡ none
    unfolding lookup
    lookup_above e [] c = refl
    lookup_above e (y ∷ ys) c = rw (c.0, lookup) (lookup_above e ys c.1)

    pub erase_above : (e : E) (ys : List E) → All (λ y. cmp e y ≡ lt) ys → erase e ys ≡ ys
    unfolding erase
    erase_above e [] c = refl
    erase_above e (y ∷ ys) c = rw (c.0, erase) (ap (λ zs. y ∷ zs) (erase_above e ys c.1))

    pub lookup-left :
        (e : E) (xs ys : List E) → All (λ y. cmp e y ≡ lt) ys → lookup e (xs ++ ys) ≡ lookup e xs
    unfolding lookup
    lookup-left e [] ys c = lookup_above e ys c
    lookup-left e (z ∷ xs) ys c = ground (arith, lookup-left e xs ys c)

    pub erase-left :
        (e : E) (xs ys : List E)
        → All (λ y. cmp e y ≡ lt) ys
        → erase e (xs ++ ys) ≡ erase e xs ++ ys
    unfolding erase
    erase-left e [] ys c = erase_above e ys c
    erase-left e (z ∷ xs) ys c = ground (arith, erase-left e xs ys c)

  module _ (cmp : E → E → Ordering) (o : IsLawful cmp) where
    -- An element above or equal to `x` is above what stands before `x`.
    pub prefix_below :
        (e x : E) (xs ys : List E)
        → cmp e x ≡ gt
        → IsSorted cmp (xs ++ x ∷ ys)
        → All (λ y. cmp e y ≡ gt) xs
    prefix_below e x xs ys c s =
        All-imp (λ y. cmp y x ≡ lt) _
          (λ y h. o.gt_of_lt y e (o.lt_trans y x e h (o.lt_of_gt e x c))) xs
          (below_middle cmp xs x ys s)

    pub prefix_below_eq :
        (e x : E) (xs ys : List E)
        → cmp e x ≡ eq
        → IsSorted cmp (xs ++ x ∷ ys)
        → All (λ y. cmp e y ≡ gt) xs
    prefix_below_eq e x xs ys c s =
        All-imp (λ y. cmp y x ≡ lt) _ (λ y h. o.gt_of_eq e x y c (o.gt_of_lt y x h)) xs
          (below_middle cmp xs x ys s)

    pub suffix_above :
        (e x : E) (xs ys : List E)
        → cmp e x ≡ lt
        → IsSorted cmp (xs ++ x ∷ ys)
        → All (λ y. cmp e y ≡ lt) (x ∷ ys)
    suffix_above e x xs ys c s =
        let t : IsSorted cmp (x ∷ ys) = IsSorted-right cmp xs (x ∷ ys) s in
        (c, All-imp (λ y. cmp x y ≡ lt) _ (λ y h. o.lt_trans e x y c h) ys t.0)

    pub insert_sorted-All {κ} :
        (P : E → Type κ) (e : E) (xs : List E) → P e → All P xs → All P (insert_sorted cmp e xs)
    unfolding insert_sorted
    insert_sorted-All P e [] p h = (p, h)
    insert_sorted-All P e (x ∷ xs) p h = ground (arith, insert_sorted-All P e xs p h.1)

    pub erase-All {κ} : (P : E → Type κ) (e : E) (xs : List E) → All P xs → All P (erase cmp e xs)
    unfolding erase
    erase-All P e [] h = h
    erase-All P e (x ∷ xs) h = ground (arith, erase-All P e xs h.1)

    pub insert_sorted-IsSorted :
        (e : E) (xs : List E)
        → IsSorted cmp xs
        → lookup cmp e xs ≡ none
        → IsSorted cmp (insert_sorted cmp e xs)
    unfolding insert_sorted lookup
    insert_sorted-IsSorted e [] s n = (tt, tt)
    insert_sorted-IsSorted e (x ∷ xs) s n = ground (
      arith,
      insert_sorted-IsSorted e xs s.1,
      insert_sorted-All (λ y. cmp x y ≡ lt) e xs,
      o.lt_of_gt e x,
      suffix_above e x [] xs,
    )

    pub erase-IsSorted : (e : E) (xs : List E) → IsSorted cmp xs → IsSorted cmp (erase cmp e xs)
    unfolding erase
    erase-IsSorted e [] s = tt
    erase-IsSorted e (x ∷ xs) s =
        ground (arith, erase-IsSorted e xs s.1, erase-All (λ y. cmp x y ≡ lt) e xs s.0)
