-- ===== src/Tree/Middle.antt =====
-- A search step at the middle of a sorted sequence: the element is placed, found or erased on the
-- side that the comparison with the middle says.
use cyberd.Base.{◌≡◌, ◌∙◌, Ordering, lt, eq, gt, List, ◌∷◌, ◌++◌, some}
use cyberd.Tree.Sequence.{
  IsLawful, IsSorted, insert_sorted, lookup, erase, insert_sorted-left, insert_sorted-right,
  lookup-left, lookup-right, erase-left, erase-right, prefix_below, prefix_below_eq, suffix_above,
}

module _ {ℓ} {E : Type ℓ} (cmp : E → E → Ordering) (o : IsLawful cmp) where
  module _ (e x : E) (xs ys : List E) (s : IsSorted cmp (xs ++ x ∷ ys)) where
    pub lookup-lt : cmp e x ≡ lt → lookup cmp e (xs ++ x ∷ ys) ≡ lookup cmp e xs
    lookup-lt c = lookup-left cmp e xs (x ∷ ys) (suffix_above cmp o e x xs ys c s)

    pub lookup-gt : cmp e x ≡ gt → lookup cmp e (xs ++ x ∷ ys) ≡ lookup cmp e ys
    unfolding lookup
    lookup-gt c = lookup-right cmp e xs (x ∷ ys) (prefix_below cmp o e x xs ys c s) ∙ rw (c, lookup)

    pub lookup-eq : cmp e x ≡ eq → lookup cmp e (xs ++ x ∷ ys) ≡ some x
    unfolding lookup
    lookup-eq c =
        lookup-right cmp e xs (x ∷ ys) (prefix_below_eq cmp o e x xs ys c s) ∙ rw (c, lookup)

    pub insert-lt :
        cmp e x ≡ lt → insert_sorted cmp e (xs ++ x ∷ ys) ≡ insert_sorted cmp e xs ++ x ∷ ys
    insert-lt c = insert_sorted-left cmp e xs x ys c

    pub insert-gt :
        cmp e x ≡ gt → insert_sorted cmp e (xs ++ x ∷ ys) ≡ xs ++ x ∷ insert_sorted cmp e ys
    unfolding insert_sorted
    insert-gt c =
        insert_sorted-right cmp e xs (x ∷ ys) (prefix_below cmp o e x xs ys c s)
        ∙ rw (c, insert_sorted)

    pub erase-lt : cmp e x ≡ lt → erase cmp e (xs ++ x ∷ ys) ≡ erase cmp e xs ++ x ∷ ys
    erase-lt c = erase-left cmp e xs (x ∷ ys) (suffix_above cmp o e x xs ys c s)

    pub erase-gt : cmp e x ≡ gt → erase cmp e (xs ++ x ∷ ys) ≡ xs ++ x ∷ erase cmp e ys
    unfolding erase
    erase-gt c = erase-right cmp e xs (x ∷ ys) (prefix_below cmp o e x xs ys c s) ∙ rw (c, erase)

    pub erase-eq : cmp e x ≡ eq → erase cmp e (xs ++ x ∷ ys) ≡ xs ++ ys
    unfolding erase
    erase-eq c = erase-right cmp e xs (x ∷ ys) (prefix_below_eq cmp o e x xs ys c s) ∙ rw (c, erase)
