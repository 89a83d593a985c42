-- ===== src/Tree/Search.antt =====
-- tree_find and tree_last of src/cyberd/tree.c against the sorted sequence.
use cyberd.Base.{
  ◌≡◌, refl, sym, ◌∙◌, inl, inr, Ordering-cases, Ordering, lt, ◌≢◌, List, [], ◌∷◌, ◌++◌, Option,
  none, some, arith, All, All-append_right, subst, Option-cases, ◌⊎◌,
}
use cyberd.Tree.{Node, null, node, Tree, find_from, last_from, tree_find, tree_last}
use cyberd.Tree.Valid.{IsValid, elements}
use cyberd.Tree.Sequence.{IsLawful, to_list, IsSorted, lookup, IsSorted-left, IsSorted-right}
use cyberd.Tree.Middle.{lookup-lt, lookup-gt, lookup-eq}

module _ {ℓ} {E : Type ℓ} (cmp : E → E → Ordering) (o : IsLawful cmp) where
  find_from-lookup :
      (e : E) (t : Node E) → IsSorted cmp (to_list t) → find_from cmp t e ≡ lookup cmp e (to_list t)
  unfolding find_from lookup
  find_from-lookup e null s = refl
  find_from-lookup e (node x l r h) s =
      let xs = to_list l in
      let ys = to_list r in
      elim (Ordering-cases (cmp e x)) [
        | inl c ↦
            rw (c, find_from)
              (find_from-lookup e l (IsSorted-left cmp xs (x ∷ ys) s)
                ∙ sym (lookup-lt cmp o e x xs ys s c))
        | inr (inl c) ↦ rw (c, find_from) (sym (lookup-eq cmp o e x xs ys s c))
        | inr (inr c) ↦
            rw (c, find_from)
              (find_from-lookup e r (IsSorted-right cmp xs (x ∷ ys) s).1
                ∙ sym (lookup-gt cmp o e x xs ys s c))
      ]

module _ {ℓ} {E : Type ℓ} where
  -- tree_find on a valid tree returns the element of the sequence that compares equal, or null.
  pub tree_find-lookup :
      (t : Tree E) (e : E) → IsValid t → tree_find t e ≡ lookup t.compare e (elements t)
  unfolding tree_find
  tree_find-lookup t e v = find_from-lookup t.compare v.lawful e t.root v.sorted

  abbrev pub get_last? : List E → Option E
  get_last? [] = none
  get_last? (x ∷ []) = some x
  get_last? (x ∷ (y ∷ ys)) = get_last? (y ∷ ys)

  get_last?-append :
      (xs : List E) (y : E) (ys : List E) → get_last? (xs ++ y ∷ ys) ≡ get_last? (y ∷ ys)
  get_last?-append [] y ys = refl
  get_last?-append (x ∷ []) y ys = refl
  get_last?-append (x ∷ (z ∷ xs)) y ys = get_last?-append (z ∷ xs) y ys

  last_from-get_last? : (t : Node E) → last_from t ≡ get_last? (to_list t)
  unfolding last_from
  last_from-get_last? null = refl
  last_from-get_last? (node x l null h) = sym (get_last?-append (to_list l) x [])
  last_from-get_last? (node x l (node y rl rr rh) h) =
      last_from-get_last? (node y rl rr rh) ∙ sym (passes (to_list rl) y (to_list rr))
    where
      passes :
          (xs : List E) (z : E) (zs : List E)
          → get_last? (to_list l ++ x ∷ (xs ++ z ∷ zs)) ≡ get_last? (xs ++ z ∷ zs)
      passes [] z zs = get_last?-append (to_list l) x (z ∷ zs)
      passes (w ∷ xs) z zs = get_last?-append (to_list l) x (w ∷ (xs ++ z ∷ zs))

  last_greatest :
      (cmp : E → E → Ordering) (xs : List E) {x : E}
      → IsSorted cmp xs
      → get_last? xs ≡ some x
      → (ys : List E) × (xs ≡ ys ++ x ∷ []) × All (λ y. cmp y x ≡ lt) ys
  last_greatest cmp [] s q = absurd (cc)
  last_greatest cmp (x ∷ []) s q = ([], ground arith, tt)
  last_greatest cmp (x ∷ (y ∷ ys)) s q =
      let (zs, e, b) = last_greatest cmp (y ∷ ys) s.1 q in
      (
        x ∷ zs,
        rw e,
        ((All-append_right _ zs (_ ∷ []) (subst (All (λ z. cmp x z ≡ lt)) e s.0)).0, b),
      )

  get_last?_cons : (x : E) (xs : List E) → get_last? (x ∷ xs) ≢ none
  get_last?_cons x [] = λ q. cc
  get_last?_cons x (y ∷ ys) = get_last?_cons y ys

  last_null : (t : Node E) → get_last? (to_list t) ≡ none → t ≡ null
  last_null null q = refl
  last_null (node x l r h) q =
      absurd (get_last?_cons x (to_list r) (sym (get_last?-append (to_list l) x (to_list r)) ∙ q))

  -- tree_last on a valid tree returns null only if the tree is empty, else its greatest element: the
  -- last of the sequence, above all the others.
  pub tree_last_greatest :
      (t : Tree E)
      → IsValid t
      → (t.root ≡ null) × (tree_last t ≡ none)
        ⊎ ((x : E) × (ys : List E) × (tree_last t ≡ some x)
            × (elements t ≡ ys ++ x ∷ [])
            × All (λ y. t.compare y x ≡ lt) ys)
  unfolding tree_last
  tree_last_greatest t v = elim (Option-cases (last_from t.root)) [
    | inl n ↦ inl (last_null t.root (sym (last_from-get_last? t.root) ∙ n), n)
    | inr (x, f) ↦
        let (ys, e, b) =
          last_greatest t.compare (elements t) v.sorted (sym (last_from-get_last? t.root) ∙ f) in
        inr (x, ys, f, e, b)
  ]
