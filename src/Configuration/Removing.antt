-- ===== src/Configuration/Removing.antt =====
-- daemons_remove_element of src/cyberd/configuration.c on the tree of old daemons.
use cyberd.Base.{
  ℕ, Option, none, some, List, ◌≡◌, ◌≢◌, refl, sym, ap, ◌∙◌, subst, All-Among, Among-All, Among,
  ◌⊎◌, inl, inr, some_inj, Option-cases, Ordering, eq, Ordering-cases, Returns, returns,
  Returns->>=,
}
use cyberd.Tree.{Node}
use cyberd.Tree.Balance.{IsAvl}
use cyberd.Tree.Sequence.{IsSorted, to_list, lookup, erase}
use cyberd.Tree.Remove.{tree_remove-IsValid}
use cyberd.Tree.Members.{
  erase-Among, Among-erase, lookup-Among, none-lookup, erase_other, Among-lookup,
}
use cyberd.DaemonConf.Values.{Host}
use cyberd.Daemons.{Daemon}
use cyberd.Daemons.Consistent.{Store}
use cyberd.Configuration.{
  Element, stored, named, Config, name_of, daemons_compare, tree_of, daemons_remove_element,
}
use cyberd.Configuration.Names.{daemons_compare-IsLawful, strcmp-eq}
use cyberd.Configuration.Held.{IsStored, Held}
use cyberd.Configuration.Moving.{stored_inj, name_of-stored}

-- The list of others changed: what left it is at hand.
others-Held :
    (host : Host) (names : List (List ℕ)) (others less : List Element) (hand : Option ℕ)
    (c : Config)
    → Held host names others none c
    → ((r : Element) → Among r less → Among r others)
    → ((r : Element) → Among r others → Among r less ⊎ ((q : ℕ) → r ≡ stored q → hand ≡ some q))
    → ((q : ℕ) → hand ≡ some q → Among (stored q) others × (Among (stored q) less → ⊥))
    → Held host names less hand c
others-Held host names others less hand c h sub cover own = record {
  consistent = h.consistent;
  configured = h.configured;
  balanced = h.balanced;
  sorted = h.sorted;
  elements = h.elements;
  waiting =
      Among-All (IsStored c.system.store) less
        (λ r m. All-Among (IsStored c.system.store) r others h.waiting (sub r m));
  covered = λ q x i. elim (h.covered q x i) [
    | inl m ↦ inl m
    | inr (inl m) ↦ elim (cover (stored q) m) [ inl k ↦ inr (inl k) | inr f ↦ inr (inr (f q refl)) ]
    | inr (inr m) ↦ absurd (cc m)
  ];
  apart = λ r m n. h.apart r m (sub r n);
  hand_apart = λ q i. ((λ m. h.apart (stored q) m (own q i).0), (own q i).1);
}

-- The tree of old daemons.
pub record IsOld (store : Store) (old : Node Element) : Type 0 where
  pub balanced : IsAvl old
  pub sorted : IsSorted (daemons_compare store) (to_list old)

-- What is left of the old daemons, and the one with the name, which is at hand then.
pub data Taken (host : Host) (names : List (List ℕ)) (c : Config) (name : List ℕ)
    : Node Element × Option Element → Type 0 where
  not_old :
      {left : Node Element}
      → Held host names (to_list left) none c
      → Taken host names c name (left, none)
  taken :
      {left : Node Element} (p : ℕ) (d : Daemon)
      → c.system.store p ≡ some d
      → d.name ≡ name
      → Held host names (to_list left) (some p) c
      → Taken host names c name (left, some (stored p))

module _ (host : Host) (names : List (List ℕ)) (c : Config) (old : Node Element) (name : List ℕ)
    (h : Held host names (to_list old) none c) (o : IsOld c.system.store old) where
  abbrev cmp : Element → Element → Ordering
  cmp = daemons_compare c.system.store

  abbrev left_over : List Element
  left_over = erase cmp (named name) (to_list old)

  compares : (x : Element) → (cmp (named name) x ≡ eq) ⊎ (cmp (named name) x ≢ eq)
  compares x = elim (Ordering-cases (cmp (named name) x)) [
    | inl q ↦ inr (λ k. cc (q, k))
    | inr (inl q) ↦ inl q
    | inr (inr q) ↦ inr (λ k. cc (q, k))
  ]

  none-Taken :
      (left : Node Element) (found : Option Element)
      → to_list left ≡ left_over
      → found ≡ lookup cmp (named name) (to_list old)
      → lookup cmp (named name) (to_list old) ≡ none
      → Taken host names c name (left, found)
  none-Taken left found e f n =
      subst (λ k. Taken host names c name (left, k)) (sym (f ∙ n))
        (not_old (
          others-Held host names (to_list old) (to_list left) none c h
            (λ r m. erase-Among cmp (named name) r (to_list old) (subst (Among r) e m))
            (λ r m. inl (
              subst (Among r) (sym e) (
                Among-erase cmp (named name) r (to_list old)
                  (none-lookup cmp (named name) r (to_list old) n m) m)))
            (λ q i. absurd (cc i))))

  some-Taken :
      (left : Node Element) (found : Option Element) (r : Element)
      → to_list left ≡ left_over
      → found ≡ lookup cmp (named name) (to_list old)
      → lookup cmp (named name) (to_list old) ≡ some r
      → Taken host names c name (left, found)
  unfolding daemons_compare name_of
  some-Taken left found r e f n =
      let (m, q) = lookup-Among cmp (named name) r (to_list old) n in
      let i = All-Among (IsStored c.system.store) r (to_list old) h.waiting m in
      let p = i.address_of in
      let same_name : i.daemon.name ≡ name = sym (
        strcmp-eq _ _ q
        ∙ ap (name_of c.system.store) i.is_at
        ∙ name_of-stored c.system.store p i.daemon i.allocated) in
      let sound : Held host names (to_list left) (some p) c =
        others-Held host names (to_list old) (to_list left) (some p) c h
          (λ x k. erase-Among cmp (named name) x (to_list old) (subst (Among x) e k))
          (λ x k. elim (compares x) [
            | inl w ↦
                let found_x =
                  Among-lookup cmp (daemons_compare-IsLawful c.system.store) (named name) x
                    (to_list old) o.sorted k w in
                inr (λ y z. ap some (stored_inj (sym i.is_at ∙ some_inj (sym n ∙ found_x) ∙ z)))
            | inr w ↦
                inl (subst (Among x) (sym e) (Among-erase cmp (named name) x (to_list old) w k))
          ])
          (λ y z.
            let at_y : r ≡ stored y = i.is_at ∙ ap stored (some_inj z) in
            (
              subst (λ x. Among x (to_list old)) at_y m,
              λ k.
                  erase_other cmp (daemons_compare-IsLawful c.system.store) (named name) (stored y)
                    (to_list old) o.sorted (subst (Among (stored y)) e k)
                    (ap (cmp (named name)) (sym at_y) ∙ q),
            )) in
      subst (λ k. Taken host names c name (left, k)) (sym (f ∙ n ∙ ap some i.is_at))
        (taken p i.daemon i.allocated same_name sound)

  pub daemons_remove_element-Taken :
      Returns
        (λ r. IsOld c.system.store r.0 × Taken host names c name r)
        (daemons_remove_element c.system old name)
  unfolding daemons_remove_element
  daemons_remove_element-Taken =
      Returns->>=
        (tree_remove-IsValid (tree_of c.system old) (named name) (record {
          lawful = daemons_compare-IsLawful c.system.store;
          balanced = o.balanced;
          sorted = o.sorted;
        }))
        λ t _ g.
          returns (t.0.root, t.1) refl
            (
              record {
                balanced = g.0.balanced;
                sorted = subst (λ order. IsSorted order (to_list t.0.root)) g.1 (g.0.sorted);
              },
              elim (Option-cases (lookup cmp (named name) (to_list old))) [
                | inl n ↦ none-Taken t.0.root t.1 g.2 g.3 n
                | inr (r, n) ↦ some-Taken t.0.root t.1 r g.2 g.3 n
              ],
            )
