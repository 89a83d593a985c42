-- ===== src/Configuration/Inserting.antt =====
-- The insertion of a daemon into the tree of src/cyberd/configuration.c.
use cyberd.Base.{
  ℕ, Option, none, some, List, ◌∷◌, ◌≡◌, ◌≢◌, refl, sym, ap, ◌∙◌, subst, All, All-imp, All-Among,
  Among-All, Among, inl, inr, some_inj, Ordering, eq, Returns, returns, Returns->>=,
}
use cyberd.Tree.{Node}
use cyberd.Tree.Balance.{IsAvl}
use cyberd.Tree.Sequence.{IsSorted, to_list, insert_sorted}
use cyberd.Tree.Insert.{tree_insert-IsValid}
use cyberd.Tree.Members.{insert_sorted-Among, insert_sorted_self, Among-insert_sorted, lookup-none}
use cyberd.DaemonConf.Values.{Host}
use cyberd.Daemons.{Daemon}
use cyberd.Daemons.Consistent.{Store}
use cyberd.Configuration.{Element, stored, Config, name_of, daemons_compare, tree_of, insert_daemon}
use cyberd.Configuration.Names.{daemons_compare-IsLawful, strcmp-eq}
use cyberd.Configuration.Held.{IsKnown, Held}
use cyberd.Configuration.Moving.{name_of-stored}

more_names :
    (store : Store) (n : List ℕ) (names : List (List ℕ)) (r : Element)
    → IsKnown store names r
    → IsKnown store (n ∷ names) r
more_names store n names r k = record {
  address_of = k.address_of;
  daemon = k.daemon;
  is_at = k.is_at;
  allocated = k.allocated;
  known = inr k.known;
}

-- One name more than there need be.
pub more-Held :
    (host : Host) (n : List ℕ) (names : List (List ℕ)) (others : List Element) (hand : Option ℕ)
    (c : Config)
    → Held host names others hand c
    → Held host (n ∷ names) others hand c
more-Held host n names others hand c h = record {
  consistent = h.consistent;
  configured = h.configured;
  balanced = h.balanced;
  sorted = h.sorted;
  elements = All-imp _ _ (more_names c.system.store n names) (to_list c.daemons) h.elements;
  waiting = h.waiting;
  covered = h.covered;
  apart = h.apart;
  hand_apart = h.hand_apart;
}

-- `tree_insert(&daemons, daemon)` of the daemon at hand.
module _ (host : Host) (names : List (List ℕ)) (others : List Element) (c : Config) (p : ℕ)
    (d : Daemon) (h : Held host names others (some p) c) (a : c.system.store p ≡ some d)
    (fresh : Among d.name names → ⊥) where
  abbrev cmp : Element → Element → Ordering
  cmp = daemons_compare c.system.store

  name_absent : (r : Element) → Among r (to_list c.daemons) → cmp (stored p) r ≢ eq
  unfolding daemons_compare
  name_absent r m q =
      let k = All-Among (IsKnown c.system.store names) r (to_list c.daemons) h.elements m in
      let same : d.name ≡ k.daemon.name =
        sym (name_of-stored c.system.store p d a)
        ∙ strcmp-eq _ _ q
        ∙ ap (name_of c.system.store) k.is_at
        ∙ name_of-stored c.system.store k.address_of k.daemon k.allocated in
      fresh (subst (λ n. Among n names) (sym same) k.known)

  -- With the daemon at its sorted place.
  inserted-Held :
      (root : Node Element)
      → IsAvl root
      → IsSorted cmp (to_list root)
      → to_list root ≡ insert_sorted cmp (stored p) (to_list c.daemons)
      → Held host (d.name ∷ names) others none (record c { daemons = root })
  inserted-Held root b s e =
      let inserted = insert_sorted cmp (stored p) (to_list c.daemons) in
      let own : IsKnown c.system.store (d.name ∷ names) (stored p) = record {
        address_of = p;
        daemon = d;
        is_at = refl;
        allocated = a;
        known = inl refl;
      } in
      record {
        consistent = h.consistent;
        configured = h.configured;
        balanced = b;
        sorted = s;
        elements = subst (All (IsKnown c.system.store (d.name ∷ names))) (sym e) (
            Among-All _ inserted (λ r m.
              elim (Among-insert_sorted cmp (stored p) r (to_list c.daemons) m) [
                | inl q ↦ subst (IsKnown c.system.store (d.name ∷ names)) (sym q) own
                | inr n ↦
                    more_names c.system.store d.name names r
                      (All-Among (IsKnown c.system.store names) r (to_list c.daemons) h.elements n)
              ]));
        waiting = h.waiting;
        covered = λ q x i. elim (h.covered q x i) [
          | inl m ↦
              inl (
                subst (Among (stored q)) (sym e)
                  (insert_sorted-Among cmp (stored p) (stored q) _ m))
          | inr (inl m) ↦ inr (inl m)
          | inr (inr m) ↦
              let same : stored p ≡ stored q = ap stored (some_inj m) in
              inl (
                subst (Among (stored q)) (sym e) (
                  subst (λ r. Among r inserted) same
                    (insert_sorted_self cmp (stored p) (to_list c.daemons))))
        ];
        apart = λ r m n.
            elim (Among-insert_sorted cmp (stored p) r (to_list c.daemons) (subst (Among r) e m)) [
              | inl q ↦ (h.hand_apart p refl).1 (subst (λ x. Among x others) q n)
              | inr k ↦ h.apart r k n
            ];
        hand_apart = λ q i. absurd (cc i);
      }

  pub insert_daemon-Held :
      Returns
        (λ t. (t.system ≡ c.system) × Held host (d.name ∷ names) others none t)
        (insert_daemon c p)
  unfolding insert_daemon
  insert_daemon-Held =
      Returns->>=
        (tree_insert-IsValid (tree_of c.system c.daemons) (stored p)
          (record {
            lawful = daemons_compare-IsLawful c.system.store;
            balanced = h.balanced;
            sorted = h.sorted;
          })
          (lookup-none cmp (stored p) (to_list c.daemons) name_absent))
        λ t _ g.
          returns (record c { daemons = t.root }) refl
            (
              refl,
              inserted-Held t.root g.0.balanced
                  (subst (λ order. IsSorted order (to_list t.root)) g.1 (g.0.sorted)) g.2,
            )
