-- ===== src/Configuration/Finding.antt =====
-- configuration_find of src/cyberd/configuration.c.
use cyberd.Base.{
  ℕ, Option, none, some, List, [], ◌≡◌, ◌≢◌, sym, ap, ◌∙◌, subst, All-Among, inl, inr, Option-cases,
  Ordering, eq, strcmp,
}
use cyberd.Tree.Sequence.{to_list, lookup}
use cyberd.Tree.Search.{tree_find-lookup}
use cyberd.Tree.Members.{lookup-Among, none-lookup}
use cyberd.DaemonConf.Values.{Host}
use cyberd.Daemons.{Daemon}
use cyberd.Configuration.{
  Element, stored, named, Config, name_of, daemons_compare, tree_of, configuration_find,
}
use cyberd.Configuration.Names.{daemons_compare-IsLawful, strcmp-eq, strcmp_refl}
use cyberd.Configuration.Held.{IsKnown, Held}
use cyberd.Configuration.Moving.{name_of-stored}

-- What configuration_find returns: the daemon with the name, or null if there is none.
pub data Finds (c : Config) (name : List ℕ) : Option Element → Type 0 where
  is_found :
      (p : ℕ) (d : Daemon)
      → c.system.store p ≡ some d
      → d.name ≡ name
      → Finds c name (some (stored p))
  not_found : ((q : ℕ) (e : Daemon) → c.system.store q ≡ some e → e.name ≢ name) → Finds c name none

module _ (host : Host) (names : List (List ℕ)) (c : Config) (name : List ℕ)
    (h : Held host names [] none c) where
  abbrev cmp : Element → Element → Ordering
  cmp = daemons_compare c.system.store

  none-Finds : lookup cmp (named name) (to_list c.daemons) ≡ none → Finds c name none
  unfolding daemons_compare name_of
  none-Finds n = not_found λ q e a i. elim (h.covered q e a) [
    | inl m ↦ none-lookup cmp (named name) (stored q) (to_list c.daemons) n m (
        subst (λ x. strcmp name x ≡ eq) (sym i ∙ sym (name_of-stored c.system.store q e a))
          (strcmp_refl name))
    | inr (inl m) ↦ absurd m
    | inr (inr m) ↦ absurd (cc m)
  ]

  some-Finds :
      (r : Element) → lookup cmp (named name) (to_list c.daemons) ≡ some r → Finds c name (some r)
  unfolding daemons_compare name_of
  some-Finds r n =
      let (m, q) = lookup-Among cmp (named name) r (to_list c.daemons) n in
      let k = All-Among (IsKnown c.system.store names) r (to_list c.daemons) h.elements m in
      subst (λ x. Finds c name (some x)) (sym k.is_at)
        (is_found k.address_of k.daemon k.allocated (
          sym (
            strcmp-eq _ _ q
            ∙ ap (name_of c.system.store) k.is_at
            ∙ name_of-stored c.system.store k.address_of k.daemon k.allocated)))

  -- On a storage that is well kept, configuration_find returns an allocated daemon that has the
  -- name, or null if no allocated daemon has it.
  pub configuration_find-Finds : Finds c name (configuration_find c name)
  unfolding configuration_find
  configuration_find-Finds =
      let e = tree_find-lookup (tree_of c.system c.daemons) (named name) (record {
        lawful = daemons_compare-IsLawful c.system.store;
        balanced = h.balanced;
        sorted = h.sorted;
      }) in
      subst (Finds c name) (sym e)
        (elim (Option-cases (lookup cmp (named name) (to_list c.daemons))) [
          | inl n ↦ subst (Finds c name) (sym n) (none-Finds n)
          | inr (r, n) ↦ subst (Finds c name) (sym n) (some-Finds r n)
        ])
