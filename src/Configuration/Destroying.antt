-- ===== src/Configuration/Destroying.antt =====
-- The end of configuration_reload of src/cyberd/configuration.c, which frees the daemons without a file.
use cyberd.Base.{
  ℕ, true, false, none, some, List, [], ◌∷◌, ◌==◌, ◌≡◌, refl, sym, ap, ◌∙◌, subst, All-Among,
  Among-All, Among, inl, inr, Bool-cases, Returns, returns, Outcome, ok, ◌>>=◌, arith, Distinct,
}
use cyberd.Tree.{Node}
use cyberd.Tree.Sequence.{to_list}
use cyberd.Tree.Traversal.{preorder, run_over, tree_mutate_once}
use cyberd.Tree.Members.{Among-preorder, preorder-Among, preorder-Distinct}
use cyberd.DaemonConf.Values.{Host}
use cyberd.Daemons.{Daemon, System}
use cyberd.Daemons.Spawning.{same-==}
use cyberd.Daemons.Destruction.{Destroyed, daemon_destroy-Destroyed}
use cyberd.Configuration.{
  Element, stored, named, Config, daemons_compare, name_of, daemons_destroy_element,
  destroy_daemons, tree_of,
}
use cyberd.Configuration.Names.{daemons_compare-IsLawful}
use cyberd.Configuration.Held.{IsKnown, IsStored, Held, same_names-IsSorted}
use cyberd.Configuration.Moving.{stored_inj, absent_elsewhere}
use cyberd.Configuration.Removing.{IsOld}

-- The first of the other daemons freed.
module _ (host : Host) (names : List (List ℕ)) (p : ℕ) (xs : List Element) (c : Config)
    (h : Held host names (stored p ∷ xs) none c) (once : Among (stored p) xs → ⊥) (t : System)
    (g : Destroyed c.system p t) where
  kept_at : (q : ℕ) → (q == p) ≡ false → t.store q ≡ c.system.store q
  kept_at = g.2

  still_allocated :
      (q : ℕ) (e : Daemon) → t.store q ≡ some e → ((q == p) ≡ false) × (c.system.store q ≡ some e)
  still_allocated q e a = elim (Bool-cases (q == p)) [
    | inl n ↦ absurd (cc (a, ap t.store (same-== q p n), g.1))
    | inr n ↦ (n, sym (kept_at q n) ∙ a)
  ]

  -- An element of a list without `stored p` is at another address.
  away :
      (ys : List Element)
      → (Among (stored p) ys → ⊥)
      → (r : Element) (q : ℕ) → r ≡ stored q
      → Among r ys
      → (q == p) ≡ false
  away ys f r q i m = absent_elsewhere p q ys f (subst (λ x. Among x ys) i m)

  not_in_tree : Among (stored p) (to_list c.daemons) → ⊥
  not_in_tree m = h.apart (stored p) m (inl refl)

  freed-name_of :
      (r : Element) → Among r (to_list c.daemons) → name_of t.store r ≡ name_of c.system.store r
  unfolding name_of
  freed-name_of r m =
      let k = All-Among (IsKnown c.system.store names) r (to_list c.daemons) h.elements m in
      let same =
        kept_at k.address_of (away (to_list c.daemons) not_in_tree r k.address_of k.is_at m) in
      rw (k.is_at, same) refl

  freed-Held : Held host names xs none (record c { system = t })
  freed-Held = record {
    consistent = g.0;
    configured = λ q e a. h.configured q e (still_allocated q e a).1;
    balanced = h.balanced;
    sorted = same_names-IsSorted c.system.store t.store (to_list c.daemons) freed-name_of h.sorted;
    elements = Among-All (IsKnown t.store names) (to_list c.daemons) (λ r m.
        let k = All-Among (IsKnown c.system.store names) r (to_list c.daemons) h.elements m in
        record {
          address_of = k.address_of;
          daemon = k.daemon;
          is_at = k.is_at;
          allocated =
              kept_at k.address_of (away (to_list c.daemons) not_in_tree r k.address_of k.is_at m)
              ∙ k.allocated;
          known = k.known;
        });
    waiting = Among-All (IsStored t.store) xs (λ r m.
        let k = All-Among (IsStored c.system.store) r xs h.waiting.1 m in
        record {
          address_of = k.address_of;
          daemon = k.daemon;
          is_at = k.is_at;
          allocated = kept_at k.address_of (away xs once r k.address_of k.is_at m) ∙ k.allocated;
        });
    covered = λ q e a.
        let (n, b) = still_allocated q e a in
        elim (h.covered q e b) [
          | inl m ↦ inl m
          | inr (inl (inl i)) ↦ absurd (cc (n, ap (λ k. k == p) (stored_inj i), p_same))
          | inr (inl (inr m)) ↦ inr (inl m)
          | inr (inr m) ↦ absurd (cc m)
        ];
    apart = λ r m n. h.apart r m (inr n);
    hand_apart = λ q i. absurd (cc i);
  }
    where
      p_same : (p == p) ≡ true
      p_same = ground arith

destroy_all-Held :
    (host : Host) (names : List (List ℕ)) (xs : List Element) (c : Config) (m : Outcome System)
    → m ≡ ok c.system
    → Held host names xs none c
    → Distinct xs
    → Returns
        (λ s. Held host names [] none (record c { system = s }))
        (run_over (λ r n. n >>= daemons_destroy_element r) xs m)
unfolding daemons_destroy_element
destroy_all-Held host names [] c m e h d = returns c.system e h
destroy_all-Held host names (named n ∷ xs) c m e h d = absurd (cc (h.waiting.0.is_at))
destroy_all-Held host names (stored p ∷ xs) c m e h d =
    let k = h.waiting.0 in
    let there : c.system.store p ≡ some k.daemon =
      ap c.system.store (stored_inj k.is_at) ∙ k.allocated in
    elim (daemon_destroy-Destroyed c.system p k.daemon h.consistent there) [
      | returns t q g ↦
          destroy_all-Held host names xs (record c { system = t }) _ (rw e q)
            (freed-Held host names p xs c h d.0 t g) d.1
    ]

-- Others in another order.
reordered-Held :
    (host : Host) (names : List (List ℕ)) (xs ys : List Element) (c : Config)
    → ((r : Element) → Among r xs → Among r ys)
    → ((r : Element) → Among r ys → Among r xs)
    → Held host names xs none c
    → Held host names ys none c
reordered-Held host names xs ys c f b h = record {
  consistent = h.consistent;
  configured = h.configured;
  balanced = h.balanced;
  sorted = h.sorted;
  elements = h.elements;
  waiting =
      Among-All (IsStored c.system.store) ys
        (λ r m. All-Among (IsStored c.system.store) r xs h.waiting (b r m));
  covered = λ q e a. elim (h.covered q e a) [
    | inl m ↦ inl m
    | inr (inl m) ↦ inr (inl (f (stored q) m))
    | inr (inr m) ↦ inr (inr m)
  ];
  apart = λ r m n. h.apart r m (b r n);
  hand_apart = λ q i. absurd (cc i);
}

pub destroy_daemons-Held :
    (host : Host) (names : List (List ℕ)) (c : Config) (old : Node Element)
    → Held host names (to_list old) none c
    → IsOld c.system.store old
    → Returns
        (λ s. Held host names [] none (record c { system = s }))
        (destroy_daemons c.system old)
unfolding destroy_daemons
destroy_daemons-Held host names c old h o =
    let (e, _) =
      tree_mutate_once (tree_of c.system old) (λ r m. m >>= daemons_destroy_element r)
        (ok c.system) in
    rw e (
      destroy_all-Held host names (preorder old) c (ok c.system) refl
        (reordered-Held host names (to_list old) (preorder old) c (λ r. Among-preorder r old)
          (λ r. preorder-Among r old) h)
        (preorder-Distinct (daemons_compare c.system.store)
          (daemons_compare-IsLawful c.system.store) old o.sorted))
