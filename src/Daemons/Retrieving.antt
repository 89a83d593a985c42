-- ===== src/Daemons/Retrieving.antt =====
-- spawns_retrieve of src/cyberd/spawns.c on the invariant of spawns.
use cyberd.Base.{
  ℕ, true, false, Option, none, some, ◌==◌, ◌≡◌, ◌≢◌, refl, sym, ap, ◌∙◌, subst, inl, inr, All-imp,
  All-both, Option-cases, Bool-cases, some_inj, Returns, returns, Returns->>=, Returns-imp,
}
use cyberd.Tree.Sequence.{IsSorted, to_list, lookup, erase-All}
use cyberd.Tree.Remove.{tree_remove-IsValid}
use cyberd.Daemons.{
  Daemon, Ref, at, key, System, spawns_tree, pid_of, spawns_compare, spawns_retrieve,
}
use cyberd.Daemons.Pids.{
  spawns_compare-IsLawful, erase_absent, lookup_pid, lookup_All, lookup-erase_other, erase-distinct,
}
use cyberd.Daemons.Consistent.{is_spawned, RunsApart, IsApart, Runs, ==-refl, pid_of-at, pid_of-key}
use cyberd.Daemons.Spawning.{Consistent, spawns_tree-IsValid, same-==, at_inj}

-- What spawns_retrieve of the pid of a spawned daemon leaves.
abbrev pub Retrieved : System → ℕ → System × Option Ref → Type 0
Retrieved s p r =
    (r.0.store ≡ s.store)
    × (r.0.trace ≡ s.trace)
    × (r.1 ≡ some (at p))
    × IsApart r.0.store p r.0.spawns

module _ (s : System) (c : Consistent s) where
  -- What is left after the removal of the pid of the daemon at `p`.
  erased_apart :
      (p : ℕ) (d : Daemon) (r : Ref)
      → s.store p ≡ some d
      → pid_of s.store r ≢ d.pid
      → Runs s.store r
      → RunsApart s.store p r
  erased_apart p d r a n h = record {
    address_of = h.address_of;
    daemon = h.daemon;
    is_at = h.is_at;
    allocated = h.allocated;
    spawned = h.spawned;
    apart = elim (Bool-cases (h.address_of == p)) [
      | inl e ↦ absurd (
          n (
            ap (pid_of s.store) (h.is_at ∙ ap at (same-== h.address_of p e))
            ∙ pid_of-at s.store p d a))
      | inr e ↦ e
    ];
  }

  -- No two daemons with a process have the same pid.
  pub distinct_pids :
      (p q : ℕ) (d e : Daemon)
      → s.store p ≡ some d
      → is_spawned d.state ≡ true
      → s.store q ≡ some e
      → is_spawned e.state ≡ true
      → (q == p) ≡ false
      → e.pid ≢ d.pid
  distinct_pids p q d e a r b w n h =
      let same = at_inj (
        some_inj (
          sym (c.recorded q e b w)
          ∙ ap (λ n. lookup (spawns_compare s.store) (key n) (to_list s.spawns)) h
          ∙ c.recorded p d a r)) in
      absurd (cc (n, ap (λ m. m == p) same, ==-refl p))

  -- spawns_retrieve takes the daemon with that pid out of the tree, and nothing else.
  pub spawns_retrieve-Retrieved :
      (p : ℕ) (d : Daemon)
      → s.store p ≡ some d
      → is_spawned d.state ≡ true
      → Returns (Retrieved s p) (spawns_retrieve s d.pid)
  unfolding spawns_retrieve pid_of
  spawns_retrieve-Retrieved p d a r =
      let cmp = spawns_compare s.store in
      Returns->>=
        (tree_remove-IsValid (spawns_tree s) (key d.pid)
          (spawns_tree-IsValid s c.balanced c.sorted))
        λ t _ g.
          returns (record s { spawns = t.0.root }, t.1) refl
            (
              refl,
              refl,
              g.3 ∙ c.recorded p d a r,
              record {
                balanced = g.0.balanced;
                sorted = subst (λ order. IsSorted order (to_list t.0.root)) g.1 (g.0.sorted);
                running = rw g.2 (
                    All-imp _ _ (λ x h. erased_apart p d x a h.1 h.0) _
                      (All-both _ _ _
                        (erase-All cmp (spawns_compare-IsLawful s.store) (Runs s.store) (key d.pid)
                          _ c.running)
                        (erase-distinct s.store (key d.pid) _ c.sorted)));
                recorded = λ q e n b w. rw g.2 (
                    lookup-erase_other s.store (key e.pid) (key d.pid) _
                      (λ h. distinct_pids p q d e a r b w n h)
                    ∙ c.recorded q e b w);
              },
            )

  -- What spawns_retrieve of any pid returns.
  pub data Retrieval (pid : ℕ) (r : System × Option Ref) : Type 0 where
    unknown :
        (r.0.store ≡ s.store)
        → (r.0.trace ≡ s.trace)
        → (r.1 ≡ none)
        → Consistent r.0
        → ((q : ℕ) (e : Daemon) → s.store q ≡ some e → is_spawned e.state ≡ true → e.pid ≢ pid)
        → Retrieval pid r
    known :
        (p : ℕ) (d : Daemon)
        → s.store p ≡ some d
        → is_spawned d.state ≡ true
        → d.pid ≡ pid
        → Retrieved s p r
        → Retrieval pid r

  spawns_retrieve_unknown :
      (pid : ℕ)
      → lookup (spawns_compare s.store) (key pid) (to_list s.spawns) ≡ none
      → Returns (Retrieval pid) (spawns_retrieve s pid)
  unfolding spawns_retrieve pid_of
  spawns_retrieve_unknown pid n =
      Returns->>=
        (tree_remove-IsValid (spawns_tree s) (key pid) (spawns_tree-IsValid s c.balanced c.sorted))
        λ t _ g.
          let same : to_list t.0.root ≡ to_list s.spawns =
            g.2 ∙ erase_absent s.store (key pid) _ n in
          returns (record s { spawns = t.0.root }, t.1) refl
            (unknown refl refl (g.3 ∙ n)
              (record {
                balanced = g.0.balanced;
                sorted = rw same (c.sorted);
                running = rw same (c.running);
                recorded = rw same (c.recorded);
              })
              (λ q e a w h. cc (
                c.recorded q e a w,
                ap (λ m. lookup (spawns_compare s.store) (key m) (to_list s.spawns)) h,
                n,
              )))

  pub spawns_retrieve-Retrieval : (pid : ℕ) → Returns (Retrieval pid) (spawns_retrieve s pid)
  spawns_retrieve-Retrieval pid =
      let cmp = spawns_compare s.store in
      elim (Option-cases (lookup cmp (key pid) (to_list s.spawns))) [
        | inl n ↦ spawns_retrieve_unknown pid n
        | inr (r, f) ↦
            let h = lookup_All s.store (Runs s.store) (key pid) r _ f c.running in
            let same : h.daemon.pid ≡ pid =
              sym (pid_of-at s.store h.address_of h.daemon h.allocated)
              ∙ sym (ap (pid_of s.store) h.is_at)
              ∙ lookup_pid s.store (key pid) r _ f
              ∙ pid_of-key s.store pid in
            subst (λ n. Returns (Retrieval pid) (spawns_retrieve s n)) same
              (Returns-imp (spawns_retrieve-Retrieved h.address_of h.daemon h.allocated h.spawned)
                λ t g. known h.address_of h.daemon h.allocated h.spawned same g)
      ]
