-- ===== src/Daemons/Recording.antt =====
-- spawns_record of src/cyberd/spawns.c on the invariant of spawns.
use cyberd.Base.{
  ℕ, true, false, none, some, ◌==◌, ◌≡◌, ◌≢◌, refl, sym, ap, ◌∙◌, subst, inl, inr, All-imp,
  Bool-cases, Returns, returns, Returns->>=,
}
use cyberd.Tree.Sequence.{IsSorted, to_list, lookup, insert_sorted, insert_sorted-All}
use cyberd.Tree.Insert.{tree_insert-IsValid}
use cyberd.Daemons.{
  Daemon, Ref, at, key, System, spawns_tree, pid_of, spawns_compare, spawns_record,
}
use cyberd.Daemons.Pids.{
  spawns_compare-IsLawful, lookup_fresh, lookup_same, lookup-insert_sorted,
  lookup-insert_sorted_other,
}
use cyberd.Daemons.Consistent.{is_spawned, RunsApart, IsApart, Runs, pid_of-at, pid_of-key}
use cyberd.Daemons.Spawning.{Consistent, spawns_tree-IsValid, same-==}

-- What spawns_record leaves.
abbrev pub Recorded : System → System → Type 0
Recorded s t = (t.store ≡ s.store) × (t.trace ≡ s.trace) × Consistent t

-- A daemon with a process whose pid is no other's can be recorded.
module _ (s : System) (p : ℕ) (d : Daemon) (c : IsApart s.store p s.spawns) (a : s.store p ≡ some d)
    (w : is_spawned d.state ≡ true)
    (f : (q : ℕ) (e : Daemon)
      → (q == p) ≡ false
      → s.store q ≡ some e
      → is_spawned e.state ≡ true
      → e.pid ≢ d.pid) where
  others_fresh : (r : Ref) → RunsApart s.store p r → pid_of s.store r ≢ pid_of s.store (at p)
  others_fresh r h q = f h.address_of h.daemon h.apart h.allocated h.spawned (
      sym (ap (pid_of s.store) h.is_at ∙ pid_of-at s.store h.address_of h.daemon h.allocated)
      ∙ q
      ∙ pid_of-at s.store p d a)

  absent : lookup (spawns_compare s.store) (at p) (to_list s.spawns) ≡ none
  absent = lookup_fresh s.store (at p) _ (All-imp _ _ others_fresh (to_list s.spawns) c.running)

  recorded_lookup :
      (q : ℕ) (e : Daemon)
      → s.store q ≡ some e
      → is_spawned e.state ≡ true
      → lookup
          (spawns_compare s.store)
          (key e.pid)
          (insert_sorted (spawns_compare s.store) (at p) (to_list s.spawns))
        ≡ some (at q)
  recorded_lookup q e b r = elim (Bool-cases (q == p)) [
    | inl n ↦
        let same = same-== q p n in
        lookup_same s.store (key e.pid) (at p) _ (
          pid_of-key s.store e.pid
          ∙ sym (pid_of-at s.store q e b)
          ∙ ap (λ m. pid_of s.store (at m)) same)
        ∙ lookup-insert_sorted s.store (at p) _ absent
        ∙ ap (λ m. some (at m)) (sym same)
    | inr n ↦
        lookup-insert_sorted_other s.store (key e.pid) (at p) _
          (λ h. f q e n b r (sym (pid_of-key s.store e.pid) ∙ h ∙ pid_of-at s.store p d a))
        ∙ c.recorded q e n b r
  ]

  pub spawns_record-Recorded : Returns (Recorded s) (spawns_record s p)
  unfolding spawns_record
  spawns_record-Recorded =
      Returns->>=
        (tree_insert-IsValid (spawns_tree s) (at p) (spawns_tree-IsValid s c.balanced c.sorted)
          absent)
        λ t _ g.
          returns (record s { spawns = t.root }) refl
            (
              refl,
              refl,
              record {
                balanced = g.0.balanced;
                sorted = subst (λ order. IsSorted order (to_list t.root)) g.1 (g.0.sorted);
                running = rw g.2 (
                    insert_sorted-All (spawns_compare s.store) (spawns_compare-IsLawful s.store)
                      (Runs s.store) (at p) _
                      (record {
                        address_of = p;
                        daemon = d;
                        is_at = refl;
                        allocated = a;
                        spawned = w;
                      })
                      (All-imp (RunsApart s.store p) (Runs s.store)
                        (λ r h. record {
                          address_of = h.address_of;
                          daemon = h.daemon;
                          is_at = h.is_at;
                          allocated = h.allocated;
                          spawned = h.spawned;
                        })
                        _ c.running));
                recorded = λ q e b r. rw g.2 (recorded_lookup q e b r);
              },
            )
