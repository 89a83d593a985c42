-- ===== src/Daemons/Winddown.antt =====
-- spawns_stop of src/cyberd/spawns.c.
use cyberd.Base.{
  ℕ, true, false, some, List, [], ◌∷◌, ◌==◌, ◌≡◌, refl, sym, ap, ◌∙◌, subst, All, All-imp, Returns,
  returns, Returns-imp, Outcome, ok, ◌>>=◌,
}
use cyberd.DaemonConf.{no_flags}
use cyberd.Tree.Sequence.{to_list}
use cyberd.Tree.Traversal.{tree_mutate_once, preorder, run_over, All-preorder, All-inorder}
use cyberd.Daemons.{
  stopping, Daemon, Ref, at, key, System, put, spawns_tree, spawns_stop_element, spawns_stop,
}
use cyberd.Daemons.Pids.{lookup_All}
use cyberd.Daemons.Consistent.{is_spawned, Runs, ==-refl, write-same, write-other}
use cyberd.Daemons.Spawning.{Consistent}
use cyberd.Daemons.Lifecycle.{
  left_alone, fetch-ok, Stops, signalled, update-IsConsistent, daemon_stop-Stops,
}
use cyberd.Daemons.Stopping.{
  forks, QuietAt, Quiet, Winds, Winds-refl, Winds-trans, quieted-QuietAt, quieted-Winds, unflagged,
  forks-killed, spawned_not_started,
}

-- spawns_stop_element on the daemon at `p`.
module _ (s : System) (p : ℕ) (d : Daemon) (a : s.store p ≡ some d)
    (w : is_spawned d.state ≡ true) where
  abbrev flagless : System
  flagless = put s p (unflagged d)

  abbrev Wound : System → Type 0
  Wound t = Winds s t × QuietAt t.store (at p)

  quieted-Wound :
      (t : System) (e : Daemon)
      → t.store p ≡ some e
      → is_spawned e.state ≡ true
      → ((q : ℕ) → (q == p) ≡ false → t.store q ≡ s.store q)
      → (e.state ≡ stopping) × (e.conf.start ≡ no_flags)
      → forks t.trace ≡ forks s.trace
      → Wound t
  quieted-Wound t e b v others quiet f = (
    quieted-Winds s t p d e a w b v others quiet f,
    quieted-QuietAt s t p d e a w b v others quiet (at p) p refl (==-refl p),
  )

  Stops-Wound : (t : System) → Stops flagless p (unflagged d) t → Wound t
  Stops-Wound t (signalled h g) =
      quieted-Wound t (record (unflagged d) { state = stopping }) g.1 refl
        (λ q o. g.2 q o ∙ write-other s.store p q (some (unflagged d)) o) (refl, refl)
        (ap forks g.3 ∙ forks-killed s.trace _ _)
  Stops-Wound t (left_alone n q) = subst Wound (sym q) (
      quieted-Wound flagless (unflagged d) (write-same s.store p (some (unflagged d))) w
        (λ m o. write-other s.store p m (some (unflagged d)) o)
        (spawned_not_started d.state w n, refl) refl)

  stop_element-Wound :
      Consistent s → Returns (λ t. Consistent t × Wound t) (spawns_stop_element (at p) s)
  unfolding spawns_stop_element
  stop_element-Wound c = subst (Returns _) (sym (rw (fetch-ok s p d a) refl)) (
      Returns-imp
        (daemon_stop-Stops flagless p (unflagged d)
          (update-IsConsistent s.store p d (unflagged d) a refl refl s.spawns c)
          (write-same s.store p (some (unflagged d))))
        λ t g. (g.0, Stops-Wound t g.1))

element-Wound :
    (s : System) (r : Ref)
    → Consistent s
    → Runs s.store r
    → Returns (λ t. Consistent t × Winds s t × QuietAt t.store r) (spawns_stop_element r s)
element-Wound s r c h =
    subst
      (λ x. Returns (λ t. Consistent t × Winds s t × QuietAt t.store x) (spawns_stop_element x s))
      (sym h.is_at)
      (Returns-imp (stop_element-Wound s h.address_of h.daemon h.allocated h.spawned c)
        λ t g. (g.0, g.1.0, g.1.1))

elements-Wound :
    (xs : List Ref) (s : System) (m : Outcome System)
    → m ≡ ok s
    → Consistent s
    → All (Runs s.store) xs
    → Returns
        (λ t. Consistent t × Winds s t × All (QuietAt t.store) xs)
        (run_over (λ r n. n >>= spawns_stop_element r) xs m)
elements-Wound [] s m e c h = returns s e (c, Winds-refl s, tt)
elements-Wound (x ∷ xs) s m e c h = elim (element-Wound s x c h.0) [
  | returns t q g ↦
      Returns-imp
        (elements-Wound xs t (m >>= spawns_stop_element x) (rw e q) g.0
          (All-imp _ _ (λ r a. g.1.keeps r a) xs h.1))
        λ u k. (k.0, Winds-trans s t u g.1 k.1, (k.1.stays x g.2, k.2))
]

-- spawns_stop never faults and keeps the invariant: the daemons that had a process still have it and
-- no other has; each of them is stopping and has no flag that starts it again; nothing is forked.
pub spawns_stop-Quiet :
    (s : System)
    → Consistent s
    → Returns (λ t. Consistent t × Winds s t × Quiet t.store) (spawns_stop s)
unfolding spawns_stop
spawns_stop-Quiet s c =
    let (e, _) = tree_mutate_once (spawns_tree s) (λ r m. m >>= spawns_stop_element r) (ok s) in
    rw e (
      Returns-imp
        (elements-Wound (preorder s.spawns) s (ok s) refl c
          (All-preorder (Runs s.store) s.spawns c.running))
        λ t g.
          let quiet = All-inorder (QuietAt t.store) s.spawns g.2 in
          (
            g.0,
            g.1,
            λ r p d i a w.
                let h =
                  g.1.gains r (record {
                    address_of = p;
                    daemon = d;
                    is_at = i;
                    allocated = a;
                    spawned = w;
                  }) in
                lookup_All s.store (QuietAt t.store) (key h.daemon.pid) (at h.address_of)
                  (to_list s.spawns) (c.recorded h.address_of h.daemon h.allocated h.spawned) quiet
                  p d (sym h.is_at ∙ i) a w,
          ))
