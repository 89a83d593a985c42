-- ===== src/Daemons/Lifecycle.antt =====
-- The operations of src/cyberd/daemon.c that start no process, on the invariant of spawns.
use cyberd.Base.{
  ℕ, ◌++◌, Bool, true, false, some, List, [], ◌∷◌, ◌==◌, ◌⊎◌, ◌≡◌, ◌≢◌, refl, sym, ap, ◌∙◌, inl,
  inr, All-imp, Bool-cases, some_inj, Returns, returns, ok,
}
use cyberd.Tree.{Node}
use cyberd.Tree.Sequence.{to_list, lookup}
use cyberd.DaemonConf.{sigkill}
use cyberd.Daemons.{
  DaemonState, started, stopped, stopping, Daemon, Ref, at, key, System, Effect, killed, write, put,
  emit, fetch, pid_of, spawns_compare, daemon_stop, daemon_reload, daemon_end,
}
use cyberd.Daemons.Pids.{agree-IsSorted, agree-lookup, Agrees}
use cyberd.Daemons.Consistent.{
  is_spawned, is_started, Store, Runs, IsConsistent, write-same, write-other, pid_of-key,
}
use cyberd.Daemons.Spawning.{Consistent, same-==}

pub fetch-ok : (s : System) (p : ℕ) (d : Daemon) → s.store p ≡ some d → fetch s p ≡ ok d
unfolding fetch
fetch-ok s p d a = rw (a, fetch) refl

-- A write that keeps the pid, and whether there is a process, keeps the invariant.
module _ (store : Store) (p : ℕ) (d e : Daemon) (a : store p ≡ some d) (same_pid : e.pid ≡ d.pid)
    (same_state : is_spawned e.state ≡ is_spawned d.state) where
  update-pid_of : (r : Ref) → pid_of (write store p (some e)) r ≡ pid_of store r
  unfolding pid_of
  update-pid_of (key n) = refl
  update-pid_of (at q) = elim (Bool-cases (q == p)) [
    | inl n ↦ let same = same-== q p n in rw (n, same, a) same_pid
    | inr n ↦ rw n refl
  ]

  update-Agrees : (xs : List Ref) → Agrees store (write store p (some e)) xs
  update-Agrees [] = tt
  update-Agrees (x ∷ xs) = (update-pid_of x, update-Agrees xs)

  written : (q : ℕ) → (q == p) ≡ true → write store p (some e) q ≡ some e
  written q n = rw n refl

  update-Runs : (r : Ref) → Runs store r → Runs (write store p (some e)) r
  update-Runs r h = elim (Bool-cases (h.address_of == p)) [
    | inl n ↦
        let same : h.daemon ≡ d =
          some_inj (sym (h.allocated) ∙ ap store (same-== h.address_of p n) ∙ a) in
        record {
          address_of = h.address_of;
          daemon = e;
          is_at = h.is_at;
          allocated = rw n refl;
          spawned = same_state ∙ sym (ap (λ x. is_spawned x.state) same) ∙ h.spawned;
        }
    | inr n ↦ record {
      address_of = h.address_of;
      daemon = h.daemon;
      is_at = h.is_at;
      allocated = write-other store p h.address_of (some e) n ∙ h.allocated;
      spawned = h.spawned;
    }
  ]

  update_lookup :
      (root : Node Ref) (q : ℕ) (x : Daemon)
      → IsConsistent store root
      → write store p (some e) q ≡ some x
      → is_spawned x.state ≡ true
      → lookup (spawns_compare store) (key x.pid) (to_list root) ≡ some (at q)
  update_lookup root q x c b r = elim (Bool-cases (q == p)) [
    | inl n ↦
        let was : e ≡ x = some_inj (sym (written q n) ∙ b) in
        let same = same-== q p n in
        ap (λ n. lookup (spawns_compare store) (key n) (to_list root))
          (ap (λ y. y.pid) (sym was) ∙ same_pid)
        ∙ c.recorded p d a (sym same_state ∙ ap (λ y. is_spawned y.state) was ∙ r)
        ∙ ap (λ m. some (at m)) (sym same)
    | inr n ↦ c.recorded q x (sym (write-other store p q (some e) n) ∙ b) r
  ]

  pub update-IsConsistent :
      (root : Node Ref) → IsConsistent store root → IsConsistent (write store p (some e)) root
  update-IsConsistent root c =
      let agrees = update-Agrees (to_list root) in
      record {
        balanced = c.balanced;
        sorted = agree-IsSorted store (write store p (some e)) _ agrees c.sorted;
        running = All-imp _ _ update-Runs (to_list root) c.running;
        recorded = λ q x b r.
            agree-lookup store (write store p (some e)) (key x.pid) _
              (pid_of-key (write store p (some e)) x.pid ∙ sym (pid_of-key store x.pid)) agrees
            ∙ update_lookup root q x c b r;
      }

-- What an operation on the daemon at `p` leaves: the invariant, a daemon there, the other daemons as
-- they were, and the trace with `asked` at its end.
abbrev pub Leaves : System → ℕ → Daemon → List Effect → System → Type 0
Leaves s p e asked t =
    Consistent t
    × (t.store p ≡ some e)
    × ((q : ℕ) → (q == p) ≡ false → t.store q ≡ s.store q)
    × (t.trace ≡ s.trace ++ asked)

pub state-cases : (x : DaemonState) → (x ≡ started) ⊎ (x ≡ stopped) ⊎ (x ≡ stopping)
state-cases started = inl refl
state-cases stopped = inr (inl refl)
state-cases stopping = inr (inr refl)

pub data Stops (s : System) (p : ℕ) (d : Daemon) (t : System) : Type 0 where
  signalled :
      d.state ≡ started
      → Leaves s p (record d { state = stopping }) (killed d.pid d.conf.sigfinish ∷ []) t
      → Stops s p d t
  left_alone : d.state ≢ started → t ≡ s → Stops s p d t

-- daemon_stop never faults and keeps the invariant: it sends the finish signal to the process of a
-- started daemon, which is stopping then, and leaves everything as it is for any other daemon.
pub daemon_stop-Stops :
    (s : System) (p : ℕ) (d : Daemon)
    → Consistent s
    → s.store p ≡ some d
    → Returns (λ t. Consistent t × Stops s p d t) (daemon_stop s p)
unfolding daemon_stop
daemon_stop-Stops s p d c a = elim (state-cases d.state) [
  | inl h ↦
      let e : Daemon = record d { state = stopping } in
      let g = update-IsConsistent s.store p d e a refl (ap is_spawned (sym h)) s.spawns c in
      returns (put (emit s (killed d.pid d.conf.sigfinish)) p e) (rw (fetch-ok s p d a, h) refl) (
        g,
        signalled h
            (g, write-same s.store p (some e), (λ q o. write-other s.store p q (some e) o), refl),
      )
  | inr (inl h) ↦ rw (fetch-ok s p d a, h) (returns s refl (c, left_alone (λ o. cc) refl))
  | inr (inr h) ↦ rw (fetch-ok s p d a, h) (returns s refl (c, left_alone (λ o. cc) refl))
]

-- The signals of daemon_reload and daemon_end, which change no daemon.
pub data Signals (b : Bool) (s : System) (sent : Effect) (t : System) : Type 0 where
  signalled : b ≡ true → t ≡ emit s sent → Signals b s sent t
  left_alone : b ≡ false → t ≡ s → Signals b s sent t

-- daemon_reload never faults and keeps the invariant: it sends the reload signal to the process of a
-- started daemon only, and changes nothing else.
pub daemon_reload-Signals :
    (s : System) (p : ℕ) (d : Daemon)
    → Consistent s
    → s.store p ≡ some d
    → Returns
        (λ t. Consistent t × Signals (is_started d.state) s (killed d.pid d.conf.sigreload) t)
        (daemon_reload s p)
unfolding daemon_reload
daemon_reload-Signals s p d c a = elim (state-cases d.state) [
  | inl h ↦ rw (fetch-ok s p d a, h) (returns _ refl (c, signalled refl refl))
  | inr (inl h) ↦ rw (fetch-ok s p d a, h) (returns s refl (c, left_alone refl refl))
  | inr (inr h) ↦ rw (fetch-ok s p d a, h) (returns s refl (c, left_alone refl refl))
]

-- daemon_end never faults and keeps the invariant: it sends SIGKILL to the process of a daemon that
-- is not stopped, and changes nothing else.
pub daemon_end-Signals :
    (s : System) (p : ℕ) (d : Daemon)
    → Consistent s
    → s.store p ≡ some d
    → Returns
        (λ t. Consistent t × Signals (is_spawned d.state) s (killed d.pid sigkill) t)
        (daemon_end s p)
unfolding daemon_end
daemon_end-Signals s p d c a = elim (state-cases d.state) [
  | inl h ↦ rw (fetch-ok s p d a, h) (returns _ refl (c, signalled refl refl))
  | inr (inl h) ↦ rw (fetch-ok s p d a, h) (returns s refl (c, left_alone refl refl))
  | inr (inr h) ↦ rw (fetch-ok s p d a, h) (returns _ refl (c, signalled refl refl))
]
