-- ===== src/Daemons/Starting.antt =====
-- daemon_start of src/cyberd/daemon.c on the invariant of spawns.
use cyberd.Base.{
  ℕ, Bool, true, Option, none, some, [], ◌∷◌, ◌≡◌, ◌≢◌, refl, sym, ap, ◌∙◌, subst, inl, inr,
  some_inj, Returns, returns, Returns->>=, ok, ◌>>=◌,
}
use cyberd.Daemons.{started, stopped, Daemon, System, forked, put, emit, daemon_spawn, daemon_start}
use cyberd.Daemons.Consistent.{is_spawned, Store, Fresh, write-same, write-other, write-IsApart}
use cyberd.Daemons.Spawning.{Consistent, idle-IsApart}
use cyberd.Daemons.Recording.{spawns_record-Recorded}
use cyberd.Daemons.Lifecycle.{fetch-ok, Leaves, state-cases}

-- What daemon_start does with the answer of fork(2).
pub data Starts (s : System) (p : ℕ) (d : Daemon) : Option ℕ → System → Type 0 where
  spawned :
      {t : System} (pid : ℕ)
      → d.state ≡ stopped
      → Leaves s p (record d { pid = pid; state = started }) (forked p pid ∷ []) t
      → Starts s p d (some pid) t
  fork_failed : {t : System} → d.state ≡ stopped → t ≡ s → Starts s p d none t
  has_process : {f : Option ℕ} {t : System} → d.state ≢ stopped → t ≡ s → Starts s p d f t

-- fork(2) gives the pid of no process that a daemon still has.
abbrev pub ForkFresh : Store → Option ℕ → Type 0
ForkFresh store none = Unit
ForkFresh store (some pid) = Fresh store pid

spawn-Leaves :
    (s : System) (p : ℕ) (d : Daemon) (pid : ℕ)
    → Consistent s
    → s.store p ≡ some d
    → d.state ≡ stopped
    → Fresh s.store pid
    → Returns
        (λ (r : System × Bool).
          Leaves s p (record d { pid = pid; state = started }) (forked p pid ∷ []) r.0)
        (daemon_spawn s p (some pid))
unfolding daemon_spawn
spawn-Leaves s p d pid c a h f =
    let e : Daemon = record d { pid = pid; state = started } in
    let s' = emit (put s p e) (forked p pid) in
    let idle =
      idle-IsApart s.store p
        (λ x b. sym (ap (λ y. is_spawned y.state) (some_inj (sym a ∙ b))) ∙ ap is_spawned h)
        s.spawns c in
    rw (fetch-ok s p d a) (
      Returns->>=
        (spawns_record-Recorded s' p e (write-IsApart s.store p (some e) s.spawns idle)
          (write-same s.store p (some e)) refl
          (λ q x o b w n. f q x (sym (write-other s.store p q (some e) o) ∙ b) w n))
        λ t _ g.
          returns (t, true) refl
            (
              g.2,
              ap (λ m. m p) g.0 ∙ write-same s.store p (some e),
              (λ q o. ap (λ m. m q) g.0 ∙ write-other s.store p q (some e) o),
              g.1,
            ))

start_stopped :
    (s : System) (p : ℕ) (d : Daemon) (fork : Option ℕ)
    → s.store p ≡ some d
    → d.state ≡ stopped
    → daemon_start s p fork ≡ (daemon_spawn s p fork >>= λ r. ok r.0)
unfolding daemon_start
start_stopped s p d fork a h = rw (fetch-ok s p d a, h) refl

-- daemon_start never faults and keeps the invariant, provided that fork(2) gives a pid that no daemon's
-- process has: only a stopped daemon gets a process, which is recorded with its pid, and nothing
-- changes if fork(2) fails or the daemon has a process already.
pub daemon_start-Starts :
    (s : System) (p : ℕ) (d : Daemon) (fork : Option ℕ)
    → Consistent s
    → s.store p ≡ some d
    → ForkFresh s.store fork
    → Returns (λ t. Consistent t × Starts s p d fork t) (daemon_start s p fork)
unfolding daemon_start daemon_spawn
daemon_start-Starts s p d none c a f = elim (state-cases d.state) [
  | inl h ↦ rw (fetch-ok s p d a, h) (returns s refl (c, has_process (λ o. cc) refl))
  | inr (inl h) ↦ returns s (rw (fetch-ok s p d a, h) refl) (c, fork_failed h refl)
  | inr (inr h) ↦ rw (fetch-ok s p d a, h) (returns s refl (c, has_process (λ o. cc) refl))
]
daemon_start-Starts s p d (some pid) c a f = elim (state-cases d.state) [
  | inl h ↦ rw (fetch-ok s p d a, h) (returns s refl (c, has_process (λ o. cc) refl))
  | inr (inl h) ↦ subst (Returns _) (sym (start_stopped s p d (some pid) a h)) (
      Returns->>= (spawn-Leaves s p d pid c a h f) λ t _ g. returns t.0 refl (g.0, spawned pid h g))
  | inr (inr h) ↦ rw (fetch-ok s p d a, h) (returns s refl (c, has_process (λ o. cc) refl))
]
