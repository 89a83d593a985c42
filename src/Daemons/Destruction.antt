-- ===== src/Daemons/Destruction.antt =====
-- daemon_create and daemon_destroy of src/cyberd/daemon.c on the invariant of spawns.
use cyberd.Base.{
  ℕ, append-nil, Bool, true, false, Option, none, some, List, [], ◌==◌, ◌≡◌, refl, sym, ap, ◌∙◌,
  subst, inl, inr, some_inj, Returns, returns, Returns->>=, ok, ◌>>=◌,
}
use cyberd.Daemons.{stopped, Daemon, System, write, spawns_retrieve, daemon_destroy}
use cyberd.Daemons.Consistent.{is_spawned, IsApart, write-same, write-other}
use cyberd.Daemons.Spawning.{Consistent, idle-IsApart, settle-IsConsistent}
use cyberd.Daemons.Retrieving.{spawns_retrieve-Retrieved}
use cyberd.Daemons.{daemon_create, System}
use cyberd.Daemons.Lifecycle.{fetch-ok, state-cases, Leaves}
use cyberd.DaemonConf.{daemon_conf_init}

-- What daemon_destroy leaves: nothing at `p`, the other daemons as they were, and nothing asked.
abbrev pub Destroyed : System → ℕ → System → Type 0
Destroyed s p t =
    Consistent t
    × (t.store p ≡ none)
    × ((q : ℕ) → (q == p) ≡ false → t.store q ≡ s.store q)
    × (t.trace ≡ s.trace)

free-Destroyed :
    (s t : System) (p : ℕ)
    → t.store ≡ s.store
    → t.trace ≡ s.trace
    → IsApart t.store p t.spawns
    → Destroyed s p (record t { store = write t.store p none })
free-Destroyed s t p q r i = (
  settle-IsConsistent t.store p none t.spawns i (λ e h. absurd (cc h)),
  write-same t.store p none,
  (λ n o. write-other t.store p n none o ∙ ap (λ m. m n) q),
  r,
)

destroy_spawned-Destroyed :
    (s : System) (p : ℕ) (d : Daemon)
    → Consistent s
    → s.store p ≡ some d
    → is_spawned d.state ≡ true
    → Returns (Destroyed s p) (
        spawns_retrieve s d.pid >>= (λ r. ok r.0) >>= λ s'.
        ok (record s' { store = write s'.store p none }))
destroy_spawned-Destroyed s p d c a h =
    Returns->>= {P = λ t. Destroyed s p (record t { store = write t.store p none })}
      (Returns->>= (spawns_retrieve-Retrieved s c p d a h)
        λ r _ g. returns r.0 refl (free-Destroyed s r.0 p g.0 g.1 g.3))
      λ t _ g. returns (record t { store = write t.store p none }) refl g

-- daemon_destroy never faults and keeps the invariant: the daemon is freed and the tree of spawns
-- holds no reference to it, whether it had a process or not; no signal is sent.
pub daemon_destroy-Destroyed :
    (s : System) (p : ℕ) (d : Daemon)
    → Consistent s
    → s.store p ≡ some d
    → Returns (Destroyed s p) (daemon_destroy s p)
unfolding daemon_destroy
daemon_destroy-Destroyed s p d c a = elim (state-cases d.state) [
  | inl h ↦
      subst (Returns _) (sym (rw (fetch-ok s p d a, h) refl))
        (destroy_spawned-Destroyed s p d c a (ap is_spawned h))
  | inr (inl h) ↦
      returns (record s { store = write s.store p none }) (rw (fetch-ok s p d a, h) refl)
        (free-Destroyed s s p refl refl (
          idle-IsApart s.store p
            (λ x b. sym (ap (λ y. is_spawned y.state) (some_inj (sym a ∙ b))) ∙ ap is_spawned h)
            s.spawns c))
  | inr (inr h) ↦
      subst (Returns _) (sym (rw (fetch-ok s p d a, h) refl))
        (destroy_spawned-Destroyed s p d c a (ap is_spawned h))
]

-- What daemon_create leaves, and returns.
pub data Creates (s : System) (p held : ℕ) (umask : ℕ) (name : List ℕ)
    : Bool → System × Option ℕ → Type 0 where
  strdup_failed : Creates s p held umask name false (s, none)
  created :
      {t : System}
      → Leaves s p
          (record { state = stopped; name = name; pid = held; conf = daemon_conf_init umask })
          []
          t
      → Creates s p held umask name true (t, some p)

-- daemon_create on an address that malloc(3) gives keeps the invariant, whatever the memory held: the
-- new daemon is stopped, with the initial configuration, and nothing changes if strdup(3) fails.
pub daemon_create-Creates :
    (umask : ℕ) (s : System) (p held : ℕ) (copied : Bool) (name : List ℕ)
    → Consistent s
    → s.store p ≡ none
    → let r = daemon_create umask s (some (p, held)) copied name in
      Consistent r.0 × Creates s p held umask name copied r
unfolding daemon_create
daemon_create-Creates umask s p held false name c a = (c, strdup_failed)
daemon_create-Creates umask s p held true name c a =
    let d : Daemon = record {
      state = stopped;
      name = name;
      pid = held;
      conf = daemon_conf_init umask;
    } in
    let g =
      settle-IsConsistent s.store p (some d) s.spawns
        (idle-IsApart s.store p (λ x b. absurd (cc (a, b))) s.spawns c)
        (λ e h. sym (ap (λ x. is_spawned x.state) (some_inj h))) in
    (
      g,
      created (
        g,
        write-same s.store p (some d),
        (λ q o. write-other s.store p q (some d) o),
        sym (append-nil s.trace),
      ),
    )
