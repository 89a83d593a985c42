-- ===== src/Daemons/Reaping.antt =====
-- The reaping of children in src/cyberd/main.c, on the invariant of spawns.
use cyberd.Base.{
  ℕ, ◌++◌, Bool, true, false, Option, none, some, [], ◌∷◌, ◌==◌, ◌⊎◌, ◌≡◌, ◌≢◌, refl, sym, ap, ◌∙◌,
  subst, inl, inr, Bool-cases, some_inj, Returns, returns, Returns->>=, Returns-imp, ok, append-nil,
  if◌then◌else◌,
}
use cyberd.DaemonConf.{StartFlags}
use cyberd.Daemons.{
  started, stopped, Daemon, Ref, at, System, forked, write, put, Code, cld_exited, cld_killed,
  cld_dumped, cld_other, SigInfo, restarts, reaped_daemon, reaped_orphan, reap_child,
}
use cyberd.Daemons.Consistent.{is_spawned, Store, IsApart, write-same, write-other}
use cyberd.Daemons.Spawning.{Consistent, settle-IsConsistent}
use cyberd.Daemons.Retrieving.{distinct_pids, spawns_retrieve-Retrieval, Retrieval, unknown, known}
use cyberd.Daemons.Lifecycle.{fetch-ok, Leaves}
use cyberd.Daemons.Starting.{
  ForkFresh, Starts, spawned, fork_failed, has_process, daemon_start-Starts,
}

-- fork(2), where the code calls it for the daemon that is reaped, gives the pid of no other daemon's
-- process.
abbrev pub ReapFresh : Store → SigInfo → Option ℕ → Type 0
ReapFresh store info none = Unit
ReapFresh store info (some pid) =
    (p : ℕ) (d : Daemon)
    → store p ≡ some d
    → is_spawned d.state ≡ true
    → d.pid ≡ info.si_pid
    → restarts d.conf.start info ≡ ok true
    → (q : ℕ) (e : Daemon) → store q ≡ some e
    → is_spawned e.state ≡ true
    → e.pid ≢ info.si_pid
    → e.pid ≢ pid

-- What the end of the child that `info` describes leaves.
pub data Reaps (s : System) (info : SigInfo) (fork : Option ℕ) (t : System) : Type 0 where
  -- No daemon has that pid.
  orphan :
      ((q : ℕ) (e : Daemon) → s.store q ≡ some e → is_spawned e.state ≡ true → e.pid ≢ info.si_pid)
      → t.store ≡ s.store
      → t.trace ≡ s.trace
      → Reaps s info fork t
  -- The daemon with that pid is stopped, and no flag asks for a start, or fork(2) fails.
  ended :
      (p : ℕ) (d : Daemon)
      → s.store p ≡ some d
      → is_spawned d.state ≡ true
      → d.pid ≡ info.si_pid
      → (restarts d.conf.start info ≡ ok false) ⊎ (fork ≡ none)
      → Leaves s p (record d { state = stopped }) [] t
      → Reaps s info fork t
  -- A flag asks for a start: the daemon has a new process.
  restarted :
      (p : ℕ) (d : Daemon) (pid : ℕ)
      → s.store p ≡ some d
      → is_spawned d.state ≡ true
      → d.pid ≡ info.si_pid
      → restarts d.conf.start info ≡ ok true
      → fork ≡ some pid
      → Leaves s p (record d { state = started; pid = pid }) (forked p pid ∷ []) t
      → Reaps s info fork t

restarts-ok :
    (flags : StartFlags) (info : SigInfo)
    → info.si_code ≢ cld_other
    → (b : Bool) × (restarts flags info ≡ ok b)
unfolding restarts
restarts-ok flags info n = go info.si_code refl
  where
    go : (k : Code) → info.si_code ≡ k → (b : Bool) × (restarts flags info ≡ ok b)
    go cld_exited h =
        (if info.si_status == 0 then flags.exitsuccess else flags.exitfailure, rw h refl)
    go cld_killed h = (flags.killed, rw h refl)
    go cld_dumped h = (flags.dumped, rw h refl)
    go cld_other h = absurd (n h)

reaped_orphan-ok :
    (s : System) (info : SigInfo) → info.si_code ≢ cld_other → reaped_orphan s info ≡ ok s
unfolding reaped_orphan
reaped_orphan-ok s info n = go info.si_code refl
  where
    go : (k : Code) → info.si_code ≡ k → reaped_orphan s info ≡ ok s
    go cld_exited h = rw h refl
    go cld_killed h = rw h refl
    go cld_dumped h = rw h refl
    go cld_other h = absurd (n h)

-- What a daemon that spawns_retrieve took out is left as.
abbrev Afterwards : System → SigInfo → Option ℕ → ℕ → Daemon → System → Type 0
Afterwards s info fork p d t =
    ((restarts d.conf.start info ≡ ok false) ⊎ (fork ≡ none))
      × Leaves s p (record d { state = stopped }) [] t
    ⊎ ((pid : ℕ) × (restarts d.conf.start info ≡ ok true)
        × (fork ≡ some pid)
        × Leaves s p (record d { state = started; pid = pid }) (forked p pid ∷ []) t)

module _ (s : System) (info : SigInfo) (p : ℕ) (d : Daemon) (c : IsApart s.store p s.spawns)
    (a : s.store p ≡ some d) where
  settled-Leaves :
      Leaves s p (record d { state = stopped }) [] (put s p (record d { state = stopped }))
  settled-Leaves = (
    settle-IsConsistent s.store p (some (record d { state = stopped })) s.spawns c
        (λ e h. sym (ap (λ x. is_spawned x.state) (some_inj h))),
    write-same s.store p (some (record d { state = stopped })),
    (λ q o. write-other s.store p q (some (record d { state = stopped })) o),
    sym (append-nil s.trace),
  )

  started-Afterwards :
      (fork : Option ℕ) (t : System)
      → restarts d.conf.start info ≡ ok true
      → Starts (put s p (record d { state = stopped })) p (record d { state = stopped }) fork t
      → Afterwards s info fork p d t
  started-Afterwards _ t again (spawned pid _ g) =
      inr (pid, again, refl, (g.0, g.1, (λ q o. g.2 q o ∙ write-other s.store p q _ o), g.3))
  started-Afterwards _ t again (fork_failed _ e) =
      inl (inr refl, subst (Leaves s p (record d { state = stopped }) []) (sym e) settled-Leaves)
  started-Afterwards fork t again (has_process n _) = absurd (n refl)

  reaped_daemon-Afterwards :
      (fork : Option ℕ)
      → info.si_code ≢ cld_other
      → (restarts d.conf.start info ≡ ok true
          → ForkFresh (write s.store p (some (record d { state = stopped }))) fork)
      → Returns (Afterwards s info fork p d) (reaped_daemon s info (at p) fork)
  unfolding reaped_daemon
  reaped_daemon-Afterwards fork n f =
      let (again, h) = restarts-ok d.conf.start info n in
      elim (Bool-cases again) [
        | inl b ↦ subst (Returns _) (sym (rw (fetch-ok s p d a, h, b) refl)) (
            Returns-imp
              (daemon_start-Starts (put s p (record d { state = stopped })) p
                (record d { state = stopped }) fork settled-Leaves.0 settled-Leaves.1
                (f (h ∙ ap ok b)))
              λ t g. started-Afterwards fork t (h ∙ ap ok b) g.1)
        | inr b ↦
            returns (put s p (record d { state = stopped })) (rw (fetch-ok s p d a, h, b) refl)
              (inl (inl (h ∙ ap ok b), settled-Leaves))
      ]

-- The freshness of a pid for the store after the reaped daemon is stopped.
reap_fresh :
    (s : System) (c : Consistent s) (info : SigInfo) (p : ℕ) (d : Daemon) (fork : Option ℕ)
    → s.store p ≡ some d
    → is_spawned d.state ≡ true
    → d.pid ≡ info.si_pid
    → ReapFresh s.store info fork
    → restarts d.conf.start info ≡ ok true
    → ForkFresh (write s.store p (some (record d { state = stopped }))) fork
reap_fresh s c info p d none a w i f again = tt
reap_fresh s c info p d (some pid) a w i f again = λ q e b r. elim (Bool-cases (q == p)) [
  | inl o ↦
      let stopped_there : write s.store p (some (record d { state = stopped })) q
          ≡ some (record d { state = stopped }) =
        rw o refl in
      absurd (cc (r, ap (λ x. is_spawned x.state) (some_inj (sym stopped_there ∙ b))))
  | inr o ↦
      let was = sym (write-other s.store p q (some (record d { state = stopped })) o) ∙ b in
      f p d a w i again q e was r (λ h. distinct_pids s c p q d e a w was r o (h ∙ sym i))
]

module _ (s : System) (info : SigInfo) (fork : Option ℕ) (c : Consistent s) where
  Afterwards-Reaps :
      (r t : System) (p : ℕ) (d : Daemon)
      → s.store p ≡ some d
      → is_spawned d.state ≡ true
      → d.pid ≡ info.si_pid
      → r.store ≡ s.store
      → r.trace ≡ s.trace
      → Afterwards r info fork p d t
      → Consistent t × Reaps s info fork t
  Afterwards-Reaps r t p d a w i q e (inl (why, g)) = (
    g.0,
    ended p d a w i why (g.0, g.1, (λ n o. g.2 n o ∙ ap (λ m. m n) q), g.3 ∙ ap (λ l. l ++ []) e),
  )
  Afterwards-Reaps r t p d a w i q e (inr (pid, again, got, g)) = (
    g.0,
    restarted p d pid a w i again got
        (g.0, g.1, (λ n o. g.2 n o ∙ ap (λ m. m n) q), g.3 ∙ ap (λ l. l ++ forked p pid ∷ []) e),
  )

  Retrieval-Reaps :
      (r : System × Option Ref)
      → info.si_code ≢ cld_other
      → ReapFresh s.store info fork
      → Retrieval s c info.si_pid r
      → Returns
          (λ t. Consistent t × Reaps s info fork t)
          (elim (r.1) [ none ↦ reaped_orphan r.0 info | some x ↦ reaped_daemon r.0 info x fork ])
  Retrieval-Reaps r n f (unknown q e m g none_there) =
      rw (m, reaped_orphan-ok r.0 info n) (returns r.0 refl (g, orphan none_there q e))
  Retrieval-Reaps r n f (known p d a w i g) = rw g.2 (
      Returns-imp
        (reaped_daemon-Afterwards r.0 info p d g.3 (ap (λ m. m p) g.0 ∙ a) fork n (λ again.
          subst (λ m. ForkFresh (write m p (some (record d { state = stopped }))) fork) (sym g.0)
            (reap_fresh s c info p d fork a w i f again)))
        λ t h. Afterwards-Reaps r.0 t p d a w i g.0 g.1 h)

  -- One round of reap_children on a child that ended never faults and keeps the invariant, provided
  -- that fork(2) gives a pid that no other daemon's process has: an orphan changes nothing; the daemon
  -- that has the pid is stopped, or started again in a new process exactly if its flags ask for it
  -- and fork(2) succeeds.
  pub reap_child-Reaps :
      info.si_code ≢ cld_other
      → ReapFresh s.store info fork
      → Returns (λ t. Consistent t × Reaps s info fork t) (reap_child s info fork)
  unfolding reap_child
  reap_child-Reaps n f =
      Returns->>= (spawns_retrieve-Retrieval s c info.si_pid) λ r _ g. Retrieval-Reaps r n f g
