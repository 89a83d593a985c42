-- ===== src/Daemons/Teardown.antt =====
-- The reaping of src/cyberd/main.c after spawns_stop.
use cyberd.Base.{
  ℕ, true, false, Option, none, some, List, [], ◌∷◌, ◌==◌, ◌≡◌, ◌≢◌, refl, sym, ap, ◌∙◌, subst, inl,
  inr, All, Bool-cases, some_inj, Returns, returns, Returns->>=, Returns-imp, ok, fault, aborted,
  if_both, ◌>>=◌, append-nil,
}
use cyberd.DaemonConf.{no_flags}
use cyberd.Daemons.{
  Daemon, at, System, cld_other, cld_exited, cld_killed, cld_dumped, Code, SigInfo, restarts,
  reap_child, reap_children, spawns_stop,
}
use cyberd.Daemons.Consistent.{is_spawned}
use cyberd.Daemons.Spawning.{Consistent, same-==}
use cyberd.Daemons.Reaping.{ReapFresh, Reaps, orphan, ended, restarted, reap_child-Reaps}
use cyberd.Daemons.Stopping.{forks, Quiet}
use cyberd.Daemons.Winddown.{spawns_stop-Quiet}

pub restarts-no_flags : (info : SigInfo) → restarts no_flags info ≢ ok true
unfolding restarts
restarts-no_flags info h = go info.si_code refl
  where
    go : (k : Code) → info.si_code ≡ k → ⊥
    go cld_exited e =
        let q : restarts no_flags info ≡ ok false =
          rw e (if_both (λ b. ok b ≡ ok false) (info.si_status == 0) false false refl refl) in
        absurd (cc (q, h))
    go cld_killed e = let q : restarts no_flags info ≡ ok false = rw e refl in absurd (cc (q, h))
    go cld_dumped e = let q : restarts no_flags info ≡ ok false = rw e refl in absurd (cc (q, h))
    go cld_other e =
        let q : restarts no_flags info ≡ fault aborted = rw e refl in absurd (cc (q, h))

-- What a reaped child leaves of a quiet system.
abbrev pub Winding : System → System → Type 0
Winding s t = Consistent t × Quiet t.store × (forks t.trace ≡ forks s.trace)

module _ (s : System) (quiet : Quiet s.store) (info : SigInfo) (fork : Option ℕ) where
  never_restarts :
      (p : ℕ) (d : Daemon)
      → s.store p ≡ some d
      → is_spawned d.state ≡ true
      → restarts d.conf.start info ≢ ok true
  never_restarts p d a w h =
      restarts-no_flags info (sym (ap (λ f. restarts f info) (quiet (at p) p d refl a w).1) ∙ h)

  quiet-ReapFresh : ReapFresh s.store info fork
  quiet-ReapFresh = elim fork as (λ f. ReapFresh s.store info f) [
    | none ↦ tt
    | some pid ↦ λ p d a w i again. absurd (never_restarts p d a w again)
  ]

  stopped-Quiet :
      (t : System) (p : ℕ) (e : Daemon)
      → t.store p ≡ some e
      → is_spawned e.state ≡ false
      → ((q : ℕ) → (q == p) ≡ false → t.store q ≡ s.store q)
      → Quiet t.store
  stopped-Quiet t p e b n others r q x i c w = elim (Bool-cases (q == p)) [
    | inl o ↦ absurd (
        cc (
          w,
          n,
          ap (λ y. is_spawned y.state) (some_inj (sym b ∙ ap t.store (sym (same-== q p o)) ∙ c)),
        ))
    | inr o ↦ quiet r q x i (sym (others q o) ∙ c) w
  ]

  Reaps-Winding : (t : System) → Consistent t → Reaps s info fork t → Winding s t
  Reaps-Winding t c (orphan _ q e) = (c, subst Quiet (sym q) quiet, ap forks e)
  Reaps-Winding t c (ended p d a w i _ g) =
      (c, stopped-Quiet t p _ g.1 refl g.2, ap forks (g.3 ∙ append-nil s.trace))
  Reaps-Winding t c (restarted p d pid a w i again _ g) = absurd (never_restarts p d a w again)

  reap_child-Winding :
      Consistent s → info.si_code ≢ cld_other → Returns (Winding s) (reap_child s info fork)
  reap_child-Winding c n =
      Returns-imp (reap_child-Reaps s info fork c n quiet-ReapFresh) λ t g. Reaps-Winding t g.0 g.1

-- waitid(2) with WEXITED tells of ends only.
abbrev pub Ends : List (SigInfo × Option ℕ) → Type 0
Ends = All (λ r. r.0.si_code ≢ cld_other)

pub reap_children-Winding :
    (rs : List (SigInfo × Option ℕ)) (s : System)
    → Consistent s
    → Quiet s.store
    → Ends rs
    → Returns (Winding s) (reap_children s rs)
unfolding reap_children
reap_children-Winding [] s c q h = returns s refl (c, q, refl)
reap_children-Winding ((info, fork) ∷ rs) s c q h =
    Returns->>= (reap_child-Winding s q info fork c h.0)
      λ t _ g. Returns-imp (reap_children-Winding rs t g.0 g.1 h.1) λ u k. (k.0, k.1, k.2 ∙ g.2)

-- Once spawns_stop ran, no child that is reaped makes a daemon start again, whatever its end and
-- whatever fork(2) would answer: no step faults, the invariant holds after them, no daemon with a
-- process is without the order to finish, and nothing was forked.
pub stopped_never_forks :
    (s : System) (rs : List (SigInfo × Option ℕ))
    → Consistent s
    → Ends rs
    → Returns (Winding s) (spawns_stop s >>= λ t. reap_children t rs)
stopped_never_forks s rs c h = Returns->>= (spawns_stop-Quiet s c) λ t _ g.
    Returns-imp (reap_children-Winding rs t g.0 g.2 h) λ u k. (k.0, k.1, k.2 ∙ g.1.forks_same)
