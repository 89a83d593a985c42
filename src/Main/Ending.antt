-- ===== src/Main/Ending.antt =====
-- teardown of src/cyberd/main.c: the daemons and the sockets at the end.
use cyberd.Base.{
  ℕ, Bool, true, false, not, ◌&&◌, Option, none, some, List, [], ◌∷◌, ◌≡◌, refl, sym, ap, ◌∙◌,
  arith, inl, inr, Among, Bool-cases, some_inj, All, Returns, returns, Returns->>=, Returns-imp,
}
use cyberd.DaemonConf.{sigkill}
use cyberd.Daemons.Stopping.{forks_kill_all}
use cyberd.Daemons.{emit, killed_all, System, SigInfo, spawns_empty}
use cyberd.Daemons.Spawning.{Consistent}
use cyberd.Daemons.Winddown.{spawns_stop-Quiet}
use cyberd.Daemons.Teardown.{Winding, Ends, reap_children-Winding}
use cyberd.Sockets.{Switch, Kernel}
use cyberd.Sockets.Kept.{Kept}
use cyberd.Main.{Process, Wake, teardown_loop, kill_remaining, teardown}
use cyberd.Sockets.Closing.{Unlinked, socket_switch_teardown-Unlinked}

-- Each return of sigsuspend(2) tells of ends only.
abbrev pub WakesEnd : List Wake → Type 0
WakesEnd = All (λ wake. Ends wake.reaped)

module _ (start : System) where
  -- The loop has ended.
  abbrev Over : Option Bool → Type 0
  Over ended = (children : Bool) × (ended ≡ some children)

  -- Once the alarm rang, the loop is over.
  abbrev Wound : List Wake → System × Option Bool → Type 0
  Wound wakes r =
      Winding start r.0 × ((wake : Wake) → Among wake wakes → wake.alarm_rang ≡ true → Over r.1)

  goes_on_quietly : (a b c : Bool) → (a && not b && c) ≡ true → b ≡ false
  goes_on_quietly a b c h = ground arith

  teardown_loop-Wound :
      (wakes : List Wake) (s : System)
      → Winding start s
      → WakesEnd wakes
      → Returns (Wound wakes) (teardown_loop s wakes)
  unfolding teardown_loop
  teardown_loop-Wound [] s w e = returns (s, none) refl (w, λ wake m. absurd m)
  teardown_loop-Wound (wake ∷ rest) s w e =
      Returns->>= (reap_children-Winding wake.reaped s w.0 w.1 e.0) λ t _ g.
        let next : Winding start t = (g.0, g.1, g.2 ∙ w.2) in
        let goes_on = wake.children && not wake.alarm_rang && not (spawns_empty t) in
        elim (Bool-cases goes_on) [
          | inl b ↦
              rw (b, teardown_loop)
                (Returns-imp (teardown_loop-Wound rest t next e.1) λ r x. (
                  x.0,
                  λ y m z.
                      rang_later y m z
                        (goes_on_quietly wake.children wake.alarm_rang (not (spawns_empty t)) b) r
                        x,
                ))
          | inr b ↦
              rw (b, teardown_loop)
                (returns (t, some wake.children) refl (next, λ y m z. (wake.children, refl)))
        ]
    where
      rang_later :
          (y : Wake)
          → Among y (wake ∷ rest)
          → y.alarm_rang ≡ true
          → wake.alarm_rang ≡ false
          → (r : System × Option Bool) → Wound rest r
          → Over r.1
      rang_later y (inl q) z n r x = absurd (cc (ap (λ v. v.alarm_rang) q, z, n))
      rang_later y (inr m) z n r x = x.1 y m z

  kill_remaining-Winding :
      (ended : Option Bool) (s : System) (reaped : List (SigInfo × Option ℕ))
      → Winding start s
      → Ends reaped
      → Returns (Winding start) (kill_remaining ended s reaped)
  unfolding kill_remaining
  kill_remaining-Winding (some true) s reaped w e =
      Returns-imp (reap_children-Winding reaped (emit s (killed_all sigkill)) w.0 w.1 e)
        λ t g. (g.0, g.1, g.2 ∙ forks_kill_all s.trace sigkill ∙ w.2)
  kill_remaining-Winding (some false) s reaped w e = returns s refl w
  kill_remaining-Winding none s reaped w e = returns s refl w

-- What teardown leaves, and the action that it gives to reboot(2): the one of the flags, if it gets there,
-- which it does once the alarm rang.
abbrev pub TornDown : Process → List Wake → Process × Option ℕ → Type 0
TornDown p wakes r =
    Winding p.world.config.system r.0.world.config.system
    × Unlinked p.world.switch r.0.world.switch
    × ((value : ℕ) → r.1 ≡ some value → value ≡ p.flags.reboot)
    × ((wake : Wake) → Among wake wakes → wake.alarm_rang ≡ true → r.1 ≡ some p.flags.reboot)

-- teardown never faults on a consistent system and a switch that is well kept, if the children that
-- are reaped tell of ends only and getsockname(2) succeeds. It forks nothing, and each daemon that
-- still has a process has the order to finish; no node is left and no path of an endpoint. It gives
-- reboot(2) the action of the flags, and gets there once the alarm rang.
pub teardown-TornDown :
    (k : Kernel) (seconds : ℕ) (p : Process) (wakes : List Wake)
    (reaped : List (SigInfo × Option ℕ))
    → ((sw : Switch) (fd : ℕ) → k.getsockname sw fd ≡ true)
    → Consistent p.world.config.system
    → Kept p.world.switch
    → WakesEnd wakes
    → Ends reaped
    → Returns (TornDown p wakes) (teardown k seconds p wakes reaped)
unfolding teardown
teardown-TornDown k seconds p wakes reaped tells c h e f =
    let start = p.world.config.system in
    Returns->>= (spawns_stop-Quiet start c) λ s _ g.
      Returns->>= (socket_switch_teardown-Unlinked k tells p.world.switch h) λ sw _ l.
        Returns->>= (teardown_loop-Wound start wakes s (g.0, g.2, g.1.forks_same) e) λ r _ w.
          Returns->>= (kill_remaining-Winding start r.1 r.0 reaped w.0 f) λ t _ x. returns _ refl (
            x,
            l,
            (λ value q. called r.1 value q),
            λ wake m z. let (children, q) = w.1 wake m z in rw q refl,
          )
  where
    called :
        (ended : Option Bool) (value : ℕ)
        → elim ended as (λ _. Option ℕ) [ none ↦ none | some children ↦ some p.flags.reboot ]
          ≡ some value
        → value ≡ p.flags.reboot
    called none value q = absurd (cc q)
    called (some children) value q = sym (some_inj q)
