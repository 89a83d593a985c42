-- ===== src/Main/Startup.antt =====
-- setup and main of src/cyberd/main.c on the invariants of the daemons and the nodes.
use cyberd.Base.{
  All, All-Among, Among-All, Option-cases, ℕ, Bool, true, false, Option, none, some, List, [], ◌≡◌,
  refl, inl, inr, Among, Returns, returns, Returns->>=, Returns-imp, ok, ◌>>=◌,
}
use cyberd.Capabilities.{capset_all}
use cyberd.Daemons.{System}
use cyberd.Configuration.{Element, stored, Config, Environment, Dirent, configuration_load}
use cyberd.Configuration.Held.{IsKnown, same_names-IsSorted, Held}
use cyberd.Configuration.Loading.{IsEnvironment}
use cyberd.Configuration.Entries.{met, load_entries-Held}
use cyberd.Signals.{Flags}
use cyberd.Signals.Delivery.{IsReboot}
use cyberd.Sockets.{Kernel, Switch, socket_switch_setup}
use cyberd.Sockets.Kept.{Kept}
use cyberd.Sockets.Acting.{IsKernel, Sound, created-Kept}
use cyberd.Sockets.Serving.{Served, served, Served->>=}
use cyberd.Signals.{signals_setup}
use cyberd.Main.{Process, rc_flags, RunCommands, rc_if, main, Answer, main_loop, setup}
use cyberd.Tree.Sequence.{to_list}
use cyberd.Daemons.Teardown.{Ends}
use cyberd.Main.Rc.{Vacant, Returned, rc-Returned}
use cyberd.Main.Loop.{Good, IsDirectory, AllFit, main_loop-Good}

-- The children that rc reaps have ended.
abbrev pub RcEnds : Option RunCommands → Type 0
RcEnds none = Unit
RcEnds (some r) = All Ends r.wakes

-- What holds if rc returns.
abbrev pub Unless : {A : Type 0} → (A → Type 0) → Option A → Type 0
Unless P none = Unit
Unless P (some a) = P a

module _ (little_endian : Bool) (env : Environment) (v : IsEnvironment env) (k : Kernel)
    (u : IsKernel k) (directory : List ℕ) where
  switch_setup-Kept :
      (made : Bool) (root : List ℕ) (sw : Switch)
      → Kept sw
      → Returns Kept (socket_switch_setup k directory made root sw)
  unfolding socket_switch_setup
  switch_setup-Kept true root sw h =
      Returns-imp (created-Kept env v [] k u directory sw root capset_all h) λ t g. g.0
  switch_setup-Kept false root sw h = returns sw refl h

  abbrev Keeping : Config → Type 0
  Keeping c = (names : List (List ℕ)) × Held env.host names [] none c

  load-Keeping :
      (c : Config) (entries : Option (List Dirent))
      → Held env.host [] [] none c
      → IsDirectory entries
      → Returns Keeping (configuration_load env c entries)
  unfolding configuration_load
  load-Keeping c none h f = returns c refl ([], h)
  load-Keeping c (some entries) h f =
      Returns-imp (load_entries-Held env v entries [] c h f) λ t g. (met [] entries, g)

  -- With no daemon the store may be any other vacant one.
  Vacant-Held :
      (c : Config) (t : System)
      → Held env.host [] [] none c
      → Vacant t
      → Held env.host [] [] none (record c { system = t })
  Vacant-Held c t h v =
      let no_element : (r : Element) → Among r (to_list c.daemons) → ⊥ =
        λ r m. (All-Among (IsKnown c.system.store []) r (to_list c.daemons) h.elements m).known in
      record {
        consistent = v.0;
        configured = λ q d a. absurd (cc (v.1 q, a));
        balanced = h.balanced;
        sorted =
            same_names-IsSorted c.system.store t.store (to_list c.daemons)
              (λ r m. absurd (no_element r m)) h.sorted;
        elements = Among-All _ (to_list c.daemons) (λ r m. absurd (no_element r m));
        waiting = tt;
        covered = λ q d a. absurd (cc (v.1 q, a));
        apart = λ r m n. n;
        hand_apart = λ q i. absurd (cc i);
      }

  Held-Vacant : (c : Config) → Held env.host [] [] none c → Vacant c.system
  Held-Vacant c h = (
    h.consistent,
    λ q. elim (Option-cases (c.system.store q)) [
      | inl n ↦ n
      | inr (d, a) ↦ elim (h.covered q d a) [
        | inl m ↦
            absurd
              (All-Among (IsKnown c.system.store []) (stored q) (to_list c.daemons) h.elements
                m).known
        | inr (inl m) ↦ absurd m
        | inr (inr m) ↦ absurd (cc m)
      ]
    ],
  )

  rc_if-Returned :
      (run : Option RunCommands) (s : System)
      → Vacant s
      → RcEnds run
      → Returns Returned (rc_if run s)
  unfolding rc_if
  rc_if-Returned none s v e = returns (some s) refl v
  rc_if-Returned (some r) s v e = rc-Returned s r r.fork v e

  rc_flags-IsReboot :
      (run : Option RunCommands) (f : Flags) → IsReboot f.reboot → IsReboot (rc_flags run f).reboot
  unfolding rc_flags
  rc_flags-IsReboot none f r = r
  rc_flags-IsReboot (some run) f r =
      elim (run.fork)
        as (λ o.
          IsReboot
            (elim o as (λ _. Flags) [ none ↦ f | some pid ↦ record f { child = false } ]).reboot) [
              | none ↦ r
              | some pid ↦ r
            ]

  -- The process that setup leaves.
  abbrev set_up : Option RunCommands → Process → Switch → Config → Process
  set_up run p sw c = record {
    world = record (p.world) { config = c; switch = sw };
    flags = rc_flags run p.flags;
    mask = (signals_setup p.mask).0;
    waiting = (signals_setup p.mask).1;
  }

  setup-Good :
      (made : Bool) (root : List ℕ) (run : Option RunCommands) (entries : Option (List Dirent))
      (p : Process)
      → Sound env [] p.world
      → IsReboot p.flags.reboot
      → RcEnds run
      → IsDirectory entries
      → Returns (Unless (Good env)) (setup env k directory made root run entries p)
  unfolding setup
  setup-Good made root run entries p s b e f =
      Returns->>= (switch_setup-Kept made root p.world.switch s.1) λ sw _ g.
        Returns->>= (rc_if-Returned run p.world.config.system (Held-Vacant p.world.config s.0) e)
          λ left _ v. go sw g left v
    where
      go :
          (sw : Switch)
          → Kept sw
          → (left : Option System) → Returned left
          → Returns (Unless (Good env)) (elim left [
            | none ↦ ok none
            | some t ↦ do
              c ← configuration_load env (record (p.world.config) { system = t }) entries
              ok (some (set_up run p sw c))
          ])
      go sw g none v = returns none refl tt
      go sw g (some t) v =
          Returns->>=
            (load-Keeping (record (p.world.config) { system = t }) entries
              (Vacant-Held p.world.config t s.0 v) f)
            λ c _ h.
              returns (some (set_up run p sw c)) refl
                ((h.0, (h.1, g)), rc_flags-IsReboot run p.flags b)

  -- From setup on, with no daemon and a switch that is well kept, main never faults on answers of
  -- the kernel that fit, unless bytes that the kernel gives for a connection make its parser fault.
  -- When its loop ends, or waits again, the daemons and the nodes are well kept, and the action for
  -- reboot(2) is none or one that ends the system. The default mask has nine bits, malloc(3) gives
  -- a free address and fork(2) a pid that no daemon has, the children that rc reaps have ended, and
  -- a new descriptor is that of no node and below FD_SETSIZE.
  pub main-Good :
      (made : Bool) (root : List ℕ) (run : Option RunCommands) (entries : Option (List Dirent))
      (p : Process) (answers : List Answer)
      → Sound env [] p.world
      → IsReboot p.flags.reboot
      → RcEnds run
      → IsDirectory entries
      → ((q : Process)
          → setup env k directory made root run entries p ≡ ok (some q)
          → AllFit little_endian env v k u directory q answers)
      → Served
          (Unless (Good env))
          k
          little_endian
          (main little_endian env k directory made root run entries p answers)
  unfolding main
  main-Good made root run entries p answers s r e d f =
      Served->>= (served (setup-Good made root run entries p s r e d)) go
    where
      go :
          (left : Option Process)
          → setup env k directory made root run entries p ≡ ok left
          → Unless (Good env) left
          → Served (Unless (Good env)) k little_endian (elim left [
            | none ↦ ok none
            | some q ↦ do t ← main_loop little_endian env k directory q answers; ok (some t)
          ])
      go none q g = served (returns none refl tt)
      go (some t) q g =
          Served->>= (main_loop-Good little_endian env v k u directory answers t g (f t q))
            λ p' _ h. served (returns (some p') refl h)
