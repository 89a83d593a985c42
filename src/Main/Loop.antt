-- ===== src/Main/Loop.antt =====
-- The loop of main in src/cyberd/main.c on the invariants of the daemons and the nodes.
use cyberd.Base.{
  ℕ, Bool, true, false, Option, none, some, List, [], ◌∷◌, ◌==◌, ◌≡◌, refl, sym, subst, arith, inl,
  inr, Among, Bool-cases, Returns, returns, Returns->>=, Returns-imp, ok,
}
use cyberd.Daemons.{SigInfo}
use cyberd.Configuration.{Config, Environment, Dirent, configuration_reload}
use cyberd.Configuration.Held.{Held}
use cyberd.Configuration.Loading.{IsEnvironment}
use cyberd.Configuration.Entries.{AreFiles, met}
use cyberd.Configuration.Renewal.{configuration_reload-Held}
use cyberd.Signals.{Signal, handle_all}
use cyberd.Signals.Delivery.{IsReboot, IsRequest, Asks, handle_all-IsReboot, handle_all-IsRequest}
use cyberd.Sockets.{Kernel, Switch, socket_switch_prepare}
use cyberd.Sockets.Kept.{Kept}
use cyberd.Sockets.Acting.{IsKernel, Sound}
use cyberd.Sockets.Serving.{Served, served, Served->>=, socket_switch_operate-Served}
use cyberd.Main.{
  Answer, ready, interrupted, failed, Process, reload_if, reap_if, main_round, main_loop,
}
use cyberd.Main.Reaping.{ReapsFresh, reap_children-Held}

-- The files of the directory, if it can be opened.
abbrev pub IsDirectory : Option (List Dirent) → Type 0
IsDirectory none = Unit
IsDirectory (some entries) = AreFiles [] entries

-- What the kernel answers: ready descriptors are active ones, files are written ones, and the children
-- that are reaped after the reload are ended ones.
abbrev pub Fits : Environment → Process → Answer → Type 0
Fits env p (ready set nfds) = (fd : ℕ) → set fd ≡ true → p.world.switch.activeset fd ≡ true
Fits env p (interrupted signals entries reaped) =
    IsDirectory entries
    × ((c : Config)
        → reload_if env (handle_all signals p.flags).hangup p.world.config entries ≡ ok c
        → ReapsFresh c.system reaped)
Fits env p failed = Unit

-- The daemons and the nodes are well kept, and the request to end is none or one that reboot(2) takes.
abbrev pub Good : Environment → Process → Type 0
Good env p = ((names : List (List ℕ)) × Sound env names p.world) × IsReboot p.flags.reboot

readset-Kept : (sw : Switch) (set : ℕ → Bool) → Kept sw → Kept (record sw { readset = set })
readset-Kept sw set h = record {
  balanced = h.balanced;
  sorted = h.sorted;
  allocated = h.allocated;
  stored = h.stored;
  active = h.active;
  only_active = h.only_active;
  in_set = h.in_set;
}

module _ (little_endian : Bool) (env : Environment) (v : IsEnvironment env) (k : Kernel)
    (u : IsKernel k) (directory : List ℕ) where
  abbrev Keeping : Config → Type 0
  Keeping c = (names : List (List ℕ)) × Held env.host names [] none c

  reload_if-Keeping :
      (wanted : Bool) (names : List (List ℕ)) (c : Config) (entries : Option (List Dirent))
      → Held env.host names [] none c
      → IsDirectory entries
      → Returns Keeping (reload_if env wanted c entries)
  unfolding reload_if configuration_reload
  reload_if-Keeping false names c entries h f = returns c refl (names, h)
  reload_if-Keeping true names c none h f = returns c refl (names, h)
  reload_if-Keeping true names c (some entries) h f =
      Returns-imp (configuration_reload-Held env names c entries v h f) λ t g. (met [] entries, g)

  reap_if-Held :
      (wanted : Bool) (names : List (List ℕ)) (c : Config) (reaped : List (SigInfo × Option ℕ))
      → Held env.host names [] none c
      → ReapsFresh c.system reaped
      → Returns
          (λ s. Held env.host names [] none (record c { system = s }))
          (reap_if wanted c.system reaped)
  unfolding reap_if
  reap_if-Held false names c reaped h f = returns c.system refl h
  reap_if-Held true names c reaped h f = reap_children-Held env.host names reaped c h f

  -- A round that signals interrupt ends with their requests.
  interrupted-Good :
      (p : Process) (signals : List Signal) (entries : Option (List Dirent))
      (reaped : List (SigInfo × Option ℕ))
      → Good env p
      → Fits env p (interrupted signals entries reaped)
      → Returns
          (λ q. Good env q × (q.flags.reboot ≡ (handle_all signals p.flags).reboot))
          (main_round little_endian env k directory p (interrupted signals entries reaped))
  unfolding main_round socket_switch_prepare
  interrupted-Good p signals entries reaped g f =
      let h = g.0.1 in
      let flags = handle_all signals p.flags in
      Returns->>= (reload_if-Keeping flags.hangup g.0.0 p.world.config entries h.0 f.0) λ c e r.
        Returns->>= (reap_if-Held flags.child r.0 c reaped r.1 (f.1 c e)) λ s _ l. returns _ refl (
          (
            (r.0, (l, readset-Kept p.world.switch p.world.switch.activeset h.1)),
            handle_all-IsReboot signals p.flags g.1,
          ),
          refl,
        )

  main_round-Good :
      (p : Process) (a : Answer)
      → Good env p
      → Fits env p a
      → Served (Good env) k little_endian (main_round little_endian env k directory p a)
  unfolding main_round socket_switch_prepare
  main_round-Good p (ready set nfds) g f =
      let h = g.0.1 in
      Served->>=
        (socket_switch_operate-Served little_endian env v k u directory g.0.0 nfds
          (record (p.world) { switch = record (p.world.switch) { readset = set } })
          (h.0, readset-Kept p.world.switch set h.1) (λ n l s. h.1.only_active n (f n s)))
        λ w _ s. served (returns (record p { world = w }) refl ((g.0.0, s), g.1))
  main_round-Good p (interrupted signals entries reaped) g f =
      served (Returns-imp (interrupted-Good p signals entries reaped g f) λ q r. r.0)
  main_round-Good p failed g f = served (
      returns _ refl
        ((g.0.0, (g.0.1.0, readset-Kept p.world.switch p.world.switch.activeset g.0.1.1)), g.1))

  -- Each answer fits the process that it comes to.
  abbrev pub AllFit : Process → List Answer → Type 0
  AllFit p [] = Unit
  AllFit p (a ∷ rest) =
      Fits env p a
      × ((q : Process) → main_round little_endian env k directory p a ≡ ok q → AllFit q rest)

  pub main_loop-Good :
      (answers : List Answer) (p : Process)
      → Good env p
      → AllFit p answers
      → Served (Good env) k little_endian (main_loop little_endian env k directory p answers)
  unfolding main_loop
  main_loop-Good [] p g f = served (returns p refl g)
  main_loop-Good (a ∷ rest) p g f = Served->>= (main_round-Good p a g f.0) λ q e r.
      elim (Bool-cases (q.flags.reboot == 0)) [
        | inl b ↦ rw (b, main_loop) (main_loop-Good rest q r (f.1 q e))
        | inr b ↦ rw (b, main_loop) (served (returns q refl r))
      ]

  request_nonzero : (n : ℕ) → IsRequest n → (n == 0) ≡ false
  request_nonzero n r = ground arith

  -- A round that is interrupted by signals, among them a SIGTERM without a value or with an action
  -- of reboot(2) that ends the system, ends the loop of main with such an action, whatever follows,
  -- if the process is good before and the answers of the kernel fit it.
  pub main_loop_ends :
      (p : Process) (signals : List Signal) (s : Signal) (entries : Option (List Dirent))
      (reaped : List (SigInfo × Option ℕ)) (rest : List Answer)
      → Good env p
      → Fits env p (interrupted signals entries reaped)
      → Among s signals
      → Asks s
      → Returns
          (λ q. IsRequest q.flags.reboot)
          (main_loop little_endian env k directory p (interrupted signals entries reaped ∷ rest))
  unfolding main_loop
  main_loop_ends p signals s entries reaped rest g f m a =
      Returns->>= (interrupted-Good p signals entries reaped g f) λ q _ r.
        let request = subst IsRequest (sym r.1) (handle_all-IsRequest signals s p.flags m a) in
        rw (request_nonzero q.flags.reboot request, main_loop) (returns q refl request)
