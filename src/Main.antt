-- ===== src/Main.antt =====
-- src/cyberd/main.c: setup with the run commands, the loop of main, and its end in teardown.
--
-- What a wait of the process brings is an argument: an `Answer` of pselect(2), or a `Wake` of sigsuspend(2).
pub mod Reaping
pub mod Rc
pub mod Loop
pub mod Startup
pub mod Ending
use cyberd.Base.{
  pos, ℕ, zero, suc, Bool, true, false, not, ◌&&◌, List, [], ◌∷◌, ◌==◌, if◌then◌else◌, Option, none,
  some, Outcome, ok, ◌>>=◌,
}
use cyberd.DaemonConf.{sigkill, DaemonConf, daemon_conf_init}
use cyberd.Daemons.{
  Daemon, started, write, put, emit, forked, killed_all, spawns_record, System, SigInfo,
  reap_children, spawns_stop, spawns_empty,
}
use cyberd.Configuration.{Config, Environment, Dirent, configuration_reload, configuration_load}
use cyberd.Signals.{Flags, Signal, handle_all, Mask, SigSet, signals_setup, signals_alarm}
use cyberd.Sockets.{
  Kernel, World, Switch, socket_switch_prepare, socket_switch_operate, socket_switch_setup,
  socket_switch_teardown,
}

-- What pselect(2) returned: how many descriptors of the set are ready; an interruption, by the signals
-- that were handled, with what opendir(3) and waitid(2) give then; or an error.
pub data Answer : Type 0 where
  ready : (ℕ → Bool) → ℕ → Answer
  interrupted : List Signal → Option (List Dirent) → List (SigInfo × Option ℕ) → Answer
  failed : Answer

-- The state of the parts, with the mask that pselect(2) waits with.
pub record Process : Type 0 where
  pub world : World
  pub flags : Flags
  pub mask : Mask
  pub waiting : SigSet

-- `if (sighup) { configuration_reload(); sighup = 0; }`, where the flag is cleared after both.
unfoldable pub reload_if : Environment → Bool → Config → Option (List Dirent) → Outcome Config
reload_if env false c entries = ok c
reload_if env true c entries = configuration_reload env c entries

unfoldable pub reap_if : Bool → System → List (SigInfo × Option ℕ) → Outcome System
reap_if false s reaped = ok s
reap_if true s reaped = reap_children s reaped

-- The flags after one round: what was set is done.
abbrev pub done : Flags → Flags
done f = record f { hangup = false; child = false }

-- One round of the loop of main.
unfoldable pub main_round :
    Bool → Environment → Kernel → List ℕ → Process → Answer → Outcome Process
main_round little_endian env k directory p (ready set nfds) = do
  let sw = record ((socket_switch_prepare p.world.switch).0) { readset = set }
  w ← socket_switch_operate little_endian env k directory nfds (record (p.world) { switch = sw })
  ok (record p { world = w })
main_round little_endian env k directory p (interrupted signals entries reaped) = do
  let f = handle_all signals p.flags
  c ← reload_if env f.hangup p.world.config entries
  s ← reap_if f.child c.system reaped
  ok (record p {
    world = record (p.world) {
      config = record c { system = s };
      switch = (socket_switch_prepare p.world.switch).0;
    };
    flags = done f;
  })
main_round little_endian env k directory p failed =
    ok (record p { world = record (p.world) { switch = (socket_switch_prepare p.world.switch).0 } })

-- The loop, over the answers that come until it ends.
unfoldable pub main_loop :
    Bool → Environment → Kernel → List ℕ → Process → List Answer → Outcome Process
main_loop little_endian env k directory p [] = ok p
main_loop little_endian env k directory p (a ∷ rest) = do
  q ← main_round little_endian env k directory p a
  elim (q.flags.reboot == 0) [
    | true ↦ main_loop little_endian env k directory q rest
    | false ↦ ok q
  ]

-- The configuration of the daemon of rc, which is zeroed.
abbrev pub rc_conf : DaemonConf
rc_conf = record (daemon_conf_init 0) { sigfinish = pos 0; sigreload = pos 0 }

abbrev pub rc_daemon : ℕ → Daemon
rc_daemon pid = record { state = started; name = b'r' ∷ b'c' ∷ []; pid = pid; conf = rc_conf }

-- The loop of rc, over what is reaped after each return of sigsuspend(2), and whether it ended.
unfoldable pub rc_loop : System → List (List (SigInfo × Option ℕ)) → Outcome (System × Bool)
rc_loop s [] = ok (s, false)
rc_loop s (reaped ∷ rest) = do
  s' ← reap_children s reaped
  elim (spawns_empty s') [ true ↦ ok (s', true) | false ↦ rc_loop s' rest ]

-- What rc meets: the address of its daemon, which is on the stack, the pid that fork(2) gives, and what is
-- reaped.
pub record RunCommands : Type 0 where
  pub place : ℕ
  pub fork : Option ℕ
  pub wakes : List (List (SigInfo × Option ℕ))

-- The system that rc leaves, in which the stack is free again; `none` while it waits.
unfoldable pub rc : System → RunCommands → Option ℕ → Outcome (Option System)
rc s r none = ok (some s)
rc s r (some pid) = do
  recorded ← spawns_record (emit (put s r.place (rc_daemon pid)) (forked r.place pid)) r.place
  (s', returned) ← rc_loop recorded r.wakes
  ok (elim returned [
    | true ↦ some (record s' { store = write s'.store r.place none })
    | false ↦ none
  ])

-- `#ifdef CONFIG_RC_PATH`
unfoldable pub rc_if : Option RunCommands → System → Outcome (Option System)
rc_if none s = ok (some s)
rc_if (some r) s = rc s r r.fork

-- `sigchld = 0;` at the end of rc, which returns before it if fork(2) fails. The children that ended
-- while it waited had set it.
unfoldable pub rc_flags : Option RunCommands → Flags → Flags
rc_flags none f = f
rc_flags (some r) f = elim (r.fork) [ none ↦ f | some pid ↦ record f { child = false } ]

-- setup; `none` while rc waits.
unfoldable pub setup :
    Environment
    → Kernel
    → List ℕ
    → Bool
    → List ℕ
    → Option RunCommands
    → Option (List Dirent)
    → Process
    → Outcome (Option Process)
setup env k directory made root run entries p = do
  let (mask, waiting) = signals_setup p.mask
  sw ← socket_switch_setup k directory made root p.world.switch
  left ← rc_if run p.world.config.system
  elim left [
    | none ↦ ok none
    | some s ↦ do
      c ← configuration_load env (record (p.world.config) { system = s }) entries
      ok (
          some (record {
            world = record (p.world) { config = c; switch = sw };
            flags = rc_flags run p.flags;
            mask = mask;
            waiting = waiting;
          }))
  ]

-- main, up to teardown.
unfoldable pub main :
    Bool
    → Environment
    → Kernel
    → List ℕ
    → Bool
    → List ℕ
    → Option RunCommands
    → Option (List Dirent)
    → Process
    → List Answer
    → Outcome (Option Process)
main little_endian env k directory made root run entries p answers = do
  set_up ← setup env k directory made root run entries p
  elim set_up [
    | none ↦ ok none
    | some q ↦ do r ← main_loop little_endian env k directory q answers; ok (some r)
  ]

-- A return of sigsuspend(2) in teardown: whether SIGALRM was handled, the children that waitid(2) gives,
-- and whether there are more, which is all that its last answer says.
pub record Wake : Type 0 where
  pub alarm_rang : Bool
  pub reaped : List (SigInfo × Option ℕ)
  pub children : Bool

-- The loop of teardown: the system, and `children` if it ended.
unfoldable pub teardown_loop : System → List Wake → Outcome (System × Option Bool)
teardown_loop s [] = ok (s, none)
teardown_loop s (wake ∷ rest) = do
  s' ← reap_children s wake.reaped
  elim (wake.children && not wake.alarm_rang && not (spawns_empty s')) [
    | true ↦ teardown_loop s' rest
    | false ↦ ok (s', some wake.children)
  ]

-- kill(2) of every process, and the children that are reaped then.
unfoldable pub kill_remaining : Option Bool → System → List (SigInfo × Option ℕ) → Outcome System
kill_remaining (some true) s reaped = reap_children (emit s (killed_all sigkill)) reaped
kill_remaining (some false) s reaped = ok s
kill_remaining none s reaped = ok s

-- teardown with the seconds of the build, until it calls reboot(2), with the action that it gives it; `none`
-- while it waits.
unfoldable pub teardown :
    Kernel → ℕ → Process → List Wake → List (SigInfo × Option ℕ) → Outcome (Process × Option ℕ)
teardown k seconds p wakes reaped = do
  stopped ← spawns_stop p.world.config.system
  sw ← socket_switch_teardown k p.world.switch
  let (mask, waiting) = signals_alarm seconds p.mask
  (s, ended) ← teardown_loop stopped wakes
  s' ← kill_remaining ended s reaped
  let w = record (p.world) { config = record (p.world.config) { system = s' }; switch = sw }
  ok (
    record p { world = w; mask = mask; waiting = waiting },
    elim ended [ none ↦ none | some children ↦ some p.flags.reboot ],
  )
