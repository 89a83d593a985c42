-- ===== src/Tests/InitRuns.antt =====
-- src/cyberd/main.c, its sockets and its signals on small inputs.
use cyberd.Base.{
  same_string, not, ℕ, ◌<◌, ◌≤◌, zero, length, ◌>>=◌, Bool, true, false, List, [], ◌∷◌, Option,
  none, some, ok, ◌≡◌, refl, ap, sym, some_inj, ◌∙◌, arith, inl, inr, Returns, subst,
}
use cyberd.Tree.{null}
use cyberd.Sockets.{SocketNode, Switch, World, Kernel, socket_endpoint_node_create}
use cyberd.Sockets.Kept.{Kept, IsNew}
use cyberd.Sockets.Acting.{IsKernel}
use cyberd.Sockets.Serving.{Served}
use cyberd.Sockets.Stealing.{BindsNewPaths, socket_endpoint_node_create_steals}
use cyberd.Signals.{
  Flags, Signal, term, hup, Mask, Number, sigterm, sigchld, sighup, sigalrm, signals_setup,
  signals_alarm,
}
use cyberd.Signals.Delivery.{IsRequest, signals_mask_handlers}
use cyberd.Daemons.{cld_exited}
use cyberd.Main.{Answer, ready, interrupted, Process, Wake, RunCommands, main, main_loop, teardown}
use cyberd.Main.Loop.{Good, main_loop_ends}
use cyberd.Main.Startup.{Unless, main-Good}
use cyberd.Main.Ending.{TornDown, teardown-TornDown}
use cyberd.Tests.StorageRuns.{
  env, env-IsEnvironment, empty, empty-Held, lone, lone-Held, entries, entries-AreFiles,
}

-- The descriptor is new only where no node has it.
abbrev descriptor : ℕ → Option SocketNode → Option ℕ
descriptor fd none = some fd
descriptor fd (some snode) = none

descriptor-IsNew :
    (sw : Switch) (fd n : ℕ) (o : Option SocketNode)
    → sw.nodes fd ≡ o
    → fd < 1024
    → descriptor fd o ≡ some n
    → IsNew sw n
descriptor-IsNew sw fd n none e l h = subst (IsNew sw) (some_inj h) (e, l)
descriptor-IsNew sw fd n (some snode) e l h = absurd (cc h)

-- Sockets at 5, connections at 6, and a byte to read, that of halt; bind(2) takes the paths that do not exist.
abbrev kernel : Kernel
kernel = record {
  malloc = λ sw. true;
  socket = λ sw. descriptor 5 (sw.nodes 5);
  bind = λ sw path. not (sw.files path);
  listen = λ sw. true;
  accept = λ sw fd. descriptor 6 (sw.nodes 6);
  set_cloexec = λ sw fd. true;
  getsockname = λ sw fd. true;
  read = λ sw fd. some (6 ∷ []);
}

kernel-IsKernel : IsKernel kernel
kernel-IsKernel = record {
  socket_new = λ sw fd. descriptor-IsNew sw 5 fd (sw.nodes 5) refl (omega arith);
  accept_new = λ sw l fd. descriptor-IsNew sw 6 fd (sw.nodes 6) refl (omega arith);
}

abbrev no_nodes : Switch
no_nodes = record {
  snodes = null;
  nodes = λ fd. none;
  activeset = λ fd. false;
  readset = λ fd. false;
  files = same_string (b'd' ∷ b'/' ∷ b'x' ∷ []);
}

no_nodes-Kept : Kept no_nodes
no_nodes-Kept = record {
  balanced = tt;
  sorted = tt;
  allocated = λ fd m. absurd m;
  stored = λ fd x a. absurd (cc a);
  active = λ fd m. absurd m;
  only_active = λ fd a. absurd (cc a);
  in_set = λ fd m. absurd m;
}

abbrev start_world : World
start_world = record { config = empty; switch = no_nodes; queued = [] }

abbrev no_flags : Flags
no_flags = record { reboot = 0; child = false; hangup = false; rang = false }

abbrev mask : Mask
mask = record { blocked = λ n. false; handled = λ n. false; alarm = none }

abbrev start_process : Process
start_process = record { world = start_world; flags = no_flags; mask = mask; waiting = λ n. false }

-- SIGHUP, with the files of StorageRuns, and SIGTERM.
abbrev signals : List Signal
signals = hup ∷ term none ∷ []

abbrev answers : List Answer
answers = ready (λ fd. false) 0 ∷ interrupted signals (some entries) [] ∷ []

-- The run commands in the process 20, which ends.
abbrev startup : RunCommands
startup = record {
  place = 1;
  fork = some 20;
  wakes = ((record { si_code = cld_exited; si_pid = 20; si_status = 0 }, none) ∷ []) ∷ [];
}

main-Good_example : Served (Unless (Good env)) kernel true (
    main true env kernel
      (b'd' ∷ [])
      true
      (b'i' ∷ [])
      (some startup)
      (some entries)
      start_process
      answers)
main-Good_example =
    main-Good true env env-IsEnvironment kernel kernel-IsKernel (b'd' ∷ []) true (b'i' ∷ [])
      (some startup) (some entries) start_process answers (empty-Held, no_nodes-Kept) (inl refl)
      (((λ e. absurd (cc e)), tt), tt) entries-AreFiles
      (λ t e. ((λ fd s. absurd (cc s)), λ q e. ((entries-AreFiles, λ c e. tt), λ r e. tt)))

abbrev running : Process
running = record start_process { world = record start_world { config = lone } }

main_loop_ends_example :
    Returns
      (λ q. IsRequest q.flags.reboot)
      (main_loop true env kernel (b'd' ∷ []) running (interrupted signals (some entries) [] ∷ []))
main_loop_ends_example =
    main_loop_ends true env env-IsEnvironment kernel kernel-IsKernel (b'd' ∷ []) running signals
      (term none) (some entries) [] [] (((b'a' ∷ []) ∷ [], (lone-Held, no_nodes-Kept)), inl refl)
      (entries-AreFiles, λ c e. tt) (inr (inl refl)) tt

-- The alarm rings in the second wait.
abbrev wakes : List Wake
wakes =
    record { alarm_rang = false; reaped = []; children = true }
    ∷ record { alarm_rang = true; reaped = []; children = true }
    ∷ []

teardown-TornDown_example : Returns (TornDown running wakes) (teardown kernel 10 running wakes [])
teardown-TornDown_example =
    teardown-TornDown kernel 10 running wakes [] (λ sw fd. refl) lone-Held.consistent no_nodes-Kept
      (tt, (tt, tt)) tt

kernel-BindsNewPaths : BindsNewPaths kernel
kernel-BindsNewPaths sw path h = rw h refl

socket_endpoint_node_create_steals_example :
    let r = socket_endpoint_node_create kernel (b'd' ∷ []) no_nodes (b'x' ∷ []) 255 in
    (r.1 ≡ none) × (r.0.files (b'd' ∷ b'/' ∷ b'x' ∷ []) ≡ false) × (r.0.nodes ≡ no_nodes.nodes)
unfolding cyberd.Base.strcmp
socket_endpoint_node_create_steals_example =
    socket_endpoint_node_create_steals kernel (b'd' ∷ []) (b'x' ∷ []) no_nodes 255 5
      kernel-BindsNewPaths refl refl (omega arith) refl

signals_mask_handlers_example :
    let (now, waiting) = signals_setup mask in
    let (ending, suspended) = signals_alarm 10 now in
    ((n : Number) → now.handled n ≡ now.blocked n)
    × ((n : Number) → waiting n ≡ false)
    × ((n : Number) → ending.handled n ≡ ending.blocked n)
    × (suspended sigchld ≡ false)
    × (suspended sigalrm ≡ false)
    × (suspended sigterm ≡ true)
    × (suspended sighup ≡ true)
signals_mask_handlers_example = signals_mask_handlers mask 10 (λ n. refl)
