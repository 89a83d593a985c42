-- ===== src/Tests/DaemonRuns.antt =====
-- src/cyberd/daemon.c, spawns.c and the reaping of main.c on two daemons.
use cyberd.Base.{ℕ, true, false, some, [], ◌∷◌, ok, ◌≡◌, ◌≢◌, refl, Returns, ◌>>=◌, arith}
use cyberd.Tree.{
  null, node, insert, remove, rebalance, unlink_root, destroy, tree_insert, tree_remove,
}
use cyberd.DaemonConf.{no_flags, daemon_conf_init, sigkill, sighup}
use cyberd.Daemons.{
  started, stopped, Daemon, at, System, killed, forked, put, emit, fetch, pid_of, spawns_compare,
  spawns_record, spawns_retrieve, SigInfo, cld_killed, cld_other, restarts, daemon_create,
  daemon_spawn, daemon_start, daemon_stop, daemon_reload, daemon_end, daemon_destroy, spawns_stop,
  reap_child, reap_children, reaped_daemon,
}
use cyberd.Daemons.Consistent.{is_spawned}
use cyberd.Daemons.Spawning.{Consistent}
use cyberd.Daemons.Lifecycle.{
  Stops, Signals, daemon_stop-Stops, daemon_reload-Signals, daemon_end-Signals,
}
use cyberd.Daemons.Starting.{Starts, daemon_start-Starts}
use cyberd.Daemons.Destruction.{daemon_create-Creates, Creates, daemon_destroy-Destroyed, Destroyed}
use cyberd.Daemons.Reaping.{Reaps, reap_child-Reaps}
use cyberd.Daemons.Stopping.{Winds, Quiet}
use cyberd.Daemons.Winddown.{spawns_stop-Quiet}
use cyberd.Daemons.Teardown.{Winding, stopped_never_forks}
use cyberd.Daemons.Reachable.{
  initial, Reachable, boot, after, creates, starts, Reachable-IsConsistent,
}

abbrev loaded : System
loaded =
    (daemon_create 18 (daemon_create 18 initial (some (1, 0)) true (b'a' ∷ [])).0 (some (2, 0)) true
      (b'b' ∷ [])).0

abbrev first : Daemon
first = record { state = stopped; name = b'a' ∷ []; pid = 0; conf = daemon_conf_init 18 }

abbrev second : Daemon
second = record { state = stopped; name = b'b' ∷ []; pid = 0; conf = daemon_conf_init 18 }

loaded_first : loaded.store 1 ≡ some first
unfolding daemon_create
loaded_first = refl

loaded_stopped : (q : ℕ) (d : Daemon) → loaded.store q ≡ some d → is_spawned d.state ≡ false
unfolding daemon_create
loaded_stopped q d h = ground arith

loaded-Reachable : Reachable 18 loaded
unfolding daemon_create
loaded-Reachable =
    after (after boot (creates 1 0 true (b'a' ∷ []) refl)) (creates 2 0 true (b'b' ∷ []) refl)

-- The first daemon started.
abbrev running : System
running =
    emit
      (record (put loaded 1 (record first { pid = 10; state = started })) {
        spawns = node (at 1) null null 1;
      })
      (forked 1 10)

run_start : daemon_start loaded 1 (some 10) ≡ ok running
unfolding daemon_start daemon_create fetch daemon_spawn spawns_record tree_insert insert
run_start = refl

running-Reachable : Reachable 18 running
running-Reachable = after loaded-Reachable (
    starts 1 first (some 10) loaded_first (λ q d a w. absurd (cc (w, loaded_stopped q d a)))
      run_start)

Reachable-IsConsistent_example : Consistent running
Reachable-IsConsistent_example = Reachable-IsConsistent running-Reachable

running-Consistent : Consistent running
running-Consistent = Reachable-IsConsistent running-Reachable

loaded-Consistent : Consistent loaded
loaded-Consistent = Reachable-IsConsistent loaded-Reachable

running_pids :
    (q : ℕ) (d : Daemon) → running.store q ≡ some d → is_spawned d.state ≡ true → d.pid ≡ 10
unfolding daemon_create
running_pids q d h w = ground arith

daemon_start-Starts_example :
    Returns
      (λ t. Consistent t × Starts running 2 second (some 11) t)
      (daemon_start running 2 (some 11))
unfolding daemon_create
daemon_start-Starts_example =
    daemon_start-Starts running 2 second (some 11) running-Consistent refl
      (λ q d a w h. absurd (cc (running_pids q d a w, h)))

abbrev first_running : Daemon
first_running = record first { pid = 10; state = started }

daemon_stop-Stops_example :
    Returns (λ t. Consistent t × Stops running 1 first_running t) (daemon_stop running 1)
daemon_stop-Stops_example = daemon_stop-Stops running 1 first_running running-Consistent refl

daemon_reload-Signals_example :
    Returns
      (λ t. Consistent t × Signals true running (killed 10 sighup) t)
      (daemon_reload running 1)
unfolding daemon_conf_init
daemon_reload-Signals_example =
    daemon_reload-Signals running 1 first_running running-Consistent refl

daemon_end-Signals_example :
    Returns (λ t. Consistent t × Signals true running (killed 10 sigkill) t) (daemon_end running 1)
daemon_end-Signals_example = daemon_end-Signals running 1 first_running running-Consistent refl

daemon_create-Creates_example :
    let r = daemon_create 18 running (some (3, 7)) true (b'c' ∷ []) in
    Consistent r.0 × Creates running 3 7 18 (b'c' ∷ []) true r
unfolding daemon_create
daemon_create-Creates_example =
    daemon_create-Creates 18 running 3 7 true (b'c' ∷ []) running-Consistent refl

daemon_destroy-Destroyed_example : Returns (Destroyed running 1) (daemon_destroy running 1)
daemon_destroy-Destroyed_example =
    daemon_destroy-Destroyed running 1 first_running running-Consistent refl

-- The end of the first daemon by a signal.
abbrev ending : SigInfo
ending = record { si_pid = 10; si_code = cld_killed; si_status = 9 }

ending-child : ending.si_code ≢ cld_other
ending-child h = cc

-- A daemon whose flags ask for a new start after a signal.
abbrev restarting : System
restarting = put running 1 (record first_running {
  conf = record (daemon_conf_init 18) { start = record no_flags { killed = true } };
})

reap_child-Reaps_example :
    Returns
      (λ t. Consistent t × Reaps running ending (some 12) t)
      (reap_child running ending (some 12))
reap_child-Reaps_example =
    reap_child-Reaps running ending (some 12) running-Consistent ending-child
      (λ p d a w i again q e b v n. absurd (n (running_pids q e b v)))

run_reap :
    (reap_child restarting ending (some 12) >>= λ s. ok s.trace)
    ≡ ok (forked 1 10 ∷ forked 1 12 ∷ [])
unfolding reap_child spawns_retrieve tree_remove remove spawns_compare pid_of unlink_root rebalance
    destroy reaped_daemon fetch restarts daemon_start daemon_spawn spawns_record tree_insert insert
    daemon_create
run_reap = refl

spawns_stop-Quiet_example :
    Returns (λ t. Consistent t × Winds running t × Quiet t.store) (spawns_stop running)
spawns_stop-Quiet_example = spawns_stop-Quiet running running-Consistent

stopped_never_forks_example :
    Returns
      (Winding running)
      (spawns_stop running >>= λ t. reap_children t ((ending, some 12) ∷ []))
stopped_never_forks_example =
    stopped_never_forks running ((ending, some 12) ∷ []) running-Consistent (ending-child, tt)
