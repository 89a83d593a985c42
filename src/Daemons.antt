-- ===== src/Daemons.antt =====
-- The life of a daemon: src/cyberd/daemon.c and spawns.c, and the reaping of src/cyberd/main.c.
--
-- Daemons are structures that configuration.c allocates and that the tree of spawns refers to, so
-- they stand in a store, and a comparison of two elements reads their pids in it. What the code asks
-- of the kernel is a trace; what the kernel answers to fork(2), malloc(3) and waitid(2) is an
-- argument.
pub mod Pids
pub mod Consistent
pub mod Spawning
pub mod Retrieving
pub mod Recording
pub mod Lifecycle
pub mod Starting
pub mod Reaping
pub mod Stopping
pub mod Winddown
pub mod Teardown
pub mod Destruction
pub mod Reachable
use cyberd.Base.{
  ℕ, ℤ, compare, Ordering, Bool, true, false, not, List, [], ◌∷◌, ◌++◌, Option, none, some, ◌==◌,
  if◌then◌else◌, Outcome, ok, fault, aborted, use_after_free, ◌>>=◌,
}
use cyberd.Tree.{Node, null, Tree, tree_insert, tree_remove, tree_mutate, tree_deinit}
use cyberd.DaemonConf.{DaemonConf, StartFlags, no_flags, sigkill, daemon_conf_init}

pub data DaemonState : Type 0 where
  started stopped stopping : DaemonState

-- `struct daemon`
pub record Daemon : Type 0 where
  pub state : DaemonState
  pub name : List ℕ
  pub pid : ℕ
  pub conf : DaemonConf

-- An element of a tree: the address of an allocated daemon, or a key that lives on the stack.
pub data Ref : Type 0 where
  at : ℕ → Ref
  key : ℕ → Ref

-- What the process did to others: kill(2) of one or of all, and fork(2) for the daemon at an address.
pub data Effect : Type 0 where
  killed : ℕ → ℤ → Effect
  forked : ℕ → ℕ → Effect
  killed_all : ℤ → Effect

pub record System : Type 0 where
  pub store : ℕ → Option Daemon
  pub spawns : Node Ref
  pub trace : List Effect

abbrev pub write : (ℕ → Option Daemon) → ℕ → Option Daemon → ℕ → Option Daemon
write store p d q = if q == p then d else store q

abbrev stored_pid : Option Daemon → ℕ
stored_pid none = 0
stored_pid (some d) = d.pid

-- `daemon->pid` of an element; no theorem rests on the pid of a freed daemon.
unfoldable pub pid_of : (ℕ → Option Daemon) → Ref → ℕ
pid_of store (at p) = stored_pid (store p)
pid_of store (key pid) = pid

-- spawns_compare_function: the sign of the difference of two pids.
unfoldable pub spawns_compare : (ℕ → Option Daemon) → Ref → Ref → Ordering
spawns_compare store a b = compare (pid_of store a) (pid_of store b)

-- `spawns`, with the comparison that the store gives now.
abbrev pub spawns_tree : System → Tree Ref
spawns_tree s = record { compare = spawns_compare s.store; root = s.spawns }

-- A read of `*daemon`.
unfoldable pub fetch : System → ℕ → Outcome Daemon
fetch s p = elim (s.store p) [ none ↦ fault use_after_free | some d ↦ ok d ]

-- A write of `*daemon`.
abbrev pub put : System → ℕ → Daemon → System
put s p d = record s { store = write s.store p (some d) }

abbrev pub emit : System → Effect → System
emit s e = record s { trace = s.trace ++ e ∷ [] }

unfoldable pub spawns_record : System → ℕ → Outcome System
spawns_record s p = do t ← tree_insert (spawns_tree s) (at p); ok (record s { spawns = t.root })

unfoldable pub spawns_retrieve : System → ℕ → Outcome (System × Option Ref)
spawns_retrieve s pid = do
  (t, found, freed) ← tree_remove (spawns_tree s) (key pid)
  ok (record s { spawns = t.root }, found)

unfoldable pub spawns_empty : System → Bool
spawns_empty s = elim (s.spawns) [ null ↦ true | _ ↦ false ]

-- The elements of the nodes that it frees.
unfoldable pub spawns_cleanup : System → List Ref
spawns_cleanup s = tree_deinit (spawns_tree s)

-- daemon_spawn in the parent; `fork` is the child's pid, none if fork(2) fails.
unfoldable pub daemon_spawn : System → ℕ → Option ℕ → Outcome (System × Bool)
daemon_spawn s p none = ok (s, false)
daemon_spawn s p (some pid) = do
  d ← fetch s p
  let s' = emit (put s p (record d { pid = pid; state = started })) (forked p pid)
  s'' ← spawns_record s' p
  ok (s'', true)

unfoldable pub daemon_start : System → ℕ → Option ℕ → Outcome System
daemon_start s p fork = do
  d ← fetch s p
  elim (d.state) [
    | started ↦ ok s
    | stopped ↦ do (s', spawned) ← daemon_spawn s p fork; ok s'
    | stopping ↦ ok s
  ]

unfoldable pub daemon_stop : System → ℕ → Outcome System
daemon_stop s p = do
  d ← fetch s p
  elim (d.state) [
    | started ↦ ok (put (emit s (killed d.pid d.conf.sigfinish)) p (record d { state = stopping }))
    | stopped ↦ ok s
    | stopping ↦ ok s
  ]

unfoldable pub daemon_reload : System → ℕ → Outcome System
daemon_reload s p = do
  d ← fetch s p
  elim (d.state) [
    | started ↦ ok (emit s (killed d.pid d.conf.sigreload))
    | stopped ↦ ok s
    | stopping ↦ ok s
  ]

unfoldable pub daemon_end : System → ℕ → Outcome System
daemon_end s p = do
  d ← fetch s p
  elim (d.state) [ stopped ↦ ok s | _ ↦ ok (emit s (killed d.pid sigkill)) ]

-- daemon_create; `allocated` is malloc(3)'s address if it succeeds, with what the memory held as a
-- pid, and `copied` says if strdup(3) succeeds.
unfoldable pub daemon_create : ℕ → System → Option (ℕ × ℕ) → Bool → List ℕ → System × Option ℕ
daemon_create default_umask s none copied name = (s, none)
daemon_create default_umask s (some (p, held)) copied name = if not copied then (s, none) else (
  put s p
      (record { state = stopped; name = name; pid = held; conf = daemon_conf_init default_umask }),
  some p,
)

unfoldable pub daemon_destroy : System → ℕ → Outcome System
daemon_destroy s p = do
  d ← fetch s p
  s' ← elim (d.state) [ stopped ↦ ok s | _ ↦ do (s', found) ← spawns_retrieve s d.pid; ok s' ]
  ok (record s' { store = write s'.store p none })

-- The address of an element that the code dereferences later than the call that made it.
abbrev pub address : Ref → Outcome ℕ
address (at p) = ok p
address (key pid) = fault use_after_free

unfoldable pub spawns_stop_element : Ref → System → Outcome System
spawns_stop_element r s = do
  p ← address r
  d ← fetch s p
  daemon_stop (put s p (record d { conf = record (d.conf) { start = no_flags } })) p

unfoldable pub spawns_stop : System → Outcome System
spawns_stop s = tree_mutate (spawns_tree s) (λ r m. m >>= spawns_stop_element r) (ok s)

-- `si_code`
pub data Code : Type 0 where
  cld_exited cld_killed cld_dumped cld_other : Code

-- `siginfo_t`, as waitid(2) fills it for a child.
pub record SigInfo : Type 0 where
  pub si_pid : ℕ
  pub si_code : Code
  pub si_status : ℕ

-- Whether the flags ask for a new start after that end.
unfoldable pub restarts : StartFlags → SigInfo → Outcome Bool
restarts flags info = elim (info.si_code) [
  | cld_exited ↦ ok (if info.si_status == 0 then flags.exitsuccess else flags.exitfailure)
  | cld_killed ↦ ok flags.killed
  | cld_dumped ↦ ok flags.dumped
  | cld_other ↦ fault aborted
]

unfoldable pub reaped_daemon : System → SigInfo → Ref → Option ℕ → Outcome System
reaped_daemon s info r fork = do
  p ← address r
  d ← fetch s p
  again ← restarts d.conf.start info
  let s' = put s p (record d { state = stopped })
  if again then daemon_start s' p fork else ok s'

unfoldable pub reaped_orphan : System → SigInfo → Outcome System
reaped_orphan s info = elim (info.si_code) [ cld_other ↦ fault aborted | _ ↦ ok s ]

-- One round of the loop of reap_children.
unfoldable pub reap_child : System → SigInfo → Option ℕ → Outcome System
reap_child s info fork = do
  (s', found) ← spawns_retrieve s info.si_pid
  elim found [ none ↦ reaped_orphan s' info | some r ↦ reaped_daemon s' info r fork ]

-- reap_children on the children that waitid(2) gives before it fails or finds none, each with the
-- answer to the fork(2) of its round, if there is one.
unfoldable pub reap_children : System → List (SigInfo × Option ℕ) → Outcome System
reap_children s [] = ok s
reap_children s ((info, fork) ∷ rest) = reap_child s info fork >>= λ s'. reap_children s' rest
