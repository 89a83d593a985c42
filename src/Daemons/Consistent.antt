-- ===== src/Daemons/Consistent.antt =====
-- The invariant of spawns that src/cyberd/spawns.c and daemon.h state: the tree holds the daemons
-- that are not stopped, each once and under its pid, and no daemon that was freed.
use cyberd.Base.{
  ℕ, Bool, true, false, Option, some, List, [], ◌∷◌, ◌==◌, ◌≡◌, ◌≢◌, refl, sym, ◌∙◌, arith, All,
  All-imp,
}
use cyberd.Tree.{Node}
use cyberd.Tree.Balance.{IsAvl}
use cyberd.Tree.Sequence.{IsSorted, to_list, lookup}
use cyberd.Daemons.{
  DaemonState, started, stopped, stopping, Daemon, Ref, at, key, write, pid_of, spawns_compare,
}
use cyberd.Daemons.Pids.{agree-IsSorted, agree-lookup, Agrees}

-- `daemon->state != DAEMON_STOPPED`
abbrev pub is_spawned : DaemonState → Bool
is_spawned started = true
is_spawned stopped = false
is_spawned stopping = true

-- `daemon->state == DAEMON_STARTED`
abbrev pub is_started : DaemonState → Bool
is_started started = true
is_started stopped = false
is_started stopping = false

abbrev pub Store : Type 0
Store = ℕ → Option Daemon

-- An allocated daemon with a process, whose address is not `p`.
pub record RunsApart (store : Store) (p : ℕ) (r : Ref) : Type 0 where
  pub address_of : ℕ
  pub daemon : Daemon
  pub is_at : r ≡ at address_of
  pub allocated : store address_of ≡ some daemon
  pub spawned : is_spawned daemon.state ≡ true
  pub apart : (address_of == p) ≡ false

-- The invariant but for the daemon at `p`, which the tree does not hold.
pub record IsApart (store : Store) (p : ℕ) (root : Node Ref) : Type 0 where
  pub balanced : IsAvl root
  pub sorted : IsSorted (spawns_compare store) (to_list root)
  pub running : All (RunsApart store p) (to_list root)
  pub recorded :
      (q : ℕ) (d : Daemon)
      → (q == p) ≡ false
      → store q ≡ some d
      → is_spawned d.state ≡ true
      → lookup (spawns_compare store) (key d.pid) (to_list root) ≡ some (at q)

-- An allocated daemon with a process.
pub record Runs (store : Store) (r : Ref) : Type 0 where
  pub address_of : ℕ
  pub daemon : Daemon
  pub is_at : r ≡ at address_of
  pub allocated : store address_of ≡ some daemon
  pub spawned : is_spawned daemon.state ≡ true

-- The tree is a valid AVL tree by the pids in the store; each of its elements is an allocated daemon
-- with a process; each allocated daemon with a process is the element found under its pid.
pub record IsConsistent (store : Store) (root : Node Ref) : Type 0 where
  pub balanced : IsAvl root
  pub sorted : IsSorted (spawns_compare store) (to_list root)
  pub running : All (Runs store) (to_list root)
  pub recorded :
      (q : ℕ) (d : Daemon)
      → store q ≡ some d
      → is_spawned d.state ≡ true
      → lookup (spawns_compare store) (key d.pid) (to_list root) ≡ some (at q)

-- No process of a daemon has that pid.
abbrev pub Fresh : Store → ℕ → Type 0
Fresh store pid = (q : ℕ) (d : Daemon) → store q ≡ some d → is_spawned d.state ≡ true → d.pid ≢ pid

pub ==-refl : (n : ℕ) → (n == n) ≡ true
==-refl n = ground arith

pub write-same : (store : Store) (p : ℕ) (d : Option Daemon) → write store p d p ≡ d
write-same store p d = rw (==-refl p) refl

pub write-other :
    (store : Store) (p q : ℕ) (d : Option Daemon) → (q == p) ≡ false → write store p d q ≡ store q
write-other store p q d h = rw h refl

pub pid_of-at :
    (store : Store) (p : ℕ) (d : Daemon) → store p ≡ some d → pid_of store (at p) ≡ d.pid
unfolding pid_of
pid_of-at store p d h = rw h refl

pub pid_of-key : (store : Store) (n : ℕ) → pid_of store (key n) ≡ n
unfolding pid_of
pid_of-key store n = refl

-- Away from `p`, a write at `p` changes nothing.
module _ (store : Store) (p : ℕ) (d : Option Daemon) where
  write-Agrees : (xs : List Ref) → All (RunsApart store p) xs → Agrees store (write store p d) xs
  write-Agrees [] h = tt
  write-Agrees (x ∷ xs) h =
      let r = h.0 in
      (
        rw r.is_at (
            pid_of-at (write store p d) r.address_of r.daemon
              (write-other store p r.address_of d r.apart ∙ r.allocated)
            ∙ sym (pid_of-at store r.address_of r.daemon r.allocated)),
        write-Agrees xs h.1,
      )

  write-RunsApart : (r : Ref) → RunsApart store p r → RunsApart (write store p d) p r
  write-RunsApart r h = record {
    address_of = h.address_of;
    daemon = h.daemon;
    is_at = h.is_at;
    allocated = write-other store p h.address_of d h.apart ∙ h.allocated;
    spawned = h.spawned;
    apart = h.apart;
  }

  pub write-IsApart : (root : Node Ref) → IsApart store p root → IsApart (write store p d) p root
  write-IsApart root c =
      let agrees = write-Agrees (to_list root) c.running in
      record {
        balanced = c.balanced;
        sorted = agree-IsSorted store (write store p d) (to_list root) agrees c.sorted;
        running = All-imp _ _ write-RunsApart (to_list root) c.running;
        recorded = λ q e a s r.
            agree-lookup store (write store p d) (key e.pid) (to_list root)
              (pid_of-key (write store p d) e.pid ∙ sym (pid_of-key store e.pid)) agrees
            ∙ c.recorded q e a (sym (write-other store p q d a) ∙ s) r;
      }
