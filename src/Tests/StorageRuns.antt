-- ===== src/Tests/StorageRuns.antt =====
-- src/cyberd/configuration.c on a directory with one file.
use cyberd.Base.{
  Ordering, Bool-cases, subst, ◌==◌, ℕ, true, false, List, [], ◌∷◌, map, Option, none, some, ◌≡◌,
  refl, sym, ap, some_inj, ◌∙◌, arith, inl, inr, Returns,
}
use cyberd.Tree.{Node, null, node}
use cyberd.Tree.Sequence.{lookup}
use cyberd.DaemonConf.Lines.Layouts.{print_line}
use cyberd.Daemons.{stopped, write, System, Ref, key, at, Daemon, spawns_compare}
use cyberd.Daemons.Consistent.{write-other, is_spawned, Store, IsConsistent}
use cyberd.Daemons.Spawning.{same-==, idle-IsApart, settle-IsConsistent}
use cyberd.Daemons.Starting.{ForkFresh}
use cyberd.Daemons.Reachable.{initial, boot, Reachable-IsConsistent}
use cyberd.Configuration.{
  stored, Config, Environment, Dirent, configuration_reload, configuration_find,
}
use cyberd.Configuration.Held.{Held}
use cyberd.DaemonConf.Files.Written.{Configured}
use cyberd.DaemonConf.Accepted.{Accepted-IsSane}
use cyberd.Configuration.Loading.{IsEnvironment}
use cyberd.Configuration.Entries.{AreFiles, met}
use cyberd.Configuration.Renewal.{configuration_reload-Held}
use cyberd.Configuration.Finding.{Finds, configuration_find-Finds}
use cyberd.Tests.ConfRuns.{host, shell, shell-Accepted}
use cyberd.Tests.FileRuns.{file, file-IsFile}

-- malloc(3) gives one address.
abbrev allocation : Option Daemon → Option (ℕ × ℕ)
allocation none = some (7, 0)
allocation (some d) = none

-- fork(2) gives one pid.
abbrev free_pid : Node Ref → Option ℕ
free_pid null = some 10
free_pid (node r left right height) = none

-- Memory for one daemon at 7, and the pid 10 while no daemon runs.
abbrev pub env : Environment
env = record {
  host = host;
  default_umask = 18;
  malloc = λ s. allocation (s.store 7);
  strdup = λ s. true;
  fork = λ s. free_pid s.spawns;
}

allocated : (o : Option Daemon) (p held : ℕ) → allocation o ≡ some (p, held) → (7 ≡ p) × (o ≡ none)
allocated none p held h = (ap (λ r. r.0) (some_inj h), refl)
allocated (some d) p held h = absurd (cc h)

env_malloc : (s : System) (p held : ℕ) → allocation (s.store 7) ≡ some (p, held) → s.store p ≡ none
env_malloc s p held h = let (same, n) = allocated (s.store 7) p held h in ap s.store (sym same) ∙ n

lookup_nil : (cmp : Ref → Ref → Ordering) (r : Ref) → lookup cmp r [] ≡ none
unfolding lookup
lookup_nil cmp r = refl

free_pid-ForkFresh :
    (store : Store) (root : Node Ref) → IsConsistent store root → ForkFresh store (free_pid root)
free_pid-ForkFresh store null c = λ q d a r e. absurd (nothing q d (c.recorded q d a r))
  where
    nothing : (q : ℕ) (d : Daemon) → lookup (spawns_compare store) (key d.pid) [] ≡ some (at q) → ⊥
    nothing q d n = absurd (cc (lookup_nil (spawns_compare store) (key d.pid), n))
free_pid-ForkFresh store (node r left right height) c = tt

pub env-IsEnvironment : IsEnvironment env
env-IsEnvironment = record {
  mask_bits = omega arith;
  malloc_free = env_malloc;
  fork_fresh = λ s c. free_pid-ForkFresh s.store s.spawns c;
}

abbrev pub empty : Config
empty = record { system = initial; daemons = null }

pub empty-Held : Held host [] [] none empty
empty-Held = record {
  consistent = Reachable-IsConsistent {umask = 18} boot;
  configured = λ q d a. absurd (cc a);
  balanced = tt;
  sorted = tt;
  elements = tt;
  waiting = tt;
  covered = λ q d a. absurd (cc a);
  apart = λ r m n. m;
  hand_apart = λ q i. absurd (cc i);
}

-- The daemon `a`, which is stopped, at 7.
abbrev pub daemon_a : Daemon
daemon_a = record { state = stopped; name = b'a' ∷ []; pid = 0; conf = shell }

abbrev pub lone : Config
lone = record {
  system = record initial { store = write initial.store 7 (some daemon_a) };
  daemons = node (stored 7) null null 1;
}

-- What the store has.
lone_only : (q : ℕ) (d : Daemon) → lone.system.store q ≡ some d → (q ≡ 7) × (d ≡ daemon_a)
lone_only q d a = elim (Bool-cases (q == 7)) [
  | inl h ↦ (same-== q 7 h, sym (some_inj (sym (write_at q h) ∙ a)))
  | inr h ↦ absurd (cc (write-other initial.store 7 q (some daemon_a) h, a))
]
  where
    write_at : (q : ℕ) → (q == 7) ≡ true → write initial.store 7 (some daemon_a) q ≡ some daemon_a
    write_at q h = rw h refl

shell-Configured : Configured host shell
shell-Configured =
    (Accepted-IsSane host 18 shell (omega arith) shell-Accepted, (b'/' ∷ b's' ∷ [], refl, refl))

pub lone-Held : Held host ((b'a' ∷ []) ∷ []) [] none lone
lone-Held = record {
  consistent =
      settle-IsConsistent initial.store 7 (some daemon_a) null
        (idle-IsApart initial.store 7 (λ e q. absurd (cc q)) null
          (Reachable-IsConsistent {umask = 18} boot))
        (λ e q. subst (λ d. is_spawned d.state ≡ false) (some_inj q) refl);
  configured =
      λ q d a. subst (λ e. Configured host e.conf) (sym (lone_only q d a).1) shell-Configured;
  balanced = (tt, tt, refl, omega arith, omega arith);
  sorted = (tt, tt);
  elements = (
    record { address_of = 7; daemon = daemon_a; is_at = refl; allocated = refl; known = inl refl },
    tt,
  );
  waiting = tt;
  covered = λ q d a. inl (inl (ap stored (lone_only q d a).0));
  apart = λ r m n. n;
  hand_apart = λ q i. absurd (cc i);
}

-- A file `a` with the line of FileRuns.
abbrev pub entries : List Dirent
entries =
    record { d_name = b'a' ∷ []; opened = some (map (λ line. print_line line.0 line.1) file) } ∷ []

pub entries-AreFiles : AreFiles [] entries
entries-AreFiles = ((λ m. m), (file, file-IsFile, refl), tt)

configuration_reload-Held_example :
    Returns (Held host (met [] entries) [] none) (configuration_reload env lone (some entries))
configuration_reload-Held_example =
    configuration_reload-Held env ((b'a' ∷ []) ∷ []) lone entries env-IsEnvironment lone-Held
      entries-AreFiles

configuration_find-Finds_example : Finds lone (b'a' ∷ []) (configuration_find lone (b'a' ∷ []))
configuration_find-Finds_example =
    configuration_find-Finds host ((b'a' ∷ []) ∷ []) lone (b'a' ∷ []) lone-Held
