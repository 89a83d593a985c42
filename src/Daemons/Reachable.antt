-- ===== src/Daemons/Reachable.antt =====
-- The systems that the callers of src/cyberd/daemon.h, spawns.h and reap_children can reach.
use cyberd.Base.{ℕ, Bool, Option, none, some, List, [], ok, ◌≡◌, ◌≢◌, Returns-ok}
use cyberd.Tree.{null}
use cyberd.Daemons.{
  Daemon, System, SigInfo, cld_other, daemon_create, daemon_start, daemon_stop, daemon_reload,
  daemon_end, daemon_destroy, spawns_stop, reap_child,
}
use cyberd.Daemons.Spawning.{Consistent}
use cyberd.Daemons.Lifecycle.{daemon_stop-Stops, daemon_reload-Signals, daemon_end-Signals}
use cyberd.Daemons.Starting.{ForkFresh, daemon_start-Starts}
use cyberd.Daemons.Destruction.{daemon_create-Creates, daemon_destroy-Destroyed}
use cyberd.Daemons.Reaping.{ReapFresh, reap_child-Reaps}
use cyberd.Daemons.Winddown.{spawns_stop-Quiet}

-- No daemon yet.
abbrev pub initial : System
initial = record { store = λ p. none; spawns = null; trace = [] }

-- One call, on an allocated daemon; what the kernel and malloc(3) answer is what they document.
pub data Step (umask : ℕ) (s : System) : System → Type 0 where
  creates :
      (p held : ℕ) (copied : Bool) (name : List ℕ)
      → s.store p ≡ none
      → Step umask s (daemon_create umask s (some (p, held)) copied name).0
  starts :
      {t : System} (p : ℕ) (d : Daemon) (fork : Option ℕ)
      → s.store p ≡ some d
      → ForkFresh s.store fork
      → daemon_start s p fork ≡ ok t
      → Step umask s t
  stops :
      {t : System} (p : ℕ) (d : Daemon)
      → s.store p ≡ some d
      → daemon_stop s p ≡ ok t
      → Step umask s t
  reloads :
      {t : System} (p : ℕ) (d : Daemon)
      → s.store p ≡ some d
      → daemon_reload s p ≡ ok t
      → Step umask s t
  ends :
      {t : System} (p : ℕ) (d : Daemon)
      → s.store p ≡ some d
      → daemon_end s p ≡ ok t
      → Step umask s t
  destroys :
      {t : System} (p : ℕ) (d : Daemon)
      → s.store p ≡ some d
      → daemon_destroy s p ≡ ok t
      → Step umask s t
  stops_all : {t : System} → spawns_stop s ≡ ok t → Step umask s t
  reaps :
      {t : System} (info : SigInfo) (fork : Option ℕ)
      → info.si_code ≢ cld_other
      → ReapFresh s.store info fork
      → reap_child s info fork ≡ ok t
      → Step umask s t

pub data Reachable (umask : ℕ) : System → Type 0 where
  boot : Reachable umask initial
  after : {s t : System} → Reachable umask s → Step umask s t → Reachable umask t

initial-IsConsistent : Consistent initial
initial-IsConsistent = record {
  balanced = tt;
  sorted = tt;
  running = tt;
  recorded = λ q d a w. absurd (cc a);
}

Step-IsConsistent : (umask : ℕ) (s t : System) → Consistent s → Step umask s t → Consistent t
Step-IsConsistent umask s _ c (creates p held copied name a) =
    (daemon_create-Creates umask s p held copied name c a).0
Step-IsConsistent umask s t c (starts p d fork a f q) =
    (Returns-ok (daemon_start-Starts s p d fork c a f) q).0
Step-IsConsistent umask s t c (stops p d a q) = (Returns-ok (daemon_stop-Stops s p d c a) q).0
Step-IsConsistent umask s t c (reloads p d a q) = (Returns-ok (daemon_reload-Signals s p d c a) q).0
Step-IsConsistent umask s t c (ends p d a q) = (Returns-ok (daemon_end-Signals s p d c a) q).0
Step-IsConsistent umask s t c (destroys p d a q) =
    (Returns-ok (daemon_destroy-Destroyed s p d c a) q).0
Step-IsConsistent umask s t c (stops_all q) = (Returns-ok (spawns_stop-Quiet s c) q).0
Step-IsConsistent umask s t c (reaps info fork n f q) =
    (Returns-ok (reap_child-Reaps s info fork c n f) q).0

-- In every reachable system the tree of spawns is a valid AVL tree by pid, which holds no freed daemon
-- and exactly the daemons that have a process, each found under its pid.
pub Reachable-IsConsistent : {umask : ℕ} {s : System} → Reachable umask s → Consistent s
Reachable-IsConsistent boot = initial-IsConsistent
Reachable-IsConsistent (after {s = s} {t = t} r h) =
    Step-IsConsistent _ s t (Reachable-IsConsistent r) h
