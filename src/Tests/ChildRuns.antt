-- ===== src/Tests/ChildRuns.antt =====
-- daemon_child_setup of src/cyberd/daemon.c with two kernels.
use cyberd.Base.{
  ltb, pos, Option, ◌≤◌, Bool, false, not, ◌&&◌, ◌||◌, Bool-cases, inl, inr, ℕ, List, [], ◌∷◌, ◌++◌,
  none, some, ◌≡◌, ◌≢◌, refl, true, arith, if◌then◌else◌, ◌==◌,
}
use cyberd.DaemonConf.{DaemonConf, daemon_conf_init}
use cyberd.Child.{
  Call, open_read, open_write, dup2, set_umask, chdir, empty_sigprocmask, setuid, setgid, setsid,
  setpriority, execve, Kernel, daemon_child_setup,
}
use cyberd.Child.Credentials.{DropsPrivileges, daemon_child_setup_never_executes}
use cyberd.Child.Process.{Process, inherited, OpensFree, replay, perform, succeed}
use cyberd.Child.Executing.{Ends, Prepared, program, daemon_child_setup-Ends}

-- A web server that runs as another user and group.
abbrev web : DaemonConf
web = record (daemon_conf_init 18) { path = some (b'/' ∷ b'w' ∷ []); uid = 33; gid = 33 }

abbrev drops : Call → Bool
drops (setuid uid) = not (uid == 0)
drops c = false

abbrev gave_up : List Call → Bool
gave_up [] = false
gave_up (c ∷ h) = drops c || gave_up h

-- A kernel that refuses a group to a process that gave up root's privileges, and nothing else.
abbrev privileges : Kernel
privileges h (setgid gid) = if gave_up h && not (gid == 0) then none else some 0
privileges h c = some 3

gave_up-append : (h : List Call) (uid : ℕ) → uid ≢ 0 → gave_up (h ++ setuid uid ∷ []) ≡ true
gave_up-append [] uid n = ground arith
gave_up-append (c ∷ h) uid n = elim (Bool-cases (drops c)) [
  | inl d ↦ rw d refl
  | inr d ↦ rw d (gave_up-append h uid n)
]

privileges-DropsPrivileges : DropsPrivileges privileges
privileges-DropsPrivileges h uid gid u g = rw (gave_up-append h uid u) (ground arith)

daemon_child_setup_never_executes_example :
    (daemon_child_setup privileges [] [] (b'w' ∷ []) web []).0 ≡ none
daemon_child_setup_never_executes_example =
    daemon_child_setup_never_executes privileges [] [] (b'w' ∷ []) web [] privileges-DropsPrivileges
      (λ h. omega (arith, h)) (λ h. omega (arith, h))

-- The first file that is opened is read and gets the descriptor 3, the next one is written and gets 4. No
-- other call fails but a further open(2).
abbrev second : List Call → Option ℕ
second (open_read file ∷ []) = some 4
second h = none

abbrev opens : Kernel
opens [] (open_read path) = some 3
opens (c ∷ h) (open_read path) = none
opens h (open_write path) = second h
opens h c = some 0

abbrev start : Process
start = record {
  files = λ n. if ltb n 3 then some inherited else none;
  mask = 0;
  directory = none;
  blocks_signals = true;
  user = 0;
  group = 0;
  leads_session = false;
  priority = pos 0;
}

first-files :
    (h : List Call) (path : List ℕ) (v : ℕ)
    → opens h (open_read path) ≡ some v
    → (3 ≤ v) × ((replay opens [] h start).files v ≡ none)
unfolding replay
first-files [] path v e = ground (arith, e)
first-files (c ∷ h) path v e = absurd cc

second-files :
    (h : List Call) (v : ℕ)
    → second h ≡ some v
    → (3 ≤ v) × ((replay opens [] h start).files v ≡ none)
unfolding replay perform succeed
second-files [] v e = absurd cc
second-files (open_read path ∷ []) v e = ground (arith, e)
second-files (open_write path ∷ h) v e = absurd cc
second-files (dup2 from to ∷ h) v e = absurd cc
second-files (set_umask mask ∷ h) v e = absurd cc
second-files (chdir path ∷ h) v e = absurd cc
second-files (empty_sigprocmask ∷ h) v e = absurd cc
second-files (setuid uid ∷ h) v e = absurd cc
second-files (setgid gid ∷ h) v e = absurd cc
second-files (setsid ∷ h) v e = absurd cc
second-files (setpriority n ∷ h) v e = absurd cc
second-files (execve path arguments environment ∷ h) v e = absurd cc
second-files (open_read path ∷ d ∷ h) v e = absurd cc

opens-OpensFree : OpensFree opens start
opens-OpensFree [] (open_read path) v i e = first-files [] path v e
opens-OpensFree (c ∷ h) (open_read path) v i e = absurd cc
opens-OpensFree [] (open_write path) v i e = absurd cc
opens-OpensFree (c ∷ h) (open_write path) v i e = second-files (c ∷ h) v e
opens-OpensFree [] (dup2 from to) v i e = absurd i
opens-OpensFree (c ∷ h) (dup2 from to) v i e = absurd i
opens-OpensFree [] (set_umask mask) v i e = absurd i
opens-OpensFree (c ∷ h) (set_umask mask) v i e = absurd i
opens-OpensFree [] (chdir path) v i e = absurd i
opens-OpensFree (c ∷ h) (chdir path) v i e = absurd i
opens-OpensFree [] empty_sigprocmask v i e = absurd i
opens-OpensFree (c ∷ h) empty_sigprocmask v i e = absurd i
opens-OpensFree [] (setuid uid) v i e = absurd i
opens-OpensFree (c ∷ h) (setuid uid) v i e = absurd i
opens-OpensFree [] (setgid gid) v i e = absurd i
opens-OpensFree (c ∷ h) (setgid gid) v i e = absurd i
opens-OpensFree [] setsid v i e = absurd i
opens-OpensFree (c ∷ h) setsid v i e = absurd i
opens-OpensFree [] (setpriority n) v i e = absurd i
opens-OpensFree (c ∷ h) (setpriority n) v i e = absurd i
opens-OpensFree [] (execve path arguments environment) v i e = absurd i
opens-OpensFree (c ∷ h) (execve path arguments environment) v i e = absurd i

-- A daemon that runs as root.
abbrev clock : DaemonConf
clock = record (daemon_conf_init 18) { path = some (b'/' ∷ b'c' ∷ []) }

daemon_child_setup-Ends_example :
    Ends opens start
      (Prepared [] [] (b'w' ∷ []) clock)
      (program [] [] (b'w' ∷ []) clock)
      (daemon_child_setup opens [] [] (b'w' ∷ []) clock [])
daemon_child_setup-Ends_example =
    daemon_child_setup-Ends [] [] (b'w' ∷ []) clock opens start opens-OpensFree
