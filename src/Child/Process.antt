-- ===== src/Child/Process.antt =====
-- What the calls of daemon_child_setup in src/cyberd/daemon.c do to a process, by their manuals: a
-- description that stands beside the code and takes nothing from it but its calls.
use cyberd.Base.{
  ℕ, ℤ, ◌≤◌, ◌≡◌, ◌==◌, refl, Bool, true, false, List, [], ◌∷◌, ◌++◌, Option, none, some,
  append_assoc, append-nil, if◌then◌else◌, ◌∙◌, ap,
}
use cyberd.Child.{
  Call, open_read, open_write, dup2, set_umask, chdir, empty_sigprocmask, setuid, setgid, setsid,
  setpriority, execve, Kernel,
}

pub data File : Type 0 where
  reads writes : List ℕ → File
  inherited : File

-- The descriptors, mask, directory, blocked signals, user, group, session and priority of a process.
pub record Process : Type 0 where
  pub files : ℕ → Option File
  pub mask : ℕ
  pub directory : Option (List ℕ)
  pub blocks_signals : Bool
  pub user : ℕ
  pub group : ℕ
  pub leads_session : Bool
  pub priority : ℤ

abbrev pub set_file : ℕ → Option File → (ℕ → Option File) → ℕ → Option File
set_file v file files n = if n == v then file else files n

-- A call that succeeds.
unfoldable pub succeed : Call → ℕ → Process → Process
succeed (open_read path) v p = record p { files = set_file v (some (reads path)) p.files }
succeed (open_write path) v p = record p { files = set_file v (some (writes path)) p.files }
succeed (dup2 from to) v p = record p { files = set_file to (p.files from) p.files }
succeed (set_umask mask) v p = record p { mask = mask }
succeed (chdir path) v p = record p { directory = some path }
succeed empty_sigprocmask v p = record p { blocks_signals = false }
succeed (setuid uid) v p = record p { user = uid }
succeed (setgid gid) v p = record p { group = gid }
succeed setsid v p = record p { leads_session = true }
succeed (setpriority priority) v p = record p { priority = priority }
succeed (execve path arguments environment) v p = p

-- A call and its answer; one that fails changes nothing, and umask(2) does not fail.
unfoldable pub perform : Call → Option ℕ → Process → Process
perform (set_umask mask) a p = succeed (set_umask mask) 0 p
perform c none p = p
perform c (some v) p = succeed c v p

-- The calls, behind those before them.
unfoldable pub replay : Kernel → List Call → List Call → Process → Process
replay kernel before [] p = p
replay kernel before (c ∷ calls) p =
    replay kernel (before ++ c ∷ []) calls (perform c (kernel before c) p)

pub replay-append :
    (kernel : Kernel) (before calls : List Call) (c : Call) (p : Process)
    → replay kernel before (calls ++ c ∷ []) p
      ≡ perform c (kernel (before ++ calls) c) (replay kernel before calls p)
unfolding replay
replay-append kernel before [] c p = rw (append-nil before) refl
replay-append kernel before (d ∷ calls) c p =
    let p' = perform d (kernel before d) p in
    replay-append kernel (before ++ d ∷ []) calls c p'
    ∙ ap (λ h. perform c (kernel h c) (replay kernel (before ++ d ∷ []) calls p'))
        (append_assoc before (d ∷ []) calls)

abbrev pub IsOpen : Call → Type 0
IsOpen (open_read path) = Unit
IsOpen (open_write path) = Unit
IsOpen c = ⊥

abbrev pub IsPreparation : Call → Type 0
IsPreparation (execve path arguments environment) = ⊥
IsPreparation c = Unit

-- open(2) gives a descriptor that is free, and none of the standard ones, which are taken.
abbrev pub OpensFree : Kernel → Process → Type 0
OpensFree kernel start =
    (h : List Call) (c : Call) (v : ℕ)
    → IsOpen c
    → kernel h c ≡ some v
    → (3 ≤ v) × ((replay kernel [] h start).files v ≡ none)
