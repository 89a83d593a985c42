-- ===== src/Child.antt =====
-- The process of a new daemon before its execve(2): daemon_child_setup of src/cyberd/daemon.c.
--
-- The kernel answers a call by the calls made before it, `none` for a failure, after which the code
-- leaves by err(3). The paths of the build are arguments.
pub mod Credentials
pub mod Process
pub mod Reaching
pub mod Standard
pub mod Executing
use cyberd.Base.{ℕ, ℤ, Bool, true, false, List, [], ◌∷◌, ◌++◌, Option, none, some, if◌then◌else◌}
use cyberd.DaemonConf.{DaemonConf}

pub data Call : Type 0 where
  open_read open_write : List ℕ → Call
  dup2 : ℕ → ℕ → Call
  set_umask : ℕ → Call
  chdir : List ℕ → Call
  empty_sigprocmask : Call
  setuid setgid : ℕ → Call
  setsid : Call
  setpriority : ℤ → Call
  execve : Option (List ℕ) → List (List ℕ) → List (List ℕ) → Call

abbrev pub Kernel : Type 0
Kernel = List Call → Call → Option ℕ

-- A part of the code: its result, unless it left, and the calls made until then.
abbrev pub Run : Type 0 → Type 0
Run A = List Call → Option A × List Call

infixl 5 ◌>>=◌
abbrev pub ◌>>=◌ : {A B : Type 0} → Run A → (A → Run B) → Run B
(m >>= f) h = let (a, h') = m h in elim a [ none ↦ (none, h') | some x ↦ f x h' ]

infixl 5 ◌>>◌
abbrev pub ◌>>◌ : {A B : Type 0} → Run A → Run B → Run B
m >> k = m >>= λ _. k

abbrev pub return : {A : Type 0} → A → Run A
return a h = (some a, h)

unfoldable pub syscall : Kernel → Call → Run ℕ
syscall kernel c h = (kernel h c, h ++ c ∷ [])

-- The value that is configured, or the default.
abbrev pub or_default : {A : Type 0} → Option A → A → A
or_default none d = d
or_default (some a) d = a

-- daemon_child_setup from the credentials on: user, group, session, priority and the program.
unfoldable pub become : Kernel → List ℕ → DaemonConf → Run ℕ
become kernel name conf = do
  syscall kernel (setuid conf.uid)
  syscall kernel (setgid conf.gid)
  if conf.nosid then return 0 else syscall kernel setsid
  syscall kernel (setpriority conf.priority)
  syscall kernel
      (execve conf.path (or_default conf.arguments (name ∷ [])) (or_default conf.environment []))

-- umask(2), which cannot fail.
abbrev pub umask_call : ℕ → Run ℕ
umask_call mask h = (some 0, h ++ set_umask mask ∷ [])

-- The standard input, output and error.
unfoldable pub open_standard : Kernel → List ℕ → DaemonConf → Run (ℕ × ℕ × ℕ)
open_standard kernel dev_null conf = do
  infd ← syscall kernel (open_read (or_default conf.in_path dev_null))
  outfd ← syscall kernel (open_write (or_default conf.out_path dev_null))
  errfd ← elim (conf.err_path) [
    | none ↦ return outfd
    | some path ↦ syscall kernel (open_write path)
  ]
  return (infd, outfd, errfd)

unfoldable pub replace_standard : Kernel → ℕ × ℕ × ℕ → Run ℕ
replace_standard kernel (infd, outfd, errfd) = do
  syscall kernel (dup2 infd 0)
  syscall kernel (dup2 outfd 1)
  syscall kernel (dup2 errfd 2)

-- Mask of files, working directory and mask of signals.
unfoldable pub reset_inherited : Kernel → List ℕ → DaemonConf → Run ℕ
reset_inherited kernel default_workdir conf = do
  umask_call conf.umask
  syscall kernel (chdir (or_default conf.workdir default_workdir))
  syscall kernel empty_sigprocmask

unfoldable pub daemon_child_setup : Kernel → List ℕ → List ℕ → List ℕ → DaemonConf → Run ℕ
daemon_child_setup kernel dev_null default_workdir name conf = do
  fds ← open_standard kernel dev_null conf
  replace_standard kernel fds
  reset_inherited kernel default_workdir conf
  become kernel name conf
