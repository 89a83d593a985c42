-- ===== src/Child/Standard.antt =====
-- How daemon_child_setup of src/cyberd/daemon.c sets descriptors, mask, directory and signals.
use cyberd.Base.{
  ℕ, ◌≤◌, ◌<◌, ◌≡◌, ◌==◌, inl, inr, refl, true, false, List, Option, none, some, Bool-cases, arith,
}
use cyberd.DaemonConf.{DaemonConf}
use cyberd.Child.{
  Call, open_read, open_write, dup2, chdir, empty_sigprocmask, Kernel, Run, ◌>>=◌, ◌>>◌, return,
  syscall, umask_call, open_standard, replace_standard, reset_inherited, or_default,
}
use cyberd.Child.Process.{File, reads, writes, Process, set_file, succeed, OpensFree}
use cyberd.Child.Reaching.{
  Failed, Reaches, Goes, >>=-Goes, syscall-Goes, umask_call-Goes, call-Goes,
}

-- A descriptor that is given anew leaves the others alone.
set_file-other :
    (files : ℕ → Option File) (v w : ℕ) (f : File) (g : Option File)
    → files w ≡ none
    → files v ≡ some f
    → set_file w g files v ≡ some f
set_file-other files v w f g n s = elim (Bool-cases (v == w)) [
  | inl b ↦ rw b (absurd (ground (arith, b, n, s)))
  | inr b ↦ rw b s
]

set_file-same : (files : ℕ → Option File) (v : ℕ) (g : Option File) → set_file v g files v ≡ g
set_file-same files v g = let b : (v == v) ≡ true = ground arith in rw b refl

set_file-apart :
    (files : ℕ → Option File) (v w : ℕ) (f : File) (g : Option File)
    → w < v
    → files v ≡ some f
    → set_file w g files v ≡ some f
set_file-apart files v w f g l s = let b : (v == w) ≡ false = ground (arith, l) in rw b s

module _ (dev_null default_workdir : List ℕ) (conf : DaemonConf) where
  abbrev in_file : File
  in_file = reads (or_default conf.in_path dev_null)

  abbrev out_file : File
  out_file = writes (or_default conf.out_path dev_null)

  -- The standard error is the standard output unless it is configured.
  abbrev err_file : Option (List ℕ) → File
  err_file none = out_file
  err_file (some path) = writes path

  abbrev Holds : ℕ → File → Process → Type 0
  Holds v file p = (3 ≤ v) × (p.files v ≡ some file)

  abbrev Opened : ℕ × ℕ × ℕ → Process → Type 0
  Opened (infd, outfd, errfd) p =
      Holds infd in_file p × Holds outfd out_file p × Holds errfd (err_file conf.err_path) p

  abbrev Standard : Process → Type 0
  Standard p =
      (p.files 0 ≡ some in_file)
      × (p.files 1 ≡ some out_file)
      × (p.files 2 ≡ some (err_file conf.err_path))

  -- Between the calls of dup2(2).
  abbrev InputStands : ℕ → ℕ → Process → Type 0
  InputStands outfd errfd p =
      (p.files 0 ≡ some in_file) × Holds outfd out_file p × Holds errfd (err_file conf.err_path) p

  abbrev OutputStands : ℕ → Process → Type 0
  OutputStands errfd p =
      (p.files 0 ≡ some in_file)
      × (p.files 1 ≡ some out_file)
      × Holds errfd (err_file conf.err_path) p

  abbrev Masked : Process → Type 0
  Masked p = Standard p × (p.mask ≡ conf.umask)

  abbrev Moved : Process → Type 0
  Moved p =
      Standard p
      × (p.mask ≡ conf.umask)
      × (p.directory ≡ some (or_default conf.workdir default_workdir))

  abbrev pub Reset : Process → Type 0
  Reset p =
      Standard p
      × (p.mask ≡ conf.umask)
      × (p.directory ≡ some (or_default conf.workdir default_workdir))
      × (p.blocks_signals ≡ false)

  module _ (kernel : Kernel) (start : Process) (free : OpensFree kernel start) where
    -- The calls before the program is executed.
    abbrev Before : {A : Type 0} → Run A → (Process → Type 0) → (A → Process → Type 0) → Type 0
    Before m P Q = Goes kernel start m P (Reaches kernel start Q)

    abbrev error_part : Option (List ℕ) → ℕ → ℕ → Run (ℕ × ℕ × ℕ)
    error_part err infd outfd =
        elim err as (λ _. Run ℕ) [
          | none ↦ return outfd
          | some path ↦ syscall kernel (open_write path)
        ]
        >>= λ errfd. return (infd, outfd, errfd)

    error_part-Goes :
        (err : Option (List ℕ)) (infd outfd : ℕ)
        → Before
            (error_part err infd outfd)
            (λ p. Holds infd in_file p × Holds outfd out_file p)
            (λ fds p.
              Holds fds.0 in_file p × Holds (fds.1) out_file p × Holds (fds.2) (err_file err) p)
    unfolding succeed
    error_part-Goes none infd outfd = λ h a (i, o). (a, (i, o, o))
    error_part-Goes (some path) infd outfd =
        call-Goes kernel start free (open_write path) (λ errfd. return (infd, outfd, errfd))
          (λ p. Holds infd in_file p × Holds outfd out_file p)
          (λ errfd p. Holds infd in_file p × Holds outfd out_file p × Holds errfd (writes path) p)
          (Reaches kernel start (λ fds p.
            Holds fds.0 in_file p × Holds (fds.1) out_file p × Holds (fds.2) (writes path) p))
          (λ h a. a) tt
          (λ p v fresh ((li, i), (lo, o)).
            let (lv, n) = fresh tt in
            (
              (li, set_file-other p.files infd v in_file _ n i),
              (lo, set_file-other p.files outfd v out_file _ n o),
              (lv, set_file-same p.files v _),
            ))
          (λ v h a q. (a, q))

    open_standard-Goes : Before (open_standard kernel dev_null conf) (λ p. Unit) Opened
    unfolding open_standard succeed
    open_standard-Goes =
        call-Goes kernel start free (open_read (or_default conf.in_path dev_null))
          (λ infd.
            syscall kernel (open_write (or_default conf.out_path dev_null))
            >>= error_part conf.err_path infd)
          (λ p. Unit) (λ infd p. Holds infd in_file p) (Reaches kernel start Opened) (λ h a. a) tt
          (λ p v fresh _. ((fresh tt).0, set_file-same p.files v _))
          (λ infd.
            call-Goes kernel start free (open_write (or_default conf.out_path dev_null))
              (error_part conf.err_path infd) (λ p. Holds infd in_file p)
              (λ outfd p. Holds infd in_file p × Holds outfd out_file p)
              (Reaches kernel start Opened) (λ h a. a) tt
              (λ p v fresh (l, i).
                let (lv, n) = fresh tt in
                ((l, set_file-other p.files infd v in_file _ n i), (lv, set_file-same p.files v _)))
              (error_part-Goes conf.err_path infd))

    replace_standard-Goes :
        (infd outfd errfd : ℕ)
        → Before
            (replace_standard kernel (infd, outfd, errfd))
            (Opened (infd, outfd, errfd))
            (λ _. Standard)
    unfolding replace_standard succeed
    replace_standard-Goes infd outfd errfd =
        let last = syscall kernel (dup2 errfd 2) in
        call-Goes kernel start free (dup2 infd 0) (λ _. syscall kernel (dup2 outfd 1) >> last)
          (Opened (infd, outfd, errfd)) (λ _. InputStands outfd errfd)
          (Reaches kernel start (λ _. Standard)) (λ h a. a) tt
          (λ p v _ ((li, i), (lo, o), (le, e)). (
            i,
            (lo, set_file-apart p.files outfd 0 _ _ (omega (arith, lo)) o),
            (le, set_file-apart p.files errfd 0 _ _ (omega (arith, le)) e),
          ))
          (λ _.
            call-Goes kernel start free (dup2 outfd 1) (λ _. last) (InputStands outfd errfd)
              (λ _. OutputStands errfd) (Reaches kernel start (λ _. Standard)) (λ h a. a) tt
              (λ p v _ (i, (lo, o), (le, e)).
                (i, o, (le, set_file-apart p.files errfd 1 _ _ (omega (arith, le)) e)))
              (λ _.
                syscall-Goes kernel start free (dup2 errfd 2) (OutputStands errfd) (λ _. Standard)
                  tt (λ p v _ (i, o, (le, e)). (i, o, e))))

    reset_inherited-Goes :
        Before (reset_inherited kernel default_workdir conf) Standard (λ _. Reset)
    unfolding reset_inherited succeed
    reset_inherited-Goes =
        let workdir = or_default conf.workdir default_workdir in
        let last = syscall kernel empty_sigprocmask in
        >>=-Goes kernel start (umask_call conf.umask) (λ _. syscall kernel (chdir workdir) >> last)
          Standard (λ _. Masked) (Reaches kernel start (λ _. Reset)) (λ h a. a)
          (umask_call-Goes kernel start free conf.umask Standard Masked (λ p s. (s, refl)))
          (λ _.
            call-Goes kernel start free (chdir workdir) (λ _. last) Masked (λ _. Moved)
              (Reaches kernel start (λ _. Reset)) (λ h a. a) tt (λ p v _ (s, m). (s, m, refl))
              (λ _.
                syscall-Goes kernel start free empty_sigprocmask Moved (λ _. Reset) tt
                  (λ p v _ (s, m, w). (s, m, w, refl))))

    -- These parts, and what follows them.
    pub prepare-Goes :
        (last : Run ℕ) (R : Option ℕ × List Call → Type 0)
        → ((h : List Call) → Failed kernel h → R (none, h))
        → Goes kernel start last Reset R
        → Goes kernel start
            (open_standard kernel dev_null conf >>= λ fds.
              replace_standard kernel fds >> (reset_inherited kernel default_workdir conf >> last))
            (λ p. Unit)
            R
    prepare-Goes last R left g =
        let reset = reset_inherited kernel default_workdir conf in
        >>=-Goes kernel start (open_standard kernel dev_null conf)
          (λ fds. replace_standard kernel fds >> (reset >> last)) (λ p. Unit) Opened R left
          open_standard-Goes
          (λ (infd, outfd, errfd).
            >>=-Goes kernel start (replace_standard kernel (infd, outfd, errfd))
              (λ _. reset >> last) (Opened (infd, outfd, errfd)) (λ _. Standard) R left
              (replace_standard-Goes infd outfd errfd)
              (λ _.
                >>=-Goes kernel start reset (λ _. last) Standard (λ _. Reset) R left
                  reset_inherited-Goes (λ _. g)))
