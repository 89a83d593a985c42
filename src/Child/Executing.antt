-- ===== src/Child/Executing.antt =====
-- The process in which daemon_child_setup of src/cyberd/daemon.c executes a program.
use cyberd.Base.{
  ℕ, ◌≡◌, ◌⊎◌, inl, inr, refl, Bool, true, false, List, [], ◌∷◌, ◌++◌, Option, none, All,
  if◌then◌else◌,
}
use cyberd.DaemonConf.{DaemonConf}
use cyberd.Child.{
  Call, setuid, setgid, setsid, setpriority, execve, Kernel, Run, ◌>>◌, return, syscall, become,
  daemon_child_setup, or_default,
}
use cyberd.Child.Process.{Process, succeed, replay, IsPreparation, OpensFree}
use cyberd.Child.Reaching.{Failed, Reaches, Goes, >>=-Goes, syscall-Goes, call-Goes}
use cyberd.Child.Standard.{Reset, prepare-Goes}

-- How daemon_child_setup ends: it left as a call failed, before the program is executed, or executed it, as its
-- last call, in a process that the predicate describes.
pub data Ends (kernel : Kernel) (start : Process) (P : Process → Type 0) (program : Call)
    : Option ℕ × List Call → Type 0 where
  left : (h : List Call) → Failed kernel h → Ends kernel start P program (none, h)
  executes :
      (h : List Call)
      → All IsPreparation h
      → P (replay kernel [] h start)
      → Ends kernel start P program (kernel h program, h ++ program ∷ [])

module _ (dev_null default_workdir name : List ℕ) (conf : DaemonConf) where
  abbrev Ready : Process → Type 0
  Ready = Reset dev_null default_workdir conf

  -- The process that the configuration asks for.
  abbrev pub Prepared : Process → Type 0
  Prepared p =
      Ready p
      × (p.user ≡ conf.uid)
      × (p.group ≡ conf.gid)
      × ((conf.nosid ≡ true) ⊎ (p.leads_session ≡ true))
      × (p.priority ≡ conf.priority)

  abbrev pub program : Call
  program =
      execve conf.path (or_default conf.arguments (name ∷ [])) (or_default conf.environment [])

  module _ (kernel : Kernel) (start : Process) (free : OpensFree kernel start) where
    abbrev Before : {A : Type 0} → Run A → (Process → Type 0) → (A → Process → Type 0) → Type 0
    Before m P Q = Goes kernel start m P (Reaches kernel start Q)

    abbrev Grouped : Process → Type 0
    Grouped p = Ready p × (p.user ≡ conf.uid) × (p.group ≡ conf.gid)

    abbrev Leading : Bool → Process → Type 0
    Leading nosid p =
        Ready p
        × (p.user ≡ conf.uid)
        × (p.group ≡ conf.gid)
        × ((nosid ≡ true) ⊎ (p.leads_session ≡ true))

    session-Goes :
        (nosid : Bool)
        → Before (if nosid then return 0 else syscall kernel setsid) Grouped (λ _. Leading nosid)
    unfolding succeed
    session-Goes true = λ h a (r, u, g). (a, (r, u, g, inl refl))
    session-Goes false =
        syscall-Goes kernel start free setsid Grouped (λ _. Leading false) tt
          (λ p v _ (r, u, g). (r, u, g, inr refl))

    abbrev Ended : Option ℕ × List Call → Type 0
    Ended = Ends kernel start Prepared program

    execute-Goes : Goes kernel start (syscall kernel program) Prepared Ended
    unfolding syscall
    execute-Goes h a p = executes h a p

    become-Goes : Goes kernel start (become kernel name conf) Ready Ended
    unfolding become succeed
    become-Goes =
        let last = syscall kernel program in
        let prioritized = syscall kernel (setpriority conf.priority) >> last in
        let session : Run ℕ = if conf.nosid then return 0 else syscall kernel setsid in
        call-Goes kernel start free (setuid conf.uid)
          (λ _. syscall kernel (setgid conf.gid) >> (session >> prioritized)) Ready
          (λ _ p. Ready p × (p.user ≡ conf.uid)) Ended left tt (λ p v _ r. (r, refl))
          (λ _.
            call-Goes kernel start free (setgid conf.gid) (λ _. session >> prioritized)
              (λ p. Ready p × (p.user ≡ conf.uid)) (λ _. Grouped) Ended left tt
              (λ p v _ (r, u). (r, u, refl))
              (λ _.
                >>=-Goes kernel start session (λ _. prioritized) Grouped (λ _. Leading conf.nosid)
                  Ended left (session-Goes conf.nosid)
                  (λ _.
                    call-Goes kernel start free (setpriority conf.priority) (λ _. last)
                      (Leading conf.nosid) (λ _. Prepared) Ended left tt
                      (λ p v _ (r, u, g, s). (r, u, g, s, refl)) (λ _. execute-Goes))))

    -- For every kernel that opens files at free descriptors other than the standard ones, and whatever else
    -- it answers: the process of a new daemon leaves after a call that failed, or the program of
    -- the configuration is executed, by the last call, with its arguments and environment, else its name and
    -- none. Then the descriptors 0, 1 and 2 are the files that the configuration names, or /dev/null, the
    -- error being the output unless it is named; mask, directory, user, group and priority are those of
    -- the configuration; no signal is blocked; and the process leads a session if it has to.
    pub daemon_child_setup-Ends :
        Ends kernel start Prepared program
          (daemon_child_setup kernel dev_null default_workdir name conf [])
    unfolding daemon_child_setup replay
    daemon_child_setup-Ends =
        prepare-Goes dev_null default_workdir conf kernel start free (become kernel name conf) Ended
          left become-Goes [] tt tt
