-- ===== src/Client/Initctl.antt =====
-- The ends of initctl_main of src/cyberctl.c.
use cyberd.Base.{
  ℕ, ◌≤◌, List, [], ◌∷◌, ◌++◌, ltb, leb, ◌==◌, some, ◌≡◌, ◌⊎◌, refl, sym, ◌∙◌, inl, inr, arith,
  true, false, All, Option-cases, Bool-cases, guarded_some, length,
}
use cyberd.Capabilities.{system_suspend}
use cyberd.Connection.Endpoint.{create_message}
use cyberd.Client.{
  initctl_command_id, usage, Opt, endpoint_option, halt_option, poweroff_option, reboot_option,
  bad_option, Build, initctl_write, initctl_endpoint_create, initctl_daemon, initctl_system,
  collect, create_command, daemon_command, system_command, run_command, initctl_main,
}
use cyberd.Client.Requests.{id-Obeyed}
use cyberd.Client.Exits.{
  AreCommands, IsMessage, creates, for_daemon, for_system, by_synopsis, IsExit, IsEndpointOption,
  last_endpoint, refine,
}

collect-AreCommands :
    (args : List (List ℕ)) (start capabilities : ℕ)
    → collect args start ≡ some capabilities
    → AreCommands args
unfolding collect
collect-AreCommands [] start capabilities h = tt
collect-AreCommands (c ∷ args) start capabilities h =
    let (b, q) = guarded_some (ltb system_suspend (initctl_command_id c)) h in
    (ground (arith, b), collect-AreCommands args _ capabilities q)

module _ (build : Build) (synopsis : ℕ) where
  module _ (R : Type 0) (endpoint message : List ℕ) (args : List (List ℕ)) where
    pub write-IsExit :
        IsMessage synopsis args message
        → IsExit build synopsis endpoint args R (initctl_write build endpoint message)
    unfolding initctl_write
    write-IsExit m =
        elim (Bool-cases (leb 108 (length (build.endpoints_path ++ b'/' ∷ endpoint)))) [
          | inl b ↦ rw b (ground (arith, b))
          | inr b ↦ rw b (refl, ground (arith, b), m)
        ]

  -- The commands of initctl.
  module _ (endpoint command : List ℕ) where
    create_command-IsExit :
        (rest : List (List ℕ))
        → initctl_command_id command ≡ 0
        → IsExit build synopsis endpoint
            (command ∷ rest)
            Unit
            (create_command build endpoint 0 rest)
    unfolding create_command initctl_endpoint_create
    create_command-IsExit [] z = tt
    create_command-IsExit (name ∷ []) z = tt
    create_command-IsExit (name ∷ c ∷ rest) z = elim (Option-cases (collect (name ∷ c ∷ rest) 0)) [
      | inl n ↦ rw (n, create_command) tt
      | inr (capabilities, n) ↦
          rw (n, create_command)
            (write-IsExit _ endpoint _ (command ∷ name ∷ c ∷ rest) (
              creates command name c rest capabilities refl z
                (collect-AreCommands (name ∷ c ∷ rest) 0 capabilities n) n))
    ]

    module _ (id : ℕ) (e : initctl_command_id command ≡ id) where
      daemon_command-IsExit :
          (rest : List (List ℕ))
          → 1 ≤ id
          → id ≤ 4
          → IsExit build synopsis endpoint
              (command ∷ rest)
              Unit
              (daemon_command build endpoint id rest)
      unfolding daemon_command initctl_daemon
      daemon_command-IsExit [] l u = tt
      daemon_command-IsExit (name ∷ []) l u =
          write-IsExit _ endpoint _ (command ∷ name ∷ []) (for_daemon command name id refl e l u)
      daemon_command-IsExit (name ∷ c ∷ rest) l u = tt

      system_command-IsExit :
          (rest : List (List ℕ))
          → 5 ≤ id
          → id ≤ 8
          → IsExit build synopsis endpoint
              (command ∷ rest)
              Unit
              (system_command build endpoint id rest)
      unfolding system_command initctl_system
      system_command-IsExit [] l u =
          write-IsExit _ endpoint _ (command ∷ [])
            (for_system command id refl e l u (id-Obeyed id l u))
      system_command-IsExit (c ∷ rest) l u = tt

  run_command-IsExit :
      (endpoint : List ℕ) (args : List (List ℕ))
      → IsExit build synopsis endpoint args Unit (run_command build endpoint args)
  unfolding run_command
  run_command-IsExit endpoint [] = tt
  run_command-IsExit endpoint (command ∷ rest) =
      let id = initctl_command_id command in
      elim (Bool-cases (id == 0)) [
        | inl a ↦
            let z : id ≡ 0 = ground (arith, a) in
            rw (a, z, run_command) (create_command-IsExit endpoint command rest z)
        | inr a ↦ elim (Bool-cases (leb id 4)) [
          | inl b ↦
              rw (a, b, run_command)
                (daemon_command-IsExit endpoint command id refl rest (ground (arith, a))
                  (ground (arith, b)))
          | inr b ↦ elim (Bool-cases (leb id 8)) [
            | inl c ↦
                rw (a, b, c, run_command)
                  (system_command-IsExit endpoint command id refl rest (ground (arith, b))
                    (ground (arith, c)))
            | inr c ↦ rw (a, b, c, run_command) tt
          ]
        ]
      ]

  -- Arguments from which a message comes are taken.
  write-usage : (endpoint message : List ℕ) → ¬ (initctl_write build endpoint message ≡ usage)
  unfolding initctl_write
  write-usage endpoint message h =
      elim (Bool-cases (leb 108 (length (build.endpoints_path ++ b'/' ∷ endpoint)))) [
        | inl b ↦ ground (arith, h, b)
        | inr b ↦ ground (arith, h, b)
      ]

  create_command-message :
      (endpoint name c : List ℕ) (rest : List (List ℕ)) (capabilities : ℕ)
      → collect (name ∷ c ∷ rest) 0 ≡ some capabilities
      → create_command build endpoint 0 (name ∷ c ∷ rest)
        ≡ initctl_write build endpoint (create_message capabilities ++ (name ++ 0 ∷ []))
  unfolding create_command initctl_endpoint_create
  create_command-message endpoint name c rest capabilities n = rw (n, create_command) refl

  run_command-message :
      (endpoint : List ℕ) (args : List (List ℕ)) (message : List ℕ)
      → synopsis ≡ 5
      → IsMessage synopsis args message
      → run_command build endpoint args ≡ initctl_write build endpoint message
  unfolding run_command create_command daemon_command system_command initctl_endpoint_create
      initctl_daemon initctl_system
  run_command-message endpoint args message last
        (creates command name c rest capabilities q z _ n) =
      rw (q, z) (create_command-message endpoint name c rest capabilities n)
  run_command-message endpoint args message last (for_daemon command name id q e l u) =
      let a : (id == 0) ≡ false = ground (arith, l) in
      let b : leb id 4 ≡ true = ground (arith, u) in rw (q, run_command, e, a, b) refl
  run_command-message endpoint args message last (for_system command id q e l u o) =
      let a : (id == 0) ≡ false = ground (arith, l) in
      let b : leb id 4 ≡ false = ground (arith, l) in
      let c : leb id 8 ≡ true = ground (arith, u) in rw (q, run_command, e, a, b, c) refl
  run_command-message endpoint args message last (by_synopsis id early o) =
      absurd (omega (arith, last, early))

-- What initctl refuses.
abbrev InitctlRefuses : List Opt → List (List ℕ) → Type 0
InitctlRefuses opts args =
    (¬ All IsEndpointOption opts) ⊎ (¬ ((message : List ℕ) × IsMessage 5 args message))

pub initctl_main-IsExit :
    (build : Build) (endpoint : List ℕ) (opts : List Opt) (args : List (List ℕ))
    → IsExit build 5
        (last_endpoint endpoint opts)
        args
        (InitctlRefuses opts args)
        (initctl_main build endpoint opts args)
unfolding initctl_main
initctl_main-IsExit build endpoint [] args =
    refine build 5 endpoint args Unit _ (run_command build endpoint args)
      (run_command-IsExit build 5 endpoint args)
      (λ _ h. inr (λ (message, m).
        write-usage build 5 endpoint message
          (sym (run_command-message build 5 endpoint args message refl m) ∙ h)))
initctl_main-IsExit build endpoint (endpoint_option name ∷ opts) args =
    refine build 5 (last_endpoint name opts) args (InitctlRefuses opts args) _
      (initctl_main build name opts args) (initctl_main-IsExit build name opts args)
      (λ r _. elim r [ inl bad ↦ inl (λ h. bad (h.1)) | inr none_comes ↦ inr none_comes ])
initctl_main-IsExit build endpoint (halt_option ∷ opts) args = inl (λ h. h.0)
initctl_main-IsExit build endpoint (poweroff_option ∷ opts) args = inl (λ h. h.0)
initctl_main-IsExit build endpoint (reboot_option ∷ opts) args = inl (λ h. h.0)
initctl_main-IsExit build endpoint (bad_option ∷ opts) args = inl (λ h. h.0)
