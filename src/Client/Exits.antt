-- ===== src/Client/Exits.antt =====
-- What the ends of src/cyberctl.c mean: the bytes that it writes, to which endpoint, and what it refuses.
use cyberd.Base.{
  ℕ, ◌≤◌, ◌<◌, List, [], ◌∷◌, ◌++◌, ◌==◌, some, ◌≡◌, ◌⊎◌, refl, if◌then◌else◌, All, length,
}
use cyberd.Capabilities.{system_suspend}
use cyberd.Connection.Endpoint.{create_message}
use cyberd.Client.{
  initctl_command_id, Exit, wrote, name_too_long, usage, Opt, endpoint_option, halt_option,
  poweroff_option, reboot_option, bad_option, Build, collect,
}
use cyberd.Client.Requests.{Obeyed}

-- Each argument is the name of a command.
abbrev pub AreCommands : List (List ℕ) → Type 0
AreCommands = All (λ c. initctl_command_id c ≤ system_suspend)

-- The bytes of a message, with the synopsis and the arguments that they come from: the byte of the command,
-- for a new endpoint its set with the most significant byte first, and a name with a nul byte behind it. The
-- name is any argument: nothing asks that it is not empty, has no slash or is short. That of a new endpoint
-- is one of the arguments that have to be commands.
pub data IsMessage (synopsis : ℕ) (args : List (List ℕ)) : List ℕ → Type 0 where
  creates :
      (command name c : List ℕ) (rest : List (List ℕ)) (capabilities : ℕ)
      → args ≡ command ∷ name ∷ c ∷ rest
      → initctl_command_id command ≡ 0
      → AreCommands (name ∷ c ∷ rest)
      → collect (name ∷ c ∷ rest) 0 ≡ some capabilities
      → IsMessage synopsis args (create_message capabilities ++ (name ++ 0 ∷ []))
  for_daemon :
      (command name : List ℕ) (id : ℕ)
      → args ≡ command ∷ name ∷ []
      → initctl_command_id command ≡ id
      → 1 ≤ id
      → id ≤ 4
      → IsMessage synopsis args (id ∷ (name ++ 0 ∷ []))
  for_system :
      (command : List ℕ) (id : ℕ)
      → args ≡ command ∷ []
      → initctl_command_id command ≡ id
      → 5 ≤ id
      → id ≤ 8
      → Obeyed id
      → IsMessage synopsis args (id ∷ [])
  by_synopsis : (id : ℕ) → synopsis < 5 → Obeyed id → IsMessage synopsis args (id ∷ [])

-- An end of the client that reaches for an endpoint, with what a refusal means.
abbrev pub IsExit : Build → ℕ → List ℕ → List (List ℕ) → Type 0 → Exit → Type 0
IsExit build synopsis endpoint args refused (wrote e message) =
    (e ≡ endpoint)
    × (length (build.endpoints_path ++ b'/' ∷ endpoint) < 108)
    × IsMessage synopsis args message
IsExit build synopsis endpoint args refused name_too_long =
    108 ≤ length (build.endpoints_path ++ b'/' ∷ endpoint)
IsExit build synopsis endpoint args refused usage = refused

abbrev pub IsEndpointOption : Opt → Type 0
IsEndpointOption (endpoint_option name) = Unit
IsEndpointOption halt_option = ⊥
IsEndpointOption poweroff_option = ⊥
IsEndpointOption reboot_option = ⊥
IsEndpointOption bad_option = ⊥

abbrev pub IsShutdownOption : Opt → Type 0
IsShutdownOption (endpoint_option name) = ⊥
IsShutdownOption halt_option = Unit
IsShutdownOption poweroff_option = Unit
IsShutdownOption reboot_option = Unit
IsShutdownOption bad_option = ⊥

-- The endpoint of the last option, else the given one.
abbrev pub last_endpoint : List ℕ → List Opt → List ℕ
last_endpoint endpoint [] = endpoint
last_endpoint endpoint (endpoint_option name ∷ opts) = last_endpoint name opts
last_endpoint endpoint (halt_option ∷ opts) = last_endpoint endpoint opts
last_endpoint endpoint (poweroff_option ∷ opts) = last_endpoint endpoint opts
last_endpoint endpoint (reboot_option ∷ opts) = last_endpoint endpoint opts
last_endpoint endpoint (bad_option ∷ opts) = last_endpoint endpoint opts

-- Only initctl has an option for the endpoint.
abbrev pub endpoint_for : Build → ℕ → List Opt → List ℕ
endpoint_for build synopsis opts =
    if synopsis == 5 then last_endpoint build.endpoints_root opts else build.endpoints_root

-- What is refused: an option, by shutdown and by initctl, and by initctl arguments from which no message
-- comes.
abbrev pub Refuses : ℕ → List Opt → List (List ℕ) → Type 0
Refuses synopsis opts args =
    ((synopsis ≡ 4) × (¬ All IsShutdownOption opts))
    ⊎ ((synopsis ≡ 5)
        × ((¬ All IsEndpointOption opts)
            ⊎ (¬ ((message : List ℕ) × IsMessage synopsis args message))))

-- What is known of an end, with more of a refusal.
pub refine :
    (build : Build) (synopsis : ℕ) (endpoint : List ℕ) (args : List (List ℕ)) (R S : Type 0)
    (x : Exit)
    → IsExit build synopsis endpoint args R x
    → (R → x ≡ usage → S)
    → IsExit build synopsis endpoint args S x
refine build synopsis endpoint args R S (wrote e message) h f = h
refine build synopsis endpoint args R S name_too_long h f = h
refine build synopsis endpoint args R S usage h f = f h refl
