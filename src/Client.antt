-- ===== src/Client.antt =====
-- The client of src/cyberctl.c: what it writes to an endpoint, by its name and its arguments.
--
-- getopt(3) gives the options and what is left of the arguments; a socket that cannot be opened or written
-- ends the client with an error and is left out.
pub mod Requests
pub mod Exits
pub mod Initctl
pub mod Messages
use cyberd.Base.{
  ℕ, zero, suc, ◌+◌, ◌-◌, ◌*◌, ◌/◌, ◌%◌, ◌^◌, Bool, true, false, List, [], ◌∷◌, ◌++◌, ltb, leb,
  ◌==◌, if◌then◌else◌, Option, none, some, length, same_string, Outcome, ok, fault, aborted, ◌>>=◌,
}
use cyberd.Capabilities.{
  has, endpoint_create, daemon_end, system_poweroff, system_halt, system_reboot, system_suspend,
}

-- `commands`, each at its COMMAND.
abbrev pub commands : List (List ℕ)
commands =
    (b'c' ∷ b'r' ∷ b'e' ∷ b'a' ∷ b't' ∷ b'e' ∷ b'-' ∷ b'e' ∷ b'n' ∷ b'd' ∷ b'p' ∷ b'o' ∷ b'i' ∷ b'n'
      ∷ b't' ∷ [])
    ∷ (b's' ∷ b't' ∷ b'a' ∷ b'r' ∷ b't' ∷ [])
    ∷ (b's' ∷ b't' ∷ b'o' ∷ b'p' ∷ [])
    ∷ (b'r' ∷ b'e' ∷ b'l' ∷ b'o' ∷ b'a' ∷ b'd' ∷ [])
    ∷ (b'e' ∷ b'n' ∷ b'd' ∷ [])
    ∷ (b'p' ∷ b'o' ∷ b'w' ∷ b'e' ∷ b'r' ∷ b'o' ∷ b'f' ∷ b'f' ∷ [])
    ∷ (b'h' ∷ b'a' ∷ b'l' ∷ b't' ∷ [])
    ∷ (b'r' ∷ b'e' ∷ b'b' ∷ b'o' ∷ b'o' ∷ b't' ∷ [])
    ∷ (b's' ∷ b'u' ∷ b's' ∷ b'p' ∷ b'e' ∷ b'n' ∷ b'd' ∷ [])
    ∷ []

abbrev pub synopses : List (List ℕ)
synopses =
    (b'h' ∷ b'a' ∷ b'l' ∷ b't' ∷ [])
    ∷ (b'r' ∷ b'e' ∷ b'b' ∷ b'o' ∷ b'o' ∷ b't' ∷ [])
    ∷ (b's' ∷ b'u' ∷ b's' ∷ b'p' ∷ b'e' ∷ b'n' ∷ b'd' ∷ [])
    ∷ (b'p' ∷ b'o' ∷ b'w' ∷ b'e' ∷ b'r' ∷ b'o' ∷ b'f' ∷ b'f' ∷ [])
    ∷ (b's' ∷ b'h' ∷ b'u' ∷ b't' ∷ b'd' ∷ b'o' ∷ b'w' ∷ b'n' ∷ [])
    ∷ []

-- `while (... && strcmp(...) != 0) id++;`
unfoldable pub index_of : List (List ℕ) → List ℕ → ℕ
index_of [] command = 0
index_of (name ∷ rest) command =
    let later = index_of rest command in if same_string name command then 0 else suc later

unfoldable pub initctl_command_id : List ℕ → ℕ
initctl_command_id command = index_of commands command

-- How the client ends: bytes written to an endpoint, a name of an endpoint that is too long, or options or
-- arguments that it refuses.
pub data Exit : Type 0 where
  wrote : List ℕ → List ℕ → Exit
  name_too_long : Exit
  usage : Exit

-- The options of initctl_main and of shutdown_main that getopt(3) gives.
pub data Opt : Type 0 where
  endpoint_option : List ℕ → Opt
  halt_option poweroff_option reboot_option : Opt
  bad_option : Opt

-- CONFIG_SOCKET_ENDPOINTS_PATH, CONFIG_SOCKET_ENDPOINTS_ROOT.
pub record Build : Type 0 where
  pub endpoints_path : List ℕ
  pub endpoints_root : List ℕ

-- `sizeof (addr.sun_path)`
abbrev sun_path_size : ℕ
sun_path_size = 108

-- initctl_open, then write(2).
unfoldable pub initctl_write : Build → List ℕ → List ℕ → Exit
initctl_write build endpoint message =
    if leb sun_path_size (length (build.endpoints_path ++ b'/' ∷ endpoint))
    then name_too_long
    else wrote endpoint message

-- htonl(3) in memory: the most significant byte first.
abbrev pub network_order : ℕ → List ℕ
network_order c = c / 2 ^ 24 % 256 ∷ c / 2 ^ 16 % 256 ∷ c / 2 ^ 8 % 256 ∷ c % 256 ∷ []

unfoldable pub initctl_endpoint_create : Build → List ℕ → ℕ → ℕ → List ℕ → Exit
initctl_endpoint_create build endpoint id capabilities name =
    initctl_write build endpoint (id ∷ (network_order capabilities ++ (name ++ 0 ∷ [])))

unfoldable pub initctl_daemon : Build → List ℕ → ℕ → List ℕ → Exit
initctl_daemon build endpoint id name = initctl_write build endpoint (id ∷ (name ++ 0 ∷ []))

unfoldable pub initctl_system : Build → List ℕ → ℕ → Exit
initctl_system build endpoint id = initctl_write build endpoint (id ∷ [])

-- `capabilities |= 1 << id`
abbrev pub set_bit : ℕ → ℕ → ℕ
set_bit capabilities id = if has capabilities id then capabilities else capabilities + 2 ^ id

-- The loop over the arguments after the command, the name of the endpoint included; `none` for a command
-- that does not exist.
unfoldable pub collect : List (List ℕ) → ℕ → Option ℕ
collect [] capabilities = some capabilities
collect (command ∷ rest) capabilities =
    let id = initctl_command_id command in
    let later = collect rest (set_bit capabilities id) in
    if ltb system_suspend id then none else later

-- The creation of an endpoint, with what stands after the command.
unfoldable pub create_command : Build → List ℕ → ℕ → List (List ℕ) → Exit
create_command build endpoint id [] = usage
create_command build endpoint id (name ∷ []) = usage
create_command build endpoint id (name ∷ c ∷ rest) = elim (collect (name ∷ c ∷ rest) 0) [
  | none ↦ usage
  | some capabilities ↦ initctl_endpoint_create build endpoint id capabilities name
]

-- `argc - optind != 2`, and `argc - optind != 1`.
unfoldable pub daemon_command : Build → List ℕ → ℕ → List (List ℕ) → Exit
daemon_command build endpoint id (name ∷ []) = initctl_daemon build endpoint id name
daemon_command build endpoint id [] = usage
daemon_command build endpoint id (name ∷ c ∷ rest) = usage

unfoldable pub system_command : Build → List ℕ → ℕ → List (List ℕ) → Exit
system_command build endpoint id [] = initctl_system build endpoint id
system_command build endpoint id (c ∷ rest) = usage

-- initctl_main after the options.
unfoldable pub run_command : Build → List ℕ → List (List ℕ) → Exit
run_command build endpoint [] = usage
run_command build endpoint (command ∷ rest) =
    let id = initctl_command_id command in
    if id == endpoint_create
    then create_command build endpoint id rest
    else if leb id daemon_end
    then daemon_command build endpoint id rest
    else if leb id system_suspend
    then system_command build endpoint id rest
    else usage

unfoldable pub initctl_main : Build → List ℕ → List Opt → List (List ℕ) → Exit
initctl_main build endpoint [] args = run_command build endpoint args
initctl_main build endpoint (endpoint_option name ∷ opts) args = initctl_main build name opts args
initctl_main build endpoint (_ ∷ opts) args = usage

-- shutdown_main, from an id on; a bad option ends it as the usage does.
unfoldable pub shutdown_main : Build → ℕ → List Opt → Exit
shutdown_main build id [] = initctl_system build build.endpoints_root id
shutdown_main build id (halt_option ∷ opts) = shutdown_main build system_halt opts
shutdown_main build id (poweroff_option ∷ opts) = shutdown_main build system_poweroff opts
shutdown_main build id (reboot_option ∷ opts) = shutdown_main build system_reboot opts
shutdown_main build id (endpoint_option name ∷ opts) = usage
shutdown_main build id (bad_option ∷ opts) = usage

-- The `switch` of main; the synopsis after the last one is that of initctl.
unfoldable pub run_synopsis : Build → ℕ → List Opt → List (List ℕ) → Outcome Exit
run_synopsis build synopsis opts args =
    let root = build.endpoints_root in
    if synopsis == 0
    then ok (initctl_system build root system_halt)
    else if synopsis == 1
    then ok (initctl_system build root system_reboot)
    else if synopsis == 2
    then ok (initctl_system build root system_suspend)
    else if synopsis == 3
    then ok (initctl_system build root system_poweroff)
    else if synopsis == 4
    then ok (shutdown_main build system_poweroff opts)
    else if synopsis == 5
    then ok (initctl_main build root opts args)
    else fault aborted

-- main, by the base name of the program.
unfoldable pub client_main : Build → List ℕ → List Opt → List (List ℕ) → Outcome Exit
client_main build progname opts args = run_synopsis build (index_of synopses progname) opts args
