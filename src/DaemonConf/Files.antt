-- ===== src/DaemonConf/Files.antt =====
-- daemon_conf_parse of src/cyberd/daemon_conf.c: the sections and the values of a configuration file.
--
-- The file is the list of the lines that getline(3) reads. A parser that fails is only logged.
pub mod Written
use cyberd.Base.{
  ℕ, Bool, true, false, List, [], ◌∷◌, if◌then◌else◌, Option, none, some, Outcome, ok, ◌>>=◌,
  same_string,
}
use cyberd.DaemonConf.{DaemonConf}
use cyberd.DaemonConf.Values.{
  Host, is_nil, parse_environment, StartKey, any_exit, dumped, exit, exit_failure, exit_success,
  killed, load, reload, parse_start,
}
use cyberd.DaemonConf.Accepted.{
  GeneralKey, group, nosid, path, priority, sigfinish, sigreload, stdin, stdout, stderr, umask,
  user, workdir, parse_general,
}
use cyberd.DaemonConf.Arguments.{parse_general_arguments}
use cyberd.DaemonConf.Lines.{Item, section, entry, parse_text}

pub data Section : Type 0 where
  general_section environment_section start_section : Section

-- `parse` of a `struct daemon_conf_value`.
pub data Parser : Type 0 where
  arguments_value : Parser
  general_value : GeneralKey → Parser
  environment_value : Parser
  start_value : StartKey → Parser

abbrev pub general_values : List (List ℕ × Parser)
general_values =
    ((b'a' ∷ b'r' ∷ b'g' ∷ b'u' ∷ b'm' ∷ b'e' ∷ b'n' ∷ b't' ∷ b's' ∷ []), arguments_value)
    ∷ ((b'g' ∷ b'r' ∷ b'o' ∷ b'u' ∷ b'p' ∷ []), general_value group)
    ∷ ((b'n' ∷ b'o' ∷ b's' ∷ b'i' ∷ b'd' ∷ []), general_value nosid)
    ∷ ((b'p' ∷ b'a' ∷ b't' ∷ b'h' ∷ []), general_value path)
    ∷ ((b'p' ∷ b'r' ∷ b'i' ∷ b'o' ∷ b'r' ∷ b'i' ∷ b't' ∷ b'y' ∷ []), general_value priority)
    ∷ ((b's' ∷ b'i' ∷ b'g' ∷ b'f' ∷ b'i' ∷ b'n' ∷ b'i' ∷ b's' ∷ b'h' ∷ []), general_value sigfinish)
    ∷ ((b's' ∷ b'i' ∷ b'g' ∷ b'r' ∷ b'e' ∷ b'l' ∷ b'o' ∷ b'a' ∷ b'd' ∷ []), general_value sigreload)
    ∷ ((b's' ∷ b't' ∷ b'd' ∷ b'i' ∷ b'n' ∷ []), general_value stdin)
    ∷ ((b's' ∷ b't' ∷ b'd' ∷ b'o' ∷ b'u' ∷ b't' ∷ []), general_value stdout)
    ∷ ((b's' ∷ b't' ∷ b'd' ∷ b'e' ∷ b'r' ∷ b'r' ∷ []), general_value stderr)
    ∷ ((b'u' ∷ b'm' ∷ b'a' ∷ b's' ∷ b'k' ∷ []), general_value umask)
    ∷ ((b'u' ∷ b's' ∷ b'e' ∷ b'r' ∷ []), general_value user)
    ∷ ((b'w' ∷ b'o' ∷ b'r' ∷ b'k' ∷ b'd' ∷ b'i' ∷ b'r' ∷ []), general_value workdir)
    ∷ []

abbrev pub start_values : List (List ℕ × Parser)
start_values =
    ((b'a' ∷ b'n' ∷ b'y' ∷ b' ' ∷ b'e' ∷ b'x' ∷ b'i' ∷ b't' ∷ []), start_value any_exit)
    ∷ ((b'd' ∷ b'u' ∷ b'm' ∷ b'p' ∷ b'e' ∷ b'd' ∷ []), start_value dumped)
    ∷ ((b'e' ∷ b'x' ∷ b'i' ∷ b't' ∷ []), start_value exit)
    ∷ (
      (b'e' ∷ b'x' ∷ b'i' ∷ b't' ∷ b' ' ∷ b'f' ∷ b'a' ∷ b'i' ∷ b'l' ∷ b'u' ∷ b'r' ∷ b'e' ∷ []),
      start_value exit_failure,
    )
    ∷ (
      (b'e' ∷ b'x' ∷ b'i' ∷ b't' ∷ b' ' ∷ b's' ∷ b'u' ∷ b'c' ∷ b'c' ∷ b'e' ∷ b's' ∷ b's' ∷ []),
      start_value exit_success,
    )
    ∷ ((b'k' ∷ b'i' ∷ b'l' ∷ b'l' ∷ b'e' ∷ b'd' ∷ []), start_value killed)
    ∷ ((b'l' ∷ b'o' ∷ b'a' ∷ b'd' ∷ []), start_value load)
    ∷ ((b'r' ∷ b'e' ∷ b'l' ∷ b'o' ∷ b'a' ∷ b'd' ∷ []), start_value reload)
    ∷ []

abbrev pub sections : List (List ℕ × Section)
sections =
    ((b'g' ∷ b'e' ∷ b'n' ∷ b'e' ∷ b'r' ∷ b'a' ∷ b'l' ∷ []), general_section)
    ∷ (
      (b'e' ∷ b'n' ∷ b'v' ∷ b'i' ∷ b'r' ∷ b'o' ∷ b'n' ∷ b'm' ∷ b'e' ∷ b'n' ∷ b't' ∷ []),
      environment_section,
    )
    ∷ ((b's' ∷ b't' ∷ b'a' ∷ b'r' ∷ b't' ∷ []), start_section)
    ∷ []

-- The loops `while (strcmp(...) != 0) i++;`
unfoldable pub find_named {ℓ} : {A : Type ℓ} → List (List ℕ × A) → List ℕ → Option A
find_named [] key = none
find_named ((name, found) ∷ rest) key =
    let later = find_named rest key in if same_string name key then some found else later

-- The environment has no key, so its first entry matches all.
unfoldable pub find_value : Section → List ℕ → Option Parser
find_value general_section key = find_named general_values key
find_value environment_section key = some environment_value
find_value start_section key = find_named start_values key

unfoldable pub run_parser :
    Host → Parser → DaemonConf → List ℕ → Option (List ℕ) → Outcome (Option DaemonConf)
run_parser host arguments_value conf key value = parse_general_arguments host conf value
run_parser host (general_value which) conf key value = ok (parse_general host which conf value)
run_parser host environment_value conf key value = ok (parse_environment host conf key value)
run_parser host (start_value which) conf key value = ok (parse_start which conf value)

-- `section` and `*conf`
abbrev pub Parsed : Type 0
Parsed = Option Section × DaemonConf

unfoldable pub parse_entry : Host → Parsed → List ℕ → Option (List ℕ) → Outcome Parsed
parse_entry host (none, conf) key value = ok (none, conf)
parse_entry host (some within, conf) key value =
    if is_nil key then ok (some within, conf) else elim (find_value within key) [
      | none ↦ ok (some within, conf)
      | some parser ↦ do
        parsed ← run_parser host parser conf key value
        ok (some within, elim parsed [ none ↦ conf | some changed ↦ changed ])
    ]

unfoldable pub parse_item : Host → Parsed → Item → Outcome Parsed
parse_item host (within, conf) (section name) = ok (find_named sections name, conf)
parse_item host (within, conf) (entry key value) = parse_entry host (within, conf) key value

unfoldable pub parse_lines : Host → Parsed → List (List ℕ) → Outcome DaemonConf
parse_lines host (within, conf) [] = ok conf
parse_lines host (within, conf) (line ∷ lines) = do
  item ← parse_text line
  next ← parse_item host (within, conf) item
  parse_lines host next lines

-- The configuration that it leaves, and whether it returns zero.
unfoldable pub daemon_conf_parse : Host → DaemonConf → List (List ℕ) → Outcome (DaemonConf × Bool)
daemon_conf_parse host conf lines = do
  parsed ← parse_lines host (some general_section, conf) lines
  ok (parsed, elim (parsed.path) [ none ↦ false | some binary ↦ true ])
