-- ===== src/DaemonConf/Lines.antt =====
-- daemon_conf_parse_line of src/cyberd/daemon_conf.c, which trims and cuts a line in place.
--
-- The buffer of getline(3) holds the bytes of the line and a nul byte. `line` and `stop` are offsets
-- into it: `stop` is `line + length`, which stays where it is when the code adds to `line` what it
-- takes from `length`. A read before the buffer is a fault, as it is undefined in C.
pub mod Scanning
pub mod Layouts
pub mod Trimming
pub mod Cutting
pub mod Bodies
pub mod RoundTrip
pub mod Blank
use cyberd.Base.{
  ℕ, zero, suc, ◌+◌, ◌-◌, Bool, true, false, ◌&&◌, List, ◌==◌, if◌then◌else◌, Option, none, some,
  length, Outcome, ok, fault, out_of_bounds, ◌>>=◌,
}
use cyberd.DaemonConf.Numbers.{isspace}
use cyberd.DaemonConf.Buffer.{load, poke, string_at, copied}

-- strchr(3) from an offset, with so many bytes from there.
unfoldable pub strchr : ℕ → (ℕ → ℕ) → ℕ → ℕ → Outcome (Option ℕ)
strchr zero bytes c i = fault out_of_bounds
strchr (suc n) bytes c i =
    let rest = strchr n bytes c (i + 1) in
    if bytes i == c then ok (some i) else if bytes i == 0 then ok none else rest

-- `while (isspace(*line)) line++;`
unfoldable pub skip_spaces : ℕ → (ℕ → ℕ) → ℕ → Outcome ℕ
skip_spaces zero bytes i = fault out_of_bounds
skip_spaces (suc n) bytes i =
    let rest = skip_spaces n bytes (i + 1) in if isspace (bytes i) then rest else ok i

-- `while (isspace(line[length - 1])) length--;`
unfoldable pub trim_end : (ℕ → ℕ) → ℕ → Outcome ℕ
trim_end bytes zero = fault out_of_bounds
trim_end bytes (suc n) =
    let rest = trim_end bytes n in if isspace (bytes n) then rest else ok (suc n)

-- What the function returns: the buffer, and the offsets that it assigns to `*keyp` and `*valuep`.
pub data Line : Type 0 where
  section_line : (ℕ → ℕ) → ℕ → Line
  value_line : (ℕ → ℕ) → ℕ → Option ℕ → Line

-- Trimming and comment exclusion.
unfoldable pub trim_line : ℕ → (ℕ → ℕ) → ℕ → Outcome ((ℕ → ℕ) × ℕ × ℕ)
trim_line size bytes len = do
  comment ← strchr size bytes b'#' 0
  line ← skip_spaces size bytes 0
  stop ← trim_end bytes (elim comment [ none ↦ len | some i ↦ i ])
  trimmed ← poke size bytes stop 0
  ok (trimmed, line, stop)

-- The name of a section, between its brackets.
unfoldable pub cut_section : ℕ → (ℕ → ℕ) → ℕ → ℕ → Outcome Line
cut_section size bytes line stop = do
  name ← skip_spaces (size - (line + 1)) bytes (line + 1)
  end ← trim_end bytes (stop - 1)
  cut ← poke size bytes end 0
  ok (section_line cut name)

-- A key, with its value if there is a separator; `preseparator + 1` is `end`.
unfoldable pub cut_value : ℕ → (ℕ → ℕ) → ℕ → Outcome Line
cut_value size bytes line = do
  separator ← strchr (size - line) bytes b'=' line
  elim separator [
    | none ↦ ok (value_line bytes line none)
    | some i ↦ do
      end ← if i == line + 1 then ok i else trim_end bytes i
      cut ← poke size bytes end 0
      value ← skip_spaces (size - (i + 1)) cut (i + 1)
      ok (value_line cut line (some value))
  ]

unfoldable pub parse_line : ℕ → (ℕ → ℕ) → ℕ → Outcome Line
parse_line size bytes len = do
  (trimmed, line, stop) ← trim_line size bytes len
  first ← load size trimmed line
  last ← load size trimmed (stop - 1)
  if first == b'[' && last == b']'
      then cut_section size trimmed line stop
      else cut_value size trimmed line

-- What the caller reads of a line, as C strings.
pub data Item : Type 0 where
  section : List ℕ → Item
  entry : List ℕ → Option (List ℕ) → Item

unfoldable pub read_line : ℕ → Line → Outcome Item
read_line size (section_line bytes key) = do
  name ← string_at (size - key) bytes key
  ok (section name)
read_line size (value_line bytes key none) = do
  name ← string_at (size - key) bytes key
  ok (entry name none)
read_line size (value_line bytes key (some value)) = do
  name ← string_at (size - key) bytes key
  text ← string_at (size - value) bytes value
  ok (entry name (some text))

-- A line that getline(3) reads.
unfoldable pub parse_text : List ℕ → Outcome Item
parse_text text =
    parse_line (length text + 1) (copied text) (length text) >>= read_line (length text + 1)
