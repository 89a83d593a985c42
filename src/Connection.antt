-- ===== src/Connection.antt =====
-- The command parser of src/cyberd/socket_connection_node.c.
--
-- The bytes of a read(2) are a list of numbers below 256, of which the parser holds the rest, with
-- the `count` that the code keeps beside it: a byte past the end of the list is one that was not
-- received. What the parser asks of the rest of cyberd is a list of actions, which is there also when it
-- faults after them: the parser depends on none of their effects.
pub mod Rounds
pub mod Relation
pub mod Overrun
pub mod Authority
pub mod Termination
pub mod Returning
pub mod Names
pub mod Endpoint
use cyberd.Base.{
  ℕ, zero, suc, ◌+◌, ◌-◌, ◌*◌, ◌/◌, ◌%◌, ◌^◌, Bool, true, false, ◌&&◌, not, List, [], ◌∷◌, ◌++◌,
  Option, none, some, ltb, ◌==◌, if◌then◌else◌, length, take, drop, Outcome, ok, fault, aborted,
  out_of_bounds, invalid_shift, out_of_fuel, ◌>>=◌,
}
use cyberd.Capabilities.{has, and_bits}

-- NAME_MAX of limits.h.
abbrev pub name_max : ℕ
name_max = 255

-- The requests of reboot(2) that the commands queue.
pub data Howto : Type 0 where
  power_off halt_system autoboot sw_suspend : Howto

-- What a command does outside of the parser.
pub data Action : Type 0 where
  queue_reboot : Howto → Action
  create_endpoint : List ℕ → ℕ → Action
  start stop reload finish : List ℕ → Action

pub data ParserState : Type 0 where
  command : ParserState
  endpoint_create_capabilities : ParserState
  endpoint_create_name : ParserState
  daemon_start_name daemon_stop_name daemon_reload_name daemon_end_name : ParserState
  invalid : ParserState

-- `struct parser`. The members of its union that are used in one state are set on entering it;
-- `name` is the part of `buf` that was filled, and its length is `len`.
pub record Parser : Type 0 where
  pub capabilities : ℕ
  pub state : ParserState
  pub word : ℕ
  pub size : ℕ
  pub name_capabilities : ℕ
  pub name : List ℕ

-- ntohl(3) on a little-endian or a big-endian host.
unfoldable pub ntohl : Bool → ℕ → ℕ
ntohl false w = w
ntohl true w =
    w % 256 * 2 ^ 24 + w / 2 ^ 8 % 256 * 2 ^ 16 + w / 2 ^ 16 % 256 * 2 ^ 8 + w / 2 ^ 24 % 256

abbrev enter : Parser → ParserState → Parser
enter p s = record p { state = s; name = [] }

-- parser_feed_command with the capability `1 << k`.
unfoldable pub feed_command : Parser → ℕ → Outcome (Parser × List Action)
feed_command p k =
    if not (has p.capabilities k)
    then ok (record p { state = invalid }, [])
    else if k == 0
    then ok (record p { state = endpoint_create_capabilities; word = 0; size = 0 }, [])
    else if k == 1
    then ok (enter p daemon_start_name, [])
    else if k == 2
    then ok (enter p daemon_stop_name, [])
    else if k == 3
    then ok (enter p daemon_reload_name, [])
    else if k == 4
    then ok (enter p daemon_end_name, [])
    else if k == 5
    then ok (p, queue_reboot power_off ∷ [])
    else if k == 6
    then ok (p, queue_reboot halt_system ∷ [])
    else if k == 7
    then ok (p, queue_reboot autoboot ∷ [])
    else if k == 8
    then ok (p, queue_reboot sw_suspend ∷ [])
    else fault aborted

-- `(capset_t)1 << (unsigned int)*buffer`, as the index k; a negative char is a large shift too.
unfoldable pub capability_of : ℕ → Outcome ℕ
capability_of byte = if ltb byte 32 then ok byte else fault invalid_shift

-- memchr(3): the index of a byte among the first n, reading no further than it.
unfoldable pub memchr : ℕ → ℕ → List ℕ → Outcome (Option ℕ)
memchr c zero bytes = ok none
memchr c (suc n) [] = fault out_of_bounds
memchr c (suc n) (b ∷ bytes) =
    let later = do i ← memchr c n bytes; ok (elim i [ none ↦ none | some j ↦ some (suc j) ])
    in if b == c then ok (some 0) else later

-- How many bytes name_fill takes of `count`.
abbrev pub fill_length : Option ℕ → ℕ → ℕ
fill_length none count = count
fill_length (some i) count = i + 1

-- The state that name_fill leaves: the filled name, the rest of the input and its count.
pub record Filled : Type 0 where
  pub name : List ℕ
  pub bytes : List ℕ
  pub count : ℕ

-- name_fill; `none` is its result -1. The count grows by what was taken: `*inlenp += len`.
unfoldable pub name_fill : List ℕ → List ℕ → ℕ → Outcome (Option Filled)
name_fill name bytes count = do
  nul ← memchr 0 count bytes
  let len = fill_length nul count
  slash ← if ltb (name_max + 1) (length name + len) then ok (some 0) else memchr b'/' len bytes
  ok (elim slash [
    | some _ ↦ none
    | none ↦
        some (record { name = name ++ take len bytes; bytes = drop len bytes; count = count + len })
  ])

-- What is left to feed: the parser, the rest of the input with its count, the actions so far.
pub record Feed : Type 0 where
  pub parser : Parser
  pub bytes : List ℕ
  pub count : ℕ
  pub actions : List Action

-- `*buffer`, and the bytes after it.
abbrev pub next_byte : List ℕ → Outcome (ℕ × List ℕ)
next_byte [] = fault out_of_bounds
next_byte (b ∷ bytes) = ok (b, bytes)

-- `buf[len - 1]`
unfoldable pub last_byte : List ℕ → Outcome ℕ
last_byte [] = fault out_of_bounds
last_byte (b ∷ []) = ok b
last_byte (b ∷ (c ∷ bytes)) = last_byte (c ∷ bytes)

-- The bytes of a C string before its nul byte.
unfoldable pub c_string : List ℕ → List ℕ
c_string [] = []
c_string (b ∷ bytes) = if b == 0 then [] else b ∷ c_string bytes

-- The case PARSER_STATE_COMMAND of parser_feed.
unfoldable pub feed_command_byte : Feed → Outcome Feed
feed_command_byte f = do
  (byte, rest) ← next_byte f.bytes
  k ← capability_of byte
  (p, asked) ← feed_command f.parser k
  ok (record { parser = p; bytes = rest; count = f.count - 1; actions = f.actions ++ asked })

-- `word << 8 | byte`, in 32 bits, and the state after the fourth byte.
abbrev pub shift_in : Bool → Parser → ℕ → Parser
shift_in little_endian p byte =
    let word' = p.word * 2 ^ 8 % 2 ^ 32 + byte in
    let q = record p { word = word'; size = p.size + 1 } in
    if p.size + 1 == 4
    then record q {
      state = endpoint_create_name;
      name_capabilities = ntohl little_endian word';
      name = [];
    }
    else q

-- The case PARSER_STATE_ENDPOINT_CREATE_CAPABILITIES of parser_feed.
unfoldable pub feed_capabilities_byte : Bool → Feed → Outcome Feed
feed_capabilities_byte little_endian f = do
  (byte, rest) ← next_byte f.bytes
  ok (record f { parser = shift_in little_endian f.parser byte; bytes = rest; count = f.count - 1 })

-- `*name != '\0' && *name != '.'`
abbrev pub is_endpoint_name : List ℕ → Bool
is_endpoint_name [] = false
is_endpoint_name (b ∷ bytes) = not (b == b'.')

-- What a whole endpoint name asks for: a subset of the connection's own capabilities.
unfoldable pub endpoint_actions : Parser → List Action
endpoint_actions p =
    let granted = and_bits 32 p.capabilities p.name_capabilities in
    if not (granted == 0) && is_endpoint_name (c_string p.name)
    then create_endpoint (c_string p.name) granted ∷ []
    else []

-- The end of both name parsers: what a name terminated by a nul byte asks for.
abbrev pub named : Feed → Filled → (Parser → List Action) → ℕ → Feed
named f filled asked last =
    let p = record (f.parser) { name = filled.name } in
    let g : Feed = record {
      parser = p;
      bytes = filled.bytes;
      count = filled.count;
      actions = f.actions;
    } in
    if last == 0
    then record g { parser = record p { state = command }; actions = f.actions ++ asked p }
    else g

-- parser_feed_endpoint_create_name and parser_feed_daemon_name.
unfoldable pub feed_name : (Parser → List Action) → Feed → Outcome Feed
feed_name asked f = do
  filled ← name_fill f.parser.name f.bytes f.count
  elim filled [
    | none ↦ ok (record f { parser = record (f.parser) { state = invalid } })
    | some g ↦ do last ← last_byte g.name; ok (named f g asked last)
  ]

-- The action of a daemon command on the daemon of that name, if configuration_find finds one.
abbrev pub daemon_actions : (List ℕ → Action) → Parser → List Action
daemon_actions act p = act (c_string p.name) ∷ []

-- One round of the `switch` in parser_feed.
unfoldable pub feed_state : ParserState → Bool → Feed → Outcome Feed
feed_state command host f = feed_command_byte f
feed_state endpoint_create_capabilities host f = feed_capabilities_byte host f
feed_state endpoint_create_name host f = feed_name endpoint_actions f
feed_state daemon_start_name host f = feed_name (daemon_actions start) f
feed_state daemon_stop_name host f = feed_name (daemon_actions stop) f
feed_state daemon_reload_name host f = feed_name (daemon_actions reload) f
feed_state daemon_end_name host f = feed_name (daemon_actions finish) f
feed_state invalid host f = ok (record f { bytes = drop f.count f.bytes; count = 0 })

-- The loop of parser_feed, in at most `fuel` rounds: what was asked for, also before a fault, and the parser.
unfoldable pub feed_loop : ℕ → Bool → Feed → List Action × Outcome Parser
feed_loop zero host f = (f.actions, fault out_of_fuel)
feed_loop (suc fuel) host f = elim (f.count == 0) [
  | true ↦ (f.actions, ok f.parser)
  | false ↦ elim (feed_state f.parser.state host f) [
    | ok f' ↦ feed_loop fuel host f'
    | fault e ↦ (f.actions, fault e)
  ]
]

-- parser_feed on the bytes that read(2) gave, on a little-endian host or not.
unfoldable pub parser_feed : Bool → Parser → List ℕ → List Action × Outcome Parser
parser_feed host p bytes =
    feed_loop (length bytes + 3) host
      (record { parser = p; bytes = bytes; count = length bytes; actions = [] })

-- The parser of a new connection, as socket_connection_node_create makes it.
unfoldable pub new_parser : ℕ → Parser
new_parser capabilities = record {
  capabilities = capabilities;
  state = command;
  word = 0;
  size = 0;
  name_capabilities = 0;
  name = [];
}
