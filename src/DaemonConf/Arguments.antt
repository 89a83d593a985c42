-- ===== src/DaemonConf/Arguments.antt =====
-- daemon_conf_parse_general_arguments of src/cyberd/daemon_conf.c, which splits a line into words in
-- place: in a local copy of the value, where the characters of a word move over quotes and escapes.
--
-- The copy is a memory of `size` bytes; `it`, `dst`, `src` and `arg` are offsets into it. The pointers
-- that C leaves uninitialised at first are 0, and are set before they are read.
pub mod Splitting
pub mod Words
use cyberd.Base.{
  ℕ, zero, suc, ◌+◌, ◌-◌, Bool, true, false, List, [], ◌∷◌, ◌++◌, ltb, ◌==◌, if◌then◌else◌, Option,
  none, some, length, Outcome, ok, fault, out_of_bounds, out_of_fuel, ◌>>=◌,
}
use cyberd.DaemonConf.{DaemonConf}
use cyberd.DaemonConf.Values.{Host, list_append}
use cyberd.DaemonConf.Buffer.{load, poke, string_at, copied}

pub data ExpandState : Type 0 where
  expand_spaces expand_literal expand_quote_single expand_quote_double : ExpandState
  expand_quote_double_escape expand_end expand_error_unclosed_quote : ExpandState

pub record Expansion : Type 0 where
  pub state : ExpandState
  pub bytes : ℕ → ℕ
  pub it : ℕ
  pub dst : ℕ
  pub src : ℕ
  pub arg : ℕ
  pub arguments : Option (List (List ℕ))

-- `*dst++ = *src++`
unfoldable pub move_char : ℕ → Expansion → Outcome Expansion
move_char size x = do
  c ← load size x.bytes x.src
  bytes ← poke size x.bytes x.dst c
  ok (record x { bytes = bytes; dst = x.dst + 1; src = x.src + 1 })

-- `*dst = '\0'`, and the word at `arg` appended; `none` is the jump to `failure`.
unfoldable pub end_word : Host → ℕ → ExpandState → Expansion → Outcome (Option Expansion)
end_word host size next x = do
  bytes ← poke size x.bytes x.dst 0
  word ← string_at (size - x.arg) bytes x.arg
  ok (elim (list_append host x.arguments word) [
    | none ↦ none
    | some list ↦ some (record x { state = next; bytes = bytes; arguments = some list })
  ])

abbrev enter : ExpandState → Expansion → Option Expansion
enter next x = some (record x { state = next })

-- A quote or an escape, which `src` passes.
abbrev pass : ExpandState → Expansion → Option Expansion
pass next x = some (record x { state = next; src = x.src + 1 })

-- The round of the loop in each state, for the byte `c` at `it`.
unfoldable pub expand_byte : Host → ℕ → ExpandState → ℕ → Expansion → Outcome (Option Expansion)
expand_byte host size expand_spaces c x =
    let here = record x { dst = x.it; src = x.it; arg = x.it } in
    if c == 0
    then ok (enter expand_end x)
    else if c == b' '
    then ok (some x)
    else if c == b'"'
    then ok (pass expand_quote_double here)
    else if c == b'\''
    then ok (pass expand_quote_single here)
    else ok (some (record here { state = expand_literal; dst = x.it + 1; src = x.it + 1 }))
expand_byte host size expand_literal c x =
    if c == 0
    then end_word host size expand_end x
    else if c == b'"'
    then ok (pass expand_quote_double x)
    else if c == b'\''
    then ok (pass expand_quote_single x)
    else if c == b' '
    then end_word host size expand_spaces x
    else move_char size x >>= λ y. ok (some y)
expand_byte host size expand_quote_single c x =
    if c == 0
    then ok (enter expand_error_unclosed_quote x)
    else if c == b'\''
    then ok (pass expand_literal x)
    else move_char size x >>= λ y. ok (some y)
expand_byte host size expand_quote_double c x =
    if c == 0
    then ok (enter expand_error_unclosed_quote x)
    else if c == b'"'
    then ok (pass expand_literal x)
    else if c == b'\\'
    then ok (pass expand_quote_double_escape x)
    else move_char size x >>= λ y. ok (some y)
expand_byte host size expand_quote_double_escape c x =
    if c == 0
    then ok (enter expand_error_unclosed_quote x)
    else move_char size x >>= λ y. ok (enter expand_quote_double y)
expand_byte host size expand_end c x = ok (some x)
expand_byte host size expand_error_unclosed_quote c x = ok (some x)

-- One round: the `switch`, then `it++`.
unfoldable pub expand_round : Host → ℕ → Expansion → Outcome (Option Expansion)
expand_round host size x = do
  c ← load size x.bytes x.it
  next ← expand_byte host size x.state c x
  ok (elim next [ none ↦ none | some y ↦ some (record y { it = y.it + 1 }) ])

-- The loop, and the tests after it: the list, or `none` for the jump to `failure`.
unfoldable pub expand_loop : ℕ → Host → ℕ → Expansion → Outcome (Option (List (List ℕ)))
expand_loop zero host size x = fault out_of_fuel
expand_loop (suc fuel) host size x = elim (x.state) [
  | expand_end ↦ ok x.arguments
  | expand_error_unclosed_quote ↦ ok none
  | _ ↦ do
    next ← expand_round host size x
    elim next [ none ↦ ok none | some y ↦ expand_loop fuel host size y ]
]

-- What the loop starts with.
abbrev pub splitting : List ℕ → Expansion
splitting value = record {
  state = expand_spaces;
  bytes = copied value;
  it = 0;
  dst = 0;
  src = 0;
  arg = 0;
  arguments = none;
}

unfoldable pub parse_general_arguments :
    Host → DaemonConf → Option (List ℕ) → Outcome (Option DaemonConf)
parse_general_arguments host conf none = ok none
parse_general_arguments host conf (some value) = do
  list ← expand_loop (length value + 2) host (length value + 1) (splitting value)
  ok (elim list [ none ↦ none | some words ↦ some (record conf { arguments = some words }) ])
