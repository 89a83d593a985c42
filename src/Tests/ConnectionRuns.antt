-- ===== src/Tests/ConnectionRuns.antt =====
-- src/cyberd/socket_connection_node.c on short messages.
use cyberd.Base.{
  Bool-cases, ltb, inl, inr, false, zero, suc, ◌/◌, ◌-◌, ◌<◌, ◌≤◌, ℕ, List, ap, ◌+◌, ◌^◌, ◌≡◌, refl,
  true, [], ◌∷◌, All, arith, ok, fault, out_of_bounds,
}
use native.Mathlib.Nat.{pow-suc, div-eq_of_lt}
use cyberd.Capabilities.{capset_all, has}
use cyberd.Connection.{
  start, Parser, invalid, new_parser, ntohl, parser_feed, feed_loop, feed_state, feed_command_byte,
  feed_command, capability_of, feed_name, name_fill, memchr, last_byte, c_string, queue_reboot,
  autoboot, halt_system, daemon_start_name, daemon_actions,
}
use cyberd.Connection.Authority.{Allowed, Entered, parser_feed-Allowed}
use cyberd.Connection.Names.{FitsBuffer, HasName, parser_feed-HasName}
use cyberd.Connection.Overrun.{name_never_returns}
use cyberd.Connection.Returning.{IsSystemOnly, granted, arrives, parser_feed_returns}
use cyberd.Connection.Endpoint.{create_message, awaiting_name, create_message-ntohl}

abbrev root_parser : Parser
root_parser = new_parser capset_all

-- The command 1, a name and its nul byte: the daemon is started, and the next byte is out of bounds.
run_start :
    parser_feed true root_parser (1 ∷ b'a' ∷ b'b' ∷ 0 ∷ [])
    ≡ (start (b'a' ∷ b'b' ∷ []) ∷ [], fault out_of_bounds)
unfolding parser_feed feed_loop feed_state feed_command_byte feed_command capability_of feed_name
    name_fill memchr last_byte c_string has new_parser
run_start = refl

-- So is one that is followed by a command which nobody may give, and the parser returns.
abbrev started_bytes : List ℕ
started_bytes = 1 ∷ b'a' ∷ 0 ∷ 9 ∷ []

run_refused :
    parser_feed true root_parser started_bytes
    ≡ (start (b'a' ∷ []) ∷ [], ok (record root_parser { state = invalid; name = b'a' ∷ 0 ∷ [] }))
unfolding parser_feed feed_loop feed_state feed_command_byte feed_command capability_of feed_name
    name_fill memchr last_byte c_string has new_parser
run_refused = refl

parser_feed-Allowed_example :
    All (Allowed root_parser.capabilities) (parser_feed true root_parser started_bytes).0
    × ((p : Parser)
        → (parser_feed true root_parser started_bytes).1 ≡ ok p
        → (p.capabilities ≡ root_parser.capabilities) × Entered root_parser.capabilities p.state)
unfolding new_parser
parser_feed-Allowed_example = parser_feed-Allowed true root_parser started_bytes tt

parser_feed-HasName_example :
    All HasName (parser_feed true root_parser started_bytes).0
    × ((p : Parser) → (parser_feed true root_parser started_bytes).1 ≡ ok p → FitsBuffer p.name)
unfolding new_parser
parser_feed-HasName_example = parser_feed-HasName true root_parser started_bytes (omega arith, tt)

-- Halt and reboot only.
abbrev halting : ℕ
halting = 2 ^ 6 + 2 ^ 7

power_large : (j : ℕ) → 512 ≤ 2 ^ (j + 9)
power_large zero = omega arith
power_large (suc j) =
    let q : suc j + 9 ≡ suc (j + 9) = omega arith in
    rw q (omega (arith, pow-suc 2 (j + 9), power_large j))

halting_above : (j : ℕ) → has halting (j + 9) ≡ false
unfolding has
halting_above j =
    let z : halting / 2 ^ (j + 9) ≡ 0 = div-eq_of_lt (omega (arith, power_large j)) in rw z refl

halting_below : (k : ℕ) → k < 9 → has halting k ≡ true → (5 ≤ k) × (k ≤ 8)
unfolding has
halting_below zero l h = absurd (cc)
halting_below (suc zero) l h = absurd (cc)
halting_below (suc (suc zero)) l h = absurd (cc)
halting_below (suc (suc (suc zero))) l h = absurd (cc)
halting_below (suc (suc (suc (suc zero)))) l h = absurd (cc)
halting_below (suc (suc (suc (suc (suc zero))))) l h = absurd (cc)
halting_below (suc (suc (suc (suc (suc (suc zero)))))) l h = omega arith
halting_below (suc (suc (suc (suc (suc (suc (suc zero))))))) l h = omega arith
halting_below (suc (suc (suc (suc (suc (suc (suc (suc zero)))))))) l h = absurd (cc)
halting_below (suc (suc (suc (suc (suc (suc (suc (suc (suc k))))))))) l h =
    absurd (omega (arith, l))

halting-IsSystemOnly : IsSystemOnly halting
halting-IsSystemOnly k h = elim (Bool-cases (ltb k 9)) [
  | inl l ↦ halting_below k (ground (arith, l)) h
  | inr l ↦
      let e : k - 9 + 9 ≡ k = ground (arith, l) in
      absurd (cc (h, ap (has halting) e, halting_above (k - 9)))
]

parser_feed_returns_example : parser_feed true (new_parser halting) (7 ∷ 6 ∷ 5 ∷ 7 ∷ []) ≡ (
  granted halting (7 ∷ 6 ∷ 5 ∷ 7 ∷ []),
  ok (record (new_parser halting) { state = arrives halting (7 ∷ 6 ∷ 5 ∷ 7 ∷ []) }),
)
parser_feed_returns_example =
    parser_feed_returns true halting halting-IsSystemOnly (7 ∷ 6 ∷ 5 ∷ 7 ∷ []) (omega arith)

run_granted :
    granted halting (7 ∷ 6 ∷ 5 ∷ 7 ∷ []) ≡ queue_reboot autoboot ∷ queue_reboot halt_system ∷ []
unfolding granted has
run_granted = refl

-- A parser that waits for the name of a daemon to start, and one that was made invalid.
abbrev starting : Parser
starting = record {
  capabilities = capset_all;
  state = daemon_start_name;
  word = 0;
  size = 0;
  name_capabilities = 0;
  name = [];
}

abbrev refusing : Parser
refusing = record starting { state = invalid }

refused_run : parser_feed true starting (b'a' ∷ b'/' ∷ []) ≡ ([], ok refusing)
unfolding parser_feed feed_loop feed_state feed_name name_fill memchr
refused_run = refl

name_never_returns_example : refusing.state ≡ invalid
name_never_returns_example =
    name_never_returns true starting refusing (daemon_actions start) b'a' (b'/' ∷ []) refl
      (ap (λ r. r.1) refused_run)

create_message-ntohl_example :
    parser_feed true (new_parser capset_all) (create_message 2)
    ≡ ([], ok (awaiting_name capset_all 2 (ntohl true 2)))
unfolding has
create_message-ntohl_example = create_message-ntohl true capset_all 2 refl (omega arith)
