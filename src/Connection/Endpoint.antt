-- ===== src/Connection/Endpoint.antt =====
-- The capabilities of a new endpoint in src/cyberd/socket_connection_node.c, against the message
-- format of docs/endpoints.md: the command 0, then four bytes, the most significant first.
use cyberd.Base.{ℕ, ◌+◌, ◌*◌, ◌/◌, ◌%◌, ◌^◌, ◌<◌, ◌≡◌, ap, Bool, true, List, [], ◌∷◌, arith, ok}
use cyberd.Capabilities.{has}
use cyberd.Connection.{
  Parser, endpoint_create_name, new_parser, ntohl, parser_feed, feed_loop, feed_state,
  feed_command_byte, feed_capabilities_byte, feed_command, capability_of,
}

-- The start of a message that creates an endpoint with a capability set.
abbrev pub create_message : ℕ → List ℕ
create_message c = 0 ∷ c / 2 ^ 24 % 256 ∷ c / 2 ^ 16 % 256 ∷ c / 2 ^ 8 % 256 ∷ c % 256 ∷ []

-- The parser that waits for the endpoint's name, with the set that it keeps.
abbrev pub awaiting_name : ℕ → ℕ → ℕ → Parser
awaiting_name capabilities word kept = record (new_parser capabilities) {
  state = endpoint_create_name;
  word = word;
  size = 4;
  name_capabilities = kept;
}

-- `word = word << 8 | byte`, over the four bytes.
assembled : ℕ → ℕ
assembled c =
    (((0 + c / 2 ^ 24 % 256) * 2 ^ 8 % 2 ^ 32 + c / 2 ^ 16 % 256) * 2 ^ 8 % 2 ^ 32
        + c / 2 ^ 8 % 256)
      * 2 ^ 8
      % 2 ^ 32
    + c % 256

assembled-eq : (c : ℕ) → c < 2 ^ 32 → assembled c ≡ c
unfolding assembled
assembled-eq c b = omega arith

-- A connection that may create endpoints reads the four bytes back as the set `c` that they encode,
-- then keeps ntohl(c) for the endpoint, and waits for a name.
pub create_message-ntohl :
    (host : Bool) (capabilities c : ℕ)
    → has capabilities 0 ≡ true
    → c < 2 ^ 32
    → parser_feed host (new_parser capabilities) (create_message c)
      ≡ ([], ok (awaiting_name capabilities c (ntohl host c)))
unfolding parser_feed feed_loop feed_state feed_command_byte feed_capabilities_byte feed_command
    capability_of new_parser assembled
create_message-ntohl host capabilities c h b =
    rw (h, feed_command, feed_loop)
      (ap (λ w. ([], ok (awaiting_name capabilities w (ntohl host w)))) (assembled-eq c b))
