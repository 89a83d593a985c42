-- ===== src/Connection/Authority.antt =====
-- What a connection of src/cyberd/socket_connection_node.c is allowed to ask for.
use cyberd.Base.{
  length, ◌+◌, ℕ, zero, suc, ◌+◌, ◌*◌, ◌/◌, ◌%◌, ◌≡◌, refl, sym, subst, Bool, true, List, some,
  arith, All, All-append, ok, ◌<◌, if_both, some_inj, ◌==◌,
}
use cyberd.Capabilities.{has, and_bits}
use cyberd.Connection.{
  power_off, halt_system, autoboot, sw_suspend, Action, queue_reboot, create_endpoint, start, stop,
  reload, finish, ParserState, command, endpoint_create_capabilities, endpoint_create_name,
  daemon_start_name, daemon_stop_name, daemon_reload_name, daemon_end_name, invalid, Parser, Feed,
  Filled, feed_command, endpoint_actions, shift_in, named, parser_feed,
}
use cyberd.Connection.Relation.{
  asks, Round, commanded, shifted, refused, filled, drained, Rounds, here, more, feed_loop-Rounds,
}

-- `granted` holds no capability that `capset` does not hold.
abbrev pub Within : ℕ → ℕ → Type 0
Within granted capset = and_bits 32 capset granted ≡ granted

-- The capability that each action takes; an endpoint gets no more than its creator has.
abbrev pub Allowed : ℕ → Action → Type 0
Allowed c (create_endpoint name granted) = (has c 0 ≡ true) × Within granted c
Allowed c (start name) = has c 1 ≡ true
Allowed c (stop name) = has c 2 ≡ true
Allowed c (reload name) = has c 3 ≡ true
Allowed c (finish name) = has c 4 ≡ true
Allowed c (queue_reboot power_off) = has c 5 ≡ true
Allowed c (queue_reboot halt_system) = has c 6 ≡ true
Allowed c (queue_reboot autoboot) = has c 7 ≡ true
Allowed c (queue_reboot sw_suspend) = has c 8 ≡ true

-- A state is entered by a command only with the capability of that command.
abbrev pub Entered : ℕ → ParserState → Type 0
Entered c command = Unit
Entered c endpoint_create_capabilities = has c 0 ≡ true
Entered c endpoint_create_name = has c 0 ≡ true
Entered c daemon_start_name = has c 1 ≡ true
Entered c daemon_stop_name = has c 2 ≡ true
Entered c daemon_reload_name = has c 3 ≡ true
Entered c daemon_end_name = has c 4 ≡ true
Entered c invalid = Unit

low_bit : (x r : ℕ) → x < 2 → ((x + 2 * r) % 2 ≡ x) × ((x + 2 * r) / 2 ≡ r)
low_bit x r h = omega arith

bit_mul : (m n : ℕ) → m < 2 → n < 2 → (m * n < 2) × (m * (m * n) ≡ m * n)
bit_mul zero n h k = omega arith
bit_mul (suc zero) n h k = omega arith
bit_mul (suc (suc m)) n h k = absurd (omega arith)

pub and_bits_idem : (w a b : ℕ) → and_bits w a (and_bits w a b) ≡ and_bits w a b
unfolding and_bits
and_bits_idem zero a b = refl
and_bits_idem (suc w) a b =
    let (small, same) = bit_mul (a % 2) (b % 2) (omega arith) (omega arith) in
    let (low, high) = low_bit (a % 2 * (b % 2)) (and_bits w (a / 2) (b / 2)) small in
    rw (low, high, same, and_bits_idem w (a / 2) (b / 2))

-- What holds of a feed on a connection with capabilities `c`.
pub record IsAllowed (c : ℕ) (f : Feed) : Type 0 where
  pub kept : f.parser.capabilities ≡ c
  pub entered : Entered c f.parser.state
  pub allowed : All (Allowed c) f.actions

command-Allowed :
    (c byte : ℕ) (q p : Parser) (asked : List Action)
    → q.capabilities ≡ c
    → q.state ≡ command
    → feed_command q byte ≡ ok (p, asked)
    → (p.capabilities ≡ c) × Entered c p.state × All (Allowed c) asked
unfolding feed_command
command-Allowed c byte q p asked k s e = ground arith

shift_in-Allowed :
    (c byte : ℕ) (host : Bool) (q : Parser)
    → q.capabilities ≡ c
    → q.state ≡ endpoint_create_capabilities
    → has c 0 ≡ true
    → ((shift_in host q byte).capabilities ≡ c) × Entered c (shift_in host q byte).state
shift_in-Allowed c byte host q k s e = ground arith

endpoint-Allowed :
    (c : ℕ) (p : Parser)
    → p.capabilities ≡ c
    → has c 0 ≡ true
    → All (Allowed c) (endpoint_actions p)
unfolding endpoint_actions
endpoint-Allowed c p k e = ground (arith, and_bits_idem 32 p.capabilities p.name_capabilities)

-- What a name asks for is allowed by the capability with which its state was entered.
asked-Allowed :
    (c : ℕ) (s : ParserState) (asked : Parser → List Action) (p : Parser)
    → asks s ≡ some asked
    → Entered c s
    → p.capabilities ≡ c
    → All (Allowed c) (asked p)
asked-Allowed c command asked p q e k = absurd (cc)
asked-Allowed c invalid asked p q e k = absurd (cc)
asked-Allowed c endpoint_create_capabilities asked p q e k = absurd (cc)
asked-Allowed c endpoint_create_name asked p q e k =
    subst (λ f. All (Allowed c) (f p)) (some_inj q) (endpoint-Allowed c p k e)
asked-Allowed c daemon_start_name asked p q e k =
    subst (λ f. All (Allowed c) (f p)) (some_inj q) (e, tt)
asked-Allowed c daemon_stop_name asked p q e k =
    subst (λ f. All (Allowed c) (f p)) (some_inj q) (e, tt)
asked-Allowed c daemon_reload_name asked p q e k =
    subst (λ f. All (Allowed c) (f p)) (some_inj q) (e, tt)
asked-Allowed c daemon_end_name asked p q e k =
    subst (λ f. All (Allowed c) (f p)) (some_inj q) (e, tt)

named-IsAllowed :
    (c : ℕ) (f : Feed) (g : Filled) (asked : Parser → List Action) (last : ℕ)
    → asks f.parser.state ≡ some asked
    → IsAllowed c f
    → IsAllowed c (named f g asked last)
named-IsAllowed c f g asked last q i =
    if_both (IsAllowed c) (last == 0) _ _
      (record {
        kept = i.kept;
        entered = tt;
        allowed =
            All-append (Allowed c) f.actions _ i.allowed
              (asked-Allowed c f.parser.state asked _ q i.entered i.kept);
      })
      (record { kept = i.kept; entered = i.entered; allowed = i.allowed })

Round-IsAllowed :
    (c : ℕ) (host : Bool) {f f' : Feed} → Round host f f' → IsAllowed c f → IsAllowed c f'
Round-IsAllowed c host {f = f} (commanded byte rest p asked s b q e) i =
    let (k, n, w) = command-Allowed c byte f.parser p asked i.kept s q in
    subst (IsAllowed c) (sym e) (record {
      kept = k;
      entered = n;
      allowed = All-append (Allowed c) f.actions asked i.allowed w;
    })
Round-IsAllowed c host {f = f} (shifted byte rest s b e) i =
    let (k, n) = shift_in-Allowed c byte host f.parser i.kept s (subst (Entered c) s i.entered) in
    subst (IsAllowed c) (sym e) (record { kept = k; entered = n; allowed = i.allowed })
Round-IsAllowed c host (refused acts a₀ e) i =
    subst (IsAllowed c) (sym e) (record { kept = i.kept; entered = tt; allowed = i.allowed })
Round-IsAllowed c host {f = f} (filled asked nul g last q m n w l e) i =
    subst (IsAllowed c) (sym e) (named-IsAllowed c f g asked last q i)
Round-IsAllowed c host (drained s e) i =
    subst (IsAllowed c) (sym e) (record { kept = i.kept; entered = i.entered; allowed = i.allowed })

Rounds-IsAllowed :
    (c : ℕ) (host : Bool) {f f' : Feed} → Rounds host f f' → IsAllowed c f → IsAllowed c f'
Rounds-IsAllowed c host here i = i
Rounds-IsAllowed c host (more rs p r) i = Round-IsAllowed c host r (Rounds-IsAllowed c host rs i)

-- Whatever bytes a connection sends, each action that parser_feed asks for, before a fault too, is one
-- that the connection's capabilities allow, and an endpoint that it creates has a subset of them. When it
-- returns, the parser keeps the capabilities and is in a state that they allow.
pub parser_feed-Allowed :
    (host : Bool) (p : Parser) (bytes : List ℕ)
    → Entered p.capabilities p.state
    → All (Allowed p.capabilities) (parser_feed host p bytes).0
      × ((p' : Parser)
          → (parser_feed host p bytes).1 ≡ ok p'
          → (p'.capabilities ≡ p.capabilities) × Entered p.capabilities p'.state)
unfolding parser_feed
parser_feed-Allowed host p bytes e =
    let (h, rs, log, ends) = feed_loop-Rounds host (length bytes + 3) _ _ here in
    let i =
      Rounds-IsAllowed p.capabilities host rs (record { kept = refl; entered = e; allowed = tt }) in
    (
      subst (All (Allowed p.capabilities)) log i.allowed,
      λ p' q.
          let same = (ends p' q).1 in
          (
            subst (λ r. r.capabilities ≡ p.capabilities) same i.kept,
            subst (λ r. Entered p.capabilities r.state) same i.entered,
          ),
    )
