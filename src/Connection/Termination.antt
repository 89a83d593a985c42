-- ===== src/Connection/Termination.antt =====
-- The fuel of the loop of parser_feed in src/cyberd/socket_connection_node.c is enough: it is not used up
-- before the loop ends or reads behind the bytes that were received, which is a fault.
use cyberd.Base.{
  ℕ, zero, suc, ◌+◌, ◌<◌, ◌≡◌, ◌≢◌, refl, ap, subst, ◌∙◌, ◌⊎◌, inl, inr, Bool, if_both, List, [],
  ◌∷◌, Option, none, some, arith, length, length-drop, ok, fault, Fault, out_of_fuel, ◌==◌,
  Bool-cases, Outcome, ◌>>=◌, Outcome-cases,
}
use cyberd.Connection.{
  ParserState, command, endpoint_create_capabilities, endpoint_create_name, daemon_start_name,
  daemon_stop_name, daemon_reload_name, daemon_end_name, invalid, Action, Parser, Feed, Filled,
  feed_command, fill_length, named, memchr, feed_state, feed_loop, parser_feed, feed_name,
  feed_command_byte, feed_capabilities_byte, capability_of, name_fill, last_byte, next_byte,
}
use cyberd.Connection.Rounds.{Fills}
use cyberd.Connection.Relation.{
  asks, Round, commanded, shifted, refused, filled, drained, feed_state-Round,
}

-- No step of the loop is itself out of fuel.
abbrev Fuelled {ℓ} : {A : Type ℓ} → Outcome A → Type ℓ
Fuelled m = m ≢ fault out_of_fuel

refault {ℓ κ} :
    {A : Type ℓ} {B : Type κ} (e : Fault)
    → (let x : Outcome B = fault e in x) ≡ fault out_of_fuel
    → (let x : Outcome A = fault e in x) ≡ fault out_of_fuel
refault e q = ground arith

Fuelled->>= {ℓ κ} :
    {A : Type ℓ} {B : Type κ} (m : Outcome A) (f : A → Outcome B)
    → Fuelled m
    → ((a : A) → Fuelled (f a))
    → Fuelled (m >>= f)
Fuelled->>= (ok a) f h k = k a
Fuelled->>= (fault e) f h k = λ q. h (refault e q)

next_byte-Fuelled : (bytes : List ℕ) → Fuelled (next_byte bytes)
next_byte-Fuelled [] = λ q. cc
next_byte-Fuelled (b ∷ bytes) = λ q. cc

memchr-Fuelled : (c n : ℕ) (bytes : List ℕ) → Fuelled (memchr c n bytes)
unfolding memchr
memchr-Fuelled c zero bytes = λ q. cc
memchr-Fuelled c (suc n) [] = λ q. cc
memchr-Fuelled c (suc n) (b ∷ bytes) = ground (arith, memchr-Fuelled c n bytes)

last_byte-Fuelled : (bytes : List ℕ) → Fuelled (last_byte bytes)
unfolding last_byte
last_byte-Fuelled [] = λ q. cc
last_byte-Fuelled (b ∷ []) = λ q. cc
last_byte-Fuelled (b ∷ (c ∷ bytes)) = last_byte-Fuelled (c ∷ bytes)

feed_command-Fuelled : (p : Parser) (k : ℕ) → Fuelled (feed_command p k)
unfolding feed_command
feed_command-Fuelled p k = ground arith

name_fill-Fuelled : (name bytes : List ℕ) (count : ℕ) → Fuelled (name_fill name bytes count)
unfolding name_fill
name_fill-Fuelled name bytes count =
    Fuelled->>= (memchr 0 count bytes) _ (memchr-Fuelled 0 count bytes)
      λ nul. ground (arith, memchr-Fuelled b'/' (fill_length nul count) bytes)

command_byte-Fuelled : (f : Feed) → Fuelled (feed_command_byte f)
unfolding feed_command_byte capability_of
command_byte-Fuelled f = Fuelled->>= (next_byte f.bytes) _ (next_byte-Fuelled f.bytes) λ b.
    Fuelled->>= (capability_of b.0) _ (ground arith)
      λ k. Fuelled->>= (feed_command f.parser k) _ (feed_command-Fuelled f.parser k) (λ r q. cc)

feed_name-Fuelled : (asked : Parser → List Action) (f : Feed) → Fuelled (feed_name asked f)
unfolding feed_name
feed_name-Fuelled asked f =
    Fuelled->>= (name_fill f.parser.name f.bytes f.count) _
      (name_fill-Fuelled f.parser.name f.bytes f.count) go
  where
    go :
        (m : Option Filled)
        → Fuelled (elim m [
          | none ↦ ok (record f { parser = record (f.parser) { state = invalid } })
          | some g ↦ last_byte g.name >>= λ last. ok (named f g asked last)
        ])
    go none = λ q. cc
    go (some g) = Fuelled->>= (last_byte g.name) _ (last_byte-Fuelled g.name) (λ last q. cc)

feed_state-Fuelled : (s : ParserState) (host : Bool) (f : Feed) → Fuelled (feed_state s host f)
unfolding feed_state feed_capabilities_byte
feed_state-Fuelled command host f = command_byte-Fuelled f
feed_state-Fuelled endpoint_create_capabilities host f =
    Fuelled->>= (next_byte f.bytes) _ (next_byte-Fuelled f.bytes) (λ b q. cc)
feed_state-Fuelled endpoint_create_name host f = feed_name-Fuelled _ f
feed_state-Fuelled daemon_start_name host f = feed_name-Fuelled _ f
feed_state-Fuelled daemon_stop_name host f = feed_name-Fuelled _ f
feed_state-Fuelled daemon_reload_name host f = feed_name-Fuelled _ f
feed_state-Fuelled daemon_end_name host f = feed_name-Fuelled _ f
feed_state-Fuelled invalid host f = λ q. cc

-- The rounds that are still to come, at most.
abbrev Bounded : ℕ → Feed → Type 0
Bounded n f =
    (f.count ≡ 0) × (0 < n) ⊎ (f.parser.state ≡ invalid) × (1 < n) ⊎ (length f.bytes + 2 < n)

asks_valid : {s : ParserState} {asked : Parser → List Action} → asks s ≡ some asked → s ≢ invalid
asks_valid {asked = asked} q i =
    let bad : asks invalid ≡ some asked = subst (λ t. asks t ≡ some asked) i q in cc

shorter :
    (f : Feed) (g : Filled) (n : ℕ) {len : ℕ}
    → f.parser.state ≢ invalid
    → Fills f.parser.name f.bytes f.count len g
    → Bounded (suc n) f
    → 0 < f.count
    → length g.bytes + 2 < n
shorter f g n {len = len} v w (inl z) c = absurd (omega arith)
shorter f g n {len = len} v w (inr (inl i)) c = absurd (v i.0)
shorter f g n {len = len} v w (inr (inr h)) c =
    rw (w.bytes_eq, length-drop len f.bytes)
      (let r = w.received in let s = w.positive in omega arith)

-- A round uses up one of them.
Round-Bounded :
    (host : Bool) (n : ℕ) {f f' : Feed}
    → Round host f f'
    → Bounded (suc n) f
    → 0 < f.count
    → Bounded n f'
Round-Bounded host n {f = f} (commanded byte rest p asked s b q e) h c =
    rw e (inr (inr (let l = ap length b in ground arith)))
Round-Bounded host n {f = f} (shifted byte rest s b e) h c =
    rw e (inr (inr (let l = ap length b in ground arith)))
Round-Bounded host n (refused acts a₀ e) h c =
    rw e (inr (inl (refl, let v = asks_valid a₀ in ground (arith, v))))
Round-Bounded host n {f = f} (filled asked nul g last q m k w l e) h c = rw e (
    if_both (Bounded n) (last == 0) _ _ (inr (inr (shorter f g n (asks_valid q) w h c)))
      (inr (inr (shorter f g n (asks_valid q) w h c))))
Round-Bounded host n (drained s e) h c = rw e (inl (refl, ground arith))

feed_loop-Fuelled : (host : Bool) (n : ℕ) (f : Feed) → Bounded n f → Fuelled (feed_loop n host f).1
unfolding feed_loop
feed_loop-Fuelled host zero f h = absurd (ground arith)
feed_loop-Fuelled host (suc n) f h = elim (Bool-cases (f.count == 0)) [
  | inl z ↦ rw (z, feed_loop) (λ q. cc)
  | inr z ↦ elim (Outcome-cases (feed_state f.parser.state host f)) [
    | inl (f', e) ↦
        let c : 0 < f.count = ground arith in
        rw (z, e, feed_loop)
          (feed_loop-Fuelled host n f' (Round-Bounded host n (feed_state-Round host f f' c e) h c))
    | inr (x, e) ↦
        rw (z, e, feed_loop) (λ q. feed_state-Fuelled f.parser.state host f (e ∙ refault x q))
  ]
]

-- The rounds that parser_feed is given suffice: on no input does the model's loop want more.
pub parser_feed_fuelled :
    (host : Bool) (p : Parser) (bytes : List ℕ) → (parser_feed host p bytes).1 ≢ fault out_of_fuel
unfolding parser_feed
parser_feed_fuelled host p bytes =
    feed_loop-Fuelled host (length bytes + 3) _ (inr (inr (omega arith)))
