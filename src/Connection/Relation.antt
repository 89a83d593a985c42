-- ===== src/Connection/Relation.antt =====
-- The rounds of the loop of parser_feed in src/cyberd/socket_connection_node.c, as a step relation.
use cyberd.Base.{
  ℕ, zero, suc, ◌-◌, ◌<◌, ◌≡◌, refl, ap, subst, inl, inr, Bool, Bool-cases, List, [], ◌∷◌, ◌++◌,
  Option, none, some, arith, drop, ok, Outcome-cases, sym, ◌>>=◌, >>=-eq-ok, ◌==◌, ==_iff,
}
use cyberd.Connection.{
  Parser, ParserState, command, endpoint_create_capabilities, endpoint_create_name,
  daemon_start_name, daemon_stop_name, daemon_reload_name, daemon_end_name, invalid, Action, start,
  stop, reload, finish, Feed, Filled, memchr, name_fill, fill_length, feed_command, capability_of,
  next_byte, feed_command_byte, feed_capabilities_byte, shift_in, feed_name, named,
  endpoint_actions, daemon_actions, feed_state, feed_loop, last_byte,
}
use cyberd.Connection.Rounds.{Fills, name_fill-Fills}

-- What a name asks for once it is whole, in the states that parse one.
abbrev pub asks : ParserState → Option (Parser → List Action)
asks endpoint_create_name = some endpoint_actions
asks daemon_start_name = some (daemon_actions start)
asks daemon_stop_name = some (daemon_actions stop)
asks daemon_reload_name = some (daemon_actions reload)
asks daemon_end_name = some (daemon_actions finish)
asks _ = none

-- One round, from what is left to feed before it to what is left after it.
pub data Round (host : Bool) (f f' : Feed) : Type 0 where
  commanded :
      (byte : ℕ) (rest : List ℕ) (p : Parser) (asked : List Action)
      → f.parser.state ≡ command
      → f.bytes ≡ byte ∷ rest
      → feed_command f.parser byte ≡ ok (p, asked)
      → f' ≡ record { parser = p; bytes = rest; count = f.count - 1; actions = f.actions ++ asked }
      → Round host f f'
  shifted :
      (byte : ℕ) (rest : List ℕ)
      → f.parser.state ≡ endpoint_create_capabilities
      → f.bytes ≡ byte ∷ rest
      → f' ≡ record f { parser = shift_in host f.parser byte; bytes = rest; count = f.count - 1 }
      → Round host f f'
  refused :
      (asked : Parser → List Action)
      → asks f.parser.state ≡ some asked
      → f' ≡ record f { parser = record (f.parser) { state = invalid } }
      → Round host f f'
  filled :
      (asked : Parser → List Action) (nul : Option ℕ) (g : Filled) (last : ℕ)
      → asks f.parser.state ≡ some asked
      → memchr 0 f.count f.bytes ≡ ok nul
      → memchr b'/' (fill_length nul f.count) f.bytes ≡ ok none
      → Fills f.parser.name f.bytes f.count (fill_length nul f.count) g
      → last_byte g.name ≡ ok last
      → f' ≡ named f g asked last
      → Round host f f'
  drained :
      f.parser.state ≡ invalid
      → f' ≡ record f { bytes = drop f.count f.bytes; count = 0 }
      → Round host f f'

ok_inj {ℓ} : {A : Type ℓ} {a b : A} → ok a ≡ ok b → b ≡ a
ok_inj q = cc

next_byte-eq_ok :
    (bytes : List ℕ) (b : ℕ) (rest : List ℕ) → next_byte bytes ≡ ok (b, rest) → bytes ≡ b ∷ rest
next_byte-eq_ok [] b rest q = cc
next_byte-eq_ok (c ∷ bytes) b rest q = ground arith

capability_of-eq_ok : (byte k : ℕ) → capability_of byte ≡ ok k → k ≡ byte
unfolding capability_of
capability_of-eq_ok byte k q = ground arith

module _ (host : Bool) where
  command-Round :
      (f f' : Feed) → f.parser.state ≡ command → feed_command_byte f ≡ ok f' → Round host f f'
  unfolding feed_command_byte
  command-Round f f' s q =
      let ((byte, rest), e, q₁) = >>=-eq-ok (next_byte f.bytes) _ q in
      let (k, c, q₂) = >>=-eq-ok (capability_of byte) _ q₁ in
      let ((p, asked), d, q₃) = >>=-eq-ok (feed_command f.parser k) _ q₂ in
      commanded byte rest p asked s (next_byte-eq_ok f.bytes byte rest e)
        (subst (λ i. feed_command f.parser i ≡ ok (p, asked)) (capability_of-eq_ok byte k c) d)
        (ok_inj q₃)

  capabilities-Round :
      (f f' : Feed)
      → f.parser.state ≡ endpoint_create_capabilities
      → feed_capabilities_byte host f ≡ ok f'
      → Round host f f'
  unfolding feed_capabilities_byte
  capabilities-Round f f' s q =
      let ((byte, rest), e, q') = >>=-eq-ok (next_byte f.bytes) _ q in
      shifted byte rest s (next_byte-eq_ok f.bytes byte rest e) (ok_inj q')

  name-Round :
      (asked : Parser → List Action) (f f' : Feed)
      → 0 < f.count
      → asks f.parser.state ≡ some asked
      → feed_name asked f ≡ ok f'
      → Round host f f'
  unfolding feed_name
  name-Round asked f f' c s q =
      let (m, e, q') = >>=-eq-ok (name_fill f.parser.name f.bytes f.count) _ q in go m e q'
    where
      go :
          (m : Option Filled)
          → name_fill f.parser.name f.bytes f.count ≡ ok m
          → (elim m [
            | none ↦ ok (record f { parser = record (f.parser) { state = invalid } })
            | some g ↦ last_byte g.name >>= λ last. ok (named f g asked last)
          ])
            ≡ ok f'
          → Round host f f'
      go none e r = refused asked s (ok_inj r)
      go (some g) e r =
          let (nul, z, slash, w) = name_fill-Fills f.parser.name f.bytes f.count g c e in
          let (last, l, r') = >>=-eq-ok (last_byte g.name) _ r in
          filled asked nul g last s z slash w l (ok_inj r')

  state-Round :
      (s : ParserState) (f f' : Feed)
      → f.parser.state ≡ s
      → 0 < f.count
      → feed_state s host f ≡ ok f'
      → Round host f f'
  unfolding feed_state
  state-Round command f f' e c q = command-Round f f' e q
  state-Round endpoint_create_capabilities f f' e c q = capabilities-Round f f' e q
  state-Round endpoint_create_name f f' e c q = name-Round _ f f' c (ap asks e) q
  state-Round daemon_start_name f f' e c q = name-Round _ f f' c (ap asks e) q
  state-Round daemon_stop_name f f' e c q = name-Round _ f f' c (ap asks e) q
  state-Round daemon_reload_name f f' e c q = name-Round _ f f' c (ap asks e) q
  state-Round daemon_end_name f f' e c q = name-Round _ f f' c (ap asks e) q
  state-Round invalid f f' e c q = drained e (ok_inj q)

  pub feed_state-Round :
      (f f' : Feed) → 0 < f.count → feed_state f.parser.state host f ≡ ok f' → Round host f f'
  feed_state-Round f f' c q = state-Round f.parser.state f f' refl c q

  -- Any number of rounds.
  pub data Rounds (f : Feed) : Feed → Type 0 where
    here : Rounds f f
    more : {g h : Feed} → Rounds f g → 0 < g.count → Round host g h → Rounds f h

  -- What parser_feed asked for was asked in rounds; where it returns, these end with an empty count.
  pub feed_loop-Rounds :
      (n : ℕ) (f g : Feed)
      → Rounds f g
      → (h : Feed) × Rounds f h
        × (h.actions ≡ (feed_loop n host g).0)
        × ((p : Parser) → (feed_loop n host g).1 ≡ ok p → (h.count ≡ 0) × (h.parser ≡ p))
  unfolding feed_loop
  feed_loop-Rounds zero f g r = (g, r, refl, λ p q. cc)
  feed_loop-Rounds (suc n) f g r = elim (Bool-cases (g.count == 0)) [
    | inl z ↦ rw (z, feed_loop) ((g, r, refl, λ p q. ((==_iff g.count 0).0 z, sym (ok_inj q))))
    | inr z ↦
        let c : 0 < g.count = ground arith in
        elim (Outcome-cases (feed_state g.parser.state host g)) [
          | inl (g', e) ↦
              rw (z, e, feed_loop) (feed_loop-Rounds n f g' (more r c (feed_state-Round g g' c e)))
          | inr (x, e) ↦ rw (z, e, feed_loop) ((g, r, refl, λ p q. cc))
        ]
  ]
