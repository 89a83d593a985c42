-- ===== src/Connection/Returning.antt =====
-- parser_feed of src/cyberd/socket_connection_node.c on a connection that may only command the system, whose
-- messages are single bytes.
use cyberd.Base.{
  ℕ, zero, suc, ◌+◌, ◌-◌, ◌≤◌, ◌<◌, ◌≡◌, refl, sym, ap, subst, ◌∙◌, inl, inr, Bool, true, false,
  Bool-cases, List, [], ◌∷◌, ◌++◌, All, append_assoc, append-nil, ltb, arith, length, Outcome, ok,
  ◌==◌, if◌then◌else◌,
}
use cyberd.Capabilities.{has}
use cyberd.Connection.{
  Howto, power_off, halt_system, autoboot, sw_suspend, Action, queue_reboot, ParserState, command,
  invalid, Parser, Feed, new_parser, capability_of, feed_command, feed_command_byte, feed_state,
  feed_loop, parser_feed,
}

-- The request of a command for the system.
abbrev pub requested : ℕ → Howto
requested id =
    if id == 5
    then power_off
    else if id == 6
    then halt_system
    else if id == 7
    then autoboot
    else sw_suspend

-- A capability set with commands for the system only.
abbrev pub IsSystemOnly : ℕ → Type 0
IsSystemOnly c = (k : ℕ) → has c k ≡ true → (5 ≤ k) × (k ≤ 8)

-- The requests of the bytes before the first one that is not granted.
unfoldable pub granted : ℕ → List ℕ → List Action
granted c [] = []
granted c (b ∷ bytes) =
    let rest = granted c bytes in if has c b then queue_reboot (requested b) ∷ rest else []

-- Where the parser is after the bytes.
unfoldable pub arrives : ℕ → List ℕ → ParserState
arrives c [] = command
arrives c (b ∷ bytes) = let rest = arrives c bytes in if has c b then rest else invalid

module _ (host : Bool) (c : ℕ) (only : IsSystemOnly c) where
  abbrev at_state : ParserState → Parser
  at_state s = record (new_parser c) { state = s }

  command-granted :
      (b : ℕ)
      → has c b ≡ true
      → feed_command (at_state command) b ≡ ok (at_state command, queue_reboot (requested b) ∷ [])
  unfolding feed_command new_parser
  command-granted b h = let (l, u) = only b h in ground (arith, h, l, u)

  command-refused :
      (b : ℕ) → has c b ≡ false → feed_command (at_state command) b ≡ ok (at_state invalid, [])
  unfolding feed_command new_parser
  command-refused b h = ground (arith, h)

  abbrev feeding : ParserState → List ℕ → ℕ → List Action → Feed
  feeding s bytes count actions = record {
    parser = at_state s;
    bytes = bytes;
    count = count;
    actions = actions;
  }

  byte-fed :
      (b : ℕ) (bytes : List ℕ) (count : ℕ) (actions asked : List Action) (s : ParserState)
      → b < 32
      → feed_command (at_state command) b ≡ ok (at_state s, asked)
      → feed_state command host (feeding command (b ∷ bytes) count actions)
        ≡ ok (feeding s bytes (count - 1) (actions ++ asked))
  unfolding feed_state feed_command_byte capability_of
  byte-fed b bytes count actions asked s l e =
      let small : ltb b 32 ≡ true = ground (arith, l) in rw (small, e) refl

  abbrev Arrives : List Action → List ℕ → List Action × Outcome Parser → Type 0
  Arrives actions bytes r = r ≡ (actions ++ granted c bytes, ok (at_state (arrives c bytes)))

  drained :
      (n : ℕ) (bytes : List ℕ) (count : ℕ) (actions : List Action)
      → feed_loop (suc (suc n)) host (feeding invalid bytes count actions)
        ≡ (actions, ok (at_state invalid))
  unfolding feed_loop feed_state new_parser
  drained n bytes count actions = elim (Bool-cases (count == 0)) [
    | inl z ↦ rw (z, feed_loop) refl
    | inr z ↦ rw (z, feed_loop) refl
  ]

  feed_loop-Arrives :
      (bytes : List ℕ) (n count : ℕ) (actions : List Action)
      → All (λ b. b < 32) bytes
      → count ≡ length bytes
      → length bytes + 2 < n
      → Arrives actions bytes (feed_loop n host (feeding command bytes count actions))
  unfolding feed_loop granted arrives new_parser
  feed_loop-Arrives bytes zero count actions s e l = absurd (omega (arith, l))
  feed_loop-Arrives [] (suc n) count actions s e l =
      rw (e, feed_loop) (ap (λ a. (a, ok (at_state command))) (sym (append-nil actions)))
  feed_loop-Arrives (b ∷ bytes) (suc n) count actions s e l =
      let more : (count == 0) ≡ false = ground (arith, e) in
      let next : count - 1 ≡ length bytes = omega (arith, e) in
      elim (Bool-cases (has c b)) [
        | inl h ↦
            rw
              (
                more,
                byte-fed b bytes count actions _ command s.0 (command-granted b h),
                h,
                feed_loop,
              )
              (feed_loop-Arrives bytes n (count - 1) (actions ++ queue_reboot (requested b) ∷ [])
                  s.1 next (omega (arith, l))
                ∙ ap (λ a. (a, ok (at_state (arrives c bytes))))
                    (append_assoc actions (queue_reboot (requested b) ∷ []) (granted c bytes)))
        | inr h ↦
            rw
              (
                more,
                byte-fed b bytes count actions _ invalid s.0 (command-refused b h),
                h,
                feed_loop,
              )
              (subst
                (λ m.
                  feed_loop m host (feeding invalid bytes (count - 1) (actions ++ []))
                  ≡ (actions ++ [], ok (at_state invalid)))
                (let k : suc (suc (n - 2)) ≡ n = omega (arith, l) in k)
                (drained (n - 2) bytes (count - 1) (actions ++ [])))
      ]

  -- On a connection that may only command the system and bytes below 32, parser_feed returns, with the
  -- requests of the bytes before the first one that is not granted, and in its first state if each is
  -- granted, else invalid.
  pub parser_feed_returns :
      (bytes : List ℕ)
      → All (λ b. b < 32) bytes
      → parser_feed host (new_parser c) bytes
        ≡ (granted c bytes, ok (record (new_parser c) { state = arrives c bytes }))
  unfolding parser_feed new_parser
  parser_feed_returns bytes s =
      feed_loop-Arrives bytes (length bytes + 3) (length bytes) [] s refl (omega arith)
