-- ===== src/Connection/Overrun.antt =====
-- The count of parser_feed in src/cyberd/socket_connection_node.c against the bytes received.
use cyberd.Base.{
  ◌+◌, ℕ, ◌≤◌, ◌<◌, ◌≡◌, refl, sym, ap, subst, ◌⊎◌, inl, inr, Bool, if_both, List, ◌∷◌, some, arith,
  length, length-drop, ok, ◌==◌,
}
use cyberd.Connection.{
  command, endpoint_create_capabilities, invalid, Action, Parser, Feed, Filled, named, parser_feed,
}
use cyberd.Connection.Rounds.{Fills}
use cyberd.Connection.Relation.{
  asks, Round, commanded, shifted, refused, filled, drained, Rounds, here, more, feed_loop-Rounds,
}

-- The parser is invalid, or the count is above the number of bytes left.
abbrev pub IsOver : Feed → Type 0
IsOver f = (f.parser.state ≡ invalid) ⊎ (length f.bytes < f.count)

Fills-IsOver :
    (f : Feed) (g : Filled) (asked : Parser → List Action) (len last : ℕ)
    → length f.bytes ≤ f.count
    → Fills f.parser.name f.bytes f.count len g
    → IsOver (named f g asked last)
Fills-IsOver f g asked len last c w =
    let b : length g.bytes < g.count =
      rw (w.bytes_eq, w.count_eq, length-drop len f.bytes)
        (let r = w.received in let s = w.positive in omega arith) in
    if_both IsOver (last == 0) _ _ (inr b) (inr b)

Round-IsOver : (host : Bool) {f f' : Feed} → Round host f f' → IsOver f → IsOver f'
Round-IsOver host (commanded byte rest p asked s b q e) (inl i) = absurd (cc)
Round-IsOver host (shifted byte rest s b e) (inl i) = absurd (cc)
Round-IsOver host (refused acts a₀ e) (inl i) = rw e (inl refl)
Round-IsOver host {f = f} (filled asked nul g last q m n w l e) (inl i) =
    let none_asked : asks invalid ≡ some asked = subst (λ s. asks s ≡ some asked) i q in absurd (cc)
Round-IsOver host (drained s e) (inl i) = rw e (inl s)
Round-IsOver host {f = f} (commanded byte rest p asked s b q e) (inr o) =
    rw e (inr (let l = ap length b in omega arith))
Round-IsOver host {f = f} (shifted byte rest s b e) (inr o) =
    rw e (inr (let l = ap length b in omega arith))
Round-IsOver host (refused acts a₀ e) (inr o) = rw e (inl refl)
Round-IsOver host {f = f} (filled asked nul g last q m n w l e) (inr o) =
    rw e (Fills-IsOver f g asked _ last (omega arith) w)
Round-IsOver host (drained s e) (inr o) = rw e (inl s)

Rounds-IsOver : (host : Bool) {f f' : Feed} → Rounds host f f' → IsOver f → IsOver f'
Rounds-IsOver host here o = o
Rounds-IsOver host (more rs c r) o = Round-IsOver host r (Rounds-IsOver host rs o)

-- The round that parses a part of a name leaves the count above the bytes.
name-IsOver :
    (host : Bool) (f f' : Feed) (asked : Parser → List Action)
    → asks f.parser.state ≡ some asked
    → length f.bytes ≤ f.count
    → Round host f f'
    → IsOver f'
name-IsOver host f f' asked a c (commanded byte rest p acts s b q e) =
    let none_asked : asks command ≡ some asked = subst (λ s. asks s ≡ some asked) s a in absurd (cc)
name-IsOver host f f' asked a c (shifted byte rest s b e) =
    let none_asked : asks endpoint_create_capabilities ≡ some asked =
      subst (λ s. asks s ≡ some asked) s a in
    absurd (cc)
name-IsOver host f f' asked a c (refused acts a₀ e) = rw e (inl refl)
name-IsOver host f f' asked a c (filled asked' nul g last q m n w l e) =
    rw e (Fills-IsOver f g asked' _ last c w)
name-IsOver host f f' asked a c (drained s e) = rw e (inl s)

Rounds-IsOver_cases :
    (host : Bool) {f h : Feed} (asked : Parser → List Action)
    → asks f.parser.state ≡ some asked
    → length f.bytes ≤ f.count
    → Rounds host f h
    → (h ≡ f) ⊎ IsOver h
Rounds-IsOver_cases host asked a c here = inl refl
Rounds-IsOver_cases host {f = f} {h = h} asked a c (more {g = g} rs p r) =
    elim (Rounds-IsOver_cases host asked a c rs) [
      | inl e ↦ inr (
          name-IsOver host g h asked (subst (λ x. asks x.parser.state ≡ some asked) (sym e) a)
            (subst (λ x. length x.bytes ≤ x.count) (sym e) c) r)
      | inr o ↦ inr (Round-IsOver host r o)
    ]

ended_invalid : (h : Feed) → IsOver h → h.count ≡ 0 → h.parser.state ≡ invalid
ended_invalid h (inl i) z = i
ended_invalid h (inr b) z = absurd (omega arith)

-- In a state that parses a name, parser_feed never returns in a state that goes on: on any bytes that
-- read(2) can give, it makes the parser invalid, aborts or reads bytes that were not received.
pub name_never_returns :
    (host : Bool) (p p' : Parser) (asked : Parser → List Action) (byte : ℕ) (bytes : List ℕ)
    → asks p.state ≡ some asked
    → (parser_feed host p (byte ∷ bytes)).1 ≡ ok p'
    → p'.state ≡ invalid
unfolding parser_feed
name_never_returns host p p' asked byte bytes a q =
    let (h, rs, log, ends) = feed_loop-Rounds host (length (byte ∷ bytes) + 3) _ _ here in
    let (z, same) = ends p' q in
    elim (Rounds-IsOver_cases host asked a (omega arith) rs) [
      | inl e ↦ absurd (let m = ap (λ (x : Feed). x.count) e in omega arith)
      | inr o ↦ subst (λ r. r.state ≡ invalid) same (ended_invalid h o z)
    ]
