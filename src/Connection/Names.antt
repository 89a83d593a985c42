-- ===== src/Connection/Names.antt =====
-- The names that src/cyberd/socket_connection_node.c hands to the rest of cyberd.
use cyberd.Base.{
  true, ℕ, zero, suc, ◌+◌, ◌≤◌, ◌<◌, ◌≡◌, ◌≢◌, sym, ap, subst, ◌∙◌, Bool, if_both, List, [], ◌∷◌,
  none, some, arith, All, All-append, length, length-append, take, ok, ◌==◌, ==_iff, Bool-cases,
  inl, inr, some_inj, length-take,
}
use cyberd.Connection.{
  Action, queue_reboot, create_endpoint, start, stop, reload, finish, ParserState, command,
  endpoint_create_capabilities, endpoint_create_name, daemon_start_name, daemon_stop_name,
  daemon_reload_name, daemon_end_name, invalid, Parser, Feed, Filled, feed_command, c_string,
  last_byte, is_endpoint_name, endpoint_actions, named, memchr, name_max, parser_feed,
}
use cyberd.Connection.Rounds.{Fills}
use cyberd.Connection.Relation.{
  asks, Round, commanded, shifted, refused, filled, drained, Rounds, here, more, feed_loop-Rounds,
}

-- At most NAME_MAX bytes, none of them '/' or nul; the name may be empty.
abbrev pub IsBounded : List ℕ → Type 0
IsBounded name = (length name ≤ name_max) × All (λ b. (b ≢ b'/') × (b ≢ 0)) name

abbrev pub HasName : Action → Type 0
HasName (queue_reboot howto) = Unit
HasName (create_endpoint name granted) = IsBounded name × (is_endpoint_name name ≡ true)
HasName (start name) = IsBounded name
HasName (stop name) = IsBounded name
HasName (reload name) = IsBounded name
HasName (finish name) = IsBounded name

-- What is filled of a name fits in the buffer, NAME_MAX + 1 bytes, and holds no '/'.
abbrev pub FitsBuffer : List ℕ → Type 0
FitsBuffer name = (length name ≤ name_max + 1) × All (λ b. b ≢ b'/') name

memchr-none-All :
    (c n : ℕ) (bytes : List ℕ) → memchr c n bytes ≡ ok none → All (λ b. b ≢ c) (take n bytes)
unfolding memchr
memchr-none-All c zero bytes q = tt
memchr-none-All c (suc n) [] q = cc
memchr-none-All c (suc n) (b ∷ bytes) q = ground (arith, memchr-none-All c n bytes)

c_string-All :
    (name : List ℕ) → All (λ b. b ≢ b'/') name → All (λ b. (b ≢ b'/') × (b ≢ 0)) (c_string name)
unfolding c_string
c_string-All [] h = tt
c_string-All (b ∷ name) h = ground (arith, c_string-All name h.1)

c_string_shorter : (name : List ℕ) → last_byte name ≡ ok 0 → length (c_string name) < length name
unfolding c_string last_byte
c_string_shorter [] q = cc
c_string_shorter (b ∷ []) q = ground arith
c_string_shorter (b ∷ (c ∷ name)) q = ground (arith, c_string_shorter (c ∷ name) q)

c_string-IsBounded :
    (name : List ℕ) → FitsBuffer name → last_byte name ≡ ok 0 → IsBounded (c_string name)
c_string-IsBounded name h q =
    (let s = c_string_shorter name q in omega arith, c_string-All name h.1)

record IsNamed (f : Feed) : Type 0 where
  fits : FitsBuffer f.parser.name
  names : All HasName f.actions

command_named :
    (k : ℕ) (q p : Parser) (asked : List Action)
    → FitsBuffer q.name
    → feed_command q k ≡ ok (p, asked)
    → FitsBuffer p.name × All HasName asked
unfolding feed_command
command_named k q p asked b e = ground arith

endpoint_named : (p : Parser) → IsBounded (c_string p.name) → All HasName (endpoint_actions p)
unfolding endpoint_actions
endpoint_named p n = ground arith

asked_named :
    (s : ParserState) (asked : Parser → List Action) (p : Parser)
    → asks s ≡ some asked
    → IsBounded (c_string p.name)
    → All HasName (asked p)
asked_named command asked p q n = absurd (cc)
asked_named invalid asked p q n = absurd (cc)
asked_named endpoint_create_capabilities asked p q n = absurd (cc)
asked_named endpoint_create_name asked p q n =
    subst (λ f. All HasName (f p)) (some_inj q) (endpoint_named p n)
asked_named daemon_start_name asked p q n = subst (λ f. All HasName (f p)) (some_inj q) (n, tt)
asked_named daemon_stop_name asked p q n = subst (λ f. All HasName (f p)) (some_inj q) (n, tt)
asked_named daemon_reload_name asked p q n = subst (λ f. All HasName (f p)) (some_inj q) (n, tt)
asked_named daemon_end_name asked p q n = subst (λ f. All HasName (f p)) (some_inj q) (n, tt)

filled-FitsBuffer :
    (name bytes : List ℕ) (count len : ℕ) (g : Filled)
    → FitsBuffer name
    → memchr b'/' len bytes ≡ ok none
    → Fills name bytes count len g
    → FitsBuffer g.name
filled-FitsBuffer name bytes count len g b m w = rw w.name_eq (
  rw (length-append name (take len bytes))
      (let r = w.fits in let l = length-take len bytes in omega arith),
  All-append _ name (take len bytes) b.1 (memchr-none-All b'/' len bytes m),
)

named-IsNamed :
    (f : Feed) (g : Filled) (asked : Parser → List Action) (last : ℕ)
    → asks f.parser.state ≡ some asked
    → IsNamed f
    → FitsBuffer g.name
    → last_byte g.name ≡ ok last
    → IsNamed (named f g asked last)
named-IsNamed f g asked last a i b l = elim (Bool-cases (last == 0)) [
  | inl z ↦
      let e : last_byte g.name ≡ ok 0 = l ∙ ap ok ((==_iff last 0).0 z) in
      rw z (record {
        fits = b;
        names =
            All-append HasName f.actions _ i.names
              (asked_named f.parser.state asked _ a (c_string-IsBounded g.name b e));
      })
  | inr z ↦ rw z (record { fits = b; names = i.names })
]

Round-IsNamed : (host : Bool) {f f' : Feed} → Round host f f' → IsNamed f → IsNamed f'
Round-IsNamed host {f = f} (commanded byte rest p asked s b q e) i =
    let (n, w) = command_named byte f.parser p asked i.fits q in
    subst IsNamed (sym e)
      (record { fits = n; names = All-append HasName f.actions asked i.names w })
Round-IsNamed host {f = f} (shifted byte rest s b e) i = subst IsNamed (sym e) (record {
  fits =
      if_both (λ (p : Parser). FitsBuffer p.name) (f.parser.size + 1 == 4) _ _ (omega arith, tt)
        i.fits;
  names = i.names;
})
Round-IsNamed host (refused acts a₀ e) i =
    subst IsNamed (sym e) (record { fits = i.fits; names = i.names })
Round-IsNamed host {f = f} (filled asked nul g last q m n w l e) i = subst IsNamed (sym e) (
    named-IsNamed f g asked last q i
      (filled-FitsBuffer f.parser.name f.bytes f.count _ g i.fits n w) l)
Round-IsNamed host (drained s e) i =
    subst IsNamed (sym e) (record { fits = i.fits; names = i.names })

Rounds-IsNamed : (host : Bool) {f f' : Feed} → Rounds host f f' → IsNamed f → IsNamed f'
Rounds-IsNamed host here i = i
Rounds-IsNamed host (more rs c r) i = Round-IsNamed host r (Rounds-IsNamed host rs i)

-- Whatever bytes a connection sends, each name that an action is asked for with, before a fault too, is
-- at most NAME_MAX bytes with no '/' and no nul byte, and that of an endpoint is not empty and does not
-- begin with a dot. When parser_feed returns, the name under construction fits in its buffer of
-- NAME_MAX + 1 bytes with no '/', if it did before.
pub parser_feed-HasName :
    (host : Bool) (p : Parser) (bytes : List ℕ)
    → FitsBuffer p.name
    → All HasName (parser_feed host p bytes).0
      × ((p' : Parser) → (parser_feed host p bytes).1 ≡ ok p' → FitsBuffer p'.name)
unfolding parser_feed
parser_feed-HasName host p bytes b =
    let (h, rs, log, ends) = feed_loop-Rounds host (length bytes + 3) _ _ here in
    let i = Rounds-IsNamed host rs (record { fits = b; names = tt }) in
    (subst (All HasName) log i.names, λ p' q. subst (λ r. FitsBuffer r.name) (ends p' q).1 i.fits)
