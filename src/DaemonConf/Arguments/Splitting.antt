-- ===== src/DaemonConf/Arguments/Splitting.antt =====
-- The words of a value, without a buffer, and the loop of src/cyberd/daemon_conf.c that finds them.
use cyberd.Base.{
  ℕ, suc, ◌+◌, ◌-◌, ◌≤◌, true, false, List, [], ◌∷◌, ◌++◌, ltb, ◌==◌, if◌then◌else◌, Option, none,
  some, length, ok, ◌≡◌, refl, arith, inl, inr, Bool-cases, Option-cases,
}
use cyberd.DaemonConf.Values.{Host, list_append}
use cyberd.DaemonConf.Arguments.{
  ExpandState, expand_spaces, expand_literal, expand_quote_single, expand_quote_double,
  expand_quote_double_escape, expand_end, expand_error_unclosed_quote, move_char, end_word,
  expand_byte, expand_round, expand_loop,
}
use cyberd.DaemonConf.Buffer.{load, poke, write, string_at}
use cyberd.DaemonConf.Buffer.Strings.{
  Spells, Spells-length, Spells-write_past, Spells-write_before, Spells-snoc, Spells-string_at,
}

-- The words of `s` in a state, after the part `w` of a word and the words found before.
unfoldable pub split :
    Host → ExpandState → List ℕ → Option (List (List ℕ)) → List ℕ → Option (List (List ℕ))
split host expand_spaces w found [] = found
split host expand_spaces w found (c ∷ s) =
    let skip = split host expand_spaces w found s in
    let double = split host expand_quote_double [] found s in
    let single = split host expand_quote_single [] found s in
    let literal = split host expand_literal (c ∷ []) found s in
    if c == b' ' then skip else if c == b'"' then double else if c == b'\'' then single else literal
split host expand_literal w found [] = list_append host found w
split host expand_literal w found (c ∷ s) =
    let double = split host expand_quote_double w found s in
    let single = split host expand_quote_single w found s in
    let literal = split host expand_literal (w ++ c ∷ []) found s in
    let next : Option (List (List ℕ)) = elim (list_append host found w) [
      | none ↦ none
      | some list ↦ split host expand_spaces [] (some list) s
    ] in
    if c == b'"' then double else if c == b'\'' then single else if c == b' ' then next else literal
split host expand_quote_single w found [] = none
split host expand_quote_single w found (c ∷ s) =
    let close = split host expand_literal w found s in
    let more = split host expand_quote_single (w ++ c ∷ []) found s in
    if c == b'\'' then close else more
split host expand_quote_double w found [] = none
split host expand_quote_double w found (c ∷ s) =
    let close = split host expand_literal w found s in
    let escape = split host expand_quote_double_escape w found s in
    let more = split host expand_quote_double (w ++ c ∷ []) found s in
    if c == b'"' then close else if c == b'\\' then escape else more
split host expand_quote_double_escape w found [] = none
split host expand_quote_double_escape w found (c ∷ s) =
    split host expand_quote_double (w ++ c ∷ []) found s
split host expand_end w found s = found
split host expand_error_unclosed_quote w found s = none

-- What holds of the buffer in a state: in a word, `src` is at `it`, `dst` is not after it, and the word
-- so far stands from `arg` to `dst`.
abbrev pub Holds : ExpandState → (ℕ → ℕ) → ℕ → ℕ → ℕ → ℕ → List ℕ → Type 0
Holds expand_spaces bytes it dst src arg w = Unit
Holds expand_end bytes it dst src arg w = ⊥
Holds expand_error_unclosed_quote bytes it dst src arg w = ⊥
Holds _ bytes it dst src arg w = (src ≡ it) × (dst ≤ it) × Spells bytes arg w dst

module _ (host : Host) (last : ℕ) where
  -- The rest of the value from `it` to its nul byte.
  abbrev pub Rest : (ℕ → ℕ) → ℕ → List ℕ → Type 0
  Rest bytes it s = Spells bytes it s last × (bytes last ≡ 0)

  abbrev pub Splits :
      ExpandState → (ℕ → ℕ) → ℕ → ℕ → ℕ → ℕ → List ℕ → Option (List (List ℕ)) → List ℕ → Type 0
  Splits state bytes it dst src arg w found s =
      expand_loop (suc (suc (length s))) host (last + 1) (record {
        state = state;
        bytes = bytes;
        it = it;
        dst = dst;
        src = src;
        arg = arg;
        arguments = found;
      })
      ≡ ok (split host state w found s)

  pub inside : (it : ℕ) → it ≤ last → ltb it (last + 1) ≡ true
  inside it h = ground (arith, h)

  pub spaces-Splits :
      (c : ℕ) (s : List ℕ) (bytes : ℕ → ℕ) (it dst src arg : ℕ) (w : List ℕ)
      (found : Option (List (List ℕ)))
      → Rest bytes it (c ∷ s)
      → ((state : ExpandState) (dst src arg : ℕ) (w : List ℕ)
          → Holds state bytes (it + 1) dst src arg w
          → Splits state bytes (it + 1) dst src arg w found s)
      → Splits expand_spaces bytes it dst src arg w found (c ∷ s)
  unfolding expand_loop expand_round expand_byte split load poke move_char end_word
  spaces-Splits c s bytes it dst src arg w found r k =
      let lt = inside it (omega (arith, Spells-length bytes it (c ∷ s) last r.0)) in
      let c_is = r.0.0 in
      let not_nul = r.0.1 in
      elim (Bool-cases (c == b' ')) [
        | inl b ↦ rw (lt, c_is, not_nul, b) (k expand_spaces dst src arg w tt)
        | inr b ↦ elim (Bool-cases (c == b'"')) [
          | inl d ↦
              rw (lt, c_is, not_nul, b, d)
                (k expand_quote_double it (it + 1) it [] (refl, omega arith, refl))
          | inr d ↦ elim (Bool-cases (c == b'\'')) [
            | inl e ↦
                rw (lt, c_is, not_nul, b, d, e)
                  (k expand_quote_single it (it + 1) it [] (refl, omega arith, refl))
            | inr e ↦
                rw (lt, c_is, not_nul, b, d, e)
                  (k expand_literal (it + 1) (it + 1) it (c ∷ [])
                    (refl, omega arith, (c_is, not_nul, refl)))
          ]
        ]
      ]

  -- What the rounds after this one do, from any buffer.
  abbrev pub Later : ℕ → List ℕ → Type 0
  Later it s =
      (state : ExpandState) (bytes : ℕ → ℕ) (dst src arg : ℕ) (w : List ℕ)
      (found : Option (List (List ℕ)))
      → Rest bytes (it + 1) s
      → Holds state bytes (it + 1) dst src arg w
      → Splits state bytes (it + 1) dst src arg w found s

  -- A round in a word, for the byte `c` at `it`.
  module _ (c : ℕ) (s : List ℕ) (bytes : ℕ → ℕ) (it dst arg : ℕ) (w : List ℕ)
      (found : Option (List (List ℕ))) (r : Rest bytes it (c ∷ s)) (behind : dst ≤ it)
      (word : Spells bytes arg w dst) (k : Later it s) where
    it_inside : ltb it (last + 1) ≡ true
    it_inside = inside it (omega (arith, Spells-length bytes it (c ∷ s) last r.0))

    dst_inside : ltb dst (last + 1) ≡ true
    dst_inside = inside dst (omega (arith, Spells-length bytes it (c ∷ s) last r.0, behind))

    written : (v : ℕ) → write bytes dst v dst ≡ v
    written v = let same : (dst == dst) ≡ true = ground arith in rw same refl

    write-Rest : (v : ℕ) → Rest (write bytes dst v) (it + 1) s
    write-Rest v =
        let end = Spells-length bytes it (c ∷ s) last r.0 in
        let other : (last == dst) ≡ false = ground (arith, end, behind) in
        (
          Spells-write_before bytes (it + 1) s last dst v r.0.2 (omega (arith, behind)),
          rw other (r.1),
        )

    moved : Spells (write bytes dst c) arg (w ++ c ∷ []) (dst + 1)
    moved =
        Spells-snoc (write bytes dst c) arg w dst c
          (Spells-write_past bytes arg w dst dst c word (omega arith)) (written c) r.0.1

    ended : string_at (last + 1 - arg) (write bytes dst 0) arg ≡ ok w
    ended =
        Spells-string_at (write bytes dst 0) (last + 1 - arg) arg w dst
          (Spells-write_past bytes arg w dst dst 0 word (omega arith)) (written 0)
          (omega (
            arith,
            Spells-length bytes arg w dst word,
            Spells-length bytes it (c ∷ s) last r.0,
            behind,
          ))

    unwritten : Rest bytes (it + 1) s
    unwritten = (r.0.2, r.1)

    further : dst ≤ it + 1
    further = omega (arith, behind)

    more : dst + 1 ≤ it + 1
    more = omega (arith, behind)

    pub single-Splits : Splits expand_quote_single bytes it dst it arg w found (c ∷ s)
    unfolding expand_loop expand_round expand_byte split load poke move_char end_word
    single-Splits = elim (Bool-cases (c == b'\'')) [
      | inl b ↦
          rw (it_inside, r.0.0, r.0.1, b)
            (k expand_literal bytes dst (it + 1) arg w found unwritten (refl, further, word))
      | inr b ↦
          rw (it_inside, dst_inside, r.0.0, r.0.1, b)
            (k expand_quote_single (write bytes dst c) (dst + 1) (it + 1) arg (w ++ c ∷ []) found
              (write-Rest c) (refl, more, moved))
    ]

    pub double-Splits : Splits expand_quote_double bytes it dst it arg w found (c ∷ s)
    unfolding expand_loop expand_round expand_byte split load poke move_char end_word
    double-Splits = elim (Bool-cases (c == b'"')) [
      | inl b ↦
          rw (it_inside, r.0.0, r.0.1, b)
            (k expand_literal bytes dst (it + 1) arg w found unwritten (refl, further, word))
      | inr b ↦ elim (Bool-cases (c == b'\\')) [
        | inl d ↦
            rw (it_inside, r.0.0, r.0.1, b, d)
              (k expand_quote_double_escape bytes dst (it + 1) arg w found unwritten
                (refl, further, word))
        | inr d ↦
            rw (it_inside, dst_inside, r.0.0, r.0.1, b, d)
              (k expand_quote_double (write bytes dst c) (dst + 1) (it + 1) arg (w ++ c ∷ []) found
                (write-Rest c) (refl, more, moved))
      ]
    ]

    pub escape-Splits : Splits expand_quote_double_escape bytes it dst it arg w found (c ∷ s)
    unfolding expand_loop expand_round expand_byte split load poke move_char end_word
    escape-Splits =
        rw (it_inside, dst_inside, r.0.0, r.0.1)
          (k expand_quote_double (write bytes dst c) (dst + 1) (it + 1) arg (w ++ c ∷ []) found
            (write-Rest c) (refl, more, moved))

    pub literal-Splits : Splits expand_literal bytes it dst it arg w found (c ∷ s)
    unfolding expand_loop expand_round expand_byte split load poke move_char end_word
    literal-Splits = elim (Bool-cases (c == b'"')) [
      | inl b ↦
          rw (it_inside, r.0.0, r.0.1, b)
            (k expand_quote_double bytes dst (it + 1) arg w found unwritten (refl, further, word))
      | inr b ↦ elim (Bool-cases (c == b'\'')) [
        | inl d ↦
            rw (it_inside, r.0.0, r.0.1, b, d)
              (k expand_quote_single bytes dst (it + 1) arg w found unwritten (refl, further, word))
        | inr d ↦ elim (Bool-cases (c == b' ')) [
          | inl e ↦ elim (Option-cases (list_append host found w)) [
            | inl n ↦ rw (it_inside, r.0.0, r.0.1, b, d, e, dst_inside, ended, n) refl
            | inr (list, n) ↦
                rw (it_inside, r.0.0, r.0.1, b, d, e, dst_inside, ended, n)
                  (k expand_spaces (write bytes dst 0) dst it arg [] (some list) (write-Rest 0) tt)
          ]
          | inr e ↦
              rw (it_inside, dst_inside, r.0.0, r.0.1, b, d, e)
                (k expand_literal (write bytes dst c) (dst + 1) (it + 1) arg (w ++ c ∷ []) found
                  (write-Rest c) (refl, more, moved))
        ]
      ]
    ]
