-- ===== src/DaemonConf/Arguments/Words.antt =====
-- The words that daemon_conf_parse_general_arguments of src/cyberd/daemon_conf.c finds in a value.
use cyberd.Base.{
  ℕ, suc, ◌+◌, ◌-◌, ◌≤◌, true, List, [], ◌∷◌, ltb, ◌==◌, Option, none, some, length, ok, ◌≡◌, refl,
  sym, ap, ◌∙◌, subst, arith, inl, inr, Option-cases,
}
use cyberd.DaemonConf.{DaemonConf}
use cyberd.DaemonConf.Values.{Host, list_append}
use cyberd.DaemonConf.Arguments.{
  ExpandState, expand_spaces, expand_literal, expand_quote_single, expand_quote_double,
  expand_quote_double_escape, expand_end, expand_error_unclosed_quote, end_word, expand_byte,
  expand_round, expand_loop, parse_general_arguments,
}
use cyberd.DaemonConf.Arguments.Splitting.{
  split, Holds, Rest, Splits, inside, spaces-Splits, single-Splits, double-Splits, escape-Splits,
  literal-Splits,
}
use cyberd.DaemonConf.Buffer.{load, poke, write, string_at, copied}
use cyberd.DaemonConf.Buffer.Strings.{
  Spells, Spells-length, Spells-write_past, Spells-string_at, IsString, copied-Spells,
}

module _ (host : Host) (last : ℕ) where
  -- The round at the nul byte of the value.
  module _ (bytes : ℕ → ℕ) (it dst src arg : ℕ) (w : List ℕ) (found : Option (List (List ℕ)))
      (r : Rest host last bytes it []) where
    end_inside : ltb it (last + 1) ≡ true
    end_inside = inside host last it (omega (arith, r.0))

    nul : bytes it ≡ 0
    nul = ap bytes r.0 ∙ r.1

    spaces_end-Splits : Splits host last expand_spaces bytes it dst src arg w found []
    unfolding expand_loop expand_round expand_byte split load
    spaces_end-Splits = rw (end_inside, nul) refl

    single_end-Splits : Splits host last expand_quote_single bytes it dst src arg w found []
    unfolding expand_loop expand_round expand_byte split load
    single_end-Splits = rw (end_inside, nul) refl

    double_end-Splits : Splits host last expand_quote_double bytes it dst src arg w found []
    unfolding expand_loop expand_round expand_byte split load
    double_end-Splits = rw (end_inside, nul) refl

    escape_end-Splits : Splits host last expand_quote_double_escape bytes it dst src arg w found []
    unfolding expand_loop expand_round expand_byte split load
    escape_end-Splits = rw (end_inside, nul) refl

    literal_end-Splits :
        dst ≤ it
        → Spells bytes arg w dst
        → Splits host last expand_literal bytes it dst src arg w found []
    unfolding expand_loop expand_round expand_byte split load poke end_word
    literal_end-Splits behind word =
        let dst_inside : ltb dst (last + 1) ≡ true =
          inside host last dst (omega (arith, r.0, behind)) in
        let same : (dst == dst) ≡ true = ground arith in
        let ended : string_at (last + 1 - arg) (write bytes dst 0) arg ≡ ok w =
          Spells-string_at (write bytes dst 0) (last + 1 - arg) arg w dst
            (Spells-write_past bytes arg w dst dst 0 word (omega arith)) (rw same refl)
            (omega (arith, Spells-length bytes arg w dst word, r.0, behind)) in
        elim (Option-cases (list_append host found w)) [
          | inl n ↦ rw (end_inside, nul, dst_inside, ended, n) refl
          | inr (list, n) ↦ rw (end_inside, nul, dst_inside, ended, n) refl
        ]

  at_it :
      (state : ExpandState) (bytes : ℕ → ℕ) (it dst src arg : ℕ) (w : List ℕ)
      (found : Option (List (List ℕ))) (s : List ℕ)
      → src ≡ it
      → Splits host last state bytes it dst it arg w found s
      → Splits host last state bytes it dst src arg w found s
  at_it state bytes it dst src arg w found s e h =
      subst (λ m. Splits host last state bytes it dst m arg w found s) (sym e) h

  -- The loop in the buffer finds the words that `split` finds.
  pub expand_loop-Splits :
      (s : List ℕ) (state : ExpandState) (bytes : ℕ → ℕ) (it dst src arg : ℕ) (w : List ℕ)
      (found : Option (List (List ℕ)))
      → Rest host last bytes it s
      → Holds state bytes it dst src arg w
      → Splits host last state bytes it dst src arg w found s
  expand_loop-Splits [] expand_spaces bytes it dst src arg w found r h =
      spaces_end-Splits bytes it dst src arg w found r
  expand_loop-Splits [] expand_literal bytes it dst src arg w found r h =
      literal_end-Splits bytes it dst src arg w found r h.1 h.2
  expand_loop-Splits [] expand_quote_single bytes it dst src arg w found r h =
      single_end-Splits bytes it dst src arg w found r
  expand_loop-Splits [] expand_quote_double bytes it dst src arg w found r h =
      double_end-Splits bytes it dst src arg w found r
  expand_loop-Splits [] expand_quote_double_escape bytes it dst src arg w found r h =
      escape_end-Splits bytes it dst src arg w found r
  expand_loop-Splits [] expand_end bytes it dst src arg w found r h = absurd h
  expand_loop-Splits [] expand_error_unclosed_quote bytes it dst src arg w found r h = absurd h
  expand_loop-Splits (c ∷ s) expand_spaces bytes it dst src arg w found r h =
      spaces-Splits host last c s bytes it dst src arg w found r (λ state dst src arg w h.
        expand_loop-Splits s state bytes (it + 1) dst src arg w found (r.0.2, r.1) h)
  expand_loop-Splits (c ∷ s) expand_literal bytes it dst src arg w found r h =
      at_it expand_literal bytes it dst src arg w found (c ∷ s) h.0 (
        literal-Splits host last c s bytes it dst arg w found r h.1 h.2
          (λ state bytes dst src arg w found r h.
            expand_loop-Splits s state bytes (it + 1) dst src arg w found r h))
  expand_loop-Splits (c ∷ s) expand_quote_single bytes it dst src arg w found r h =
      at_it expand_quote_single bytes it dst src arg w found (c ∷ s) h.0 (
        single-Splits host last c s bytes it dst arg w found r h.1 h.2
          (λ state bytes dst src arg w found r h.
            expand_loop-Splits s state bytes (it + 1) dst src arg w found r h))
  expand_loop-Splits (c ∷ s) expand_quote_double bytes it dst src arg w found r h =
      at_it expand_quote_double bytes it dst src arg w found (c ∷ s) h.0 (
        double-Splits host last c s bytes it dst arg w found r h.1 h.2
          (λ state bytes dst src arg w found r h.
            expand_loop-Splits s state bytes (it + 1) dst src arg w found r h))
  expand_loop-Splits (c ∷ s) expand_quote_double_escape bytes it dst src arg w found r h =
      at_it expand_quote_double_escape bytes it dst src arg w found (c ∷ s) h.0 (
        escape-Splits host last c s bytes it dst arg w found r h.1 h.2
          (λ state bytes dst src arg w found r h.
            expand_loop-Splits s state bytes (it + 1) dst src arg w found r h))
  expand_loop-Splits (c ∷ s) expand_end bytes it dst src arg w found r h = absurd h
  expand_loop-Splits (c ∷ s) expand_error_unclosed_quote bytes it dst src arg w found r h = absurd h

-- The expansion in place never reads or writes outside of the copy and ends on every value: the
-- arguments are the words that `split` finds, which works on the value alone. They replace the previous
-- ones, unless a quote is not closed, there is no word or there is no memory.
pub parse_general_arguments-split :
    (host : Host) (conf : DaemonConf) (value : List ℕ)
    → IsString value
    → parse_general_arguments host conf (some value)
      ≡ ok (elim (split host expand_spaces [] none value) [
        | none ↦ none
        | some words ↦ some (record conf { arguments = some words })
      ])
unfolding parse_general_arguments
parse_general_arguments-split host conf value n =
    let zero_plus : (j : ℕ) → 0 + j ≡ j = λ j. omega arith in
    let held = copied-Spells value (copied value) 0 (λ j. ap (copied value) (zero_plus j)) n in
    let end = zero_plus (length value) in
    let fuel : length value + 2 ≡ suc (suc (length value)) = omega arith in
    let run =
      expand_loop-Splits host (length value) value expand_spaces (copied value) 0 0 0 0 [] none
        (subst (Spells (copied value) 0 value) end held.0, ap (copied value) (sym end) ∙ held.1)
        tt in
    rw (fuel, run) refl
