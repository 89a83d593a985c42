-- ===== src/DaemonConf/Files/Written.antt =====
-- daemon_conf_parse of src/cyberd/daemon_conf.c on the files that one writes.
use cyberd.Base.{
  ℕ, ◌<◌, ◌^◌, Bool, true, false, List, [], ◌∷◌, map, All, Option, none, some, Option-cases,
  Bool-cases, Outcome, ok, ◌≡◌, refl, sym, subst, inl, inr, Returns, returns, Returns->>=,
}
use cyberd.DaemonConf.{DaemonConf, daemon_conf_init}
use cyberd.DaemonConf.Values.{Host, is_nil, parse_environment, parse_start}
use cyberd.DaemonConf.Sane.{IsSane, Absolute}
use cyberd.DaemonConf.Accepted.{
  Accepted, initially, general, arguments, environment, start, parse_general, Accepted-IsSane,
}
use cyberd.DaemonConf.Arguments.{parse_general_arguments}
use cyberd.DaemonConf.Arguments.Words.{parse_general_arguments-split}
use cyberd.DaemonConf.Buffer.Strings.{IsString}
use cyberd.DaemonConf.Lines.{Item, section, entry}
use cyberd.DaemonConf.Lines.Layouts.{Layout, print_line, IsLayout, IsItem}
use cyberd.DaemonConf.Lines.RoundTrip.{parse_text-print_line}
use cyberd.DaemonConf.Files.{
  Section, general_section, Parser, arguments_value, general_value, environment_value, start_value,
  find_value, run_parser, find_named, sections, Parsed, parse_entry, parse_item, parse_lines,
  daemon_conf_parse,
}

abbrev IsValue : Option (List ℕ) → Type 0
IsValue none = Unit
IsValue (some value) = IsString value

IsItem-IsValue : (key : List ℕ) (value : Option (List ℕ)) → IsItem (entry key value) → IsValue value
IsItem-IsValue key none i = tt
IsItem-IsValue key (some []) i = tt
IsItem-IsValue key (some (c ∷ value)) i = i.1.string

-- The lines of a file, each with its layout.
abbrev pub IsFile : List (Layout × Item) → Type 0
IsFile = All (λ line. IsLayout line.0 × IsItem line.1)

-- Lines that are those of a file.
abbrev pub IsText : List (List ℕ) → Type 0
IsText lines =
    (file : List (Layout × Item)) × IsFile file
    × (lines ≡ map (λ line. print_line line.0 line.1) file)

-- A sane configuration with an absolute path.
abbrev pub Configured : Host → DaemonConf → Type 0
Configured host conf =
    IsSane host conf × ((binary : List ℕ) × (conf.path ≡ some binary) × Absolute (some binary))

module _ (host : Host) (m : ℕ) where
  -- The configuration after a parser: the new one, or the old one where it fails.
  abbrev Accepts : DaemonConf → Outcome (Option DaemonConf) → Type 0
  Accepts c = Returns (λ r. Accepted host m (elim r [ none ↦ c | some d ↦ d ]))

  accepts :
      (c : DaemonConf) (r : Option DaemonConf)
      → Accepted host m c
      → ((d : DaemonConf) → r ≡ some d → Accepted host m d)
      → Accepts c (ok r)
  accepts c none a f = returns none refl a
  accepts c (some d) a f = returns (some d) refl (f d refl)

  run_parser-Accepts :
      (parser : Parser) (c : DaemonConf) (key : List ℕ) (value : Option (List ℕ))
      → IsValue value
      → Accepted host m c
      → Accepts c (run_parser host parser c key value)
  unfolding run_parser parse_general_arguments
  run_parser-Accepts arguments_value c key none v a = returns none refl a
  run_parser-Accepts arguments_value c key (some s) v a =
      let run = parse_general_arguments-split host c s v in
      subst (Accepts c) (sym run) (accepts c _ a (λ d e. arguments (some s) a (rw (run, e) refl)))
  run_parser-Accepts (general_value which) c key value v a =
      accepts c (parse_general host which c value) a (λ d e. general which value a e)
  run_parser-Accepts environment_value c key value v a =
      accepts c (parse_environment host c key value) a (λ d e. environment key value a e)
  run_parser-Accepts (start_value which) c key value v a =
      accepts c (parse_start which c value) a (λ d e. start which value a e)

  parse_entry-Accepted :
      (within : Option Section) (c : DaemonConf) (key : List ℕ) (value : Option (List ℕ))
      → IsValue value
      → Accepted host m c
      → Returns (λ (p : Parsed). Accepted host m p.1) (parse_entry host (within, c) key value)
  unfolding parse_entry
  parse_entry-Accepted none c key value v a = returns (none, c) refl a
  parse_entry-Accepted (some within) c key value v a = elim (Bool-cases (is_nil key)) [
    | inl b ↦ returns (some within, c) (rw b refl) a
    | inr b ↦ elim (Option-cases (find_value within key)) [
      | inl n ↦ returns (some within, c) (rw (b, n) refl) a
      | inr (parser, n) ↦
          rw (b, n)
            (Returns->>= (run_parser-Accepts parser c key value v a)
              λ r _ d. returns (some within, elim r [ none ↦ c | some e ↦ e ]) refl d)
    ]
  ]

  parse_item-Accepted :
      (within : Option Section) (c : DaemonConf) (item : Item)
      → IsItem item
      → Accepted host m c
      → Returns (λ (p : Parsed). Accepted host m p.1) (parse_item host (within, c) item)
  unfolding parse_item
  parse_item-Accepted within c (section name) i a = returns (find_named sections name, c) refl a
  parse_item-Accepted within c (entry key value) i a =
      parse_entry-Accepted within c key value (IsItem-IsValue key value i) a

  parse_lines-Accepted :
      (file : List (Layout × Item)) (within : Option Section) (c : DaemonConf)
      → IsFile file
      → Accepted host m c
      → Returns
          (Accepted host m)
          (parse_lines host (within, c) (map (λ line. print_line line.0 line.1) file))
  unfolding parse_lines
  parse_lines-Accepted [] within c f a = returns c refl a
  parse_lines-Accepted (line ∷ file) within c f a =
      rw (parse_text-print_line line.0 line.1 f.0.0 f.0.1) (
        Returns->>= (parse_item-Accepted within c line.1 f.0.1 a)
          λ p _ d. parse_lines-Accepted file p.0 p.1 f.1 d)

  -- What daemon_conf_parse leaves in the configuration, by what it returns.
  abbrev pub Parses : DaemonConf × Bool → Type 0
  Parses (conf, true) = Configured host conf
  Parses (conf, false) = IsSane host conf × (conf.path ≡ none)

  answer_Parses :
      (conf : DaemonConf)
      → IsSane host conf
      → Parses (conf, elim (conf.path) [ none ↦ false | some binary ↦ true ])
  answer_Parses conf s = elim (Option-cases conf.path) [
    | inl n ↦ rw n (s, n)
    | inr (binary, n) ↦ rw n (s, (binary, n, subst Absolute n s.0))
  ]

  -- On a file whose lines are written so that they parse, and a default mask of nine bits,
  -- daemon_conf_parse never leaves a buffer and returns. It leaves a sane configuration; it returns
  -- zero with an absolute path to execute, and else there is no path.
  pub daemon_conf_parse-Parses :
      (file : List (Layout × Item))
      → m < 2 ^ 9
      → IsFile file
      → Returns Parses (
          daemon_conf_parse host (daemon_conf_init m) (map (λ line. print_line line.0 line.1) file))
  unfolding daemon_conf_parse
  daemon_conf_parse-Parses file b f =
      Returns->>=
        (parse_lines-Accepted file (some general_section) (daemon_conf_init m) f initially)
        λ c _ a.
          returns (c, elim (c.path) [ none ↦ false | some binary ↦ true ]) refl
            (answer_Parses c (Accepted-IsSane host m c b a))

  pub daemon_conf_parse-IsText :
      (lines : List (List ℕ))
      → m < 2 ^ 9
      → IsText lines
      → Returns Parses (daemon_conf_parse host (daemon_conf_init m) lines)
  daemon_conf_parse-IsText lines b (file, f, q) =
      subst (λ l. Returns Parses (daemon_conf_parse host (daemon_conf_init m) l)) (sym q)
        (daemon_conf_parse-Parses file b f)
