-- ===== src/Tests/ConfRuns.antt =====
-- The value parsers of src/cyberd/daemon_conf.c on a small configuration.
use cyberd.Base.{ℕ, ok, List, none, [], ◌∷◌, some, ◌≡◌, refl, pos, negsuc, true, arith}
use cyberd.DaemonConf.{DaemonConf, daemon_conf_init}
use cyberd.DaemonConf.Numbers.{strtoul, strtol, skip_spaces, read_sign, read_digits}
use cyberd.DaemonConf.Names.{strncasecmp, strcasecmp, find_signal}
use cyberd.DaemonConf.Values.{
  Host, missing, found, parse_general_group, parse_general_priority, parse_general_path, conf_path,
  conf_signal, named_signal, unprefixed, owner_id, list_append,
}
use cyberd.DaemonConf.Arguments.{expand_spaces, parse_general_arguments}
use cyberd.DaemonConf.Arguments.Splitting.{split}
use cyberd.DaemonConf.Arguments.Words.{parse_general_arguments-split}
use cyberd.DaemonConf.Sane.{IsSane}
use cyberd.DaemonConf.Accepted.{
  Accepted, initially, general, path, priority, group, Accepted-IsSane,
}

-- A system with one group, and memory for every string.
abbrev pub host : Host
host = record {
  copies = λ s. true;
  getpwnam = λ s. missing;
  getgrnam = λ s. found 70000;
  max_uid = 65535;
  max_gid = 65535;
  has_rtsig = true;
}

-- `sigfinish = SIGkill`
run_sigfinish :
    conf_signal host (some (b'S' ∷ b'I' ∷ b'G' ∷ b'k' ∷ b'i' ∷ b'l' ∷ b'l' ∷ [])) ≡ some (pos 9)
unfolding conf_signal unprefixed strncasecmp named_signal find_signal strcasecmp
run_sigfinish = refl

-- A number that is NSIG, which no signal has, is let through.
run_nsig : conf_signal host (some (b'6' ∷ b'5' ∷ [])) ≡ some (pos 65)
unfolding conf_signal strtoul skip_spaces read_sign read_digits
run_nsig = refl

-- An empty value is the number 0.
run_empty : owner_id host missing 65535 1 [] ≡ some 0
unfolding owner_id strtoul skip_spaces read_sign read_digits
run_empty = refl

abbrev pub shell : DaemonConf
shell = record (daemon_conf_init 18) {
  path = some (b'/' ∷ b's' ∷ []);
  priority = negsuc 4;
  gid = 70000;
}

pub shell-Accepted : Accepted host 18 shell
unfolding parse_general_path conf_path parse_general_priority strtol skip_spaces read_sign
    read_digits parse_general_group owner_id
shell-Accepted =
    general group (some (b'g' ∷ []))
      (general priority (some (b'-' ∷ b'5' ∷ []))
        (general path (some (b'/' ∷ b's' ∷ [])) initially refl) refl)
      refl

Accepted-IsSane_example : IsSane host shell
Accepted-IsSane_example = Accepted-IsSane host 18 shell (omega arith) shell-Accepted

-- `a"b \c" d`: a word with a quoted part, in which a byte is escaped, and another word.
abbrev words : List ℕ
words = b'a' ∷ b'"' ∷ b'b' ∷ b' ' ∷ b'\\' ∷ b'c' ∷ b'"' ∷ b' ' ∷ b'd' ∷ []

run_words :
    split host expand_spaces [] none words
    ≡ some ((b'a' ∷ b'b' ∷ b' ' ∷ b'c' ∷ []) ∷ (b'd' ∷ []) ∷ [])
unfolding split list_append
run_words = refl

parse_general_arguments-split_example :
    parse_general_arguments host shell (some words)
    ≡ ok (elim (split host expand_spaces [] none words) [
      | none ↦ none
      | some list ↦ some (record shell { arguments = some list })
    ])
parse_general_arguments-split_example =
    parse_general_arguments-split host shell words
      (refl, (refl, (refl, (refl, (refl, (refl, (refl, (refl, (refl, tt)))))))))
