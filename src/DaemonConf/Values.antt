-- ===== src/DaemonConf/Values.antt =====
-- The parsers of single values in src/cyberd/daemon_conf.c.
--
-- A parser returns the new configuration, or `none` where the code returns non-zero, which it does
-- before it writes anything. What the C library and the build give is a `Host`.
use cyberd.Base.{
  ℕ, ◌+◌, ◌-◌, ◌%◌, ◌^◌, Bool, true, false, not, ◌&&◌, ◌||◌, List, [], ◌∷◌, ◌++◌, ltb, ◌==◌,
  if◌then◌else◌, ℤ, pos, negsuc, Option, none, some,
}
use cyberd.DaemonConf.{DaemonConf, StartFlags}
use cyberd.DaemonConf.Numbers.{strtoul, strtol, isdigit}
use cyberd.DaemonConf.Names.{strncasecmp, signals, find_signal}

-- The answer of getpwnam(3) or getgrnam(3): an id, no entry, or an error that sets errno.
pub data Entry : Type 0 where
  found : ℕ → Entry
  missing : Entry
  failed : Entry

-- `copies` says if there is memory for a copy of a string; the other fields are databases and the
-- CONFIG_ macros of the build.
pub record Host : Type 0 where
  pub copies : List ℕ → Bool
  pub getpwnam : List ℕ → Entry
  pub getgrnam : List ℕ → Entry
  pub max_uid : ℕ
  pub max_gid : ℕ
  pub has_rtsig : Bool

-- NSIG, SIGRTMIN and SIGRTMAX of Linux.
abbrev pub nsig : ℕ
nsig = 65

abbrev pub sigrtmin : ℕ
sigrtmin = 34

abbrev pub sigrtmax : ℕ
sigrtmax = 64

abbrev pub is_nil : List ℕ → Bool
is_nil [] = true
is_nil (c ∷ s) = false

abbrev pub begins : (ℕ → Bool) → List ℕ → Bool
begins test [] = false
begins test (c ∷ s) = test c

abbrev listed : Option (List (List ℕ)) → List (List ℕ)
listed none = []
listed (some list) = list

module _ (host : Host) where
  -- daemon_conf_list_append
  unfoldable pub list_append : Option (List (List ℕ)) → List ℕ → Option (List (List ℕ))
  list_append list string = if host.copies string then some (listed list ++ string ∷ []) else none

  -- daemon_conf_path: the path that replaces the previous one.
  unfoldable pub conf_path : Option (List ℕ) → Option (List ℕ)
  conf_path none = none
  conf_path (some value) =
      if not (begins (λ c. c == b'/') value)
      then none
      else if host.copies value
      then some value
      else none

  -- A signal by its number.
  abbrev pub numbered : ℕ → ℕ → List ℕ → Option ℤ
  numbered first most digits =
      let (lsigno, end) = strtoul 10 digits in
      if not (is_nil end) || ltb most lsigno then none else some (pos (lsigno + first))

  -- `signame += 3` after the prefix "SIG".
  unfoldable pub unprefixed : List ℕ → List ℕ
  unprefixed (a ∷ b ∷ c ∷ s) =
      if strncasecmp (b'S' ∷ b'I' ∷ b'G' ∷ []) (a ∷ b ∷ c ∷ s) then s else a ∷ b ∷ c ∷ s
  unprefixed (a ∷ b ∷ []) = a ∷ b ∷ []
  unprefixed (a ∷ []) = a ∷ []
  unprefixed [] = []

  abbrev pub two_on : List ℕ → List ℕ
  two_on (a ∷ b ∷ s) = s
  two_on (a ∷ []) = []
  two_on [] = []

  -- The rest of daemon_conf_signal after the prefix.
  unfoldable pub named_signal : List ℕ → Option ℤ
  named_signal signame =
      if host.has_rtsig && strncasecmp (b'R' ∷ b'T' ∷ []) signame
      then numbered sigrtmin (sigrtmax - sigrtmin) (two_on signame)
      else elim (find_signal signals signame) [ none ↦ none | some signo ↦ some (pos signo) ]

  -- daemon_conf_signal
  unfoldable pub conf_signal : Option (List ℕ) → Option ℤ
  conf_signal none = none
  conf_signal (some signame) =
      if begins isdigit signame then numbered 0 nsig signame else named_signal (unprefixed signame)

  -- An id by the name of its owner, else in decimal; `previous` where the database fails.
  unfoldable pub owner_id : Entry → ℕ → ℕ → List ℕ → Option ℕ
  owner_id (found id) most previous value = some id
  owner_id missing most previous value =
      let (id, end) = strtoul 10 value in if not (is_nil end) || ltb most id then none else some id
  owner_id failed most previous value = some previous

  unfoldable pub parse_general_group : DaemonConf → Option (List ℕ) → Option DaemonConf
  parse_general_group conf none = none
  parse_general_group conf (some value) =
      elim (owner_id (host.getgrnam value) host.max_gid conf.gid value) [
        | none ↦ none
        | some id ↦ some (record conf { gid = id })
      ]

  unfoldable pub parse_general_user : DaemonConf → Option (List ℕ) → Option DaemonConf
  parse_general_user conf none = none
  parse_general_user conf (some value) =
      elim (owner_id (host.getpwnam value) host.max_uid conf.uid value) [
        | none ↦ none
        | some id ↦ some (record conf { uid = id })
      ]

  unfoldable pub parse_general_nosid : DaemonConf → Option (List ℕ) → Option DaemonConf
  parse_general_nosid conf none = some (record conf { nosid = true })
  parse_general_nosid conf (some value) = none

  -- A parser that sets a path, and one that sets a signal.
  abbrev pub set_path : (Option (List ℕ) → DaemonConf) → Option (List ℕ) → Option DaemonConf
  set_path set value = elim (conf_path value) [ none ↦ none | some path ↦ some (set (some path)) ]

  abbrev pub set_signal : (ℤ → DaemonConf) → Option (List ℕ) → Option DaemonConf
  set_signal set value = elim (conf_signal value) [ none ↦ none | some signo ↦ some (set signo) ]

  unfoldable pub parse_general_path : DaemonConf → Option (List ℕ) → Option DaemonConf
  parse_general_path conf = set_path (λ path. record conf { path = path })

  unfoldable pub parse_general_workdir : DaemonConf → Option (List ℕ) → Option DaemonConf
  parse_general_workdir conf = set_path (λ path. record conf { workdir = path })

  unfoldable pub parse_general_stdin : DaemonConf → Option (List ℕ) → Option DaemonConf
  parse_general_stdin conf = set_path (λ path. record conf { in_path = path })

  unfoldable pub parse_general_stdout : DaemonConf → Option (List ℕ) → Option DaemonConf
  parse_general_stdout conf = set_path (λ path. record conf { out_path = path })

  unfoldable pub parse_general_stderr : DaemonConf → Option (List ℕ) → Option DaemonConf
  parse_general_stderr conf = set_path (λ path. record conf { err_path = path })

  unfoldable pub parse_general_sigfinish : DaemonConf → Option (List ℕ) → Option DaemonConf
  parse_general_sigfinish conf = set_signal (λ signo. record conf { sigfinish = signo })

  unfoldable pub parse_general_sigreload : DaemonConf → Option (List ℕ) → Option DaemonConf
  parse_general_sigreload conf = set_signal (λ signo. record conf { sigreload = signo })

  -- `lpriority < -20 || lpriority > 19`
  abbrev pub out_of_range : ℤ → Bool
  out_of_range (pos n) = ltb 19 n
  out_of_range (negsuc n) = ltb 19 n

  unfoldable pub parse_general_priority : DaemonConf → Option (List ℕ) → Option DaemonConf
  parse_general_priority conf none = none
  parse_general_priority conf (some value) =
      let (lpriority, end) = strtol 10 value in
      if not (is_nil end) || out_of_range lpriority
      then none
      else some (record conf { priority = lpriority })

  -- `cmask & 0x1ff`
  unfoldable pub parse_general_umask : DaemonConf → Option (List ℕ) → Option DaemonConf
  parse_general_umask conf none = none
  parse_general_umask conf (some value) =
      let (cmask, end) = strtoul 8 value in
      if not (is_nil end) then none else some (record conf { umask = cmask % 2 ^ 9 })

  -- daemon_conf_parse_environment: `key=value`, or `key=key` for a scalar.
  unfoldable pub parse_environment : DaemonConf → List ℕ → Option (List ℕ) → Option DaemonConf
  parse_environment conf key value =
      let pair = key ++ b'=' ∷ elim value [ none ↦ key | some v ↦ v ] in
      elim (list_append conf.environment pair) [
        | none ↦ none
        | some list ↦ some (record conf { environment = some list })
      ]

-- The values of the section "start", which take no value.
pub data StartKey : Type 0 where
  any_exit dumped exit exit_failure exit_success killed load reload : StartKey

abbrev pub start_flags : StartKey → StartFlags → StartFlags
start_flags any_exit f = record f {
  exitsuccess = true;
  exitfailure = true;
  killed = true;
  dumped = true;
}
start_flags dumped f = record f { dumped = true }
start_flags exit f = record f { exitsuccess = true; exitfailure = true }
start_flags exit_failure f = record f { exitfailure = true }
start_flags exit_success f = record f { exitsuccess = true }
start_flags killed f = record f { killed = true }
start_flags load f = record f { load = true }
start_flags reload f = record f { reload = true }

-- daemon_conf_parse_start_any_exit to daemon_conf_parse_start_reload.
unfoldable pub parse_start : StartKey → DaemonConf → Option (List ℕ) → Option DaemonConf
parse_start key conf none = some (record conf { start = start_flags key conf.start })
parse_start key conf (some value) = none
