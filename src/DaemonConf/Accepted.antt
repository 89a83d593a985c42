-- ===== src/DaemonConf/Accepted.antt =====
-- The configurations that the value parsers of src/cyberd/daemon_conf.c make of the initial one.
use cyberd.Base.{
  ℕ, ◌<◌, ◌^◌, ◌%◌, false, List, ℤ, pos, negsuc, Option, none, some, ◌≡◌, inl, subst, arith,
  unless_some, mapped_some, or_false, ltb-false, some_inj, ok_inj, >>=-eq-ok, ok, length, ◌+◌,
}
use cyberd.DaemonConf.{DaemonConf, daemon_conf_init}
use cyberd.DaemonConf.Numbers.{strtoul, strtol}
use cyberd.DaemonConf.Values.{
  Host, conf_path, conf_signal, owner_id, out_of_range, set_path, set_signal, parse_general_group,
  parse_general_user, parse_general_nosid, parse_general_path, parse_general_workdir,
  parse_general_stdin, parse_general_stdout, parse_general_stderr, parse_general_sigfinish,
  parse_general_sigreload, parse_general_priority, parse_general_umask, parse_environment, StartKey,
  parse_start,
}
use cyberd.DaemonConf.Arguments.{parse_general_arguments, expand_loop, splitting}
use cyberd.DaemonConf.Sane.{
  IsSane, Absolute, Signo, Nice, conf_path-Absolute, conf_signal-Signo, owner_id-Owned,
}

-- The values of the section "general" but for the arguments.
pub data GeneralKey : Type 0 where
  group nosid path priority sigfinish sigreload stdin stdout stderr umask user workdir : GeneralKey

abbrev pub parse_general : Host → GeneralKey → DaemonConf → Option (List ℕ) → Option DaemonConf
parse_general host group = parse_general_group host
parse_general host nosid = parse_general_nosid host
parse_general host path = parse_general_path host
parse_general host priority = parse_general_priority host
parse_general host sigfinish = parse_general_sigfinish host
parse_general host sigreload = parse_general_sigreload host
parse_general host stdin = parse_general_stdin host
parse_general host stdout = parse_general_stdout host
parse_general host stderr = parse_general_stderr host
parse_general host umask = parse_general_umask host
parse_general host user = parse_general_user host
parse_general host workdir = parse_general_workdir host

-- What successful parsers of values make of the initial configuration.
pub data Accepted (host : Host) (default_umask : ℕ) : DaemonConf → Type 0 where
  initially : Accepted host default_umask (daemon_conf_init default_umask)
  general :
      {c d : DaemonConf} (key : GeneralKey) (value : Option (List ℕ))
      → Accepted host default_umask c
      → parse_general host key c value ≡ some d
      → Accepted host default_umask d
  arguments :
      {c d : DaemonConf} (value : Option (List ℕ))
      → Accepted host default_umask c
      → parse_general_arguments host c value ≡ ok (some d)
      → Accepted host default_umask d
  environment :
      {c d : DaemonConf} (key : List ℕ) (value : Option (List ℕ))
      → Accepted host default_umask c
      → parse_environment host c key value ≡ some d
      → Accepted host default_umask d
  start :
      {c d : DaemonConf} (key : StartKey) (value : Option (List ℕ))
      → Accepted host default_umask c
      → parse_start key c value ≡ some d
      → Accepted host default_umask d

module _ (host : Host) where
  set_path-IsSane :
      (set : Option (List ℕ) → DaemonConf) (value : Option (List ℕ)) (d : DaemonConf)
      → ((p : Option (List ℕ)) → Absolute p → IsSane host (set p))
      → set_path host set value ≡ some d
      → IsSane host d
  set_path-IsSane set value d s h =
      let (p, e, q) = mapped_some (conf_path host value) (λ p. set (some p)) h in
      subst (IsSane host) q (s (some p) (conf_path-Absolute host value p e))

  set_signal-IsSane :
      (set : ℤ → DaemonConf) (value : Option (List ℕ)) (d : DaemonConf)
      → ((signo : ℤ) → Signo signo → IsSane host (set signo))
      → set_signal host set value ≡ some d
      → IsSane host d
  set_signal-IsSane set value d s h =
      let (signo, e, q) = mapped_some (conf_signal host value) set h in
      subst (IsSane host) q (s signo (conf_signal-Signo host value signo e))

  in_range : (n : ℤ) → out_of_range host n ≡ false → Nice n
  in_range (pos n) h = ltb-false 19 n h
  in_range (negsuc n) h = ltb-false 19 n h

  bits : (n : ℕ) → n % 2 ^ 9 < 2 ^ 9
  bits n = omega arith

  general-IsSane :
      (key : GeneralKey) (c d : DaemonConf) (value : Option (List ℕ))
      → IsSane host c
      → parse_general host key c value ≡ some d
      → IsSane host d
  unfolding parse_general_group parse_general_user parse_general_nosid parse_general_path
      parse_general_workdir parse_general_stdin parse_general_stdout parse_general_stderr
      parse_general_sigfinish parse_general_sigreload parse_general_priority parse_general_umask
  general-IsSane nosid c d none s h = subst (IsSane host) (some_inj h) s
  general-IsSane nosid c d (some v) s h = absurd (cc h)
  general-IsSane path c d v s h =
      set_path-IsSane (λ p. record c { path = p }) v d
        (λ p a. (a, s.1, s.2, s.3, s.4, s.5, s.6, s.7, s.8, s.9, s.10)) h
  general-IsSane workdir c d v s h =
      set_path-IsSane (λ p. record c { workdir = p }) v d
        (λ p a. (s.0, a, s.2, s.3, s.4, s.5, s.6, s.7, s.8, s.9, s.10)) h
  general-IsSane stdin c d v s h =
      set_path-IsSane (λ p. record c { in_path = p }) v d
        (λ p a. (s.0, s.1, a, s.3, s.4, s.5, s.6, s.7, s.8, s.9, s.10)) h
  general-IsSane stdout c d v s h =
      set_path-IsSane (λ p. record c { out_path = p }) v d
        (λ p a. (s.0, s.1, s.2, a, s.4, s.5, s.6, s.7, s.8, s.9, s.10)) h
  general-IsSane stderr c d v s h =
      set_path-IsSane (λ p. record c { err_path = p }) v d
        (λ p a. (s.0, s.1, s.2, s.3, a, s.5, s.6, s.7, s.8, s.9, s.10)) h
  general-IsSane sigfinish c d v s h =
      set_signal-IsSane (λ n. record c { sigfinish = n }) v d
        (λ n a. (s.0, s.1, s.2, s.3, s.4, a, s.6, s.7, s.8, s.9, s.10)) h
  general-IsSane sigreload c d v s h =
      set_signal-IsSane (λ n. record c { sigreload = n }) v d
        (λ n a. (s.0, s.1, s.2, s.3, s.4, s.5, a, s.7, s.8, s.9, s.10)) h
  general-IsSane user c d none s h = absurd (cc h)
  general-IsSane user c d (some v) s h =
      let (id, e, q) =
        mapped_some (owner_id host (host.getpwnam v) host.max_uid c.uid v)
          (λ id. record c { uid = id }) h in
      subst (IsSane host) q (
        s.0,
        s.1,
        s.2,
        s.3,
        s.4,
        s.5,
        s.6,
        owner_id-Owned host host.getpwnam host.max_uid c.uid v id s.7 e,
        s.8,
        s.9,
        s.10,
      )
  general-IsSane group c d none s h = absurd (cc h)
  general-IsSane group c d (some v) s h =
      let (id, e, q) =
        mapped_some (owner_id host (host.getgrnam v) host.max_gid c.gid v)
          (λ id. record c { gid = id }) h in
      subst (IsSane host) q (
        s.0,
        s.1,
        s.2,
        s.3,
        s.4,
        s.5,
        s.6,
        s.7,
        owner_id-Owned host host.getgrnam host.max_gid c.gid v id s.8 e,
        s.9,
        s.10,
      )
  general-IsSane umask c d none s h = absurd (cc h)
  general-IsSane umask c d (some v) s h =
      let (_, q) = unless_some _ (record c { umask = (strtoul 8 v).0 % 2 ^ 9 }) h in
      subst (IsSane host) q
        (s.0, s.1, s.2, s.3, s.4, s.5, s.6, s.7, s.8, bits (strtoul 8 v).0, s.10)
  general-IsSane priority c d none s h = absurd (cc h)
  general-IsSane priority c d (some v) s h =
      let (checks, q) = unless_some _ (record c { priority = (strtol 10 v).0 }) h in
      subst (IsSane host) q (
        s.0,
        s.1,
        s.2,
        s.3,
        s.4,
        s.5,
        s.6,
        s.7,
        s.8,
        s.9,
        in_range (strtol 10 v).0 (or_false _ _ checks).1,
      )

  arguments-IsSane :
      (c d : DaemonConf) (value : Option (List ℕ))
      → IsSane host c
      → parse_general_arguments host c value ≡ ok (some d)
      → IsSane host d
  unfolding parse_general_arguments
  arguments-IsSane c d none s h = absurd (cc h)
  arguments-IsSane c d (some v) s h =
      let (list, _, q) =
        >>=-eq-ok (expand_loop (length v + 2) host (length v + 1) (splitting v)) _ h in
      let (words, _, r) =
        mapped_some list (λ words. record c { arguments = some words }) (ok_inj q) in
      subst (IsSane host) r s

  -- Every configuration that parsers of values make of the initial one has absolute paths, signals of
  -- at most NSIG, a priority between -20 and 19 and a mask of nine bits; its user and group are at
  -- most what the build allows, unless the database of the system gives them to a name. The default
  -- mask of the build has nine bits, and the build allows the user and the group 0.
  pub Accepted-IsSane :
      (default_umask : ℕ) (c : DaemonConf)
      → default_umask < 2 ^ 9
      → Accepted host default_umask c
      → IsSane host c
  unfolding daemon_conf_init parse_environment parse_start
  Accepted-IsSane m c b initially = (
    tt,
    tt,
    tt,
    tt,
    tt,
    omega arith,
    omega arith,
    inl (omega arith),
    inl (omega arith),
    b,
    omega arith,
  )
  Accepted-IsSane m d b (general {c = c} key value a h) =
      general-IsSane key c d value (Accepted-IsSane m c b a) h
  Accepted-IsSane m d b (arguments {c = c} value a h) =
      arguments-IsSane c d value (Accepted-IsSane m c b a) h
  Accepted-IsSane m d b (environment {c = c} key value a h) =
      let (list, _, q) = mapped_some _ (λ list. record c { environment = some list }) h in
      subst (IsSane host) q (Accepted-IsSane m c b a)
  Accepted-IsSane m d b (start {c = c} key none a h) =
      subst (IsSane host) (some_inj h) (Accepted-IsSane m c b a)
  Accepted-IsSane m d b (start {c = c} key (some v) a h) = absurd (cc h)
