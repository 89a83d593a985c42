-- ===== src/DaemonConf/Sane.antt =====
-- What the parsers of single values in src/cyberd/daemon_conf.c let into a configuration.
use cyberd.Base.{
  ℕ, ◌+◌, ◌-◌, ◌≤◌, ◌<◌, ◌^◌, Bool, true, false, not, ◌&&◌, List, [], ◌∷◌, ◌==◌, if◌then◌else◌, ℤ,
  pos, negsuc, Option, none, some, ◌≡◌, ◌⊎◌, inl, inr, refl, sym, ap, subst, ◌∙◌, arith, All,
  Bool-cases, some_inj, unless_some, mapped_some, or_false, ltb-false,
}
use cyberd.DaemonConf.{DaemonConf}
use cyberd.DaemonConf.Numbers.{strtoul, isdigit}
use cyberd.DaemonConf.Names.{find_signal, signals, strncasecmp}
use cyberd.DaemonConf.Values.{
  Entry, found, missing, failed, Host, begins, conf_path, conf_signal, named_signal, unprefixed,
  owner_id, numbered, two_on, nsig, sigrtmin, sigrtmax,
}

-- A path that is not given, or that begins with a slash.
abbrev pub Absolute : Option (List ℕ) → Type 0
Absolute none = Unit
Absolute (some path) = begins (λ c. c == b'/') path ≡ true

-- A number of a signal, or 0 or NSIG, which the code lets through.
abbrev pub Signo : ℤ → Type 0
Signo (pos n) = n ≤ nsig
Signo (negsuc n) = ⊥

abbrev pub Nice : ℤ → Type 0
Nice (pos n) = n ≤ 19
Nice (negsuc n) = n ≤ 19

-- An id of the database, or one that the build allows.
abbrev pub Owned : (List ℕ → Entry) → ℕ → ℕ → Type 0
Owned database most id = (id ≤ most) ⊎ ((name : List ℕ) × (database name ≡ found id))

-- What the code checks before it writes a field: the paths, the signals, the user and the group, the
-- mask and the priority.
abbrev pub IsSane : Host → DaemonConf → Type 0
IsSane host conf =
    Absolute conf.path
    × Absolute conf.workdir
    × Absolute conf.in_path
    × Absolute conf.out_path
    × Absolute conf.err_path
    × Signo conf.sigfinish
    × Signo conf.sigreload
    × Owned host.getpwnam host.max_uid conf.uid
    × Owned host.getgrnam host.max_gid conf.gid
    × (conf.umask < 2 ^ 9)
    × Nice conf.priority

module _ (host : Host) where
  pub conf_path-Absolute :
      (value : Option (List ℕ)) (path : List ℕ)
      → conf_path host value ≡ some path
      → Absolute (some path)
  unfolding conf_path
  conf_path-Absolute none path h = absurd (cc h)
  conf_path-Absolute (some v) path h =
      let (b, q) =
        unless_some _ v (if_swap (not (begins (λ c. c == b'/') v)) (host.copies v) v h) in
      subst (λ s. begins (λ c. c == b'/') s ≡ true) q (not_false _ b)
    where
      if_swap :
          (a k : Bool) (x : List ℕ)
          → (if a then none else if k then some x else none) ≡ some path
          → (if a then none else some x) ≡ some path
      if_swap true k x h = h
      if_swap false true x h = h
      if_swap false false x h = absurd cc

      not_false : (b : Bool) → not b ≡ false → b ≡ true
      not_false true h = refl
      not_false false h = absurd cc

  find_signal-Signo :
      (table : List (List ℕ × ℕ)) (name : List ℕ) (n : ℕ)
      → All (λ row. row.1 ≤ nsig) table
      → find_signal table name ≡ some n
      → n ≤ nsig
  unfolding find_signal
  find_signal-Signo [] name n a h = absurd cc
  find_signal-Signo ((key, signo) ∷ table) name n a h =
      ground (arith, find_signal-Signo table name n a.1, a.0)

  numbered-Signo :
      (first most : ℕ) (digits : List ℕ) (signo : ℤ)
      → first + most ≤ nsig
      → numbered host first most digits ≡ some signo
      → Signo signo
  numbered-Signo first most digits signo b h =
      let (checks, q) = unless_some _ (pos ((strtoul 10 digits).0 + first)) h in
      let low : (strtoul 10 digits).0 ≤ most = ltb-false _ _ (or_false _ _ checks).1 in
      subst Signo q (signo_bound _ low)
    where
      signo_bound : (n : ℕ) → n ≤ most → n + first ≤ nsig
      signo_bound n l = omega (arith, l, b)

  named_signal-Signo :
      (name : List ℕ) (signo : ℤ) → named_signal host name ≡ some signo → Signo signo
  unfolding named_signal
  named_signal-Signo name signo h =
      elim (Bool-cases (host.has_rtsig && strncasecmp (b'R' ∷ b'T' ∷ []) name)) [
        | inl b ↦
            numbered-Signo sigrtmin (sigrtmax - sigrtmin) (two_on host name) signo (omega arith)
              (sym (rw b refl) ∙ h)
        | inr b ↦
            let (n, e, q) = mapped_some (find_signal signals name) pos (sym (rw b refl) ∙ h) in
            subst Signo q (find_signal-Signo signals name n (ground arith) e)
      ]

  pub conf_signal-Signo :
      (value : Option (List ℕ)) (signo : ℤ) → conf_signal host value ≡ some signo → Signo signo
  unfolding conf_signal
  conf_signal-Signo none signo h = absurd (cc h)
  conf_signal-Signo (some v) signo h = elim (Bool-cases (begins isdigit v)) [
    | inl b ↦ numbered-Signo 0 nsig v signo (omega arith) (sym (rw b refl) ∙ h)
    | inr b ↦ named_signal-Signo (unprefixed host v) signo (sym (rw b refl) ∙ h)
  ]

  pub owner_id-Owned :
      (database : List ℕ → Entry) (most previous : ℕ) (value : List ℕ) (id : ℕ)
      → Owned database most previous
      → owner_id host (database value) most previous value ≡ some id
      → Owned database most id
  unfolding owner_id
  owner_id-Owned database most previous value id o h = go (database value) refl h
    where
      go :
          (e : Entry)
          → database value ≡ e
          → owner_id host e most previous value ≡ some id
          → Owned database most id
      go (found n) q h = inr (value, q ∙ ap found (some_inj h))
      go missing q h =
          let (checks, s) = unless_some _ (strtoul 10 value).0 h in
          inl
            (subst (λ n. n ≤ most) s (ltb-false most (strtoul 10 value).0 (or_false _ _ checks).1))
      go failed q h = subst (Owned database most) (some_inj h) o
