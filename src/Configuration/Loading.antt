-- ===== src/Configuration/Loading.antt =====
-- configuration_load_daemon of src/cyberd/configuration.c on the invariant of the storage.
use cyberd.Base.{
  ℕ, ◌<◌, ◌^◌, Bool, true, false, Option, none, some, List, ◌∷◌, ◌==◌, ◌≡◌, refl, sym, ap, ◌∙◌,
  subst, All-Among, Among, inl, inr, some_inj, Bool-cases, Returns, returns, Returns->>=,
  Returns-imp, fun_ext,
}
use cyberd.DaemonConf.{DaemonConf, daemon_conf_init}
use cyberd.DaemonConf.Values.{Host}
use cyberd.DaemonConf.Files.{daemon_conf_parse}
use cyberd.DaemonConf.Files.Written.{Configured, IsText, Parses, daemon_conf_parse-IsText}
use cyberd.Daemons.{Daemon, System, write, put, started, stopped, daemon_create}
use cyberd.Daemons.Consistent.{Store, write-same, write-other, is_spawned}
use cyberd.Daemons.Spawning.{Consistent, same-==, idle-IsApart, settle-IsConsistent}
use cyberd.Daemons.Lifecycle.{fetch-ok}
use cyberd.Daemons.Starting.{
  ForkFresh, Starts, spawned, fork_failed, has_process, daemon_start-Starts,
}
use cyberd.Daemons.Destruction.{daemon_destroy-Destroyed}
use cyberd.Configuration.{
  name_of, Element, Config, Environment, start_if, load_parsed, load_created, load_new,
  configuration_load_daemon,
}
use cyberd.Configuration.Held.{
  keeps-name_of, IsStored, SameNames, Held, Keeps, KeepsAt-refl, Keeps-Held,
}
use cyberd.Configuration.Moving.{elsewhere-name_of, free_elsewhere}
use cyberd.Configuration.Creating.{create-Held}
use cyberd.Configuration.Inserting.{insert_daemon-Held, more-Held}

-- What the code relies on: a default mask of nine bits, an address of malloc(3) that is free, and a
-- pid of fork(2) that no process of a daemon has.
pub record IsEnvironment (env : Environment) : Type 0 where
  pub mask_bits : env.default_umask < 2 ^ 9
  pub malloc_free : (s : System) (p held : ℕ) → env.malloc s ≡ some (p, held) → s.store p ≡ none
  pub fork_fresh : (s : System) → Consistent s → ForkFresh s.store (env.fork s)

-- A store in which only the daemon at `p` has changed.
pub changed-Keeps :
    (host : Host) (s t : Store) (p : ℕ) (d e : Daemon)
    → s p ≡ some d
    → t p ≡ some e
    → ((q : ℕ) → (q == p) ≡ false → t q ≡ s q)
    → e.name ≡ d.name
    → (Configured host d.conf → Configured host e.conf)
    → Keeps host s t
changed-Keeps host s t p d e a b others n f q = elim (Bool-cases (q == p)) [
  | inl h ↦ let same = same-== q p h in rw (same, a, b) ((n, f))
  | inr h ↦ rw (others q h) (KeepsAt-refl host (s q))
]

module _ (env : Environment) (v : IsEnvironment env) where
  abbrev host : Host
  host = env.host

  -- What a start leaves: the same tree, and the same daemons.
  abbrev pub Started : List (List ℕ) → List Element → Option ℕ → Config → Config → Type 0
  Started names others hand c t =
      Held env.host names others hand t × Keeps env.host c.system.store t.system.store

  pub start-Keeps :
      (s t : System) (p : ℕ) (d : Daemon) (fork : Option ℕ)
      → s.store p ≡ some d
      → Starts s p d fork t
      → Keeps env.host s.store t.store
  start-Keeps s t p d fork a (spawned pid i g) =
      changed-Keeps env.host s.store t.store p d (record d { pid = pid; state = started }) a g.1 g.2
        refl (λ x. x)
  start-Keeps s t p d fork a (fork_failed i q) = λ n. rw q (KeepsAt-refl env.host (s.store n))
  start-Keeps s t p d fork a (has_process i q) = λ n. rw q (KeepsAt-refl env.host (s.store n))

  pub start_if-Started :
      (names : List (List ℕ)) (others : List Element) (hand : Option ℕ) (c : Config) (p : ℕ)
      (d : Daemon) (wanted : Bool)
      → Held env.host names others hand c
      → c.system.store p ≡ some d
      → Returns (Started names others hand c) (start_if env wanted c p)
  unfolding start_if
  start_if-Started names others hand c p d false h a =
      returns c refl (h, λ q. KeepsAt-refl env.host (c.system.store q))
  start_if-Started names others hand c p d true h a =
      Returns->>=
        (daemon_start-Starts c.system p d (env.fork c.system) h.consistent a
          (v.fork_fresh c.system h.consistent))
        λ t _ g.
          let k = start-Keeps c.system t p d (env.fork c.system) a g.1 in
          returns (record c { system = t }) refl
            (Keeps-Held env.host names others hand c t h k g.0, k)

  -- A daemon that was not there, created at `p` with a name that no element of the tree has.
  module _ (names : List (List ℕ)) (others : List Element) (c : Config)
      (h : Held env.host names others none c) (p : ℕ) (free : c.system.store p ≡ none) (d : Daemon)
      (idle : d.state ≡ stopped) (fresh : Among d.name names → ⊥) where
    settled : (e : Daemon) → is_spawned e.state ≡ false → Consistent (put c.system p e)
    settled e i =
        settle-IsConsistent c.system.store p (some e) c.system.spawns
          (idle-IsApart c.system.store p (λ x b. absurd (cc (free, b))) c.system.spawns
            h.consistent)
          (λ x q. subst (λ y. is_spawned y.state ≡ false) (some_inj q) i)

    abbrev Adds : Config → Type 0
    Adds t =
        Held env.host (d.name ∷ names) others none t
        × SameNames others c.system.store t.system.store

    created-SameNames : (e : Daemon) → SameNames others c.system.store (put c.system p e).store
    created-SameNames e r m =
        let i = All-Among (IsStored c.system.store) r others h.waiting m in
        elsewhere-name_of c.system.store p (some e) r i
          (free_elsewhere c.system.store p free i.address_of i.daemon i.allocated)

    abbrev with_conf : DaemonConf → Config
    with_conf conf = record c { system = put c.system p (record d { conf = conf }) }

    freed-Keeps :
        (conf : DaemonConf) (t : System)
        → t.store p ≡ none
        → ((q : ℕ) → (q == p) ≡ false → t.store q ≡ (with_conf conf).system.store q)
        → Keeps env.host c.system.store t.store
    freed-Keeps conf t n o q = elim (Bool-cases (q == p)) [
      | inl k ↦ let same = same-== q p k in rw (same, free, n) tt
      | inr k ↦
          let kept : t.store q ≡ c.system.store q =
            o q k ∙ write-other c.system.store p q (some (record d { conf = conf })) k in
          rw kept (KeepsAt-refl env.host (c.system.store q))
    ]

    load_parsed-Adds :
        (parsed : DaemonConf × Bool)
        → Parses env.host env.default_umask parsed
        → Returns Adds (load_parsed env (with_conf parsed.0) p parsed)
    unfolding load_parsed
    load_parsed-Adds (conf, true) r =
        let e : Daemon = record d { conf = conf } in
        let there = write-same c.system.store p (some e) in
        Returns->>=
          (insert_daemon-Held env.host names others (with_conf conf) p e
            (create-Held env.host names others c p e h free r (settled e (ap is_spawned idle)))
            there fresh)
          λ t _ g.
            Returns-imp
              (start_if-Started (d.name ∷ names) others none t p e conf.start.load g.1
                (ap (λ s. s.store p) g.0 ∙ there))
              λ u k. (
                k.0,
                λ r m.
                    keeps-name_of env.host t.system.store u.system.store k.1 r
                    ∙ ap (λ s. name_of s.store r) g.0
                    ∙ created-SameNames e r m,
              )
    load_parsed-Adds (conf, false) r =
        let e : Daemon = record d { conf = conf } in
        Returns->>=
          (daemon_destroy-Destroyed (with_conf conf).system p e (settled e (ap is_spawned idle))
            (write-same c.system.store p (some e)))
          λ t _ g.
            returns (record c { system = t }) refl
              (
                more-Held env.host d.name names others none (record c { system = t })
                    (Keeps-Held env.host names others none c t h (freed-Keeps conf t g.1 g.2) g.0),
                λ r m. keeps-name_of env.host c.system.store t.store (freed-Keeps conf t g.1 g.2) r,
              )

    put-put :
        (conf : DaemonConf)
        → put (put c.system p d) p (record d { conf = conf })
          ≡ put c.system p (record d { conf = conf })
    put-put conf = ap (λ m. record (c.system) { store = m }) (fun_ext (λ q. overwritten q))
      where
        overwritten :
            (q : ℕ)
            → write (write c.system.store p (some d)) p (some (record d { conf = conf })) q
              ≡ write c.system.store p (some (record d { conf = conf })) q
        overwritten q = elim (Bool-cases (q == p)) [ inl k ↦ rw k refl | inr k ↦ rw k refl ]

    load_created-Adds :
        (lines : List (List ℕ))
        → d.conf ≡ daemon_conf_init env.default_umask
        → IsText lines
        → Returns Adds (load_created env (record c { system = put c.system p d }) p lines)
    unfolding load_created
    load_created-Adds lines i w =
        let parses = daemon_conf_parse-IsText env.host env.default_umask lines v.mask_bits w in
        rw (fetch-ok (put c.system p d) p d (write-same c.system.store p (some d))) (
          Returns->>=
            (subst
              (λ conf.
                Returns (Parses env.host env.default_umask) (daemon_conf_parse env.host conf lines))
              (sym i) parses)
            λ parsed _ g.
              subst (λ s. Returns Adds (load_parsed env (record c { system = s }) p parsed))
                (sym (put-put parsed.0)) (load_parsed-Adds parsed g))

  abbrev pub Loaded : List (List ℕ) → List Element → Config → List ℕ → Config → Type 0
  Loaded names others c name t =
      Held env.host (name ∷ names) others none t × SameNames others c.system.store t.system.store

  load_new-Held :
      (names : List (List ℕ)) (others : List Element) (c : Config) (name : List ℕ)
      (lines : List (List ℕ)) (allocated : Option (ℕ × ℕ)) (copied : Bool)
      → Held env.host names others none c
      → (Among name names → ⊥)
      → IsText lines
      → ((p held : ℕ) → allocated ≡ some (p, held) → c.system.store p ≡ none)
      → Returns
          (Loaded names others c name)
          (load_new env c (daemon_create env.default_umask c.system allocated copied name) lines)
  unfolding load_new daemon_create
  load_new-Held names others c name lines none copied h fresh w free =
      returns c refl (more-Held env.host name names others none c h, λ r m. refl)
  load_new-Held names others c name lines (some (p, held)) false h fresh w free =
      returns c refl (more-Held env.host name names others none c h, λ r m. refl)
  load_new-Held names others c name lines (some (p, held)) true h fresh w free =
      let d : Daemon = record {
        state = stopped;
        name = name;
        pid = held;
        conf = daemon_conf_init env.default_umask;
      } in
      load_created-Adds names others c h p (free p held refl) d refl fresh lines refl w

  pub load_daemon-Held :
      (names : List (List ℕ)) (others : List Element) (c : Config) (name : List ℕ)
      (lines : List (List ℕ))
      → Held env.host names others none c
      → (Among name names → ⊥)
      → IsText lines
      → Returns (Loaded names others c name) (configuration_load_daemon env c name lines)
  unfolding configuration_load_daemon
  load_daemon-Held names others c name lines h fresh w =
      load_new-Held names others c name lines (env.malloc c.system) (env.strdup c.system) h fresh w
        (v.malloc_free c.system)
