-- ===== src/Configuration/Reloading.antt =====
-- configuration_reload of src/cyberd/configuration.c: every file of the directory.
use cyberd.Base.{
  ℕ, Bool, true, false, Option, none, some, List, [], ◌∷◌, ◌≡◌, refl, ap, ◌∙◌, subst, Among, inl,
  inr, Bool-cases, Returns, returns, Returns->>=, Returns-imp, ok, if_same,
}
use cyberd.DaemonConf.{DaemonConf}
use cyberd.DaemonConf.Files.Written.{IsText, Parses, daemon_conf_parse-IsText}
use cyberd.Daemons.{Daemon, put}
use cyberd.Daemons.Consistent.{Store, write-same, write-other}
use cyberd.Daemons.Lifecycle.{fetch-ok, update-IsConsistent}
use cyberd.Configuration.{Element, Config, Environment, Dirent, is_hidden}
use cyberd.Configuration.Held.{
  keeps_forward, Keeps-trans, same_names-IsSorted, keeps-name_of, SameNames, Held, Keeps,
  KeepsAt-refl, Keeps-Held,
}
use cyberd.Configuration.Inserting.{insert_daemon-Held, more-Held}
use cyberd.Configuration.Loading.{
  IsEnvironment, Started, start_if-Started, changed-Keeps, load_daemon-Held,
}
use cyberd.Tree.{Node}
use cyberd.Tree.Sequence.{to_list}
use cyberd.Configuration.Entries.{IsReadable, AreFiles, met}
use cyberd.Configuration.Removing.{IsOld, Taken, not_old, taken, daemons_remove_element-Taken}
use cyberd.Configuration.{
  name_of, reload_parsed, reload_conf, reload_found, configuration_reload_daemon, reload_entry,
  reload_entries,
}

module _ (env : Environment) (v : IsEnvironment env) where
  module _ (names : List (List ℕ)) (others : List Element) (c : Config) (p : ℕ) (d : Daemon)
      (h : Held env.host names others (some p) c) (a : c.system.store p ≡ some d) where
    -- The daemon at hand is still there, with its name.
    abbrev Reloads : Config → Type 0
    Reloads t =
        Started env v names others (some p) c t
        × ((e : Daemon) × (t.system.store p ≡ some e) × (e.name ≡ d.name))

    still_there : (t : Config) → Started env v names others (some p) c t → Reloads t
    still_there t g = (g, keeps_forward env.host (c.system.store p) (t.system.store p) d (g.1 p) a)

    reload_parsed-Reloads :
        (parsed : DaemonConf × Bool)
        → Parses env.host env.default_umask parsed
        → Returns Reloads (reload_parsed env c p d parsed)
    unfolding reload_parsed
    reload_parsed-Reloads (newconf, true) r =
        let e : Daemon = record d { conf = newconf } in
        let s = put c.system p e in
        let there = write-same c.system.store p (some e) in
        let k : Keeps env.host c.system.store s.store =
          changed-Keeps env.host c.system.store s.store p d e a there
            (λ q o. write-other c.system.store p q (some e) o) refl (λ x. r) in
        let consistent =
          update-IsConsistent c.system.store p d e a refl refl c.system.spawns h.consistent in
        Returns-imp
          (start_if-Started env v names others (some p) (record c { system = s }) p e
            newconf.start.reload (Keeps-Held env.host names others (some p) c s h k consistent)
            there)
          λ t g.
            still_there t (g.0, Keeps-trans env.host c.system.store s.store t.system.store k g.1)
    reload_parsed-Reloads (newconf, false) r =
        returns c refl (still_there c (h, λ q. KeepsAt-refl env.host (c.system.store q)))

    reload_conf-Reloads :
        (lines : List (List ℕ)) → IsText lines → Returns Reloads (reload_conf env c p lines)
    unfolding reload_conf
    reload_conf-Reloads lines w =
        Returns->>= (daemon_conf_parse-IsText env.host env.default_umask lines v.mask_bits w)
          λ parsed _ g. rw (fetch-ok c.system p d a) (reload_parsed-Reloads parsed g)

  -- What is left of the old daemons, after some call.
  abbrev pub Moves : List (List ℕ) → Config × Node Element → Type 0
  Moves names r = Held env.host names (to_list r.1) none r.0 × IsOld r.0.system.store r.1

  renamed-IsOld :
      (left : Node Element) (s t : Store)
      → IsOld s left
      → SameNames (to_list left) s t
      → IsOld t left
  renamed-IsOld left s t o k = record {
    balanced = o.balanced;
    sorted = same_names-IsSorted s t (to_list left) k o.sorted;
  }

  module _ (names : List (List ℕ)) (c : Config) (name : List ℕ) (lines : List (List ℕ))
      (fresh : Among name names → ⊥) (w : IsText lines) where
    reload_found-Moves :
        (r : Node Element × Option Element)
        → IsOld c.system.store r.0
        → Taken env.host names c name r
        → Returns (λ t. Moves (name ∷ names) (t, r.0)) (reload_found env c r.1 name lines)
    unfolding reload_found
    reload_found-Moves (left, found) o (not_old h) =
        Returns-imp (load_daemon-Held env v names (to_list left) c name lines h fresh w)
          λ t g. (g.0, renamed-IsOld left c.system.store t.system.store o g.1)
    reload_found-Moves (left, found) o (taken p d a n h) =
        Returns->>= (reload_conf-Reloads names (to_list left) c p d h a lines w) λ t _ g.
          let (e, there, kept) = g.1 in
          Returns-imp
            (insert_daemon-Held env.host names (to_list left) t p e g.0.0 there
              (λ m. fresh (subst (λ x. Among x names) (kept ∙ n) m)))
            λ u k. (
              subst (λ x. Held env.host (x ∷ names) (to_list left) none u) (kept ∙ n) k.1,
              renamed-IsOld left c.system.store u.system.store o (λ r m.
                  ap (λ s. name_of s.store r) k.0
                  ∙ keeps-name_of env.host c.system.store t.system.store g.0.1 r),
            )

    reload_daemon-Moves :
        (old : Node Element)
        → Moves names (c, old)
        → Returns (Moves (name ∷ names)) (configuration_reload_daemon env c old name lines)
    unfolding configuration_reload_daemon
    reload_daemon-Moves old h =
        Returns->>= (daemons_remove_element-Taken env.host names c old name h.0 h.1)
          λ r _ g. Returns->>= (reload_found-Moves r g.0 g.1) λ t _ k. returns (t, r.0) refl k

  reload_entry-Moves :
      (names : List (List ℕ)) (c : Config) (old : Node Element) (name : List ℕ)
      (opened : Option (List (List ℕ)))
      → Moves names (c, old)
      → (Among name names → ⊥)
      → IsReadable opened
      → Returns
          (Moves (name ∷ names))
          (reload_entry env c old (record { d_name = name; opened = opened }))
  unfolding reload_entry
  reload_entry-Moves names c old name none h fresh w =
      returns (c, old) (if_same (is_hidden name) (ok (c, old)))
        (more-Held env.host name names (to_list old) none c h.0, h.1)
  reload_entry-Moves names c old name (some lines) h fresh w = elim (Bool-cases (is_hidden name)) [
    | inl n ↦
        returns (c, old) (rw n refl) (more-Held env.host name names (to_list old) none c h.0, h.1)
    | inr n ↦ rw n (reload_daemon-Moves names c name lines fresh w old h)
  ]

  pub reload_entries-Moves :
      (entries : List Dirent) (names : List (List ℕ)) (c : Config) (old : Node Element)
      → Moves names (c, old)
      → AreFiles names entries
      → Returns (Moves (met names entries)) (reload_entries env c old entries)
  unfolding reload_entries
  reload_entries-Moves [] names c old h f = returns (c, old) refl h
  reload_entries-Moves (entry ∷ entries) names c old h f =
      Returns->>= (reload_entry-Moves names c old entry.d_name entry.opened h f.0 f.1)
        λ t _ g. reload_entries-Moves entries (entry.d_name ∷ names) t.0 t.1 g f.2
