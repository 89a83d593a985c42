-- ===== src/Configuration/Entries.antt =====
-- configuration_load of src/cyberd/configuration.c: every file of the directory.
use cyberd.Base.{
  ℕ, Option, none, some, List, [], ◌∷◌, refl, Among, inl, inr, Bool-cases, Returns, returns,
  Returns->>=, Returns-imp, ok, if_same,
}
use cyberd.DaemonConf.Files.Written.{IsText}
use cyberd.Configuration.{
  Config, Environment, Dirent, is_hidden, load_entry, load_entries, configuration_load,
}
use cyberd.Configuration.Held.{Held}
use cyberd.Configuration.Inserting.{more-Held}
use cyberd.Configuration.Loading.{IsEnvironment, load_daemon-Held}

-- A file that can be opened has lines that one writes.
abbrev pub IsReadable : Option (List (List ℕ)) → Type 0
IsReadable none = Unit
IsReadable (some lines) = IsText lines

-- The files that can be opened have lines that one writes, and no name comes twice.
abbrev pub AreFiles : List (List ℕ) → List Dirent → Type 0
AreFiles names [] = Unit
AreFiles names (entry ∷ entries) =
    (Among entry.d_name names → ⊥)
    × IsReadable entry.opened
    × AreFiles (entry.d_name ∷ names) entries

-- The names that were met.
abbrev pub met : List (List ℕ) → List Dirent → List (List ℕ)
met names [] = names
met names (entry ∷ entries) = met (entry.d_name ∷ names) entries

module _ (env : Environment) (v : IsEnvironment env) where
  load_entry-Held :
      (names : List (List ℕ)) (c : Config) (name : List ℕ) (opened : Option (List (List ℕ)))
      → Held env.host names [] none c
      → (Among name names → ⊥)
      → IsReadable opened
      → Returns
          (Held env.host (name ∷ names) [] none)
          (load_entry env c (record { d_name = name; opened = opened }))
  unfolding load_entry
  load_entry-Held names c name none h fresh w =
      returns c (if_same (is_hidden name) (ok c)) (more-Held env.host name names [] none c h)
  load_entry-Held names c name (some lines) h fresh w = elim (Bool-cases (is_hidden name)) [
    | inl n ↦ returns c (rw n refl) (more-Held env.host name names [] none c h)
    | inr n ↦ rw n (Returns-imp (load_daemon-Held env v names [] c name lines h fresh w) λ t g. g.0)
  ]

  pub load_entries-Held :
      (entries : List Dirent) (names : List (List ℕ)) (c : Config)
      → Held env.host names [] none c
      → AreFiles names entries
      → Returns (Held env.host (met names entries) [] none) (load_entries env c entries)
  unfolding load_entries
  load_entries-Held [] names c h f = returns c refl h
  load_entries-Held (entry ∷ entries) names c h f =
      Returns->>= (load_entry-Held names c entry.d_name entry.opened h f.0 f.1)
        λ t _ g. load_entries-Held entries (entry.d_name ∷ names) t g f.2

  pub configuration_load-Held :
      (c : Config) (entries : List Dirent)
      → Held env.host [] [] none c
      → AreFiles [] entries
      → Returns (Held env.host (met [] entries) [] none) (configuration_load env c (some entries))
  unfolding configuration_load
  configuration_load-Held c entries h f = load_entries-Held entries [] c h f
