-- ===== src/Configuration/Renewal.antt =====
-- configuration_reload and configuration_cleanup of src/cyberd/configuration.c.
use cyberd.Base.{
  ℕ, none, some, List, [], ◌≡◌, refl, All-imp, inl, inr, Option-cases, Returns, returns,
  Returns->>=,
}
use cyberd.Tree.{null}
use cyberd.Tree.Sequence.{to_list}
use cyberd.DaemonConf.Values.{Host}
use cyberd.Daemons.Spawning.{Consistent}
use cyberd.Configuration.{Config, Environment, Dirent, configuration_reload, configuration_cleanup}
use cyberd.Configuration.Held.{IsKnown, IsStored, Held}
use cyberd.Configuration.Loading.{IsEnvironment}
use cyberd.Configuration.Entries.{AreFiles, met}
use cyberd.Configuration.Reloading.{reload_entries-Moves}
use cyberd.Configuration.Destroying.{destroy_daemons-Held}

-- All the elements become old ones.
aside-Held :
    (host : Host) (names : List (List ℕ)) (c : Config)
    → Held host names [] none c
    → Held host [] (to_list c.daemons) none (record c { daemons = null })
aside-Held host names c h = record {
  consistent = h.consistent;
  configured = h.configured;
  balanced = tt;
  sorted = tt;
  elements = tt;
  waiting =
      All-imp (IsKnown c.system.store names) (IsStored c.system.store)
        (λ r k. record {
          address_of = k.address_of;
          daemon = k.daemon;
          is_at = k.is_at;
          allocated = k.allocated;
        })
        (to_list c.daemons) h.elements;
  covered = λ q e a. elim (h.covered q e a) [
    | inl m ↦ inr (inl m)
    | inr (inl m) ↦ absurd m
    | inr (inr m) ↦ inr (inr m)
  ];
  apart = λ r m n. m;
  hand_apart = λ q i. absurd (cc i);
}

-- On a storage that is well kept, configuration_reload with a readable directory, in which no name
-- comes twice and each file that can be opened is written so that its lines parse, never faults and
-- leaves a storage that is well kept: `daemons` is a valid AVL tree by name of exactly the daemons
-- that are allocated, each with an accepted configuration and one of the names of the directory,
-- and spawns is consistent. The default mask has nine bits, malloc(3) gives a free address, and
-- fork(2) a pid that no daemon has.
pub configuration_reload-Held :
    (env : Environment) (names : List (List ℕ)) (c : Config) (entries : List Dirent)
    → IsEnvironment env
    → Held env.host names [] none c
    → AreFiles [] entries
    → Returns (Held env.host (met [] entries) [] none) (configuration_reload env c (some entries))
unfolding configuration_reload
configuration_reload-Held env names c entries v h f =
    Returns->>=
      (reload_entries-Moves env v entries [] (record c { daemons = null }) c.daemons
        (aside-Held env.host names c h, record { balanced = h.balanced; sorted = h.sorted }) f)
      λ r _ g.
        Returns->>= (destroy_daemons-Held env.host (met [] entries) r.0 r.1 g.0 g.1)
          λ s _ k. returns (record (r.0) { system = s }) refl k

pub configuration_cleanup_frees :
    (host : Host) (names : List (List ℕ)) (c : Config)
    → Held host names [] none c
    → Returns
        (λ t. Consistent t.system × ((q : ℕ) → t.system.store q ≡ none))
        (configuration_cleanup c)
unfolding configuration_cleanup
configuration_cleanup_frees host names c h =
    Returns->>=
      (destroy_daemons-Held host [] (record c { daemons = null }) c.daemons
        (aside-Held host names c h) (record { balanced = h.balanced; sorted = h.sorted }))
      λ s _ k.
        returns (record { system = s; daemons = null }) refl
          (
            k.consistent,
            λ q. elim (Option-cases (s.store q)) [
              | inl n ↦ n
              | inr (d, a) ↦ elim (k.covered q d a) [
                | inl m ↦ absurd m
                | inr (inl m) ↦ absurd m
                | inr (inr m) ↦ absurd (cc m)
              ]
            ],
          )
