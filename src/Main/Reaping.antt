-- ===== src/Main/Reaping.antt =====
-- reap_children of src/cyberd/main.c on the invariant of the storage of daemons.
use cyberd.Base.{ℕ, Option, none, List, [], ◌∷◌, ◌≡◌, ◌≢◌, refl, Returns, returns, Returns->>=, ok}
use cyberd.DaemonConf.Values.{Host}
use cyberd.Daemons.{System, SigInfo, cld_other, started, stopped, reap_child, reap_children}
use cyberd.Daemons.Reaping.{ReapFresh, Reaps, orphan, ended, restarted, reap_child-Reaps}
use cyberd.Configuration.{Config}
use cyberd.Configuration.Held.{Held, Keeps, KeepsAt-refl, Keeps-Held}
use cyberd.Configuration.Loading.{changed-Keeps}

-- The children are ended ones, and fork(2) gives a pid of no daemon's process in each round.
abbrev pub ReapsFresh : System → List (SigInfo × Option ℕ) → Type 0
ReapsFresh s [] = Unit
ReapsFresh s ((info, fork) ∷ rest) =
    (info.si_code ≢ cld_other)
    × ReapFresh s.store info fork
    × ((t : System) → reap_child s info fork ≡ ok t → ReapsFresh t rest)

module _ (host : Host) (names : List (List ℕ)) where
  Reaps-Keeps :
      (s t : System) (info : SigInfo) (fork : Option ℕ)
      → Reaps s info fork t
      → Keeps host s.store t.store
  Reaps-Keeps s t info fork (orphan _ q _) = λ n. rw q (KeepsAt-refl host (s.store n))
  Reaps-Keeps s t info fork (ended p d a _ _ _ g) =
      changed-Keeps host s.store t.store p d (record d { state = stopped }) a g.1 g.2 refl (λ x. x)
  Reaps-Keeps s t info fork (restarted p d pid a _ _ _ _ g) =
      changed-Keeps host s.store t.store p d (record d { state = started; pid = pid }) a g.1 g.2
        refl (λ x. x)

  pub reap_children-Held :
      (rs : List (SigInfo × Option ℕ)) (c : Config)
      → Held host names [] none c
      → ReapsFresh c.system rs
      → Returns (λ s. Held host names [] none (record c { system = s })) (reap_children c.system rs)
  unfolding reap_children
  reap_children-Held [] c h f = returns c.system refl h
  reap_children-Held ((info, fork) ∷ rs) c h f =
      Returns->>= (reap_child-Reaps c.system info fork h.consistent f.0 f.1) λ t e g.
        reap_children-Held rs (record c { system = t })
          (Keeps-Held host names [] none c t h (Reaps-Keeps c.system t info fork g.1) g.0) (f.2 t e)
