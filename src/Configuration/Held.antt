-- ===== src/Configuration/Held.antt =====
-- The invariant of the storage of daemons in src/cyberd/configuration.c, and what keeps it.
use cyberd.Base.{
  ℕ, Option, none, some, List, ◌≡◌, refl, sym, ap, ◌∙◌, subst, All, All-imp, Among, ◌⊎◌, some_inj,
  strcmp,
}
use cyberd.Tree.Balance.{IsAvl}
use cyberd.Tree.Sequence.{IsSorted, to_list}
use cyberd.Tree.Members.{agree-IsSorted}
use cyberd.DaemonConf.Values.{Host}
use cyberd.DaemonConf.Files.Written.{Configured}
use cyberd.Daemons.{Daemon, System}
use cyberd.Daemons.Consistent.{Store}
use cyberd.Daemons.Spawning.{Consistent}
use cyberd.Configuration.{Element, stored, named, Config, name_of, daemons_compare, stored_name}

-- An allocated daemon, whose name is one of those.
pub record IsKnown (store : Store) (names : List (List ℕ)) (r : Element) : Type 0 where
  pub address_of : ℕ
  pub daemon : Daemon
  pub is_at : r ≡ stored address_of
  pub allocated : store address_of ≡ some daemon
  pub known : Among daemon.name names

pub record IsStored (store : Store) (r : Element) : Type 0 where
  pub address_of : ℕ
  pub daemon : Daemon
  pub is_at : r ≡ stored address_of
  pub allocated : store address_of ≡ some daemon

-- `daemons` is a valid AVL tree by name; each of its elements is an allocated daemon with one of the
-- names. Each allocated daemon is an element, or waits in a list of others, or is the one at hand,
-- and only one of these. Each has a configuration that was accepted, and spawns is consistent.
pub record Held (host : Host) (names : List (List ℕ)) (others : List Element) (hand : Option ℕ)
    (c : Config) : Type 0 where
  pub consistent : Consistent c.system
  pub configured : (q : ℕ) (d : Daemon) → c.system.store q ≡ some d → Configured host d.conf
  pub balanced : IsAvl c.daemons
  pub sorted : IsSorted (daemons_compare c.system.store) (to_list c.daemons)
  pub elements : All (IsKnown c.system.store names) (to_list c.daemons)
  pub waiting : All (IsStored c.system.store) others
  pub covered :
      (q : ℕ) (d : Daemon)
      → c.system.store q ≡ some d
      → Among (stored q) (to_list c.daemons) ⊎ Among (stored q) others ⊎ (hand ≡ some q)
  pub apart : (r : Element) → Among r (to_list c.daemons) → Among r others → ⊥
  pub hand_apart :
      (q : ℕ)
      → hand ≡ some q
      → (Among (stored q) (to_list c.daemons) → ⊥) × (Among (stored q) others → ⊥)

-- An allocation that stays, with its name and with an accepted configuration.
abbrev KeepsAt : Host → Option Daemon → Option Daemon → Type 0
KeepsAt host none none = Unit
KeepsAt host none (some e) = ⊥
KeepsAt host (some d) none = ⊥
KeepsAt host (some d) (some e) =
    (e.name ≡ d.name) × (Configured host d.conf → Configured host e.conf)

-- The same daemons are allocated.
abbrev pub Keeps : Host → Store → Store → Type 0
Keeps host s t = (q : ℕ) → KeepsAt host (s q) (t q)

module _ (host : Host) where
  keeps_name : (a b : Option Daemon) → KeepsAt host a b → stored_name b ≡ stored_name a
  keeps_name none none k = refl
  keeps_name none (some e) k = absurd k
  keeps_name (some d) none k = absurd k
  keeps_name (some d) (some e) k = k.0

  pub keeps_forward :
      (a b : Option Daemon) (d : Daemon)
      → KeepsAt host a b
      → a ≡ some d
      → (e : Daemon) × (b ≡ some e) × (e.name ≡ d.name)
  keeps_forward none b d k h = absurd (cc h)
  keeps_forward (some x) none d k h = absurd k
  keeps_forward (some x) (some e) d k h = (e, refl, k.0 ∙ ap (λ y. y.name) (some_inj h))

  keeps_back :
      (a b : Option Daemon) (e : Daemon)
      → KeepsAt host a b
      → b ≡ some e
      → (d : Daemon) × (a ≡ some d) × (Configured host d.conf → Configured host e.conf)
  keeps_back none none e k h = absurd (cc h)
  keeps_back none (some x) e k h = absurd k
  keeps_back (some d) none e k h = absurd k
  keeps_back (some d) (some x) e k h =
      (d, refl, λ c. subst (λ y. Configured host y.conf) (some_inj h) (k.1 c))

  pub KeepsAt-refl : (a : Option Daemon) → KeepsAt host a a
  KeepsAt-refl none = tt
  KeepsAt-refl (some d) = (refl, λ c. c)

KeepsAt-trans :
    (host : Host) (a b c : Option Daemon) → KeepsAt host a b → KeepsAt host b c → KeepsAt host a c
KeepsAt-trans host none none none k l = tt
KeepsAt-trans host none none (some z) k l = absurd l
KeepsAt-trans host none (some y) c k l = absurd k
KeepsAt-trans host (some x) none c k l = absurd k
KeepsAt-trans host (some x) (some y) none k l = absurd l
KeepsAt-trans host (some x) (some y) (some z) k l = (l.0 ∙ k.0, λ h. l.1 (k.1 h))

pub Keeps-trans : (host : Host) (s t u : Store) → Keeps host s t → Keeps host t u → Keeps host s u
Keeps-trans host s t u k l q = KeepsAt-trans host (s q) (t q) (u q) (k q) (l q)

-- Stores that give the elements the same names give the same order.
pub same_names-IsSorted :
    (s t : Store) (xs : List Element)
    → ((r : Element) → Among r xs → name_of t r ≡ name_of s r)
    → IsSorted (daemons_compare s) xs
    → IsSorted (daemons_compare t) xs
unfolding daemons_compare
same_names-IsSorted s t xs f =
    agree-IsSorted (daemons_compare s) (daemons_compare t) xs
      (λ x y m n. ap (λ a. strcmp a (name_of t y)) (f x m) ∙ ap (strcmp (name_of s x)) (f y n))

-- The elements of a list have the names that they had.
abbrev pub SameNames : List Element → Store → Store → Type 0
SameNames xs s t = (r : Element) → Among r xs → name_of t r ≡ name_of s r

module _ (host : Host) (s t : Store) (k : Keeps host s t) where
  pub keeps-name_of : (r : Element) → name_of t r ≡ name_of s r
  unfolding name_of
  keeps-name_of (stored q) = keeps_name host (s q) (t q) (k q)
  keeps-name_of (named n) = refl

  pub keeps-IsSorted :
      (xs : List Element) → IsSorted (daemons_compare s) xs → IsSorted (daemons_compare t) xs
  keeps-IsSorted xs = same_names-IsSorted s t xs (λ r m. keeps-name_of r)

  keeps-IsKnown : (names : List (List ℕ)) (r : Element) → IsKnown s names r → IsKnown t names r
  keeps-IsKnown names r h =
      let (e, a, n) =
        keeps_forward host (s h.address_of) (t h.address_of) h.daemon (k h.address_of)
          h.allocated in
      record {
        address_of = h.address_of;
        daemon = e;
        is_at = h.is_at;
        allocated = a;
        known = subst (λ m. Among m names) (sym n) (h.known);
      }

  pub keeps-IsStored : (r : Element) → IsStored s r → IsStored t r
  keeps-IsStored r h =
      let (e, a, n) =
        keeps_forward host (s h.address_of) (t h.address_of) h.daemon (k h.address_of)
          h.allocated in
      record { address_of = h.address_of; daemon = e; is_at = h.is_at; allocated = a }

-- What changes neither the names nor which daemons are allocated, and accepts the configurations.
pub Keeps-Held :
    (host : Host) (names : List (List ℕ)) (others : List Element) (hand : Option ℕ) (c : Config)
    (t : System)
    → Held host names others hand c
    → Keeps host c.system.store t.store
    → Consistent t
    → Held host names others hand (record c { system = t })
Keeps-Held host names others hand c t h k consistent =
    let s = c.system in
    record {
      consistent = consistent;
      configured = λ q e a.
          let (d, b, f) = keeps_back host (s.store q) (t.store q) e (k q) a in
          f (h.configured q d b);
      balanced = h.balanced;
      sorted = keeps-IsSorted host s.store t.store k (to_list c.daemons) h.sorted;
      elements =
          All-imp _ _ (keeps-IsKnown host s.store t.store k names) (to_list c.daemons) h.elements;
      waiting = All-imp _ _ (keeps-IsStored host s.store t.store k) others h.waiting;
      covered = λ q e a.
          let (d, b, f) = keeps_back host (s.store q) (t.store q) e (k q) a in h.covered q d b;
      apart = h.apart;
      hand_apart = h.hand_apart;
    }
