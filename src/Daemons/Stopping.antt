-- ===== src/Daemons/Stopping.antt =====
-- How spawns_stop of src/cyberd/spawns.c changes the daemons: what it keeps, and what it never does.
use cyberd.Base.{
  ℕ, ℤ, ◌++◌, ◌+◌, true, false, some, List, [], ◌∷◌, ◌==◌, ◌≡◌, ◌≢◌, refl, sym, ap, ◌∙◌, arith, inl,
  inr, Bool-cases, some_inj,
}
use cyberd.DaemonConf.{no_flags}
use cyberd.Daemons.{
  DaemonState, started, stopped, stopping, Daemon, Ref, at, System, Effect, killed, forked,
  killed_all,
}
use cyberd.Daemons.Consistent.{is_spawned, Store, Runs}
use cyberd.Daemons.Spawning.{same-==}

-- How often a trace forks.
unfoldable pub forks : List Effect → ℕ
forks [] = 0
forks (killed pid sig ∷ t) = forks t
forks (forked p pid ∷ t) = forks t + 1
forks (killed_all sig ∷ t) = forks t

forks-append : (t u : List Effect) → forks (t ++ u) ≡ forks t + forks u
unfolding forks
forks-append [] u = omega arith
forks-append (killed pid sig ∷ t) u = forks-append t u
forks-append (forked p pid ∷ t) u = omega (arith, forks-append t u)
forks-append (killed_all sig ∷ t) u = forks-append t u

pub forks_kill_all : (t : List Effect) (sig : ℤ) → forks (t ++ killed_all sig ∷ []) ≡ forks t
unfolding forks
forks_kill_all t sig = omega (arith, forks-append t (killed_all sig ∷ []))

-- If the daemon of an element has a process, it was told to finish and is not started again.
abbrev pub QuietAt : Store → Ref → Type 0
QuietAt store r =
    (p : ℕ) (d : Daemon)
    → r ≡ at p
    → store p ≡ some d
    → is_spawned d.state ≡ true
    → (d.state ≡ stopping) × (d.conf.start ≡ no_flags)

-- No daemon with a process is started again when it ends.
abbrev pub Quiet : Store → Type 0
Quiet store = (r : Ref) → QuietAt store r

-- What becomes of the daemons: those with a process keep it, no other gets one, and those that were
-- told to finish stay so.
pub record Winds (s t : System) : Type 0 where
  pub keeps : (r : Ref) → Runs s.store r → Runs t.store r
  pub gains : (r : Ref) → Runs t.store r → Runs s.store r
  pub stays : (r : Ref) → QuietAt s.store r → QuietAt t.store r
  pub forks_same : forks t.trace ≡ forks s.trace

pub Winds-refl : (s : System) → Winds s s
Winds-refl s = record { keeps = λ r h. h; gains = λ r h. h; stays = λ r h. h; forks_same = refl }

pub Winds-trans : (s t u : System) → Winds s t → Winds t u → Winds s u
Winds-trans s t u g h = record {
  keeps = λ r a. h.keeps r (g.keeps r a);
  gains = λ r a. g.gains r (h.gains r a);
  stays = λ r a. h.stays r (g.stays r a);
  forks_same = h.forks_same ∙ g.forks_same;
}

at_address : {p q : ℕ} → at p ≡ at q → p ≡ q
at_address h = cc

-- Two systems that differ at `p` only, where both have a process and the second is quiet.
module _ (s t : System) (p : ℕ) (d e : Daemon) (a : s.store p ≡ some d)
    (w : is_spawned d.state ≡ true) (b : t.store p ≡ some e) (v : is_spawned e.state ≡ true)
    (others : (q : ℕ) → (q == p) ≡ false → t.store q ≡ s.store q)
    (quiet : (e.state ≡ stopping) × (e.conf.start ≡ no_flags)) where
  here :
      (u : System) (x : Daemon)
      → u.store p ≡ some x
      → is_spawned x.state ≡ true
      → (r : Ref) (q : ℕ) → r ≡ at q
      → (q == p) ≡ true
      → Runs u.store r
  here u x c o r q i n = record {
    address_of = p;
    daemon = x;
    is_at = i ∙ ap at (same-== q p n);
    allocated = c;
    spawned = o;
  }

  pub quieted-QuietAt : (r : Ref) (q : ℕ) → r ≡ at q → (q == p) ≡ true → QuietAt t.store r
  quieted-QuietAt r q i n z x j k o =
      let same =
        some_inj (sym b ∙ ap t.store (at_address (ap at (sym (same-== q p n)) ∙ sym i ∙ j)) ∙ k) in
      (ap (λ y. y.state) (sym same) ∙ quiet.0, ap (λ y. y.conf.start) (sym same) ∙ quiet.1)

  pub quieted-Winds : forks t.trace ≡ forks s.trace → Winds s t
  quieted-Winds f = record {
    keeps = λ r h. elim (Bool-cases (h.address_of == p)) [
      | inl n ↦ here t e b v r h.address_of h.is_at n
      | inr n ↦ record {
        address_of = h.address_of;
        daemon = h.daemon;
        is_at = h.is_at;
        allocated = others h.address_of n ∙ h.allocated;
        spawned = h.spawned;
      }
    ];
    gains = λ r h. elim (Bool-cases (h.address_of == p)) [
      | inl n ↦ here s d a w r h.address_of h.is_at n
      | inr n ↦ record {
        address_of = h.address_of;
        daemon = h.daemon;
        is_at = h.is_at;
        allocated = sym (others h.address_of n) ∙ h.allocated;
        spawned = h.spawned;
      }
    ];
    stays = λ r h q x i c o. elim (Bool-cases (q == p)) [
      | inl n ↦ quieted-QuietAt r q i n q x i c o
      | inr n ↦ h q x i (sym (others q n) ∙ c) o
    ];
    forks_same = f;
  }

-- `daemon->conf.start` cleared.
abbrev pub unflagged : Daemon → Daemon
unflagged d = record d { conf = record (d.conf) { start = no_flags } }

pub forks-killed :
    (t : List Effect) (pid : ℕ) (sig : ℤ) → forks (t ++ killed pid sig ∷ []) ≡ forks t
unfolding forks
forks-killed t pid sig = omega (arith, forks-append t (killed pid sig ∷ []))

pub spawned_not_started : (x : DaemonState) → is_spawned x ≡ true → x ≢ started → x ≡ stopping
spawned_not_started started w n = absurd (n refl)
spawned_not_started stopped w n = cc
spawned_not_started stopping w n = refl
