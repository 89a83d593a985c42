-- ===== src/Child/Credentials.antt =====
-- The order of setuid(2) and setgid(2) in src/cyberd/daemon.c.
use cyberd.Base.{ℕ, List, [], ◌∷◌, ◌++◌, Option, none, some, ◌≡◌, ◌≢◌, refl, inl, inr, Option-cases}
use cyberd.DaemonConf.{DaemonConf}
use cyberd.Child.{
  Call, setuid, setgid, Kernel, Run, ◌>>=◌, ◌>>◌, syscall, open_standard, replace_standard,
  reset_inherited, become, daemon_child_setup,
}

-- setgid(2) fails in a process that gave up root's privileges, for a group other than root's.
abbrev pub DropsPrivileges : Kernel → Type 0
DropsPrivileges kernel =
    (h : List Call) (uid gid : ℕ)
    → uid ≢ 0
    → gid ≢ 0
    → kernel (h ++ setuid uid ∷ []) (setgid gid) ≡ none

-- The part of the code does not get to its end.
abbrev Leaves : {A : Type 0} → Run A → Type 0
Leaves m = (h : List Call) → (m h).0 ≡ none

>>=-Leaves :
    {A B : Type 0} (m : Run A) (f : A → Run B) → ((a : A) → Leaves (f a)) → Leaves (m >>= f)
>>=-Leaves {A = A} {B = B} m f g h = go (m h)
  where
    go :
        (r : Option A × List Call)
        → (elim r.0 as (λ _. Option B × List Call) [ none ↦ (none, r.1) | some x ↦ f x r.1 ]).0
          ≡ none
    go (none, k) = refl
    go (some a, k) = g a k

become-Leaves :
    (kernel : Kernel) (name : List ℕ) (conf : DaemonConf)
    → DropsPrivileges kernel
    → conf.uid ≢ 0
    → conf.gid ≢ 0
    → Leaves (become kernel name conf)
unfolding become syscall
become-Leaves kernel name conf d u g h = elim (Option-cases (kernel h (setuid conf.uid))) [
  | inl e ↦ rw e refl
  | inr (a, e) ↦ rw (e, d h conf.uid conf.gid u g) refl
]

-- A daemon whose user and group are both other than root is never executed: its process leaves after
-- the failure of a call, provided that setgid(2) fails once setuid(2) gave up root's privileges.
pub daemon_child_setup_never_executes :
    (kernel : Kernel) (dev_null default_workdir name : List ℕ) (conf : DaemonConf) (h : List Call)
    → DropsPrivileges kernel
    → conf.uid ≢ 0
    → conf.gid ≢ 0
    → (daemon_child_setup kernel dev_null default_workdir name conf h).0 ≡ none
unfolding daemon_child_setup
daemon_child_setup_never_executes kernel dev_null default_workdir name conf h d u g =
    let last = become kernel name conf in
    let reset = reset_inherited kernel default_workdir conf in
    >>=-Leaves (open_standard kernel dev_null conf)
      (λ fds. replace_standard kernel fds >> (reset >> last))
      (λ fds.
        >>=-Leaves (replace_standard kernel fds) (λ _. reset >> last)
          (λ _. >>=-Leaves reset (λ _. last) (λ _. become-Leaves kernel name conf d u g)))
      h
