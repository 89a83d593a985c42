-- ===== src/Child/Reaching.antt =====
-- How a part of daemon_child_setup in src/cyberd/daemon.c changes the process that runs it.
use cyberd.Base.{
  ℕ, ◌≤◌, ◌≡◌, inl, inr, refl, sym, ◌∙◌, subst, List, [], ◌∷◌, ◌++◌, Option, none, some, All,
  Option-cases,
}
use cyberd.Child.{
  Call, open_read, open_write, dup2, set_umask, chdir, empty_sigprocmask, setuid, setgid, setsid,
  setpriority, execve, Kernel, Run, ◌>>=◌, syscall, umask_call,
}
use cyberd.Child.Process.{
  Process, succeed, perform, replay, replay-append, IsOpen, IsPreparation, OpensFree,
}

All-append_one :
    (h : List Call) (c : Call)
    → All IsPreparation h
    → IsPreparation c
    → All IsPreparation (h ++ c ∷ [])
All-append_one [] c a p = (p, tt)
All-append_one (d ∷ h) c (b, a) p = (b, All-append_one h c a p)

perform-some :
    (c : Call) (v : ℕ) (a : Option ℕ) (p : Process)
    → IsPreparation c
    → a ≡ some v
    → perform c a p ≡ succeed c v p
unfolding perform succeed
perform-some (open_read path) v a p i e = rw e refl
perform-some (open_write path) v a p i e = rw e refl
perform-some (dup2 from to) v a p i e = rw e refl
perform-some (set_umask mask) v a p i e = refl
perform-some (chdir path) v a p i e = rw e refl
perform-some empty_sigprocmask v a p i e = rw e refl
perform-some (setuid uid) v a p i e = rw e refl
perform-some (setgid gid) v a p i e = rw e refl
perform-some setsid v a p i e = rw e refl
perform-some (setpriority priority) v a p i e = rw e refl
perform-some (execve path arguments environment) v a p i e = absurd i

-- The last call failed, and none executed a program.
abbrev pub Failed : Kernel → List Call → Type 0
Failed kernel h =
    (before : List Call) × (c : Call) × (h ≡ before ++ c ∷ [])
    × (kernel before c ≡ none)
    × All IsPreparation h

module _ (kernel : Kernel) (start : Process) where
  abbrev pub now : List Call → Process
  now h = replay kernel [] h start

  -- Before the program is executed: the code left, or the process is one that the predicate describes.
  abbrev pub Reaches : {A : Type 0} → (A → Process → Type 0) → Option A × List Call → Type 0
  Reaches Q (none, h) = Failed kernel h
  Reaches Q (some a, h) = All IsPreparation h × Q a (now h)

  -- A part of the code from such processes on.
  abbrev pub Goes :
      {A : Type 0} → Run A → (Process → Type 0) → (Option A × List Call → Type 0) → Type 0
  Goes m P R = (h : List Call) → All IsPreparation h → P (now h) → R (m h)

  pub >>=-Goes :
      {A B : Type 0} (m : Run A) (f : A → Run B) (P : Process → Type 0) (Q : A → Process → Type 0)
      (R : Option B × List Call → Type 0)
      → ((h : List Call) → Failed kernel h → R (none, h))
      → Goes m P (Reaches Q)
      → ((a : A) → Goes (f a) (Q a) R)
      → Goes (m >>= f) P R
  >>=-Goes {A = A} {B = B} m f P Q R left g k h a p = go (m h) (g h a p)
    where
      go :
          (r : Option A × List Call)
          → Reaches Q r
          → R (elim r.0 as (λ _. Option B × List Call) [ none ↦ (none, r.1) | some x ↦ f x r.1 ])
      go (none, h') b = left h' b
      go (some x, h') (b, q) = k x h' b q

  module _ (free : OpensFree kernel start) where
    pub syscall-Goes :
        (c : Call) (P : Process → Type 0) (Q : ℕ → Process → Type 0)
        → IsPreparation c
        → ((p : Process) (v : ℕ)
            → (IsOpen c → (3 ≤ v) × (p.files v ≡ none))
            → P p
            → Q v (succeed c v p))
        → Goes (syscall kernel c) P (Reaches Q)
    unfolding syscall
    syscall-Goes c P Q i f h a p = elim (Option-cases (kernel h c)) [
      | inl e ↦ rw e (h, c, refl, e, All-append_one h c a i)
      | inr (v, e) ↦ rw e (
        All-append_one h c a i,
        subst (Q v)
            (sym (replay-append kernel [] h c start ∙ perform-some c v (kernel h c) (now h) i e))
            (f (now h) v (λ o. free h c v o e) p),
      )
    ]

    pub umask_call-Goes :
        (mask : ℕ) (P : Process → Type 0) (Q : Process → Type 0)
        → ((p : Process) → P p → Q (record p { mask = mask }))
        → Goes (umask_call mask) P (Reaches (λ _. Q))
    unfolding perform succeed
    umask_call-Goes mask P Q f h a p = (
      All-append_one h (set_umask mask) a tt,
      subst Q (sym (replay-append kernel [] h (set_umask mask) start)) (f (now h) p),
    )

    -- A call, and what follows it.
    pub call-Goes :
        {B : Type 0} (c : Call) (f : ℕ → Run B) (P : Process → Type 0) (Q : ℕ → Process → Type 0)
        (R : Option B × List Call → Type 0)
        → ((h : List Call) → Failed kernel h → R (none, h))
        → IsPreparation c
        → ((p : Process) (v : ℕ)
            → (IsOpen c → (3 ≤ v) × (p.files v ≡ none))
            → P p
            → Q v (succeed c v p))
        → ((v : ℕ) → Goes (f v) (Q v) R)
        → Goes (syscall kernel c >>= f) P R
    call-Goes c f P Q R left i g k =
        >>=-Goes (syscall kernel c) f P Q R left (syscall-Goes c P Q i g) k
