-- ===== src/Main/Rc.antt =====
-- rc of src/cyberd/main.c: a daemon on the stack, in a system without any other.
use cyberd.Base.{
  ℕ, Bool, true, false, Option, none, some, List, [], ◌∷◌, ◌==◌, ◌≡◌, ◌≢◌, refl, sym, ap, ◌∙◌,
  subst, inl, inr, All, Option-cases, Bool-cases, some_inj, Returns, returns, Returns->>=,
  Returns-imp,
}
use cyberd.Tree.{Node, null, node}
use cyberd.Tree.Sequence.{lookup}
use cyberd.DaemonConf.{no_flags, daemon_conf_init}
use cyberd.Daemons.{
  Daemon, Ref, System, SigInfo, cld_other, stopped, write, put, emit, forked, restarts,
  spawns_empty, reap_child, reap_children,
}
use cyberd.Daemons.Consistent.{
  ==-refl, Store, is_spawned, IsConsistent, write-same, write-other, write-IsApart,
}
use cyberd.Daemons.Spawning.{Consistent, same-==, idle-IsApart, settle-IsConsistent}
use cyberd.Daemons.Recording.{spawns_record-Recorded}
use cyberd.Daemons.Reaping.{ReapFresh, Reaps, orphan, ended, restarted, reap_child-Reaps}
use cyberd.Daemons.Teardown.{Ends, restarts-no_flags}
use cyberd.Main.{RunCommands, rc_daemon, rc_loop, rc}

-- The only daemon is the one at `p`, and it has no flag that starts it.
abbrev IsAlone : ℕ → Store → Type 0
IsAlone p store = (q : ℕ) (d : Daemon) → store q ≡ some d → (q ≡ p) × (d.conf.start ≡ no_flags)

abbrev Alone : ℕ → System → Type 0
Alone p s = Consistent s × IsAlone p s.store

-- No daemon is there.
abbrev pub Vacant : System → Type 0
Vacant s = Consistent s × ((q : ℕ) → s.store q ≡ none)

module _ (p : ℕ) where
  alone-ReapFresh :
      (store : Store) (info : SigInfo) (fork : Option ℕ)
      → IsAlone p store
      → ReapFresh store info fork
  alone-ReapFresh store info none g = tt
  alone-ReapFresh store info (some pid) g = λ q d a w i again.
      absurd (restarts-no_flags info (sym (ap (λ f. restarts f info) (g q d a).1) ∙ again))

  -- A daemon that is written with the same flags leaves it alone.
  written-IsAlone :
      (s t : Store) (q : ℕ) (d e : Daemon)
      → IsAlone p s
      → s q ≡ some d
      → t q ≡ some e
      → e.conf ≡ d.conf
      → ((n : ℕ) → (n == q) ≡ false → t n ≡ s n)
      → IsAlone p t
  written-IsAlone s t q d e g a b same others n x i = elim (Bool-cases (n == q)) [
    | inl h ↦
        let there = same-== n q h in
        let own = some_inj (sym b ∙ ap t (sym there) ∙ i) in
        let (place, quiet) = g q d a in
        (there ∙ place, ap (λ y. y.conf.start) (sym own) ∙ ap (λ c. c.start) same ∙ quiet)
    | inr h ↦ g n x (sym (others n h) ∙ i)
  ]

  reap-Alone :
      (s : System) (info : SigInfo) (fork : Option ℕ)
      → Alone p s
      → info.si_code ≢ cld_other
      → Returns (Alone p) (reap_child s info fork)
  reap-Alone s info fork g n =
      Returns-imp (reap_child-Reaps s info fork g.0 n (alone-ReapFresh s.store info fork g.1))
        λ t r. (r.0, reaped t r.1)
    where
      reaped : (t : System) → Reaps s info fork t → IsAlone p t.store
      reaped t (orphan _ q _) = subst (IsAlone p) (sym q) (g.1)
      reaped t (ended q d a _ _ _ l) =
          written-IsAlone s.store t.store q d (record d { state = stopped }) g.1 a l.1 refl l.2
      reaped t (restarted q d pid a _ _ again _ l) =
          absurd (restarts-no_flags info (sym (ap (λ f. restarts f info) (g.1 q d a).1) ∙ again))

  reap_children-Alone :
      (rs : List (SigInfo × Option ℕ)) (s : System)
      → Alone p s
      → Ends rs
      → Returns (Alone p) (reap_children s rs)
  unfolding reap_children
  reap_children-Alone [] s g e = returns s refl g
  reap_children-Alone ((info, fork) ∷ rs) s g e =
      Returns->>= (reap-Alone s info fork g e.0) λ t _ h. reap_children-Alone rs t h e.1

  -- What the loop of rc leaves, by whether it ended.
  abbrev Waited : System × Bool → Type 0
  Waited r = Alone p r.0 × (r.1 ≡ true → spawns_empty r.0 ≡ true)

  rc_loop-Waited :
      (wakes : List (List (SigInfo × Option ℕ))) (s : System)
      → Alone p s
      → All Ends wakes
      → Returns Waited (rc_loop s wakes)
  unfolding rc_loop
  rc_loop-Waited [] s g e = returns (s, false) refl (g, λ h. absurd (cc h))
  rc_loop-Waited (rs ∷ wakes) s g e = Returns->>= (reap_children-Alone rs s g e.0) λ t _ h.
      elim (Bool-cases (spawns_empty t)) [
        | inl b ↦ rw (b, rc_loop) (returns (t, true) refl (h, λ _. b))
        | inr b ↦ rw (b, rc_loop) (rc_loop-Waited wakes t h e.1)
      ]

  empty-idle :
      (store : Store) (root : Node Ref) (d : Daemon)
      → IsConsistent store root
      → (elim root as (λ _. Bool) [ null ↦ true | _ ↦ false ]) ≡ true
      → store p ≡ some d
      → is_spawned d.state ≡ false
  unfolding lookup
  empty-idle store null d c b a = elim (Bool-cases (is_spawned d.state)) [
    | inl w ↦ absurd (cc (c.recorded p d a w))
    | inr w ↦ w
  ]
  empty-idle store (node x l r h) d c b a = absurd (cc b)

  -- The stack is free again.
  freed-Vacant :
      (s : System)
      → Alone p s
      → spawns_empty s ≡ true
      → Vacant (record s { store = write s.store p none })
  unfolding spawns_empty
  freed-Vacant s g b = (
    settle-IsConsistent s.store p none s.spawns
        (idle-IsApart s.store p (λ d a. empty-idle s.store s.spawns d g.0 b a) s.spawns g.0)
        (λ e q. absurd (cc q)),
    λ q. elim (Bool-cases (q == p)) [
      | inl h ↦ let same = same-== q p h in rw same (write-same s.store p none)
      | inr h ↦ elim (Option-cases (s.store q)) [
        | inl n ↦ write-other s.store p q none h ∙ n
        | inr (d, a) ↦ absurd (cc (h, ap (λ n. n == p) (g.1 q d a).0, ==-refl p))
      ]
    ],
  )

recorded-IsAlone :
    (s : System) (p pid : ℕ) → Vacant s → IsAlone p (write s.store p (some (rc_daemon pid)))
unfolding daemon_conf_init
recorded-IsAlone s p pid v q d a = elim (Bool-cases (q == p)) [
  | inl h ↦
      let here : write s.store p (some (rc_daemon pid)) q ≡ some (rc_daemon pid) = rw h refl in
      (same-== q p h, ap (λ y. y.conf.start) (some_inj (sym a ∙ here)))
  | inr h ↦ absurd (cc (sym (write-other s.store p q (some (rc_daemon pid)) h) ∙ a, v.1 q))
]

-- A system without daemons again, if rc returns.
abbrev pub Returned : Option System → Type 0
Returned none = Unit
Returned (some t) = Vacant t

pub rc-Returned :
    (s : System) (r : RunCommands) (fork : Option ℕ)
    → Vacant s
    → All Ends r.wakes
    → Returns Returned (rc s r fork)
unfolding rc
rc-Returned s r none v e = returns (some s) refl v
rc-Returned s r (some pid) v e =
    let p = r.place in
    let d = rc_daemon pid in
    let apart = idle-IsApart s.store p (λ x a. absurd (cc (v.1 p, a))) s.spawns v.0 in
    Returns->>=
      (spawns_record-Recorded (emit (put s p d) (forked p pid)) p d
        (write-IsApart s.store p (some d) s.spawns apart) (write-same s.store p (some d)) refl
        (λ q x o b w n. absurd (cc (sym (write-other s.store p q (some d) o) ∙ b, v.1 q))))
      λ t _ g.
        Returns->>=
          (rc_loop-Waited p r.wakes t
            (g.2, subst (IsAlone p) (sym g.0) (recorded-IsAlone s p pid v)) e)
          λ u _ w. elim (Bool-cases u.1) [
            | inl b ↦ returns _ refl (rw b (freed-Vacant p u.0 w.0 (w.1 b)))
            | inr b ↦ returns _ refl (rw b tt)
          ]
