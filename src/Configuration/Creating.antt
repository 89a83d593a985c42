-- ===== src/Configuration/Creating.antt =====
-- A new daemon in the storage of src/cyberd/configuration.c, before it is inserted.
use cyberd.Base.{
  ℕ, none, some, List, ◌==◌, ◌≡◌, refl, sym, ap, ◌∙◌, subst, All, All-imp, All-Among, Among, inl,
  inr, some_inj, Bool-cases,
}
use cyberd.Tree.Sequence.{to_list}
use cyberd.DaemonConf.Values.{Host}
use cyberd.DaemonConf.Files.Written.{Configured}
use cyberd.Daemons.{Daemon, write, put}
use cyberd.Daemons.Consistent.{write-other}
use cyberd.Daemons.Spawning.{Consistent, same-==}
use cyberd.Configuration.{Element, stored, Config}
use cyberd.Configuration.Held.{IsStored, Held}
use cyberd.Configuration.Moving.{
  stored_inj, IsKnown-IsStored, free_elsewhere, elsewhere-IsKnown, elsewhere-IsStored,
  elsewhere-IsSorted,
}

-- A new daemon at a free address, with an accepted configuration.
module _ (host : Host) (names : List (List ℕ)) (others : List Element) (c : Config) (p : ℕ)
    (d : Daemon) (h : Held host names others none c) (free : c.system.store p ≡ none)
    (accepted : Configured host d.conf) (consistent : Consistent (put c.system p d)) where
  pub create-Held : Held host names others (some p) (record c { system = put c.system p d })
  create-Held =
      let fresh = free_elsewhere c.system.store p free in
      let absent : (xs : List Element)
          → All (IsStored c.system.store) xs
          → Among (stored p) xs
          → ⊥ =
        λ xs a m.
          let i = All-Among (IsStored c.system.store) (stored p) xs a m in
          absurd (cc (free, i.allocated, ap c.system.store (stored_inj i.is_at))) in
      let elements =
        All-imp _ _ (IsKnown-IsStored c.system.store names) (to_list c.daemons) h.elements in
      record {
        consistent = consistent;
        configured = λ q e a. elim (Bool-cases (q == p)) [
          | inl n ↦
              let here : write c.system.store p (some d) q ≡ some d = rw n refl in
              subst (λ x. Configured host x.conf) (some_inj (sym here ∙ a)) accepted
          | inr n ↦ h.configured q e (sym (write-other c.system.store p q (some d) n) ∙ a)
        ];
        balanced = h.balanced;
        sorted =
            elsewhere-IsSorted c.system.store p (some d) (to_list c.daemons)
              (All-imp (IsStored c.system.store) _
                (λ r i. (i, fresh i.address_of i.daemon i.allocated)) _ elements)
              h.sorted;
        elements =
            All-imp _ _
              (λ r i.
                elsewhere-IsKnown c.system.store p (some d) names r i
                  (fresh i.address_of i.daemon i.allocated))
              (to_list c.daemons) h.elements;
        waiting =
            All-imp _ _
              (λ r i.
                elsewhere-IsStored c.system.store p (some d) r i
                  (fresh i.address_of i.daemon i.allocated))
              others h.waiting;
        covered = λ q e a. elim (Bool-cases (q == p)) [
          | inl n ↦ inr (inr (ap some (sym (same-== q p n))))
          | inr n ↦ elim (h.covered q e (sym (write-other c.system.store p q (some d) n) ∙ a)) [
            | inl m ↦ inl m
            | inr (inl m) ↦ inr (inl m)
            | inr (inr m) ↦ absurd (cc m)
          ]
        ];
        apart = h.apart;
        hand_apart = λ q i.
            let same : q ≡ p = sym (some_inj i) in
            (
              λ m.
                  absent (to_list c.daemons) elements
                    (subst (λ k. Among (stored k) (to_list c.daemons)) same m),
              λ m. absent others h.waiting (subst (λ k. Among (stored k) others) same m),
            );
      }
