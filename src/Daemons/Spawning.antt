-- ===== src/Daemons/Spawning.antt =====
-- Writes of a daemon that has no process, on the invariant of spawns (src/cyberd/spawns.c).
use cyberd.Base.{
  ℕ, true, false, Option, some, ◌==◌, ◌≡◌, sym, ap, ◌∙◌, arith, inl, inr, All-imp, Bool-cases,
}
use cyberd.Tree.{Node}
use cyberd.Tree.Balance.{IsAvl}
use cyberd.Tree.Valid.{IsValid}
use cyberd.Tree.Sequence.{IsSorted, to_list}
use cyberd.Daemons.{Daemon, Ref, at, System, spawns_tree, write, spawns_compare}
use cyberd.Daemons.Pids.{spawns_compare-IsLawful}
use cyberd.Daemons.Consistent.{
  is_spawned, Store, RunsApart, IsApart, Runs, IsConsistent, write-same, write-IsApart,
}

abbrev pub Consistent : System → Type 0
Consistent s = IsConsistent s.store s.spawns

pub spawns_tree-IsValid :
    (s : System)
    → IsAvl s.spawns
    → IsSorted (spawns_compare s.store) (to_list s.spawns)
    → IsValid (spawns_tree s)
spawns_tree-IsValid s b o = record {
  lawful = spawns_compare-IsLawful s.store;
  balanced = b;
  sorted = o;
}

pub same-== : (q p : ℕ) → (q == p) ≡ true → q ≡ p
same-== q p h = ground arith

pub at_inj : {p q : ℕ} → at p ≡ at q → p ≡ q
at_inj h = cc

-- A daemon that is not spawned is not in the tree.
module _ (store : Store) (p : ℕ)
    (idle : (d : Daemon) → store p ≡ some d → is_spawned d.state ≡ false) where
  idle-apart : (r : Ref) → Runs store r → RunsApart store p r
  idle-apart r h = record {
    address_of = h.address_of;
    daemon = h.daemon;
    is_at = h.is_at;
    allocated = h.allocated;
    spawned = h.spawned;
    apart = elim (Bool-cases (h.address_of == p)) [
      | inl e ↦
          absurd (
            cc (h.spawned, idle h.daemon (sym (ap store (same-== h.address_of p e)) ∙ h.allocated)))
      | inr e ↦ e
    ];
  }

  pub idle-IsApart : (root : Node Ref) → IsConsistent store root → IsApart store p root
  idle-IsApart root c = record {
    balanced = c.balanced;
    sorted = c.sorted;
    running = All-imp _ _ idle-apart (to_list root) c.running;
    recorded = λ q d _ s r. c.recorded q d s r;
  }

  pub idle-IsConsistent : (root : Node Ref) → IsApart store p root → IsConsistent store root
  idle-IsConsistent root c = record {
    balanced = c.balanced;
    sorted = c.sorted;
    running =
        All-imp (RunsApart store p) (Runs store)
          (λ r h. record {
            address_of = h.address_of;
            daemon = h.daemon;
            is_at = h.is_at;
            allocated = h.allocated;
            spawned = h.spawned;
          })
          (to_list root) c.running;
    recorded = λ q d s r. elim (Bool-cases (q == p)) [
      | inl e ↦ absurd (cc (r, idle d (sym (ap store (same-== q p e)) ∙ s)))
      | inr e ↦ c.recorded q d e s r
    ];
  }

-- A daemon left out of the tree may be written or freed, if it is not spawned then.
pub settle-IsConsistent :
    (store : Store) (p : ℕ) (d : Option Daemon) (root : Node Ref)
    → IsApart store p root
    → ((e : Daemon) → d ≡ some e → is_spawned e.state ≡ false)
    → IsConsistent (write store p d) root
settle-IsConsistent store p d root c h =
    idle-IsConsistent (write store p d) p (λ e q. h e (sym (write-same store p d) ∙ q)) root
      (write-IsApart store p d root c)
