-- ===== src/Configuration/Moving.antt =====
-- A daemon of src/cyberd/configuration.c on its way into and out of the trees.
use cyberd.Base.{
  ℕ, false, Option, none, some, List, ◌==◌, ◌≡◌, refl, ap, ◌∙◌, subst, All, All-Among, Among, inl,
  inr, Bool-cases,
}
use cyberd.Tree.Sequence.{IsSorted}
use cyberd.Daemons.{Daemon, write}
use cyberd.Daemons.Consistent.{Store, write-other}
use cyberd.Daemons.Spawning.{same-==}
use cyberd.Configuration.{Element, stored, name_of, daemons_compare}
use cyberd.Configuration.Held.{IsKnown, IsStored, same_names-IsSorted}

pub stored_inj : {p q : ℕ} → stored p ≡ stored q → p ≡ q
stored_inj h = cc

pub IsKnown-IsStored :
    (store : Store) (names : List (List ℕ)) (r : Element) → IsKnown store names r → IsStored store r
IsKnown-IsStored store names r h = record {
  address_of = h.address_of;
  daemon = h.daemon;
  is_at = h.is_at;
  allocated = h.allocated;
}

pub name_of-stored :
    (store : Store) (p : ℕ) (d : Daemon) → store p ≡ some d → name_of store (stored p) ≡ d.name
unfolding name_of
name_of-stored store p d a = rw a refl

-- A write at an address changes nothing of the elements at others.
module _ (store : Store) (p : ℕ) (d : Option Daemon) where
  pub elsewhere-name_of :
      (r : Element) (h : IsStored store r)
      → (h.address_of == p) ≡ false
      → name_of (write store p d) r ≡ name_of store r
  unfolding name_of
  elsewhere-name_of r h o = rw (h.is_at, o) refl

  pub elsewhere-IsStored :
      (r : Element) (h : IsStored store r)
      → (h.address_of == p) ≡ false
      → IsStored (write store p d) r
  elsewhere-IsStored r h o = record {
    address_of = h.address_of;
    daemon = h.daemon;
    is_at = h.is_at;
    allocated = write-other store p h.address_of d o ∙ h.allocated;
  }

  pub elsewhere-IsKnown :
      (names : List (List ℕ)) (r : Element) (h : IsKnown store names r)
      → (h.address_of == p) ≡ false
      → IsKnown (write store p d) names r
  elsewhere-IsKnown names r h o = record {
    address_of = h.address_of;
    daemon = h.daemon;
    is_at = h.is_at;
    allocated = write-other store p h.address_of d o ∙ h.allocated;
    known = h.known;
  }

  pub elsewhere-IsSorted :
      (xs : List Element)
      → All (λ r. (h : IsStored store r) × ((h.address_of == p) ≡ false)) xs
      → IsSorted (daemons_compare store) xs
      → IsSorted (daemons_compare (write store p d)) xs
  elsewhere-IsSorted xs a =
      same_names-IsSorted store (write store p d) xs
        (λ r m. let (h, o) = All-Among _ r xs a m in elsewhere-name_of r h o)

-- An element is at another address than one that is free, or that is not an element.
pub free_elsewhere :
    (store : Store) (p : ℕ)
    → store p ≡ none
    → (q : ℕ) (d : Daemon) → store q ≡ some d
    → (q == p) ≡ false
free_elsewhere store p f q d a = elim (Bool-cases (q == p)) [
  | inl n ↦ absurd (cc (f, a, ap store (same-== q p n)))
  | inr n ↦ n
]

pub absent_elsewhere :
    (p q : ℕ) (xs : List Element)
    → (Among (stored p) xs → ⊥)
    → Among (stored q) xs
    → (q == p) ≡ false
absent_elsewhere p q xs f m = elim (Bool-cases (q == p)) [
  | inl n ↦ absurd (f (subst (λ k. Among (stored k) xs) (same-== q p n) m))
  | inr n ↦ n
]
