-- ===== src/Daemons/Pids.antt =====
-- The order of spawns, by the pids in the store (src/cyberd/spawns.c).
use cyberd.Base.{ℕ, ◌<◌, lt, eq, Option, none, some, List, [], ◌∷◌, ◌≡◌, refl, ◌≢◌, arith, All}
use cyberd.Tree.Sequence.{IsLawful, IsSorted, insert_sorted, lookup, erase}
use cyberd.Daemons.{Daemon, Ref, pid_of, spawns_compare}

module _ (store : ℕ → Option Daemon) where
  pub spawns_compare-IsLawful : IsLawful (spawns_compare store)
  unfolding spawns_compare
  spawns_compare-IsLawful = record {
    cmp_refl = λ a. ground arith;
    gt_of_lt = λ a b. ground arith;
    lt_of_gt = λ a b. ground arith;
    lt_trans = λ a b c. ground arith;
    gt_of_eq = λ a b c. ground arith;
    lt_of_eq = λ a b c. ground arith;
  }

  pub spawns_compare-lt :
      (a b : Ref) → spawns_compare store a b ≡ lt → pid_of store a < pid_of store b
  unfolding spawns_compare
  spawns_compare-lt a b h = ground arith

  pub spawns_compare-eq :
      (a b : Ref) → pid_of store a ≡ pid_of store b → spawns_compare store a b ≡ eq
  unfolding spawns_compare
  spawns_compare-eq a b h = ground arith

  pub spawns_compare-distinct :
      (a b : Ref) → pid_of store a ≢ pid_of store b → spawns_compare store a b ≢ eq
  unfolding spawns_compare
  spawns_compare-distinct a b h q = ground arith

  -- The elements with the pid of `k`.
  pub lookup_fresh :
      (k : Ref) (xs : List Ref)
      → All (λ r. pid_of store r ≢ pid_of store k) xs
      → lookup (spawns_compare store) k xs ≡ none
  unfolding lookup spawns_compare
  lookup_fresh k [] h = refl
  lookup_fresh k (x ∷ xs) h = ground (arith, lookup_fresh k xs h.1, h.0)

  pub lookup_same :
      (j k : Ref) (xs : List Ref)
      → pid_of store j ≡ pid_of store k
      → lookup (spawns_compare store) j xs ≡ lookup (spawns_compare store) k xs
  unfolding lookup spawns_compare
  lookup_same j k [] h = refl
  lookup_same j k (x ∷ xs) h = ground (arith, lookup_same j k xs h)

  pub lookup-insert_sorted :
      (k : Ref) (xs : List Ref)
      → lookup (spawns_compare store) k xs ≡ none
      → lookup (spawns_compare store) k (insert_sorted (spawns_compare store) k xs) ≡ some k
  unfolding lookup insert_sorted spawns_compare
  lookup-insert_sorted k [] h = ground arith
  lookup-insert_sorted k (x ∷ xs) h = ground (arith, lookup-insert_sorted k xs)

  pub lookup-insert_sorted_other :
      (k e : Ref) (xs : List Ref)
      → pid_of store k ≢ pid_of store e
      → lookup (spawns_compare store) k (insert_sorted (spawns_compare store) e xs)
        ≡ lookup (spawns_compare store) k xs
  unfolding lookup insert_sorted spawns_compare
  lookup-insert_sorted_other k e [] h = ground arith
  lookup-insert_sorted_other k e (x ∷ xs) h = ground (arith, lookup-insert_sorted_other k e xs h)

  pub lookup-erase_other :
      (k e : Ref) (xs : List Ref)
      → pid_of store k ≢ pid_of store e
      → lookup (spawns_compare store) k (erase (spawns_compare store) e xs)
        ≡ lookup (spawns_compare store) k xs
  unfolding lookup erase spawns_compare
  lookup-erase_other k e [] h = refl
  lookup-erase_other k e (x ∷ xs) h = ground (arith, lookup-erase_other k e xs h)

  above_distinct :
      (e x : Ref) (xs : List Ref)
      → pid_of store e ≡ pid_of store x
      → All (λ y. spawns_compare store x y ≡ lt) xs
      → All (λ y. pid_of store y ≢ pid_of store e) xs
  above_distinct e x [] q h = tt
  above_distinct e x (y ∷ xs) q h =
      let below = spawns_compare-lt x y h.0 in
      (λ p. omega (arith, below, q, p), above_distinct e x xs q h.1)

  -- No element that is left has the pid that was removed.
  pub erase-distinct :
      (e : Ref) (xs : List Ref)
      → IsSorted (spawns_compare store) xs
      → All (λ r. pid_of store r ≢ pid_of store e) (erase (spawns_compare store) e xs)
  unfolding erase spawns_compare
  erase-distinct e [] s = tt
  erase-distinct e (x ∷ xs) s = ground (arith, erase-distinct e xs s.1, above_distinct e x xs)

  pub erase_absent :
      (e : Ref) (xs : List Ref)
      → lookup (spawns_compare store) e xs ≡ none
      → erase (spawns_compare store) e xs ≡ xs
  unfolding erase lookup spawns_compare
  erase_absent e [] h = refl
  erase_absent e (x ∷ xs) h = ground (arith, erase_absent e xs)

  pub lookup_pid :
      (k r : Ref) (xs : List Ref)
      → lookup (spawns_compare store) k xs ≡ some r
      → pid_of store r ≡ pid_of store k
  unfolding lookup spawns_compare
  lookup_pid k r [] h = absurd cc
  lookup_pid k r (x ∷ xs) h = ground (arith, lookup_pid k r xs)

  pub lookup_All {κ} :
      (P : Ref → Type κ) (k r : Ref) (xs : List Ref)
      → lookup (spawns_compare store) k xs ≡ some r
      → All P xs
      → P r
  unfolding lookup spawns_compare
  lookup_All P k r [] h a = absurd cc
  lookup_All P k r (x ∷ xs) h a = ground (arith, lookup_All P k r xs)

-- A store that agrees on the pids of the elements gives the same order.
module _ (store store' : ℕ → Option Daemon) where
  abbrev pub Agrees : List Ref → Type 0
  Agrees xs = All (λ r. pid_of store' r ≡ pid_of store r) xs

  agree_above :
      (x : Ref) (xs : List Ref)
      → pid_of store' x ≡ pid_of store x
      → Agrees xs
      → All (λ y. spawns_compare store x y ≡ lt) xs
      → All (λ y. spawns_compare store' x y ≡ lt) xs
  unfolding spawns_compare
  agree_above x [] q a h = tt
  agree_above x (y ∷ xs) q a h = (rw (q, a.0) (h.0), agree_above x xs q a.1 h.1)

  pub agree-IsSorted :
      (xs : List Ref)
      → Agrees xs
      → IsSorted (spawns_compare store) xs
      → IsSorted (spawns_compare store') xs
  agree-IsSorted [] a s = tt
  agree-IsSorted (x ∷ xs) a s = (agree_above x xs a.0 a.1 s.0, agree-IsSorted xs a.1 s.1)

  pub agree-lookup :
      (k : Ref) (xs : List Ref)
      → pid_of store' k ≡ pid_of store k
      → Agrees xs
      → lookup (spawns_compare store') k xs ≡ lookup (spawns_compare store) k xs
  unfolding lookup spawns_compare
  agree-lookup k [] q a = refl
  agree-lookup k (x ∷ xs) q a = ground (arith, agree-lookup k xs q a.1, q, a.0)
