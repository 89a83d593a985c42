-- ===== src/Configuration/Names.antt =====
-- The order of daemons by name, daemons_compare of src/cyberd/configuration.c.
use cyberd.Base.{ℕ, lt, eq, gt, Option, List, [], ◌∷◌, ◌≡◌, refl, arith, ap, ◌∙◌, strcmp}
use cyberd.Tree.Sequence.{IsLawful}
use cyberd.Daemons.{Daemon}
use cyberd.Configuration.{name_of, daemons_compare}

pub strcmp_refl : (s : List ℕ) → strcmp s s ≡ eq
unfolding strcmp
strcmp_refl [] = refl
strcmp_refl (c ∷ s) = ground (arith, strcmp_refl s)

pub strcmp-eq : (s t : List ℕ) → strcmp s t ≡ eq → s ≡ t
unfolding strcmp
strcmp-eq [] [] h = refl
strcmp-eq [] (d ∷ t) h = absurd cc
strcmp-eq (c ∷ s) [] h = absurd cc
strcmp-eq (c ∷ s) (d ∷ t) h = ground (arith, strcmp-eq s t)

strcmp-lt : (s t : List ℕ) → strcmp s t ≡ lt → strcmp t s ≡ gt
unfolding strcmp
strcmp-lt [] [] h = absurd cc
strcmp-lt [] (d ∷ t) h = refl
strcmp-lt (c ∷ s) [] h = absurd cc
strcmp-lt (c ∷ s) (d ∷ t) h = ground (arith, strcmp-lt s t)

strcmp-gt : (s t : List ℕ) → strcmp s t ≡ gt → strcmp t s ≡ lt
unfolding strcmp
strcmp-gt [] [] h = absurd cc
strcmp-gt [] (d ∷ t) h = absurd cc
strcmp-gt (c ∷ s) [] h = refl
strcmp-gt (c ∷ s) (d ∷ t) h = ground (arith, strcmp-gt s t)

strcmp_trans : (s t u : List ℕ) → strcmp s t ≡ lt → strcmp t u ≡ lt → strcmp s u ≡ lt
unfolding strcmp
strcmp_trans [] [] u h k = k
strcmp_trans [] (d ∷ t) [] h k = absurd cc
strcmp_trans [] (d ∷ t) (e ∷ u) h k = refl
strcmp_trans (c ∷ s) [] u h k = absurd cc
strcmp_trans (c ∷ s) (d ∷ t) [] h k = absurd cc
strcmp_trans (c ∷ s) (d ∷ t) (e ∷ u) h k = ground (arith, strcmp_trans s t u)

pub daemons_compare-IsLawful : (store : ℕ → Option Daemon) → IsLawful (daemons_compare store)
unfolding daemons_compare
daemons_compare-IsLawful store = record {
  cmp_refl = λ a. strcmp_refl (name_of store a);
  gt_of_lt = λ a b. strcmp-lt (name_of store a) (name_of store b);
  lt_of_gt = λ a b. strcmp-gt (name_of store a) (name_of store b);
  lt_trans = λ a b c. strcmp_trans (name_of store a) (name_of store b) (name_of store c);
  gt_of_eq = λ a b c h k. ap (λ n. strcmp n (name_of store c)) (strcmp-eq _ _ h) ∙ k;
  lt_of_eq = λ a b c h k. ap (λ n. strcmp n (name_of store c)) (strcmp-eq _ _ h) ∙ k;
}
