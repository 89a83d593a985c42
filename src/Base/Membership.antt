-- ===== src/Base/Membership.antt =====
-- Which items a list has, and where it has no item twice.
use mathlib.Core.Path.{◌≡◌, refl, sym, subst}
use mathlib.Core.Logic.{◌⊎◌, inl, inr}
use mathlib.Core.List.{List, [], ◌∷◌, ◌++◌}
use cyberd.Base.Lists.{All}

module _ {A : Type 0} where
  abbrev pub Among : A → List A → Type 0
  Among x [] = ⊥
  Among x (y ∷ ys) = (x ≡ y) ⊎ Among x ys

  pub Among-left : (x : A) (xs ys : List A) → Among x xs → Among x (xs ++ ys)
  Among-left x [] ys m = absurd m
  Among-left x (z ∷ xs) ys (inl e) = inl e
  Among-left x (z ∷ xs) ys (inr m) = inr (Among-left x xs ys m)

  pub Among-right : (x : A) (xs ys : List A) → Among x ys → Among x (xs ++ ys)
  Among-right x [] ys m = m
  Among-right x (z ∷ xs) ys m = inr (Among-right x xs ys m)

  pub Among-split : (x : A) (xs ys : List A) → Among x (xs ++ ys) → Among x xs ⊎ Among x ys
  Among-split x [] ys m = inr m
  Among-split x (z ∷ xs) ys (inl e) = inl (inl e)
  Among-split x (z ∷ xs) ys (inr m) = elim (Among-split x xs ys m) [
    | inl a ↦ inl (inr a)
    | inr b ↦ inr b
  ]

  pub All-Among {κ} : (P : A → Type κ) (x : A) (xs : List A) → All P xs → Among x xs → P x
  All-Among P x [] h m = absurd m
  All-Among P x (y ∷ ys) h (inl e) = subst P (sym e) (h.0)
  All-Among P x (y ∷ ys) h (inr m) = All-Among P x ys h.1 m

  pub Among-All {κ} : (P : A → Type κ) (xs : List A) → ((x : A) → Among x xs → P x) → All P xs
  Among-All P [] f = tt
  Among-All P (y ∷ ys) f = (f y (inl refl), Among-All P ys (λ x m. f x (inr m)))

  -- No item twice.
  abbrev pub Distinct : List A → Type 0
  Distinct [] = Unit
  Distinct (x ∷ xs) = (Among x xs → ⊥) × Distinct xs

  pub Distinct-append :
      (xs ys : List A)
      → Distinct xs
      → Distinct ys
      → ((x : A) → Among x xs → Among x ys → ⊥)
      → Distinct (xs ++ ys)
  Distinct-append [] ys a b f = b
  Distinct-append (x ∷ xs) ys a b f = (
    λ m. elim (Among-split x xs ys m) [ inl h ↦ a.0 h | inr h ↦ f x (inl refl) h ],
    Distinct-append xs ys a.1 b (λ y m. f y (inr m)),
  )
