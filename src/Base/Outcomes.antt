-- ===== src/Base/Outcomes.antt =====
-- The result of code that can stop the process or run into undefined behaviour.
use mathlib.Core.Path.{◌≡◌, refl, sym, subst, ◌∙◌}
use mathlib.Core.Logic.{◌⊎◌, inl, inr}
use mathlib.Core.Bool.{Bool, true, false}

pub data Fault : Type 0 where
  -- A call of abort(3), or an assert(3) that fails.
  aborted : Fault
  assertion_failed : Fault
  -- A field of a null pointer is read or written.
  null_dereference : Fault
  -- A structure that was freed, or that lived on a stack frame, is read or written.
  use_after_free : Fault
  -- A read or write outside of the bytes that the code was given.
  out_of_bounds : Fault
  -- A shift by the width of its type or more.
  invalid_shift : Fault
  -- The model's bound on the rounds of a loop; it is shown to suffice.
  out_of_fuel : Fault

pub data Outcome {ℓ} (A : Type ℓ) : Type ℓ where
  ok : A → Outcome A
  fault : Fault → Outcome A

-- The code after a fault is not run.
module _ {ℓ κ} {A : Type ℓ} {B : Type κ} where
  infixl 5 ◌>>=◌
  abbrev pub ◌>>=◌ : Outcome A → (A → Outcome B) → Outcome B
  fault stop >>= next = fault stop
  ok value >>= next = next value

  pub >>=-eq-ok :
      (run : Outcome A) (next : A → Outcome B) {b : B} (returned : (run >>= next) ≡ ok b)
      → (a : A) × (run ≡ ok a) × (next a ≡ ok b)
  >>=-eq-ok (fault stop) next returned = cc
  >>=-eq-ok (ok value) next returned = (value, refl, returned)

module _ {κ} {B : Type κ} where
  infixl 5 ◌>>◌
  abbrev pub ◌>>◌ : Outcome (Unit {0}) → Outcome B → Outcome B
  first >> second = first >>= λ (_ : Unit {0}). second

-- assert(3), with NDEBUG undefined.
abbrev pub assert : Bool → Outcome (Unit {0})
assert true = ok tt
assert false = fault assertion_failed

-- The code returns, with no fault, a value that satisfies `P`.
pub data Returns {ℓ κ} {A : Type ℓ} (P : A → Type κ) (m : Outcome A) : Type (ℓ ⊔ κ) where
  returns : (a : A) → m ≡ ok a → P a → Returns P m

pub Returns->>= {ℓ κ μ ν} :
    {A : Type ℓ} {B : Type κ} {P : A → Type μ} {Q : B → Type ν} {m : Outcome A} {f : A → Outcome B}
    → Returns P m
    → ((a : A) → m ≡ ok a → P a → Returns Q (f a))
    → Returns Q (m >>= f)
Returns->>= {Q = Q} {f = f} (returns a e p) k = subst (λ n. Returns Q (n >>= f)) (sym e) (k a e p)

pub Returns-imp {ℓ κ μ} :
    {A : Type ℓ} {P : A → Type κ} {Q : A → Type μ} {m : Outcome A}
    → Returns P m
    → ((a : A) → P a → Q a)
    → Returns Q m
Returns-imp (returns a e p) k = returns a e (k a p)

pub Returns-ok {ℓ κ} :
    {A : Type ℓ} {P : A → Type κ} {m : Outcome A} {a : A} → Returns P m → m ≡ ok a → P a
Returns-ok {P = P} {a = a} (returns b e p) q = subst P (same (sym e ∙ q)) p
  where
    same : ok b ≡ ok a → b ≡ a
    same h = cc

pub ok_inj {ℓ} : {A : Type ℓ} {a b : A} → ok a ≡ ok b → a ≡ b
ok_inj q = cc

pub Outcome-cases {ℓ} :
    {A : Type ℓ} (m : Outcome A) → ((a : A) × (m ≡ ok a)) ⊎ ((e : Fault) × (m ≡ fault e))
Outcome-cases (ok a) = inl (a, refl)
Outcome-cases (fault e) = inr (e, refl)
