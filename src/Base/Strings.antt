-- ===== src/Base/Strings.antt =====
-- strcmp(3) on the lists of the bytes of C strings.
use Prim.Native.Nat.{ℕ, compare, Ordering}
use Prim.Native.Nat.Ordering.{lt, eq, gt}
use mathlib.Core.Bool.{Bool, true, false}
use mathlib.Core.List.{List, [], ◌∷◌}

-- The sign of its result.
unfoldable pub strcmp : List ℕ → List ℕ → Ordering
strcmp [] [] = eq
strcmp [] (d ∷ t) = lt
strcmp (c ∷ s) [] = gt
strcmp (c ∷ s) (d ∷ t) =
    let rest = strcmp s t in elim (compare c d) [ lt ↦ lt | gt ↦ gt | eq ↦ rest ]

abbrev pub same_string : List ℕ → List ℕ → Bool
same_string s t = elim (strcmp s t) [ eq ↦ true | _ ↦ false ]
