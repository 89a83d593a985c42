-- ===== src/Tree/Valid.antt =====
-- The invariant of a `struct tree` of src/cyberd/tree.h, and the sequence that it stands for.
use cyberd.Base.{List}
use cyberd.Tree.{Tree}
use cyberd.Tree.Balance.{IsAvl}
use cyberd.Tree.Sequence.{IsLawful, IsSorted, to_list}

module _ {ℓ} {E : Type ℓ} where
  abbrev pub elements : Tree E → List E
  elements t = to_list t.root

  pub record IsValid (t : Tree E) : Type ℓ where
    pub lawful : IsLawful t.compare
    pub balanced : IsAvl t.root
    pub sorted : IsSorted t.compare (elements t)
