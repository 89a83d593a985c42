-- ===== src/DaemonConf/Lines/Layouts.antt =====
-- The lines of a configuration file, as one writes them: a section or a key with or without a value,
-- with spaces and a comment around them.
use cyberd.Base.{ℕ, true, false, List, [], ◌∷◌, ◌++◌, ◌==◌, none, some, All, ◌≡◌}
use cyberd.DaemonConf.Numbers.{isspace}
use cyberd.DaemonConf.Lines.{Item, section, entry}

-- What stands around the parts of a line.
pub record Layout : Type 0 where
  pub indent : List ℕ
  pub before : List ℕ
  pub after : List ℕ
  pub trail : List ℕ
  pub comment : List ℕ

-- A line without its indentation, trailing spaces and comment.
unfoldable pub body : Layout → Item → List ℕ
body l (section name) = b'[' ∷ (l.before ++ (name ++ (l.after ++ b']' ∷ [])))
body l (entry key none) = key
body l (entry key (some [])) = key ++ (l.before ++ b'=' ∷ [])
body l (entry key (some (c ∷ value))) = key ++ (l.before ++ b'=' ∷ (l.after ++ c ∷ value))

unfoldable pub print_line : Layout → Item → List ℕ
print_line l item = l.indent ++ (body l item ++ (l.trail ++ l.comment))

abbrev pub AllSpaces : List ℕ → Type 0
AllSpaces = All (λ c. isspace c ≡ true)

-- No byte of the list is `c`.
abbrev pub Without : ℕ → List ℕ → Type 0
Without c = All (λ d. (d == c) ≡ false)

-- Empty, or from a `#` on.
abbrev pub IsComment : List ℕ → Type 0
IsComment [] = Unit
IsComment (c ∷ s) = (c ≡ b'#') × Without 0 s

pub record IsLayout (l : Layout) : Type 0 where
  pub indent_spaces : AllSpaces l.indent
  pub before_spaces : AllSpaces l.before
  pub after_spaces : AllSpaces l.after
  pub trail_spaces : AllSpaces l.trail
  pub comment_lem : IsComment l.comment

abbrev pub BeginsSolid : List ℕ → Type 0
BeginsSolid [] = ⊥
BeginsSolid (c ∷ s) = isspace c ≡ false

abbrev pub EndsSolid : List ℕ → Type 0
EndsSolid [] = ⊥
EndsSolid (c ∷ []) = isspace c ≡ false
EndsSolid (c ∷ (d ∷ s)) = EndsSolid (d ∷ s)

-- Not empty, with no space at an end, no `#` and no nul byte.
pub record Solid (s : List ℕ) : Type 0 where
  pub begins : BeginsSolid s
  pub ends : EndsSolid s
  pub uncommented : Without b'#' s
  pub string : Without 0 s

abbrev pub Opens : List ℕ → Type 0
Opens [] = Unit
Opens (c ∷ s) = (c == b'[') ≡ false

pub record IsKey (key : List ℕ) : Type 0 where
  pub solid : Solid key
  pub unassigned : Without b'=' key
  pub opens : Opens key

-- An item that a line can hold.
abbrev pub IsItem : Item → Type 0
IsItem (section name) = Solid name
IsItem (entry key none) = IsKey key
IsItem (entry key (some [])) = IsKey key
IsItem (entry key (some (c ∷ value))) = IsKey key × Solid (c ∷ value)
