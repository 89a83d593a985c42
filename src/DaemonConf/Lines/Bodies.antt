-- ===== src/DaemonConf/Lines/Bodies.antt =====
-- The bytes of the lines that daemon_conf_parse_line of src/cyberd/daemon_conf.c reads back.
use cyberd.Base.{ℕ, false, List, [], ◌∷◌, ◌++◌, ◌==◌, none, some, All-append, ◌≡◌, refl, ap}
use cyberd.DaemonConf.Numbers.{isspace}
use cyberd.DaemonConf.Lines.{Item, section, entry}
use cyberd.DaemonConf.Lines.Layouts.{
  Layout, body, print_line, AllSpaces, Without, IsComment, IsLayout, BeginsSolid, EndsSolid, Solid,
  IsItem,
}
use cyberd.DaemonConf.Lines.Trimming.{spaces-Without}

pub BeginsSolid-append : (u v : List ℕ) → BeginsSolid u → BeginsSolid (u ++ v)
BeginsSolid-append [] v b = absurd b
BeginsSolid-append (c ∷ u) v b = b

EndsSolid-cons : (c : ℕ) (v : List ℕ) → EndsSolid v → EndsSolid (c ∷ v)
EndsSolid-cons c [] e = absurd e
EndsSolid-cons c (d ∷ v) e = e

EndsSolid-append : (u v : List ℕ) → EndsSolid v → EndsSolid (u ++ v)
EndsSolid-append [] v e = e
EndsSolid-append (c ∷ u) v e = EndsSolid-cons c (u ++ v) (EndsSolid-append u v e)

-- The bytes of a body: none is `c`, if none of its parts has it.
pair-Without :
    (c : ℕ) (key before after value : List ℕ)
    → isspace c ≡ false
    → (b'=' == c) ≡ false
    → AllSpaces before
    → AllSpaces after
    → Without c key
    → Without c value
    → Without c (key ++ (before ++ b'=' ∷ (after ++ value)))
pair-Without c key before after value s e b a k v = All-append _ key _ k (
    All-append _ before _ (spaces-Without c before s b)
      (e, All-append _ after value (spaces-Without c after s a) v))

bracket-Without :
    (c : ℕ) (before name after : List ℕ)
    → isspace c ≡ false
    → (b'[' == c) ≡ false
    → (b']' == c) ≡ false
    → AllSpaces before
    → AllSpaces after
    → Without c name
    → Without c (b'[' ∷ (before ++ (name ++ (after ++ b']' ∷ []))))
bracket-Without c before name after s o e b a n = (
  o,
  All-append _ before _ (spaces-Without c before s b)
      (All-append _ name _ n (All-append _ after _ (spaces-Without c after s a) (e, tt))),
)

pub body-Solid : (l : Layout) (item : Item) → IsLayout l → IsItem item → Solid (body l item)
unfolding body
body-Solid l (section name) g i = record {
  begins = refl;
  ends =
      EndsSolid-append (b'[' ∷ l.before) (name ++ (l.after ++ b']' ∷ []))
        (EndsSolid-append name (l.after ++ b']' ∷ []) (EndsSolid-append l.after (b']' ∷ []) refl));
  uncommented =
      bracket-Without b'#' l.before name l.after refl refl refl g.before_spaces g.after_spaces
        i.uncommented;
  string =
      bracket-Without 0 l.before name l.after refl refl refl g.before_spaces g.after_spaces
        i.string;
}
body-Solid l (entry key none) g i = i.solid
body-Solid l (entry key (some [])) g i = record {
  begins = BeginsSolid-append key _ i.solid.begins;
  ends = EndsSolid-append key _ (EndsSolid-append l.before (b'=' ∷ []) refl);
  uncommented =
      pair-Without b'#' key l.before [] [] refl refl g.before_spaces tt i.solid.uncommented tt;
  string = pair-Without 0 key l.before [] [] refl refl g.before_spaces tt i.solid.string tt;
}
body-Solid l (entry key (some (c ∷ value))) g i = record {
  begins = BeginsSolid-append key _ i.0.solid.begins;
  ends = EndsSolid-append key _ (
      EndsSolid-append l.before _ (
        EndsSolid-cons b'=' (l.after ++ c ∷ value)
          (EndsSolid-append l.after (c ∷ value) i.1.ends)));
  uncommented =
      pair-Without b'#' key l.before l.after (c ∷ value) refl refl g.before_spaces g.after_spaces
        i.0.solid.uncommented i.1.uncommented;
  string =
      pair-Without 0 key l.before l.after (c ∷ value) refl refl g.before_spaces g.after_spaces
        i.0.solid.string i.1.string;
}

pub comment_string : (s : List ℕ) → IsComment s → Without 0 s
comment_string [] h = tt
comment_string (c ∷ s) h = (ap (λ d. d == 0) h.0, h.1)

pub print_line-string :
    (l : Layout) (item : Item) → IsLayout l → IsItem item → Without 0 (print_line l item)
unfolding print_line
print_line-string l item g i =
    All-append _ l.indent _ (spaces-Without 0 l.indent refl g.indent_spaces) (
      All-append _ (body l item) _ (body-Solid l item g i).string (
        All-append _ l.trail _ (spaces-Without 0 l.trail refl g.trail_spaces)
          (comment_string l.comment g.comment_lem)))
