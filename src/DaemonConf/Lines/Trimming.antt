-- ===== src/DaemonConf/Lines/Trimming.antt =====
-- The trimming at the head of daemon_conf_parse_line in src/cyberd/daemon_conf.c.
use cyberd.Base.{
  ℕ, suc, ◌+◌, ◌≤◌, ◌<◌, true, false, List, [], ◌∷◌, ◌++◌, ltb, ◌==◌, Option, none, some, length,
  All-append, ok, ◌≡◌, refl, sym, ap, ◌∙◌, subst, arith, All-imp, length-append,
}
use cyberd.DaemonConf.Numbers.{isspace}
use cyberd.DaemonConf.Buffer.{write, poke}
use cyberd.DaemonConf.Buffer.Strings.{Spells, Spells-length}
use cyberd.DaemonConf.Lines.{strchr, skip_spaces, trim_end, trim_line}
use cyberd.DaemonConf.Lines.Scanning.{
  Spells-Between, strchr_found, strchr-none, skip_spaces_over, trim_end_to,
}
use cyberd.DaemonConf.Lines.Layouts.{AllSpaces, Without, IsComment, BeginsSolid, EndsSolid}

pub space_not : (c d : ℕ) → isspace d ≡ true → isspace c ≡ false → (d == c) ≡ false
space_not c d h n = ground arith

pub spaces-Without : (c : ℕ) (w : List ℕ) → isspace c ≡ false → AllSpaces w → Without c w
spaces-Without c w n =
    All-imp (λ d. isspace d ≡ true) (λ d. (d == c) ≡ false) (λ d h. space_not c d h n) w

-- Where the second part of a string begins.
pub Spells-split :
    (bytes : ℕ → ℕ) (i : ℕ) (u v : List ℕ) (j : ℕ)
    → Spells bytes i (u ++ v) j
    → (m : ℕ) × Spells bytes i u m × Spells bytes m v j
Spells-split bytes i [] v j h = (i, refl, h)
Spells-split bytes i (c ∷ u) v j h =
    let (m, a, b) = Spells-split bytes (i + 1) u v j h.2 in (m, (h.0, h.1, a), b)

pub Spells-join :
    (bytes : ℕ → ℕ) (i : ℕ) (u v : List ℕ) (m j : ℕ)
    → Spells bytes i u m
    → Spells bytes m v j
    → Spells bytes i (u ++ v) j
Spells-join bytes i [] v m j a b = subst (λ k. Spells bytes k v j) (sym a) b
Spells-join bytes i (c ∷ u) v m j a b = (a.0, a.1, Spells-join bytes (i + 1) u v m j a.2 b)

pub begin_solid :
    (bytes : ℕ → ℕ) (i : ℕ) (w : List ℕ) (j : ℕ)
    → Spells bytes i w j
    → BeginsSolid w
    → isspace (bytes i) ≡ false
begin_solid bytes i [] j h b = absurd b
begin_solid bytes i (c ∷ w) j h b = ap isspace h.0 ∙ b

pub end_solid :
    (bytes : ℕ → ℕ) (i : ℕ) (w : List ℕ) (j : ℕ)
    → Spells bytes i w j
    → EndsSolid w
    → (n : ℕ) × (j ≡ suc n) × (i ≤ n) × (isspace (bytes n) ≡ false)
end_solid bytes i [] j h e = absurd e
end_solid bytes i (c ∷ []) j h e =
    let len = Spells-length bytes i (c ∷ []) j h in
    (i, omega (arith, h.2), omega arith, ap isspace h.0 ∙ e)
end_solid bytes i (c ∷ (d ∷ w)) j h e =
    let (n, q, l, s) = end_solid bytes (i + 1) (d ∷ w) j h.2 e in (n, q, omega (arith, l), s)

-- Going back over the spaces behind a solid word.
pub trim_end_word :
    (bytes : ℕ → ℕ) (i : ℕ) (w : List ℕ) (j : ℕ) (v : List ℕ) (m : ℕ)
    → Spells bytes i w j
    → EndsSolid w
    → Spells bytes j v m
    → AllSpaces v
    → trim_end bytes m ≡ ok j
trim_end_word bytes i w j v m h e g s =
    let (n, q, l, solid) = end_solid bytes i w j h e in
    let len = Spells-length bytes j v m g in
    let spaces = Spells-Between bytes isspace j v m g s in
    trim_end_to bytes n m (omega (arith, q, len)) solid (λ k a b. spaces k (omega (arith, a, q)) b)
    ∙ ap ok (sym q)

-- Where the comment of a line begins, or the line ends.
pub comment_end :
    (bytes : ℕ → ℕ) (size : ℕ) (w : List ℕ) (c : ℕ) (comment : List ℕ) (n : ℕ)
    → Spells bytes 0 w c
    → Without b'#' w
    → Spells bytes c comment n
    → IsComment comment
    → bytes n ≡ 0
    → n < size
    → (o : Option ℕ) × (strchr size bytes b'#' 0 ≡ ok o)
      × (elim o as (λ _. ℕ) [ none ↦ n | some i ↦ i ] ≡ c)
comment_end bytes size w c [] n h u k kc z fits =
    let zero_there : bytes c ≡ 0 = ap bytes k ∙ z in
    let len = Spells-length bytes 0 w c h in
    (
      none,
      strchr-none bytes size b'#' 0 w c h u zero_there refl (omega (arith, len, k, fits)),
      sym k,
    )
comment_end bytes size w c (d ∷ rest) n h u k kc z fits =
    let len = Spells-length bytes c (d ∷ rest) n k in
    let before = Spells-length bytes 0 w c h in
    (
      some c,
      strchr_found bytes size b'#' 0 w c h u (k.0 ∙ kc.0) (omega (arith, before, len, fits)),
      refl,
    )

-- A line in the buffer: indentation, body, trailing spaces and comment.
module _ (bytes : ℕ → ℕ) (l s c n size : ℕ) (indent text trail comment : List ℕ)
    (i : Spells bytes 0 indent l) (w : Spells bytes l text s) (t : Spells bytes s trail c)
    (k : Spells bytes c comment n) (z : bytes n ≡ 0) (fits : n < size) (is : AllSpaces indent)
    (ts : AllSpaces trail) (kc : IsComment comment) (b : BeginsSolid text) (e : EndsSolid text)
    (u : Without b'#' text) where
  lengths : c ≡ length (indent ++ (text ++ trail))
  lengths = omega (
    arith,
    Spells-length bytes 0 indent l i,
    Spells-length bytes l text s w,
    Spells-length bytes s trail c t,
    length-append indent (text ++ trail),
    length-append text trail,
  )

  uncommented : Without b'#' (indent ++ (text ++ trail))
  uncommented =
      All-append _ indent (text ++ trail) (spaces-Without b'#' indent refl is)
        (All-append _ text trail u (spaces-Without b'#' trail refl ts))

  whole : Spells bytes 0 (indent ++ (text ++ trail)) c
  whole = Spells-join bytes 0 indent (text ++ trail) l c i (Spells-join bytes l text trail s c w t)

  pub trim_line-body : trim_line size bytes n ≡ ok (write bytes s 0, l, s)
  unfolding trim_line poke
  trim_line-body =
      let (o, found, at_c) =
        comment_end bytes size (indent ++ (text ++ trail)) c comment n whole uncommented k kc z
          fits in
      let skipped : skip_spaces size bytes 0 ≡ ok l =
        skip_spaces_over bytes size 0 indent l i is (begin_solid bytes l text s w b) (
          omega (
            arith,
            lengths,
            fits,
            Spells-length bytes c comment n k,
            length-append indent (text ++ trail),
          )) in
      let trimmed : trim_end bytes c ≡ ok s = trim_end_word bytes l text s trail c w e t ts in
      let inside : ltb s size ≡ true =
        ground (arith, Spells-length bytes s trail c t, Spells-length bytes c comment n k, fits) in
      rw (found, skipped, at_c, trimmed, inside) refl
