-- ===== src/DaemonConf/Lines/Blank.antt =====
-- daemon_conf_parse_line of src/cyberd/daemon_conf.c on a line with nothing but spaces and a comment.
use cyberd.Base.{
  ℕ, ◌+◌, false, List, [], ◌∷◌, ◌++◌, length, All-append, ok, fault, out_of_bounds, ◌≡◌, refl, ap,
  ◌∙◌, arith,
}
use cyberd.DaemonConf.Numbers.{isspace}
use cyberd.DaemonConf.Buffer.{copied}
use cyberd.DaemonConf.Buffer.Strings.{Spells, Spells-length, copied_whole}
use cyberd.DaemonConf.Lines.{skip_spaces, trim_end, trim_line, parse_line, parse_text}
use cyberd.DaemonConf.Lines.Scanning.{skip_spaces_over, trim_end_blank, Spells-Between}
use cyberd.DaemonConf.Lines.Layouts.{AllSpaces, IsComment}
use cyberd.DaemonConf.Lines.Bodies.{comment_string}
use cyberd.DaemonConf.Lines.Trimming.{comment_end, spaces-Without, Spells-split}

-- What stands behind the spaces: a comment or the nul byte.
behind_spaces :
    (bytes : ℕ → ℕ) (c : ℕ) (comment : List ℕ) (n : ℕ)
    → Spells bytes c comment n
    → IsComment comment
    → bytes n ≡ 0
    → isspace (bytes c) ≡ false
behind_spaces bytes c [] n k kc z = let there : bytes c ≡ 0 = ap bytes k ∙ z in rw there refl
behind_spaces bytes c (d ∷ rest) n k kc z = rw (k.0, kc.0) refl

-- A line of spaces only, with or without a comment behind them, makes the code read before the
-- line.
pub parse_text-blank :
    (indent comment : List ℕ)
    → AllSpaces indent
    → IsComment comment
    → parse_text (indent ++ comment) ≡ fault out_of_bounds
unfolding parse_text parse_line trim_line
parse_text-blank indent comment a kc =
    let n = length (indent ++ comment) in
    let bytes = copied (indent ++ comment) in
    let (whole, z) =
      copied_whole (indent ++ comment) (
        All-append _ indent comment (spaces-Without 0 indent refl a) (comment_string comment kc)) in
    let (c, h, k) = Spells-split bytes 0 indent comment n whole in
    let (o, found, at_c) =
      comment_end bytes (n + 1) indent c comment n h (spaces-Without b'#' indent refl a) k kc z
        (omega arith) in
    let skipped : skip_spaces (n + 1) bytes 0 ≡ ok c =
      skip_spaces_over bytes (n + 1) 0 indent c h a (behind_spaces bytes c comment n k kc z)
        (omega (arith, Spells-length bytes 0 indent c h, Spells-length bytes c comment n k)) in
    let trimmed : trim_end bytes c ≡ fault out_of_bounds =
      trim_end_blank bytes c (Spells-Between bytes isspace 0 indent c h a) in
    rw (found, skipped, at_c, trimmed) refl
