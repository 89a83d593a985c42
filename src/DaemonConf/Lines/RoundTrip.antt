-- ===== src/DaemonConf/Lines/RoundTrip.antt =====
-- daemon_conf_parse_line of src/cyberd/daemon_conf.c on the lines that one writes.
use cyberd.Base.{
  ℕ, ◌+◌, ◌-◌, ◌<◌, true, false, ◌&&◌, List, [], ◌∷◌, ltb, ◌==◌, if◌then◌else◌, none, some, length,
  ok, ◌>>=◌, ◌≡◌, refl, ap, ◌∙◌, arith,
}
use cyberd.DaemonConf.Numbers.{isspace}
use cyberd.DaemonConf.Buffer.{write, load, copied}
use cyberd.DaemonConf.Buffer.Strings.{Spells, Spells-length, Spells-write_past, copied_whole}
use cyberd.DaemonConf.Lines.{
  cut_section, cut_value, parse_line, read_line, parse_text, Item, section, entry,
}
use cyberd.DaemonConf.Lines.Layouts.{Layout, body, print_line, IsLayout, IsKey, IsItem}
use cyberd.DaemonConf.Lines.Trimming.{trim_line-body, Spells-split, begin_solid}
use cyberd.DaemonConf.Lines.Cutting.{cut_section-name, cut_value-key, cut_value-pair}
use cyberd.DaemonConf.Lines.Bodies.{body-Solid, print_line-string}

key_opens :
    (bytes : ℕ → ℕ) (i : ℕ) (key : List ℕ) (j : ℕ)
    → Spells bytes i key j
    → IsKey key
    → (bytes i == b'[') ≡ false
key_opens bytes i [] j h k = absurd (k.solid.begins)
key_opens bytes i (c ∷ key) j h k = ap (λ d. d == b'[') h.0 ∙ k.opens

module _ (l : Layout) (g : IsLayout l) (size : ℕ) (bytes : ℕ → ℕ) (i s : ℕ) (z : bytes s ≡ 0)
    (fits : s < size) where
  -- The second part of the function on a body from `i` to the nul byte at `s`.
  cut_body :
      (item : Item)
      → IsItem item
      → Spells bytes i (body l item) s
      → ((if bytes i == b'[' && bytes (s - 1) == b']'
            then cut_section size bytes i s
            else cut_value size bytes i)
          >>= read_line size)
        ≡ ok item
  unfolding body
  cut_body (section name) k h =
      let (p, b, r) = Spells-split bytes (i + 1) l.before _ s h.2 in
      let (q, w, r1) = Spells-split bytes p name _ s r in
      let (t, a, r2) = Spells-split bytes q l.after _ s r1 in
      let end : s ≡ t + 1 = omega (arith, r2.2) in
      let before_end : s - 1 ≡ t = omega (arith, end) in
      rw (h.0, before_end, r2.0)
        (cut_section-name bytes size i p q t s l.before name l.after b w a end fits g.before_spaces
          g.after_spaces k)
  cut_body (entry key none) k h =
      rw (key_opens bytes i key s h k) (cut_value-key bytes size i s key h z fits k)
  cut_body (entry key (some [])) k h =
      let (p, w, r) = Spells-split bytes i key _ s h in
      let (q, b, e) = Spells-split bytes p l.before _ s r in
      rw (key_opens bytes i key p w k) (
        cut_value-pair bytes size i p q s s key l.before [] [] w b e.0 e.2 refl z fits k
          g.before_spaces tt (ap isspace z))
  cut_body (entry key (some (c ∷ value))) k h =
      let (p, w, r) = Spells-split bytes i key _ s h in
      let (q, b, e) = Spells-split bytes p l.before _ s r in
      let (v, a, t) = Spells-split bytes (q + 1) l.after _ s e.2 in
      rw (key_opens bytes i key p w k.0) (
        cut_value-pair bytes size i p q v s key l.before l.after (c ∷ value) w b e.0 a t z fits k.0
          g.before_spaces g.after_spaces (begin_solid bytes v (c ∷ value) s t k.1.begins))

-- A line that is written as a section or as a key with or without a value, with spaces in front,
-- behind and around its parts and a comment at its end, is parsed to that section or to that key
-- and value. The key has no `=` and does not begin with `[`; the name of the section, the key and a
-- value that is not empty are themselves not empty, with no `#`, no nul byte and no space at an end, by
-- isspace(3). An empty value is written as nothing after the `=`.
pub parse_text-print_line :
    (l : Layout) (item : Item) → IsLayout l → IsItem item → parse_text (print_line l item) ≡ ok item
unfolding parse_text parse_line print_line load
parse_text-print_line l item g k =
    let n = length (print_line l item) in
    let bytes = copied (print_line l item) in
    let (whole, end) = copied_whole (print_line l item) (print_line-string l item g k) in
    let solid = body-Solid l item g k in
    let (i, a, r) = Spells-split bytes 0 l.indent _ n whole in
    let (s, b, r1) = Spells-split bytes i (body l item) _ n r in
    let (c, t, m) = Spells-split bytes s l.trail l.comment n r1 in
    let trimmed =
      trim_line-body bytes i s c n (n + 1) l.indent (body l item) l.trail l.comment a b t m end
        (omega arith) g.indent_spaces g.trail_spaces g.comment_lem solid.begins solid.ends
        solid.uncommented in
    let tl = Spells-length bytes s l.trail c t in
    let ml = Spells-length bytes c l.comment n m in
    let bl = Spells-length bytes i (body l item) s b in
    let inside : ltb i (n + 1) ≡ true = ground (arith, tl, ml, bl) in
    let last_inside : ltb (s - 1) (n + 1) ≡ true = ground (arith, tl, ml) in
    let same : (s == s) ≡ true = ground arith in
    rw (trimmed, inside, last_inside)
      (cut_body l g (n + 1) (write bytes s 0) i s (rw same refl) (omega (arith, tl, ml)) item k
        (Spells-write_past bytes i (body l item) s s 0 b (omega arith)))
