-- ===== src/DaemonConf/Lines/Cutting.antt =====
-- The second part of daemon_conf_parse_line in src/cyberd/daemon_conf.c, on a line that is trimmed.
use cyberd.Base.{
  ℕ, ◌+◌, ◌-◌, ◌≤◌, ◌<◌, true, false, List, [], ◌∷◌, ◌++◌, ltb, ◌==◌, if◌then◌else◌, none, some,
  length, All-append, ok, ◌>>=◌, ◌≡◌, refl, ap, ◌∙◌, arith, inl, inr, Bool-cases, length-append,
}
use cyberd.DaemonConf.Numbers.{isspace}
use cyberd.DaemonConf.Buffer.{write, string_at, poke}
use cyberd.DaemonConf.Buffer.Strings.{
  Spells, Spells-length, Spells-write_past, Spells-write_before, Spells-string_at,
}
use cyberd.DaemonConf.Lines.{
  strchr, skip_spaces, trim_end, cut_section, cut_value, read_line, section, entry,
}
use cyberd.DaemonConf.Lines.Scanning.{strchr_found, strchr-none, skip_spaces_over}
use cyberd.DaemonConf.Lines.Layouts.{AllSpaces, BeginsSolid, Solid, IsKey}
use cyberd.DaemonConf.Lines.Trimming.{spaces-Without, Spells-join, begin_solid, trim_end_word}

-- A word that a nul byte was written behind is read back.
cut_word :
    (bytes : ℕ → ℕ) (size i : ℕ) (w : List ℕ) (j : ℕ)
    → Spells bytes i w j
    → j < size
    → string_at (size - i) (write bytes j 0) i ≡ ok w
cut_word bytes size i w j h l =
    let same : (j == j) ≡ true = ground arith in
    Spells-string_at (write bytes j 0) (size - i) i w j
      (Spells-write_past bytes i w j j 0 h (omega arith)) (rw same refl)
      (omega (arith, Spells-length bytes i w j h, l))

-- Which byte a solid word begins with.
solid_head :
    (bytes : ℕ → ℕ) (i : ℕ) (w : List ℕ) (j : ℕ) → Spells bytes i w j → BeginsSolid w → i + 1 ≤ j
solid_head bytes i [] j h b = absurd b
solid_head bytes i (c ∷ w) j h b = omega (arith, Spells-length bytes i (c ∷ w) j h)

-- Between brackets from `l` to `s`.
module _ (bytes : ℕ → ℕ) (size l p q r s : ℕ) (before name after : List ℕ)
    (b : Spells bytes (l + 1) before p) (w : Spells bytes p name q) (a : Spells bytes q after r)
    (e : s ≡ r + 1) (fits : s < size) (bs : AllSpaces before) (as_ : AllSpaces after)
    (solid : Solid name) where
  pub cut_section-name : (cut_section size bytes l s >>= read_line size) ≡ ok (section name)
  unfolding cut_section poke read_line
  cut_section-name =
      let bl = Spells-length bytes (l + 1) before p b in
      let wl = Spells-length bytes p name q w in
      let al = Spells-length bytes q after r a in
      let skipped : skip_spaces (size - (l + 1)) bytes (l + 1) ≡ ok p =
        skip_spaces_over bytes (size - (l + 1)) (l + 1) before p b bs
          (begin_solid bytes p name q w solid.begins) (omega (arith, bl, wl, al, e, fits)) in
      let at_end : s - 1 ≡ r = omega (arith, e) in
      let trimmed : trim_end bytes (s - 1) ≡ ok q =
        ap (trim_end bytes) at_end ∙ trim_end_word bytes p name q after r w solid.ends a as_ in
      let inside : ltb q size ≡ true = ground (arith, al, e, fits) in
      let found : string_at (size - p) (write bytes q 0) p ≡ ok name =
        cut_word bytes size p name q w (omega (arith, al, e, fits)) in
      rw (skipped, trimmed, inside, found) refl

-- A key alone, from `l` to the nul byte at `s`.
module _ (bytes : ℕ → ℕ) (size l s : ℕ) (key : List ℕ) (w : Spells bytes l key s) (z : bytes s ≡ 0)
    (fits : s < size) (k : IsKey key) where
  pub cut_value-key : (cut_value size bytes l >>= read_line size) ≡ ok (entry key none)
  unfolding cut_value read_line
  cut_value-key =
      let wl = Spells-length bytes l key s w in
      let none_there : strchr (size - l) bytes b'=' l ≡ ok none =
        strchr-none bytes (size - l) b'=' l key s w k.unassigned z refl (omega (arith, wl, fits)) in
      let found : string_at (size - l) bytes l ≡ ok key =
        Spells-string_at bytes (size - l) l key s w z (omega (arith, wl, fits)) in
      rw (none_there, found) refl

-- A key from `l` to `p`, a separator at `q`, and a value from `v` to the nul byte at `s`.
module _ (bytes : ℕ → ℕ) (size l p q v s : ℕ) (key before after value : List ℕ)
    (w : Spells bytes l key p) (b : Spells bytes p before q) (eq : bytes q ≡ b'=')
    (a : Spells bytes (q + 1) after v) (t : Spells bytes v value s) (z : bytes s ≡ 0)
    (fits : s < size) (k : IsKey key) (bs : AllSpaces before) (as_ : AllSpaces after)
    (solid : isspace (bytes v) ≡ false) where
  wl : p ≡ l + length key
  wl = Spells-length bytes l key p w

  bl : q ≡ p + length before
  bl = Spells-length bytes p before q b

  al : v ≡ q + 1 + length after
  al = Spells-length bytes (q + 1) after v a

  tl : s ≡ v + length value
  tl = Spells-length bytes v value s t

  separator : strchr (size - l) bytes b'=' l ≡ ok (some q)
  separator =
      strchr_found bytes (size - l) b'=' l (key ++ before) q
        (Spells-join bytes l key before p q w b)
        (All-append _ key before k.unassigned (spaces-Without b'=' before refl bs)) eq
        (omega (arith, wl, bl, al, tl, fits, length-append key before))

  -- `preseparator + 1`, whether the spaces before the separator are looked at or not.
  key_end : (if q == l + 1 then ok q else trim_end bytes q) ≡ ok p
  key_end = elim (Bool-cases (q == l + 1)) [
    | inl n ↦
        let one = solid_head bytes l key p w k.solid.begins in
        let same : q ≡ p = ground (arith, n, one, bl) in rw n (ap ok same)
    | inr n ↦ rw n (trim_end_word bytes l key p before q w k.solid.ends b bs)
  ]

  cut_after :
      (i : ℕ) (u : List ℕ) (j : ℕ) → q < i → Spells bytes i u j → Spells (write bytes p 0) i u j
  cut_after i u j l h = Spells-write_before bytes i u j p 0 h (omega (arith, bl, l))

  cut_byte : (i : ℕ) → q < i → write bytes p 0 i ≡ bytes i
  cut_byte i l = let other : (i == p) ≡ false = ground (arith, bl, l) in rw other refl

  pub cut_value-pair : (cut_value size bytes l >>= read_line size) ≡ ok (entry key (some value))
  unfolding cut_value read_line poke
  cut_value-pair =
      let inside : ltb p size ≡ true = ground (arith, wl, bl, al, tl, fits) in
      let skipped : skip_spaces (size - (q + 1)) (write bytes p 0) (q + 1) ≡ ok v =
        skip_spaces_over (write bytes p 0) (size - (q + 1)) (q + 1) after v
          (cut_after (q + 1) after v (omega arith) a) as_
          (ap isspace (cut_byte v (omega (arith, al))) ∙ solid) (omega (arith, al, tl, fits)) in
      let key_read : string_at (size - l) (write bytes p 0) l ≡ ok key =
        cut_word bytes size l key p w (omega (arith, bl, al, tl, fits)) in
      let value_read : string_at (size - v) (write bytes p 0) v ≡ ok value =
        Spells-string_at (write bytes p 0) (size - v) v value s
          (cut_after v value s (omega (arith, al)) t) (cut_byte s (omega (arith, al, tl)) ∙ z)
          (omega (arith, tl, fits)) in
      rw (separator, key_end, inside, skipped, key_read, value_read) refl
