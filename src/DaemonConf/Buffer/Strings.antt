-- ===== src/DaemonConf/Buffer/Strings.antt =====
-- C strings in a buffer.
use cyberd.Base.{
  ℕ, zero, suc, ◌+◌, ◌≤◌, ◌<◌, false, List, [], ◌∷◌, ◌++◌, ◌==◌, length, ok, ◌≡◌, refl, ap, ◌∙◌,
  arith, All, subst, sym,
}
use cyberd.DaemonConf.Buffer.{write, string_at, copied}

-- The bytes from `i` to `j` are those of `w`, none of which is a nul byte.
abbrev pub Spells : (ℕ → ℕ) → ℕ → List ℕ → ℕ → Type 0
Spells bytes i [] j = i ≡ j
Spells bytes i (c ∷ w) j = (bytes i ≡ c) × ((c == 0) ≡ false) × Spells bytes (i + 1) w j

pub Spells-length :
    (bytes : ℕ → ℕ) (i : ℕ) (w : List ℕ) (j : ℕ) → Spells bytes i w j → j ≡ i + length w
Spells-length bytes i [] j h = omega (arith, h)
Spells-length bytes i (c ∷ w) j h = omega (arith, Spells-length bytes (i + 1) w j h.2)

-- A write past the end, or before the start, changes no word.
pub Spells-write_past :
    (bytes : ℕ → ℕ) (i : ℕ) (w : List ℕ) (j k v : ℕ)
    → Spells bytes i w j
    → j ≤ k
    → Spells (write bytes k v) i w j
Spells-write_past bytes i [] j k v h l = h
Spells-write_past bytes i (c ∷ w) j k v h l =
    let end = Spells-length bytes i (c ∷ w) j h in
    let other : (i == k) ≡ false = ground (arith, end, l) in
    (rw other (h.0), h.1, Spells-write_past bytes (i + 1) w j k v h.2 l)

pub Spells-write_before :
    (bytes : ℕ → ℕ) (i : ℕ) (w : List ℕ) (j k v : ℕ)
    → Spells bytes i w j
    → k < i
    → Spells (write bytes k v) i w j
Spells-write_before bytes i [] j k v h l = h
Spells-write_before bytes i (c ∷ w) j k v h l =
    let other : (i == k) ≡ false = ground (arith, l) in
    (rw other (h.0), h.1, Spells-write_before bytes (i + 1) w j k v h.2 (omega (arith, l)))

pub Spells-snoc :
    (bytes : ℕ → ℕ) (i : ℕ) (w : List ℕ) (j c : ℕ)
    → Spells bytes i w j
    → bytes j ≡ c
    → (c == 0) ≡ false
    → Spells bytes i (w ++ c ∷ []) (j + 1)
Spells-snoc bytes i [] j c h b n = (ap bytes h ∙ b, n, omega (arith, h))
Spells-snoc bytes i (d ∷ w) j c h b n = (h.0, h.1, Spells-snoc bytes (i + 1) w j c h.2 b n)

pub Spells-string_at :
    (bytes : ℕ → ℕ) (n i : ℕ) (w : List ℕ) (j : ℕ)
    → Spells bytes i w j
    → bytes j ≡ 0
    → length w < n
    → string_at n bytes i ≡ ok w
unfolding string_at
Spells-string_at bytes zero i w j h z l = absurd (omega (arith, l))
Spells-string_at bytes (suc n) i [] j h z l = let q : bytes i ≡ 0 = ap bytes h ∙ z in rw q refl
Spells-string_at bytes (suc n) i (c ∷ w) j h z l =
    let rest = Spells-string_at bytes n (i + 1) w j h.2 z (omega (arith, l)) in
    rw (h.0, h.1, rest) refl

-- A string holds no nul byte.
abbrev pub IsString : List ℕ → Type 0
IsString = All (λ c. (c == 0) ≡ false)

pub copied-Spells :
    (s : List ℕ) (bytes : ℕ → ℕ) (i : ℕ)
    → ((j : ℕ) → bytes (i + j) ≡ copied s j)
    → IsString s
    → Spells bytes i s (i + length s) × (bytes (i + length s) ≡ 0)
copied-Spells [] bytes i h n = (omega arith, h 0)
copied-Spells (c ∷ s) bytes i h n =
    let next : (j : ℕ) → i + 1 + j ≡ i + suc j = λ j. omega arith in
    let rest = copied-Spells s bytes (i + 1) (λ j. ap bytes (next j) ∙ h (suc j)) n.1 in
    let end : i + 1 + length s ≡ i + length (c ∷ s) = omega arith in
    let first : i ≡ i + 0 = omega arith in
    (
      (ap bytes first ∙ h 0, n.0, subst (Spells bytes (i + 1) s) end rest.0),
      ap bytes (sym end) ∙ rest.1,
    )

pub copied_whole :
    (s : List ℕ) → IsString s → Spells (copied s) 0 s (length s) × (copied s (length s) ≡ 0)
copied_whole s n =
    let from_start : (j : ℕ) → 0 + j ≡ j = λ j. omega arith in
    let (a, b) = copied-Spells s (copied s) 0 (λ j. ap (copied s) (from_start j)) n in
    (
      subst (Spells (copied s) 0 s) (from_start (length s)) a,
      ap (copied s) (sym (from_start (length s))) ∙ b,
    )
