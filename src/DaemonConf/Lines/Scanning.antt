-- ===== src/DaemonConf/Lines/Scanning.antt =====
-- The loops of daemon_conf_parse_line in src/cyberd/daemon_conf.c over bytes of a known kind.
use cyberd.Base.{
  ℕ, zero, suc, ◌+◌, ◌≤◌, ◌<◌, Bool, true, false, List, [], ◌∷◌, ◌==◌, none, some, length, All, ok,
  fault, out_of_bounds, ◌≡◌, refl, sym, ap, ◌∙◌, arith, inl, inr, Bool-cases,
}
use cyberd.DaemonConf.Numbers.{isspace}
use cyberd.DaemonConf.Buffer.Strings.{Spells}
use cyberd.DaemonConf.Lines.{strchr, skip_spaces, trim_end}

-- Every byte from `i` to `j` satisfies a test.
abbrev pub Between : (ℕ → ℕ) → (ℕ → Bool) → ℕ → ℕ → Type 0
Between bytes test i j = (k : ℕ) → i ≤ k → k < j → test (bytes k) ≡ true

pub Spells-Between :
    (bytes : ℕ → ℕ) (test : ℕ → Bool) (i : ℕ) (w : List ℕ) (j : ℕ)
    → Spells bytes i w j
    → All (λ c. test c ≡ true) w
    → Between bytes test i j
Spells-Between bytes test i [] j h a k l m = absurd (omega (arith, h, l, m))
Spells-Between bytes test i (c ∷ w) j h a k l m = elim (Bool-cases (i == k)) [
  | inl e ↦ let same : i ≡ k = ground arith in rw (sym same, h.0) (a.0)
  | inr e ↦ Spells-Between bytes test (i + 1) w j h.2 a.1 k (ground (arith, l)) m
]

module _ (bytes : ℕ → ℕ) where
  pub strchr_found :
      (n c i : ℕ) (w : List ℕ) (j : ℕ)
      → Spells bytes i w j
      → All (λ d. (d == c) ≡ false) w
      → bytes j ≡ c
      → length w < n
      → strchr n bytes c i ≡ ok (some j)
  unfolding strchr
  strchr_found zero c i w j h a b l = absurd (omega (arith, l))
  strchr_found (suc n) c i [] j h a b l =
      let here : bytes i ≡ c = ap bytes h ∙ b in
      let same : (c == c) ≡ true = ground arith in rw (here, same) (ap (λ m. ok (some m)) h)
  strchr_found (suc n) c i (d ∷ w) j h a b l =
      rw (h.0, h.1, a.0) (strchr_found n c (i + 1) w j h.2 a.1 b (omega (arith, l)))

  pub strchr-none :
      (n c i : ℕ) (w : List ℕ) (j : ℕ)
      → Spells bytes i w j
      → All (λ d. (d == c) ≡ false) w
      → bytes j ≡ 0
      → (0 == c) ≡ false
      → length w < n
      → strchr n bytes c i ≡ ok none
  unfolding strchr
  strchr-none zero c i w j h a b z l = absurd (omega (arith, l))
  strchr-none (suc n) c i [] j h a b z l =
      let here : bytes i ≡ 0 = ap bytes h ∙ b in rw (here, z) refl
  strchr-none (suc n) c i (d ∷ w) j h a b z l =
      rw (h.0, h.1, a.0) (strchr-none n c (i + 1) w j h.2 a.1 b z (omega (arith, l)))

  pub skip_spaces_over :
      (n i : ℕ) (w : List ℕ) (j : ℕ)
      → Spells bytes i w j
      → All (λ d. isspace d ≡ true) w
      → isspace (bytes j) ≡ false
      → length w < n
      → skip_spaces n bytes i ≡ ok j
  unfolding skip_spaces
  skip_spaces_over zero i w j h a b l = absurd (omega (arith, l))
  skip_spaces_over (suc n) i [] j h a b l =
      let here : isspace (bytes i) ≡ false = ap (λ k. isspace (bytes k)) h ∙ b in rw here (ap ok h)
  skip_spaces_over (suc n) i (d ∷ w) j h a b l =
      let here : isspace (bytes i) ≡ true = ap isspace h.0 ∙ a.0 in
      rw here (skip_spaces_over n (i + 1) w j h.2 a.1 b (omega (arith, l)))

  pub trim_end_to :
      (n m : ℕ)
      → n < m
      → isspace (bytes n) ≡ false
      → Between bytes isspace (suc n) m
      → trim_end bytes m ≡ ok (suc n)
  unfolding trim_end
  trim_end_to n zero l b s = absurd (omega (arith, l))
  trim_end_to n (suc m) l b s = elim (Bool-cases (n == m)) [
    | inl e ↦ let same : n ≡ m = ground arith in rw (sym same, b) refl
    | inr e ↦
        let below : n < m = ground (arith, l) in
        rw (s m below (omega arith)) (trim_end_to n m below b (λ k a c. s k a (omega (arith, c))))
  ]

  -- Nothing but spaces: the loop runs out of the buffer.
  pub trim_end_blank : (m : ℕ) → Between bytes isspace 0 m → trim_end bytes m ≡ fault out_of_bounds
  unfolding trim_end
  trim_end_blank zero s = refl
  trim_end_blank (suc m) s =
      rw (s m (omega arith) (omega arith)) (trim_end_blank m (λ k a c. s k a (omega (arith, c))))
