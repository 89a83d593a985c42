-- ===== src/DaemonConf/Buffer.antt =====
-- The memory that src/cyberd/daemon_conf.c reads and writes its strings in: bytes by offset, of which
-- there are `size`.
pub mod Strings
use cyberd.Base.{
  ℕ, zero, suc, ◌+◌, List, [], ◌∷◌, ltb, ◌==◌, if◌then◌else◌, Outcome, ok, fault, out_of_bounds,
  ◌>>=◌,
}

unfoldable pub load : ℕ → (ℕ → ℕ) → ℕ → Outcome ℕ
load size bytes i = if ltb i size then ok (bytes i) else fault out_of_bounds

abbrev pub write : (ℕ → ℕ) → ℕ → ℕ → ℕ → ℕ
write bytes i v j = if j == i then v else bytes j

unfoldable pub poke : ℕ → (ℕ → ℕ) → ℕ → ℕ → Outcome (ℕ → ℕ)
poke size bytes i v = if ltb i size then ok (write bytes i v) else fault out_of_bounds

-- The C string at an offset, within so many bytes.
unfoldable pub string_at : ℕ → (ℕ → ℕ) → ℕ → Outcome (List ℕ)
string_at zero bytes i = fault out_of_bounds
string_at (suc n) bytes i =
    let rest = string_at n bytes (i + 1) >>= λ s. ok (bytes i ∷ s) in
    if bytes i == 0 then ok [] else rest

-- The bytes of a string and its nul byte.
abbrev pub copied : List ℕ → ℕ → ℕ
copied [] i = 0
copied (c ∷ s) zero = c
copied (c ∷ s) (suc i) = copied s i
