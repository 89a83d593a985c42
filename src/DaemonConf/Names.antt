-- ===== src/DaemonConf/Names.antt =====
-- The names of signals that src/cyberd/daemon_conf.c knows, and strcasecmp(3).
use cyberd.Base.{
  ℕ, ◌+◌, Bool, true, false, ◌&&◌, List, [], ◌∷◌, leb, ◌==◌, if◌then◌else◌, Option, none, some,
}

abbrev lower : ℕ → ℕ
lower c = if leb b'A' c && leb c b'Z' then c + 32 else c

unfoldable pub strcasecmp : List ℕ → List ℕ → Bool
strcasecmp [] [] = true
strcasecmp [] (d ∷ t) = false
strcasecmp (c ∷ s) [] = false
strcasecmp (c ∷ s) (d ∷ t) = (lower c == lower d) && strcasecmp s t

-- strncasecmp(3) with the length of its first argument.
unfoldable pub strncasecmp : List ℕ → List ℕ → Bool
strncasecmp [] t = true
strncasecmp (c ∷ s) [] = false
strncasecmp (c ∷ s) (d ∷ t) = (lower c == lower d) && strncasecmp s t

-- SIGNAL_DESCRIPTION, with the numbers of Linux.
abbrev pub signals : List (List ℕ × ℕ)
signals =
    (b'A' ∷ b'B' ∷ b'R' ∷ b'T' ∷ [], 6)
    ∷ (b'A' ∷ b'B' ∷ b'R' ∷ b'T' ∷ [], 6)
    ∷ (b'A' ∷ b'L' ∷ b'R' ∷ b'M' ∷ [], 14)
    ∷ (b'B' ∷ b'U' ∷ b'S' ∷ [], 7)
    ∷ (b'C' ∷ b'H' ∷ b'L' ∷ b'D' ∷ [], 17)
    ∷ (b'C' ∷ b'O' ∷ b'N' ∷ b'T' ∷ [], 18)
    ∷ (b'F' ∷ b'P' ∷ b'E' ∷ [], 8)
    ∷ (b'H' ∷ b'U' ∷ b'P' ∷ [], 1)
    ∷ (b'I' ∷ b'L' ∷ b'L' ∷ [], 4)
    ∷ (b'I' ∷ b'N' ∷ b'T' ∷ [], 2)
    ∷ (b'K' ∷ b'I' ∷ b'L' ∷ b'L' ∷ [], 9)
    ∷ (b'P' ∷ b'I' ∷ b'P' ∷ b'E' ∷ [], 13)
    ∷ (b'Q' ∷ b'U' ∷ b'I' ∷ b'T' ∷ [], 3)
    ∷ (b'S' ∷ b'E' ∷ b'G' ∷ b'V' ∷ [], 11)
    ∷ (b'S' ∷ b'T' ∷ b'O' ∷ b'P' ∷ [], 19)
    ∷ (b'T' ∷ b'E' ∷ b'R' ∷ b'M' ∷ [], 15)
    ∷ (b'T' ∷ b'S' ∷ b'T' ∷ b'P' ∷ [], 20)
    ∷ (b'T' ∷ b'T' ∷ b'I' ∷ b'N' ∷ [], 21)
    ∷ (b'T' ∷ b'T' ∷ b'O' ∷ b'U' ∷ [], 22)
    ∷ (b'U' ∷ b'S' ∷ b'R' ∷ b'1' ∷ [], 10)
    ∷ (b'U' ∷ b'S' ∷ b'R' ∷ b'2' ∷ [], 12)
    ∷ (b'P' ∷ b'O' ∷ b'L' ∷ b'L' ∷ [], 29)
    ∷ (b'P' ∷ b'R' ∷ b'O' ∷ b'F' ∷ [], 27)
    ∷ (b'S' ∷ b'Y' ∷ b'S' ∷ [], 31)
    ∷ (b'T' ∷ b'R' ∷ b'A' ∷ b'P' ∷ [], 5)
    ∷ (b'U' ∷ b'R' ∷ b'G' ∷ [], 23)
    ∷ (b'V' ∷ b'T' ∷ b'A' ∷ b'L' ∷ b'R' ∷ b'M' ∷ [], 26)
    ∷ (b'X' ∷ b'C' ∷ b'P' ∷ b'U' ∷ [], 24)
    ∷ (b'X' ∷ b'F' ∷ b'S' ∷ b'Z' ∷ [], 25)
    ∷ []

-- The loop over the table.
unfoldable pub find_signal : List (List ℕ × ℕ) → List ℕ → Option ℕ
find_signal [] signame = none
find_signal ((name, signo) ∷ table) signame =
    let rest = find_signal table signame in if strcasecmp name signame then some signo else rest
