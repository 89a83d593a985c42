-- ===== src/DaemonConf/Numbers.antt =====
-- strtoul(3) and strtol(3), as src/cyberd/daemon_conf.c uses them: in a base of at most ten, on a
-- 64-bit machine. A string is the list of its bytes.
use cyberd.Base.{
  ℕ, zero, suc, ◌+◌, ◌-◌, ◌*◌, ◌^◌, ◌%◌, Bool, true, false, not, ◌&&◌, ◌||◌, List, [], ◌∷◌, ltb,
  leb, ◌==◌, if◌then◌else◌, ℤ, pos, negsuc,
}

abbrev pub isspace : ℕ → Bool
isspace c = (c == 32) || (leb 9 c && leb c 13)

abbrev pub isdigit : ℕ → Bool
isdigit c = leb b'0' c && leb c b'9'

unfoldable pub skip_spaces : List ℕ → List ℕ
skip_spaces [] = []
skip_spaces (c ∷ s) = let rest = skip_spaces s in if isspace c then rest else c ∷ s

-- The digits at the head, over those read so far, and what follows them.
unfoldable pub read_digits : ℕ → ℕ → List ℕ → ℕ × List ℕ
read_digits base n [] = (n, [])
read_digits base n (c ∷ s) =
    let rest = read_digits base (n * base + (c - b'0')) s in
    if leb b'0' c && ltb (c - b'0') base then rest else (n, c ∷ s)

-- The sign, and what follows it.
unfoldable pub read_sign : List ℕ → Bool × List ℕ
read_sign [] = (false, [])
read_sign (c ∷ s) =
    if c == b'-' then (true, s) else if c == b'+' then (false, s) else (false, c ∷ s)

abbrev starts_digit : ℕ → List ℕ → Bool
starts_digit base [] = false
starts_digit base (c ∷ s) = leb b'0' c && ltb (c - b'0') base

-- The value and the end pointer; without a digit the end is the start.
unfoldable pub strtoul : ℕ → List ℕ → ℕ × List ℕ
strtoul base s =
    let (negative, digits) = read_sign (skip_spaces s) in
    let (n, rest) = read_digits base 0 digits in
    if not (starts_digit base digits)
    then (0, s)
    else if leb (2 ^ 64) n
    then (2 ^ 64 - 1, rest)
    else if negative
    then ((2 ^ 64 - n) % 2 ^ 64, rest)
    else (n, rest)

abbrev negate : ℕ → ℤ
negate zero = pos 0
negate (suc n) = negsuc n

unfoldable pub strtol : ℕ → List ℕ → ℤ × List ℕ
strtol base s =
    let (negative, digits) = read_sign (skip_spaces s) in
    let (n, rest) = read_digits base 0 digits in
    if not (starts_digit base digits)
    then (pos 0, s)
    else if negative
    then (if leb (2 ^ 63) n then negsuc (2 ^ 63 - 1) else negate n, rest)
    else (if leb (2 ^ 63) n then pos (2 ^ 63 - 1) else pos n, rest)
