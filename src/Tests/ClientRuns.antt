-- ===== src/Tests/ClientRuns.antt =====
-- src/cyberctl.c on one command line.
use cyberd.Base.{ℕ, List, [], ◌∷◌}
use cyberd.Client.{Build, Opt, endpoint_option}

abbrev build : Build
build = record { endpoints_path = b'd' ∷ []; endpoints_root = b'i' ∷ [] }

-- `stop a`
abbrev arguments : List (List ℕ)
arguments = (b's' ∷ b't' ∷ b'o' ∷ b'p' ∷ []) ∷ (b'a' ∷ []) ∷ []

abbrev initctl : List ℕ
initctl = b'i' ∷ b'n' ∷ b'i' ∷ b't' ∷ b'c' ∷ b't' ∷ b'l' ∷ []

abbrev options : List Opt
options = endpoint_option (b'x' ∷ []) ∷ []
