-- ===== src/Grep.antt =====
-- The pattern matcher of user/grep.c. A pattern and a line are lists of bytes without their NUL.
pub mod Spec
mod Tests
use os_cea.Base.{ℕ, Bool, true, false, ◌&&◌, ◌||◌, List, [], ◌∷◌, ◌==◌, if◌then◌else◌}

-- `c == '.' || c == x`
abbrev pub fits : ℕ → ℕ → Bool
fits c x = c == b'.' || c == x

abbrev pub is_nil : List ℕ → Bool
is_nil [] = true
is_nil (x ∷ xs) = false

-- The loop of `matchstar`, where `here` is `matchhere` on the rest of the pattern.
pub matchstar : ℕ → (List ℕ → Bool) → List ℕ → Bool
matchstar c here [] = here []
matchstar c here (x ∷ text) = here (x ∷ text) || fits c x && matchstar c here text

-- The last test of `matchhere`.
pub match_one : ℕ → (List ℕ → Bool) → List ℕ → Bool
match_one c here [] = false
match_one c here (x ∷ text) = fits c x && here text

pub matchhere : List ℕ → List ℕ → Bool
matchhere [] text = true
matchhere (c ∷ []) text = if c == b'$' then is_nil text else match_one c (matchhere []) text
matchhere (c ∷ d ∷ re) text =
    if d == b'*' then matchstar c (matchhere re) text else match_one c (matchhere (d ∷ re)) text

-- The loop of `match` over the suffixes of the line.
pub match_from : List ℕ → List ℕ → Bool
match_from re [] = matchhere re []
match_from re (x ∷ text) = matchhere re (x ∷ text) || match_from re text

pub match : List ℕ → List ℕ → Bool
match [] text = match_from [] text
match (c ∷ re) text = if c == b'^' then matchhere re text else match_from (c ∷ re) text
