-- ===== src/Grep/Tests.antt =====
-- The matcher's theorems on the pattern `ab*$`.
use os_cea.Base.{ℕ, ◌≡◌, ◌≢◌, ◌↔◌, true, List, [], ◌∷◌, refl}
use os_cea.Grep.{match, matchhere, match_from, match_one, matchstar}
use os_cea.Grep.Spec.{Here, Somewhere, matchhere_iff, match_iff}

abbrev a : ℕ
a = b'a'

abbrev caret : ℕ
caret = b'^'

abbrev pattern_rest : List ℕ
pattern_rest = b'b' ∷ b'*' ∷ b'$' ∷ []

abbrev text : List ℕ
text = b'x' ∷ b'a' ∷ b'b' ∷ b'b' ∷ []

found : match (a ∷ pattern_rest) text ≡ true
unfolding match matchhere match_from match_one matchstar
found = refl

match_iff_example :
    ((a ≡ caret) → (match (a ∷ pattern_rest) text ≡ true) ↔ Here pattern_rest text)
    × ((a ≢ caret) → (match (a ∷ pattern_rest) text ≡ true) ↔ Somewhere (a ∷ pattern_rest) text)
match_iff_example = match_iff a pattern_rest text

matchhere_iff_example : (matchhere (a ∷ pattern_rest) text ≡ true) ↔ Here (a ∷ pattern_rest) text
matchhere_iff_example = matchhere_iff (a ∷ pattern_rest) text
