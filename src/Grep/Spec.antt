-- ===== src/Grep/Spec.antt =====
-- What a pattern of user/grep.c means, and that the matcher decides it.
use native.Mathlib.Decide.{ℕ_discrete}
use os_cea.Base.{
  ℕ, ◌≡◌, ◌≢◌, ◌↔◌, ◌⊎◌, inl, inr, refl, sym, ap, ◌∙◌, Bool, true, List, [], ◌∷◌, ◌++◌, arith,
  Bool-cases,
}
use os_cea.Grep.{fits, is_nil, matchstar, match_one, matchhere, match_from, match}

abbrev pub All {ℓ} : {A : Type ℓ} → (A → Type 0) → List A → Type 0
All P [] = Unit
All P (x ∷ xs) = P x × All P xs

-- A pattern byte that stands for itself or for any byte: no star behind it, and no `$` at the end.
abbrev pub IsPlain : ℕ → List ℕ → Type 0
IsPlain c [] = c ≢ b'$'
IsPlain c (d ∷ re) = d ≢ b'*'

abbrev pub Fits : ℕ → ℕ → Type 0
Fits c x = (c ≡ b'.') ⊎ (c ≡ x)

-- A pattern matches at the beginning of a text.
pub data Here : List ℕ → List ℕ → Type 0 where
  empty : {text : List ℕ} → Here [] text
  star :
      {c d : ℕ} {re text : List ℕ} (xs rest : List ℕ)
      → d ≡ b'*'
      → All (Fits c) xs
      → text ≡ xs ++ rest
      → Here re rest
      → Here (c ∷ d ∷ re) text
  end : {c : ℕ} → c ≡ b'$' → Here (c ∷ []) []
  one :
      {c x : ℕ} {re text : List ℕ}
      → IsPlain c re
      → Fits c x
      → Here re text
      → Here (c ∷ re) (x ∷ text)

fits→Fits : (c x : ℕ) → fits c x ≡ true → Fits c x
fits→Fits c x h = grind arith

Fits→fits : (c x : ℕ) → Fits c x → fits c x ≡ true
Fits→fits c x (inl e) = ground arith
Fits→fits c x (inr e) = ground arith

-- `matchstar` finds a split of the text, whatever the rest of the pattern is.
abbrev Split : ℕ → (List ℕ → Bool) → List ℕ → Type 0
Split c here text =
    (xs : List ℕ) × (rest : List ℕ) × All (Fits c) xs × (text ≡ xs ++ rest) × (here rest ≡ true)

matchstar_sound :
    (c : ℕ) (here : List ℕ → Bool) (text : List ℕ)
    → matchstar c here text ≡ true
    → Split c here text
unfolding matchstar
matchstar_sound c here [] h = ([], [], tt, refl, h)
matchstar_sound c here (x ∷ text) h = elim (Bool-cases (here (x ∷ text))) [
  | inl now ↦ ([], x ∷ text, tt, refl, now)
  | inr no_match ↦
      (let (xs, rest, all, e, m) = matchstar_sound c here text (ground arith) in
        (x ∷ xs, rest, (fits→Fits c x (ground arith), all), ap (λ (l : List ℕ). x ∷ l) e, m))
]

matchstar-here :
    (c : ℕ) (here : List ℕ → Bool) (text : List ℕ) → here text ≡ true → matchstar c here text ≡ true
unfolding matchstar
matchstar-here c here [] h = h
matchstar-here c here (x ∷ text) h = rw h

matchstar_complete :
    (c : ℕ) (here : List ℕ → Bool) (xs rest : List ℕ)
    → All (Fits c) xs
    → here rest ≡ true
    → matchstar c here (xs ++ rest) ≡ true
unfolding matchstar
matchstar_complete c here [] rest all h = matchstar-here c here rest h
matchstar_complete c here (x ∷ xs) rest all h =
    let f = Fits→fits c x all.0 in let m = matchstar_complete c here xs rest all.1 h in ground arith

match_one_sound :
    (c : ℕ) (here : List ℕ → Bool) (text : List ℕ)
    → match_one c here text ≡ true
    → (x : ℕ) × (rest : List ℕ) × (text ≡ x ∷ rest) × Fits c x × (here rest ≡ true)
unfolding match_one
match_one_sound c here [] h = absurd (cc)
match_one_sound c here (x ∷ text) h = (x, text, refl, fits→Fits c x (ground arith), ground arith)

match_one_complete :
    (c x : ℕ) (here : List ℕ → Bool) (text : List ℕ)
    → Fits c x
    → here text ≡ true
    → match_one c here (x ∷ text) ≡ true
unfolding match_one
match_one_complete c x here text f h = let g = Fits→fits c x f in ground arith

is_nil-eq : (text : List ℕ) → is_nil text ≡ true → text ≡ []
is_nil-eq [] h = refl
is_nil-eq (x ∷ text) h = absurd (cc)

module _ (c : ℕ) (text : List ℕ) where
  matchhere_end : c ≡ b'$' → matchhere (c ∷ []) text ≡ is_nil text
  unfolding matchhere
  matchhere_end e = ground arith

  matchhere_last : c ≢ b'$' → matchhere (c ∷ []) text ≡ match_one c (matchhere []) text
  unfolding matchhere
  matchhere_last e = ground arith

module _ (c d : ℕ) (re text : List ℕ) where
  matchhere_star : d ≡ b'*' → matchhere (c ∷ d ∷ re) text ≡ matchstar c (matchhere re) text
  unfolding matchhere
  matchhere_star e = ground arith

  matchhere_plain : d ≢ b'*' → matchhere (c ∷ d ∷ re) text ≡ match_one c (matchhere (d ∷ re)) text
  unfolding matchhere
  matchhere_plain e = ground arith

matchhere-sound : (re text : List ℕ) → matchhere re text ≡ true → Here re text
matchhere-sound [] text h = empty
matchhere-sound (c ∷ []) text h = elim (ℕ_discrete c b'$') [
  | yes e ↦ rw (is_nil-eq text (sym (matchhere_end c text e) ∙ h)) (end e)
  | no ne ↦
      (let (x, rest, e, f, m) =
          match_one_sound c (matchhere []) text (sym (matchhere_last c text ne) ∙ h) in
        rw e (one ne f empty))
]
matchhere-sound (c ∷ d ∷ re) text h = elim (ℕ_discrete d b'*') [
  | yes e ↦
      (let (xs, rest, all, s, m) =
          matchstar_sound c (matchhere re) text (sym (matchhere_star c d re text e) ∙ h) in
        star xs rest e all s (matchhere-sound re rest m))
  | no ne ↦
      (let (x, rest, e, f, m) =
          match_one_sound c (matchhere (d ∷ re)) text (sym (matchhere_plain c d re text ne) ∙ h) in
        rw e (one ne f (matchhere-sound (d ∷ re) rest m)))
]

matchhere-nil : (text : List ℕ) → matchhere [] text ≡ true
unfolding matchhere
matchhere-nil text = refl

matchhere_complete : {re text : List ℕ} → Here re text → matchhere re text ≡ true
matchhere_complete {text = text} empty = matchhere-nil text
matchhere_complete {re = re} {text = text} (star {c = c} {d = d} {re = tail} xs rest e all s h) =
    matchhere_star c d tail text e
    ∙ rw s (matchstar_complete c (matchhere tail) xs rest all (matchhere_complete h))
matchhere_complete (end {c = c} e) = matchhere_end c [] e
matchhere_complete (one {c = c} {x = x} {re = []} {text = text} p f h) =
    matchhere_last c (x ∷ text) p
    ∙ match_one_complete c x (matchhere []) text f (matchhere_complete h)
matchhere_complete (one {c = c} {x = x} {re = d ∷ re} {text = text} p f h) =
    matchhere_plain c d re (x ∷ text) p
    ∙ match_one_complete c x (matchhere (d ∷ re)) text f (matchhere_complete h)

-- `matchhere` decides whether the pattern matches at the beginning of the text.
pub matchhere_iff : (re text : List ℕ) → (matchhere re text ≡ true) ↔ Here re text
matchhere_iff re text = (matchhere-sound re text, matchhere_complete)

-- The pattern matches somewhere in the text.
abbrev pub Somewhere : List ℕ → List ℕ → Type 0
Somewhere re text = (before : List ℕ) × (after : List ℕ) × (text ≡ before ++ after) × Here re after

match_from_sound : (re text : List ℕ) → match_from re text ≡ true → Somewhere re text
unfolding match_from
match_from_sound re [] h = ([], [], refl, matchhere-sound re [] h)
match_from_sound re (x ∷ text) h = elim (Bool-cases (matchhere re (x ∷ text))) [
  | inl now ↦ ([], x ∷ text, refl, matchhere-sound re (x ∷ text) now)
  | inr later ↦
      (let (b, a, e, m) = match_from_sound re text (ground arith) in
        (x ∷ b, a, ap (λ (l : List ℕ). x ∷ l) e, m))
]

match_from-here : (re text : List ℕ) → matchhere re text ≡ true → match_from re text ≡ true
unfolding match_from
match_from-here re [] h = h
match_from-here re (x ∷ text) h = rw h

match_from_complete :
    (re before after : List ℕ) → matchhere re after ≡ true → match_from re (before ++ after) ≡ true
unfolding match_from
match_from_complete re [] after h = match_from-here re after h
match_from_complete re (x ∷ before) after h =
    let m = match_from_complete re before after h in ground arith

-- A pattern that does not begin with `^` is found by `match` exactly if it matches somewhere in the
-- line; behind a `^`, exactly if it matches at the beginning.
pub match_iff :
    (c : ℕ) (re text : List ℕ)
    → ((c ≡ b'^') → (match (c ∷ re) text ≡ true) ↔ Here re text)
      × ((c ≢ b'^') → (match (c ∷ re) text ≡ true) ↔ Somewhere (c ∷ re) text)
unfolding match
match_iff c re text = (
  λ e. (
    λ h. matchhere-sound re text (ground arith),
    λ m. (let h = matchhere_complete m in ground arith),
  ),
  λ ne. (λ h. match_from_sound (c ∷ re) text (ground arith), λ m. found ne m),
)
  where
    found : c ≢ b'^' → Somewhere (c ∷ re) text → match (c ∷ re) text ≡ true
    found ne (before, after, e, m) =
        let h : match_from (c ∷ re) text ≡ true =
          rw e (match_from_complete (c ∷ re) before after (matchhere_complete m)) in
        ground arith
