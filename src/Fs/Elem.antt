-- ===== src/Fs/Elem.antt =====
-- What skipelem cuts off a path (kernel/fs.c).
use os_cea.Base.{
  List-cases, ℕ, ◌≡◌, ◌≢◌, ◌⊎◌, inl, inr, refl, sym, ap, ◌∙◌, none, some, List, [], ◌∷◌, ◌++◌,
  arith,
}
use native.Mathlib.Decide.{ℕ_discrete}
use mathlib.Core.Path.{subst}
use mathlib.Core.List.{append-nil}
use os_cea.Fs.{dirsiz, slash, skip_slashes, take_elem, first_bytes, skipelem}

abbrev pub AreSlashes : List ℕ → Type 0
AreSlashes [] = Unit
AreSlashes (c ∷ s) = (c ≡ slash) × AreSlashes s

abbrev pub HasNoSlash : List ℕ → Type 0
HasNoSlash [] = Unit
HasNoSlash (c ∷ s) = (c ≢ slash) × HasNoSlash s

-- The path is at its end, or at something other than a slash.
abbrev pub IsPastSlashes : List ℕ → Type 0
IsPastSlashes [] = Unit
IsPastSlashes (c ∷ s) = c ≢ slash

-- The path is at its end, or at a slash.
abbrev pub IsPastElem : List ℕ → Type 0
IsPastElem [] = Unit
IsPastElem (c ∷ s) = c ≡ slash

skip_slashes-split :
    (path : List ℕ)
    → (front : List ℕ) × (path ≡ front ++ skip_slashes path)
      × AreSlashes front
      × IsPastSlashes (skip_slashes path)
unfolding skip_slashes
skip_slashes-split [] = ([], refl, tt, tt)
skip_slashes-split (c ∷ path) = elim (ℕ_discrete c slash) [
  | yes e ↦
      (let (front, eq, sl, past) = skip_slashes-split path in
        (c ∷ front, stays e front eq, (e, sl), subst IsPastSlashes (sym (step e)) past))
  | no ne ↦ ([], sym (stop ne), tt, subst IsPastSlashes (sym (stop ne)) ne)
]
  where
    step : c ≡ slash → skip_slashes (c ∷ path) ≡ skip_slashes path
    step e = ground arith

    stop : c ≢ slash → skip_slashes (c ∷ path) ≡ c ∷ path
    stop ne = ground arith

    stays :
        c ≡ slash
        → (front : List ℕ) → path ≡ front ++ skip_slashes path
        → c ∷ path ≡ (c ∷ front) ++ skip_slashes (c ∷ path)
    stays e front eq = ap (λ p. c ∷ p) (eq ∙ ap (λ r. front ++ r) (sym (step e)))

take_elem-split :
    (path : List ℕ)
    → (path ≡ (take_elem path).0 ++ (take_elem path).1)
      × HasNoSlash (take_elem path).0
      × IsPastElem (take_elem path).1
unfolding take_elem
take_elem-split [] = (refl, tt, tt)
take_elem-split (c ∷ path) = elim (ℕ_discrete c slash) [
  | yes e ↦ rw (step e) (refl, tt, e)
  | no ne ↦
      (let (eq, free, past) = take_elem-split path in
        rw (more ne) (ap (λ p. c ∷ p) eq, (ne, free), past))
]
  where
    step : c ≡ slash → take_elem (c ∷ path) ≡ ([], c ∷ path)
    step e = ground arith

    more : c ≢ slash → take_elem (c ∷ path) ≡ (c ∷ (take_elem path).0, (take_elem path).1)
    more ne = ground arith

-- How a path is cut.
pub record IsCut (path elem rest : List ℕ) : Type 0 where
  pub front : List ℕ
  pub between : List ℕ
  pub whole : path ≡ front ++ (elem ++ (between ++ rest))
  pub front_slashes : AreSlashes front
  pub between_slashes : AreSlashes between
  pub plain : HasNoSlash elem
  pub some_byte : elem ≢ []
  pub past : IsPastSlashes rest
  pub ends : (between ≢ []) ⊎ (rest ≡ [])

AreSlashes-skip : (path : List ℕ) → skip_slashes path ≡ [] → AreSlashes path
AreSlashes-skip path e =
    let (front, eq, sl, past) = skip_slashes-split path in
    subst AreSlashes (sym (eq ∙ ap (λ r. front ++ r) e ∙ append-nil front)) sl

skipelem-nil : (path : List ℕ) → skip_slashes path ≡ [] → skipelem path ≡ none
unfolding skipelem
skipelem-nil path e = rw (e, skipelem) refl

skipelem-cons :
    (path : List ℕ) (c : ℕ) (s : List ℕ)
    → skip_slashes path ≡ c ∷ s
    → skipelem path
      ≡ some (first_bytes dirsiz (take_elem (c ∷ s)).0, skip_slashes (take_elem (c ∷ s)).1)
unfolding skipelem
skipelem-cons path c s e = rw (e, skipelem) refl

elem-some : (c : ℕ) (s : List ℕ) → c ≢ slash → (take_elem (c ∷ s)).0 ≢ []
unfolding take_elem
elem-some c s ne h = ground arith

-- What follows an element is a slash, or nothing.
ends_lem :
    (tail between rest : List ℕ)
    → IsPastElem tail
    → tail ≡ between ++ rest
    → IsPastSlashes rest
    → (between ≢ []) ⊎ (rest ≡ [])
ends_lem tail (c ∷ between) rest past e p = inl (λ z. cc)
ends_lem tail [] [] past e p = inr refl
ends_lem tail [] (c ∷ rest) past e p = absurd (p (subst IsPastElem e past))

-- `skipelem` finds no element only in a path of slashes. Otherwise the path is slashes, an element of
-- at least one byte with no slash in it, slashes, and the rest, which does not begin with one; between
-- the element and the rest there is at least one slash, unless the rest is empty. The name is the
-- element's first DIRSIZ bytes.
pub skipelem-IsCut :
    (path : List ℕ)
    → ((skipelem path ≡ none) × AreSlashes path)
      ⊎ ((elem rest : List ℕ) × (skipelem path ≡ some (first_bytes dirsiz elem, rest))
          × IsCut path elem rest)
skipelem-IsCut path = elim (List-cases (skip_slashes path)) [
  | inl e ↦ inl (skipelem-nil path e, AreSlashes-skip path e)
  | inr (c, s, e) ↦
      (let (front, eq, sl, past) = skip_slashes-split path in
        let (eq', free, stop) = take_elem-split (c ∷ s) in
        let (between, eq'', sl'', past'') = skip_slashes-split (take_elem (c ∷ s)).1 in
        inr (
          (take_elem (c ∷ s)).0,
          skip_slashes (take_elem (c ∷ s)).1,
          skipelem-cons path c s e,
          record {
            front = front;
            between = between;
            whole = eq ∙ ap (λ r. front ++ r) (e ∙ eq' ∙ ap (λ r. (take_elem (c ∷ s)).0 ++ r) eq'');
            front_slashes = sl;
            between_slashes = sl'';
            plain = free;
            some_byte = elem-some c s (subst IsPastSlashes e past);
            past = past'';
            ends =
                ends_lem (take_elem (c ∷ s)).1 between (skip_slashes (take_elem (c ∷ s)).1) stop
                  eq'' past'';
          },
        ))
]
