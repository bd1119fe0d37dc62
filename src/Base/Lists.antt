-- ===== src/Base/Lists.antt =====
-- C arrays as lists with native indices: reading, writing, scanning for the first match.
use Prim.Native.Nat.{ℕ, zero, suc, ◌+◌, ◌<◌}
use mathlib.Core.Path.{◌≡◌, refl, sym, ap, subst, ◌∙◌}
use mathlib.Core.Logic.{◌≢◌}
use mathlib.Core.Bool.{Bool, true, false}
use mathlib.Core.List.{List, [], ◌∷◌, ◌++◌, map}
use mathlib.Core.Option.{Option, none, some, some-injective}
use mathlib.Core.Option
use native.Mathlib.Omega.{arith}
use os_cea.Base.Tests.{if◌then◌else◌, Bool-cases, Option-cases, true≢false, lt_or_eq_or_lt}
use mathlib.Core.Logic.{◌⊎◌, inl, inr}

module _ {ℓ} {A : Type ℓ} where
  abbrev pub length : List A → ℕ
  length [] = 0
  length (x ∷ xs) = suc (length xs)

  abbrev pub get_elem? : List A → ℕ → Option A
  get_elem? [] i = none
  get_elem? (x ∷ xs) zero = some x
  get_elem? (x ∷ xs) (suc i) = get_elem? xs i

  abbrev pub get_or : List A → ℕ → A → A
  get_or [] i d = d
  get_or (x ∷ xs) zero d = x
  get_or (x ∷ xs) (suc i) d = get_or xs i d

  -- A write out of bounds changes nothing.
  abbrev pub set : List A → ℕ → A → List A
  set [] i v = []
  set (x ∷ xs) zero v = v ∷ xs
  set (x ∷ xs) (suc i) v = x ∷ set xs i v

  abbrev pub modify : List A → ℕ → (A → A) → List A
  modify [] i f = []
  modify (x ∷ xs) zero f = f x ∷ xs
  modify (x ∷ xs) (suc i) f = x ∷ modify xs i f

  -- `for (p = a; p < &a[N]; p++) if (test(p)) …`: the first index that passes the test.
  abbrev pub find_index? : (A → Bool) → List A → Option ℕ
  find_index? test [] = none
  find_index? test (x ∷ xs) =
      let rest = find_index? test xs in if test x then some 0 else Option.map suc rest

  pub length-append : (xs ys : List A) → length (xs ++ ys) ≡ length xs + length ys
  length-append [] ys = omega arith
  length-append (x ∷ xs) ys = omega (arith, length-append xs ys)

  pub length-set : (xs : List A) (i : ℕ) (v : A) → length (set xs i v) ≡ length xs
  length-set [] i v = refl
  length-set (x ∷ xs) zero v = refl
  length-set (x ∷ xs) (suc i) v = ap suc (length-set xs i v)

  pub length-modify : (xs : List A) (i : ℕ) (f : A → A) → length (modify xs i f) ≡ length xs
  length-modify [] i f = refl
  length-modify (x ∷ xs) zero f = refl
  length-modify (x ∷ xs) (suc i) f = ap suc (length-modify xs i f)

module _ {ℓ} {A : Type ℓ} where
  pub get_elem?-modify_self :
      (xs : List A) (i : ℕ) (f : A → A)
      → get_elem? (modify xs i f) i ≡ Option.map f (get_elem? xs i)
  get_elem?-modify_self [] i f = refl
  get_elem?-modify_self (x ∷ xs) zero f = refl
  get_elem?-modify_self (x ∷ xs) (suc i) f = get_elem?-modify_self xs i f

  pub get_elem?-modify_ne :
      (xs : List A) (i j : ℕ) (f : A → A) → i ≢ j → get_elem? (modify xs i f) j ≡ get_elem? xs j
  get_elem?-modify_ne [] i j f h = refl
  get_elem?-modify_ne (x ∷ xs) zero zero f h = absurd (h refl)
  get_elem?-modify_ne (x ∷ xs) zero (suc j) f h = refl
  get_elem?-modify_ne (x ∷ xs) (suc i) zero f h = refl
  get_elem?-modify_ne (x ∷ xs) (suc i) (suc j) f h =
      get_elem?-modify_ne xs i j f (λ e. h (ap suc e))

  pub get_elem?-set_self :
      (xs : List A) (i : ℕ) (v : A) → i < length xs → get_elem? (set xs i v) i ≡ some v
  get_elem?-set_self [] i v h = elim h [ ]
  get_elem?-set_self (x ∷ xs) zero v h = refl
  get_elem?-set_self (x ∷ xs) (suc i) v h = get_elem?-set_self xs i v (omega arith)

  pub get_elem?-set_ne :
      (xs : List A) {i j : ℕ} (v : A) → i ≢ j → get_elem? (set xs i v) j ≡ get_elem? xs j
  get_elem?-set_ne [] v h = refl
  get_elem?-set_ne (x ∷ xs) {i = zero} {j = zero} v h = absurd (h refl)
  get_elem?-set_ne (x ∷ xs) {i = zero} {j = suc j} v h = refl
  get_elem?-set_ne (x ∷ xs) {i = suc i} {j = zero} v h = refl
  get_elem?-set_ne (x ∷ xs) {i = suc i} {j = suc j} v h = get_elem?-set_ne xs v (λ e. h (ap suc e))

  pub get_elem?-map {κ} :
      {B : Type κ} (xs : List A) (f : A → B) (i : ℕ)
      → get_elem? (map f xs) i ≡ Option.map f (get_elem? xs i)
  get_elem?-map [] f i = refl
  get_elem?-map (x ∷ xs) f zero = refl
  get_elem?-map (x ∷ xs) f (suc i) = get_elem?-map xs f i

-- What a scan has found: an element that passes, and none before it that does.
pub record IsFirst {ℓ} {A : Type ℓ} (test : A → Bool) (xs : List A) (i : ℕ) : Type ℓ where
  pub item : A
  pub at : get_elem? xs i ≡ some item
  pub passes : test item ≡ true
  pub before : (j : ℕ) (y : A) → j < i → get_elem? xs j ≡ some y → test y ≡ false

module _ {ℓ} {A : Type ℓ} (test : A → Bool) where
  here-IsFirst : (x : A) (xs : List A) (i : ℕ) → test x ≡ true → i ≡ 0 → IsFirst test (x ∷ xs) i
  here-IsFirst x xs zero t e = record {
    item = x;
    at = refl;
    passes = t;
    before = λ j y lt _. absurd (omega arith);
  }
  here-IsFirst x xs (suc i) t e = absurd (omega arith)

  later-IsFirst :
      (x : A) (xs : List A) (i : ℕ)
      → test x ≡ false
      → IsFirst test xs i
      → IsFirst test (x ∷ xs) (suc i)
  later-IsFirst x xs i t f = record {
    item = f.item;
    at = f.at;
    passes = f.passes;
    before = earlier;
  }
    where
      earlier : (j : ℕ) (y : A) → j < suc i → get_elem? (x ∷ xs) j ≡ some y → test y ≡ false
      earlier zero y lt e = subst (λ z. test z ≡ false) (some-injective _ _ e) t
      earlier (suc j) y lt e = f.before j y (omega arith) e

  -- A scan that stops has found the first element that passes.
  pub find_index?-IsFirst : (xs : List A) (i : ℕ) → find_index? test xs ≡ some i → IsFirst test xs i
  find_index?-IsFirst [] i h = absurd (cc)
  find_index?-IsFirst (x ∷ xs) i h = elim (Bool-cases (test x)) [
    | inl t ↦ here-IsFirst x xs i t (ground arith)
    | inr t ↦ elim (Option-cases (find_index? test xs)) [
      | inl e ↦ absurd (ground arith)
      | inr (k, e) ↦
          (let e' : suc k ≡ i = ground arith in
            subst (IsFirst test (x ∷ xs)) e' (later-IsFirst x xs k t (find_index?-IsFirst xs k e)))
    ]
  ]

  -- A scan that finds nothing has seen every element fail.
  pub find_index?-none :
      (xs : List A)
      → find_index? test xs ≡ none
      → (j : ℕ) (y : A) → get_elem? xs j ≡ some y
      → test y ≡ false
  find_index?-none [] h j y e = absurd (cc)
  find_index?-none (x ∷ xs) h zero y e = ground arith
  find_index?-none (x ∷ xs) h (suc j) y e = find_index?-none xs (ground arith) j y e

  pub IsFirst-unique : {xs : List A} (i j : ℕ) → IsFirst test xs i → IsFirst test xs j → i ≡ j
  IsFirst-unique i j f g = elim (lt_or_eq_or_lt i j) [
    | inl lt ↦ absurd (true≢false f.passes (g.before i f.item lt f.at))
    | inr (inl e) ↦ e
    | inr (inr lt) ↦ absurd (true≢false g.passes (f.before j g.item lt g.at))
  ]

-- Where an element of a mapped or modified list comes from.
module _ {ℓ} {A : Type ℓ} where
  pub get_elem?-map_inv {κ} :
      {B : Type κ} (f : A → B) (xs : List A) (i : ℕ) {b : B}
      → get_elem? (map f xs) i ≡ some b
      → (a : A) × (get_elem? xs i ≡ some a) × (b ≡ f a)
  get_elem?-map_inv f [] i h = absurd (cc)
  get_elem?-map_inv f (x ∷ xs) zero h = (x, refl, sym (some-injective _ _ h))
  get_elem?-map_inv f (x ∷ xs) (suc i) h = get_elem?-map_inv f xs i h

  pub get_elem?-modify_inv :
      (xs : List A) (i j : ℕ) (f : A → A) {b : A}
      → get_elem? (modify xs i f) j ≡ some b
      → (a : A) × (get_elem? xs j ≡ some a) × ((i ≡ j) × (b ≡ f a) ⊎ (i ≢ j) × (b ≡ a))
  get_elem?-modify_inv [] i j f h = absurd (cc)
  get_elem?-modify_inv (x ∷ xs) zero zero f h = (x, refl, inl (refl, sym (some-injective _ _ h)))
  get_elem?-modify_inv (x ∷ xs) zero (suc j) f {b} h = (b, h, inr (omega arith, refl))
  get_elem?-modify_inv (x ∷ xs) (suc i) zero f {b} h = (b, h, inr (omega arith, refl))
  get_elem?-modify_inv (x ∷ xs) (suc i) (suc j) f h =
      let (a, at, came) = get_elem?-modify_inv xs i j f h in
      (
        a,
        at,
        elim came [ inl (e, v) ↦ inl (ap suc e, v) | inr (e, v) ↦ inr ((λ s. e (omega arith)), v) ],
      )

  pub get_elem?-lt-length : (xs : List A) (i : ℕ) {a : A} → get_elem? xs i ≡ some a → i < length xs
  get_elem?-lt-length [] i h = absurd (cc)
  get_elem?-lt-length (x ∷ xs) zero h = omega arith
  get_elem?-lt-length (x ∷ xs) (suc i) h = omega (arith, get_elem?-lt-length xs i h)

module _ {ℓ} {A : Type ℓ} where
  pub modify-modify :
      (xs : List A) (i : ℕ) (f g : A → A) → modify (modify xs i f) i g ≡ modify xs i (λ x. g (f x))
  modify-modify [] i f g = refl
  modify-modify (x ∷ xs) zero f g = refl
  modify-modify (x ∷ xs) (suc i) f g = ap (λ ys. x ∷ ys) (modify-modify xs i f g)

  pub get_or-set_self :
      (xs : List A) (i : ℕ) (v d : A) → i < length xs → get_or (set xs i v) i d ≡ v
  get_or-set_self [] i v d h = absurd (omega arith)
  get_or-set_self (x ∷ xs) zero v d h = refl
  get_or-set_self (x ∷ xs) (suc i) v d h = get_or-set_self xs i v d (omega arith)

  pub get_or-set_ne :
      (xs : List A) (i j : ℕ) (v d : A) → i ≢ j → get_or (set xs i v) j d ≡ get_or xs j d
  get_or-set_ne [] i j v d h = refl
  get_or-set_ne (x ∷ xs) zero zero v d h = absurd (h refl)
  get_or-set_ne (x ∷ xs) zero (suc j) v d h = refl
  get_or-set_ne (x ∷ xs) (suc i) zero v d h = refl
  get_or-set_ne (x ∷ xs) (suc i) (suc j) v d h = get_or-set_ne xs i j v d (λ e. h (ap suc e))

module _ {ℓ} {A : Type ℓ} (test : A → Bool) where
  pub IsFirst-find_index? : (xs : List A) (i : ℕ) → IsFirst test xs i → find_index? test xs ≡ some i
  IsFirst-find_index? xs i f = elim (Option-cases (find_index? test xs)) [
    | inl e ↦ absurd (true≢false f.passes (find_index?-none test xs e i f.item f.at))
    | inr (j, e) ↦ e ∙ ap some (IsFirst-unique test j i (find_index?-IsFirst test xs j e) f)
  ]

  pub find_index?-modify :
      (xs : List A) (i : ℕ) (f : A → A)
      → ((x : A) → test (f x) ≡ test x)
      → find_index? test (modify xs i f) ≡ find_index? test xs
  find_index?-modify [] i f h = refl
  find_index?-modify (x ∷ xs) zero f h = rw (h x)
  find_index?-modify (x ∷ xs) (suc i) f h = rw (find_index?-modify xs i f h)

pub List-cases {ℓ} : {A : Type ℓ} (s : List A) → (s ≡ []) ⊎ ((c : A) × (t : List A) × (s ≡ c ∷ t))
List-cases [] = inl refl
List-cases (c ∷ t) = inr (c, t, refl)
