-- ===== src/Proc/Mlfq/Pick.antt =====
-- Which process the nested loops of `scheduler` choose (kernel/proc.c).
use mathlib.Core.Path.{subst}
use os_cea.Base.{
  ℕ, zero, suc, ◌≤◌, ◌<◌, ◌≡◌, ◌↔◌, inl, inr, true, false, none, some, refl, sym, ap, ◌∙◌, ==_refl,
  Bool-cases, List, get_elem?, find_index?, IsFirst, find_index?-IsFirst, find_index?-none,
  IsFirst-unique, Option-cases, true≢false, lt_or_eq_or_lt, arith,
}
use os_cea.Proc.{Proc, ProcState, unused, used, sleeping, runnable, running, zombie, is_runnable}
use os_cea.Proc.Mlfq.{mlfq_high, mlfq_medium, mlfq_low, candidate, pick}

-- No process of this level is runnable.
abbrev pub IsIdle : List Proc → ℕ → Type 0
IsIdle procs level = (j : ℕ) (p : Proc) → get_elem? procs j ≡ some p → candidate level p ≡ false

-- The chosen slot: the first runnable one of its level, with every higher level idle.
pub record IsBest (procs : List Proc) (i : ℕ) : Type 0 where
  pub level : ℕ
  pub exists : level ≤ mlfq_low
  pub first : IsFirst (candidate level) procs i
  pub higher : (l : ℕ) → l < level → IsIdle procs l

below_one : (procs : List Proc) → IsIdle procs 0 → (l : ℕ) → l < 1 → IsIdle procs l
below_one procs h zero lt = h
below_one procs h (suc l) lt = absurd (omega arith)

below_two : (procs : List Proc) → IsIdle procs 0 → IsIdle procs 1 → (l : ℕ) → l < 2 → IsIdle procs l
below_two procs h₀ h₁ zero lt = h₀
below_two procs h₀ h₁ (suc zero) lt = h₁
below_two procs h₀ h₁ (suc (suc l)) lt = absurd (omega arith)

below_three :
    (procs : List Proc)
    → IsIdle procs 0
    → IsIdle procs 1
    → IsIdle procs 2
    → (l : ℕ) → l < 3
    → IsIdle procs l
below_three procs h₀ h₁ h₂ (suc (suc (suc l))) lt = absurd (omega arith)
below_three procs h₀ h₁ h₂ zero lt = h₀
below_three procs h₀ h₁ h₂ (suc zero) lt = h₁
below_three procs h₀ h₁ h₂ (suc (suc zero)) lt = h₂

-- `scheduler` chooses a runnable process of the highest level that has one, and of that level the
-- one in the lowest slot.
pub pick-IsBest : (procs : List Proc) (i : ℕ) → pick procs ≡ some i → IsBest procs i
unfolding pick
pick-IsBest procs i h = elim (Option-cases (find_index? (candidate mlfq_high) procs)) [
  | inr (a, e) ↦ record {
    level = 0;
    exists = omega arith;
    first = find_index?-IsFirst _ procs i (ground arith);
    higher = λ l lt. absurd (omega arith);
  }
  | inl e ↦ elim (Option-cases (find_index? (candidate mlfq_medium) procs)) [
    | inr (b, e₁) ↦ record {
      level = 1;
      exists = omega arith;
      first = find_index?-IsFirst _ procs i (ground arith);
      higher = below_one procs (find_index?-none _ procs e);
    }
    | inl e₁ ↦ record {
      level = 2;
      exists = omega arith;
      first = find_index?-IsFirst _ procs i (ground arith);
      higher = below_two procs (find_index?-none _ procs e) (find_index?-none _ procs e₁);
    }
  ]
]

-- `scheduler` finds nothing to run only if no process of the three levels is runnable.
pub pick-none : (procs : List Proc) → pick procs ≡ none → (l : ℕ) → l ≤ mlfq_low → IsIdle procs l
unfolding pick
pick-none procs h l le = below_three procs h₀ h₁ h₂ l (omega arith)
  where
    h₀ : IsIdle procs 0
    h₀ = find_index?-none _ procs (ground arith)

    h₁ : IsIdle procs 1
    h₁ = find_index?-none _ procs (ground arith)

    h₂ : IsIdle procs 2
    h₂ = find_index?-none _ procs (ground arith)

IsBest-not-IsIdle : {procs : List Proc} {i : ℕ} (b : IsBest procs i) → IsIdle procs b.level → ⊥
IsBest-not-IsIdle {i = i} b idle = true≢false b.first.passes (idle i b.first.item b.first.at)

IsBest-unique : {procs : List Proc} (i j : ℕ) → IsBest procs i → IsBest procs j → i ≡ j
IsBest-unique {procs} i j a b = elim (lt_or_eq_or_lt a.level b.level) [
  | inl lt ↦ absurd (IsBest-not-IsIdle a (b.higher a.level lt))
  | inr (inl e) ↦
      IsFirst-unique (candidate b.level) i j (subst (λ l. IsFirst (candidate l) procs i) e a.first)
        b.first
  | inr (inr lt) ↦ absurd (IsBest-not-IsIdle b (a.higher b.level lt))
]

pub pick-IsBest_iff : (procs : List Proc) (i : ℕ) → (pick procs ≡ some i) ↔ IsBest procs i
pick-IsBest_iff procs i = (
  pick-IsBest procs i,
  λ best. elim (Option-cases (pick procs)) [
    | inl e ↦ absurd (IsBest-not-IsIdle best (pick-none procs e best.level best.exists))
    | inr (j, e) ↦ e ∙ ap some (IsBest-unique j i (pick-IsBest procs j e) best)
  ],
)

-- A process that is RUNNABLE and at this level.
abbrev pub IsReady : ℕ → Proc → Type 0
IsReady level p = (p.state ≡ runnable) × (p.priority ≡ level)

-- The slot of a process that is RUNNABLE at its level, with none such before it in the table, and with no
-- RUNNABLE process at a higher level, which is a smaller number.
pub record IsChosen (procs : List Proc) (i : ℕ) : Type 0 where
  pub item : Proc
  pub at : get_elem? procs i ≡ some item
  pub is_ready : item.state ≡ runnable
  pub exists : item.priority ≤ mlfq_low
  pub first : (j : ℕ) (p : Proc) → j < i → get_elem? procs j ≡ some p → ¬ IsReady item.priority p
  pub higher : (l j : ℕ) (p : Proc) → l < item.priority → get_elem? procs j ≡ some p → ¬ IsReady l p

is_runnable_lem : (s : ProcState) → is_runnable s ≡ true → s ≡ runnable
is_runnable_lem unused h = absurd cc
is_runnable_lem used h = absurd cc
is_runnable_lem sleeping h = absurd cc
is_runnable_lem runnable h = refl
is_runnable_lem running h = absurd cc
is_runnable_lem zombie h = absurd cc

candidate-IsReady : (l : ℕ) (p : Proc) → candidate l p ≡ true → IsReady l p
candidate-IsReady l p h =
    let r : is_runnable p.state ≡ true = grind arith in (is_runnable_lem p.state r, grind arith)

IsReady-candidate : (l : ℕ) (p : Proc) → IsReady l p → candidate l p ≡ true
IsReady-candidate l p (r, e) = rw (r, e) (==_refl l)

not-IsReady : (l : ℕ) (p : Proc) → candidate l p ≡ false → ¬ IsReady l p
not-IsReady l p f r = true≢false (IsReady-candidate l p r) f

not_candidate : (l : ℕ) (p : Proc) → ¬ IsReady l p → candidate l p ≡ false
not_candidate l p n = elim (Bool-cases (candidate l p)) [
  | inl t ↦ absurd (n (candidate-IsReady l p t))
  | inr f ↦ f
]

IsBest-IsChosen : (procs : List Proc) (i : ℕ) → IsBest procs i → IsChosen procs i
IsBest-IsChosen procs i b =
    let (r, e) = candidate-IsReady b.level b.first.item b.first.passes in
    record {
      item = b.first.item;
      at = b.first.at;
      is_ready = r;
      exists = omega (arith, b.exists);
      first = λ j p lt at.
          subst (λ l. ¬ IsReady l p) (sym e) (not-IsReady b.level p (b.first.before j p lt at));
      higher = λ l j p lt at. not-IsReady l p (b.higher l (omega arith) j p at);
    }

IsChosen-IsBest : (procs : List Proc) (i : ℕ) → IsChosen procs i → IsBest procs i
IsChosen-IsBest procs i c = record {
  level = c.item.priority;
  exists = c.exists;
  first = record {
    item = c.item;
    at = c.at;
    passes = IsReady-candidate c.item.priority c.item (c.is_ready, refl);
    before = λ j p lt at. not_candidate c.item.priority p (c.first j p lt at);
  };
  higher = λ l lt j p at. not_candidate l p (c.higher l j p lt at);
}

-- `scheduler` chooses a slot exactly when the process there is RUNNABLE at one of the three levels, no
-- process in an earlier slot is RUNNABLE at that level, and none at all at a higher level.
pub pick_iff : (procs : List Proc) (i : ℕ) → (pick procs ≡ some i) ↔ IsChosen procs i
pick_iff procs i =
    let (to, from) = pick-IsBest_iff procs i in
    (λ e. IsBest-IsChosen procs i (to e), λ c. from (IsChosen-IsBest procs i c))
