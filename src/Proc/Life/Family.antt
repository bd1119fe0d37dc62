-- ===== src/Proc/Life/Family.antt =====
-- Parents and children: reparent of kernel/proc.c.
use mathlib.Core.Option
use native.Mathlib.Decide.{dec_lt}
use mathlib.Core.Option.{some-injective}
use os_cea.Base.{
  ℕ, ◌⊎◌, zero, suc, [], ◌∷◌, map, if◌then◌else◌, Bool-cases, ◌+◌, ◌<◌, ◌≤◌, ◌≡◌, ◌≢◌, ap, ◌∙◌, sym,
  refl, inl, inr, true, false, none, some, List, get_elem?, modify, length, get_elem?-modify_self,
  get_elem?-modify_ne, arith, Option-cases, lt_or_eq_or_lt, ◌==◌, Option,
}
use os_cea.Proc.{Proc, Kernel, myproc}
use os_cea.Proc.Sleep.{wakeup, rouse, map_others}
use os_cea.Proc.Life.{is_child, chan_of, parent_of, reparent_one, reparent_from, reparent}

-- Who looks after a process whose parent was `o` when the process in slot `i` exits.
abbrev pub adopt : Option ℕ → ℕ → Option ℕ → Option ℕ
adopt initproc i none = none
adopt initproc i (some j) = if j == i then initproc else some j

abbrev parent_at : List Proc → ℕ → Option ℕ
parent_at procs i = elim (get_elem? procs i) [ none ↦ none | some p ↦ p.parent ]

module _ (f : Proc → Proc) (same : (p : Proc) → (f p).parent ≡ p.parent) where
  parent_at-map : (procs : List Proc) (j : ℕ) → parent_at (map f procs) j ≡ parent_at procs j
  parent_at-map [] j = refl
  parent_at-map (p ∷ procs) zero = same p
  parent_at-map (p ∷ procs) (suc j) = parent_at-map procs j

  parent_at-map_others :
      (o : Option ℕ) (procs : List Proc) (j : ℕ)
      → parent_at (map_others o f procs) j ≡ parent_at procs j
  parent_at-map_others none procs j = parent_at-map procs j
  parent_at-map_others (some i) [] j = refl
  parent_at-map_others (some zero) (p ∷ procs) zero = refl
  parent_at-map_others (some zero) (p ∷ procs) (suc j) = parent_at-map procs j
  parent_at-map_others (some (suc i)) (p ∷ procs) zero = same p
  parent_at-map_others (some (suc i)) (p ∷ procs) (suc j) = parent_at-map_others (some i) procs j

rouse-parent : (chan : ℕ) (p : Proc) → (rouse chan p).parent ≡ p.parent
unfolding rouse
rouse-parent chan p = ground arith

pub parent_of-wakeup :
    (cpu chan : ℕ) (k : Kernel) (j : ℕ) → parent_of (wakeup cpu chan k) j ≡ parent_of k j
unfolding wakeup
parent_of-wakeup cpu chan k j =
    parent_at-map_others (rouse chan) (rouse-parent chan) (myproc k cpu) k.procs j

length-map_others :
    (o : Option ℕ) (f : Proc → Proc) (procs : List Proc)
    → length (map_others o f procs) ≡ length procs
length-map_others none f [] = refl
length-map_others none f (p ∷ procs) = ap suc (length-map_others none f procs)
length-map_others (some i) f [] = refl
length-map_others (some zero) f (p ∷ procs) = ap suc (length-map_others none f procs)
length-map_others (some (suc i)) f (p ∷ procs) = ap suc (length-map_others (some i) f procs)

pub parent_of-none : (k : Kernel) (j : ℕ) → get_elem? k.procs j ≡ none → parent_of k j ≡ none
parent_of-none k j e = rw (e, parent_of)

pub parent_of-some :
    (k : Kernel) (j : ℕ) (p : Proc) → get_elem? k.procs j ≡ some p → parent_of k j ≡ p.parent
parent_of-some k j p e = rw (e, parent_of)

abbrev given_to : Option ℕ → Proc → Proc
given_to o p = record p { parent = o }

-- The table with one entry adopted.
abbrev adopted : ℕ → Kernel → Kernel
adopted j k = record k { procs = modify k.procs j (given_to k.initproc) }

parent_of-adopted :
    (k : Kernel) (j : ℕ) (p : Proc)
    → get_elem? k.procs j ≡ some p
    → parent_of (adopted j k) j ≡ k.initproc
parent_of-adopted k j p e =
    parent_of-some (adopted j k) j (record p { parent = k.initproc })
      (get_elem?-modify_self k.procs j (given_to k.initproc)
        ∙ ap (Option.map (given_to k.initproc)) e)

parent_of-adopted_ne : (k : Kernel) (j m : ℕ) → j ≢ m → parent_of (adopted j k) m ≡ parent_of k m
parent_of-adopted_ne k j m ne =
    ap (λ (o : Option Proc). elim o [ none ↦ none | some p ↦ p.parent ])
      (get_elem?-modify_ne k.procs j m (given_to k.initproc) ne)

-- A round either finds no child in its slot, or gives the child to `initproc`.
data Round (cpu i j : ℕ) (k : Kernel) : Type 0 where
  skipped :
      reparent_one cpu i j k ≡ k
      → adopt k.initproc i (parent_of k j) ≡ parent_of k j
      → Round cpu i j k
  moved :
      (p : Proc)
      → get_elem? k.procs j ≡ some p
      → reparent_one cpu i j k ≡ wakeup cpu (chan_of k.initproc) (adopted j k)
      → adopt k.initproc i (parent_of k j) ≡ k.initproc
      → Round cpu i j k

adopt-not_child :
    (o : Option ℕ) (i : ℕ) (p : Proc) → is_child i p ≡ false → adopt o i p.parent ≡ p.parent
adopt-not_child o i p h = ground arith

adopt-child : (o : Option ℕ) (i : ℕ) (p : Proc) → is_child i p ≡ true → adopt o i p.parent ≡ o
adopt-child o i p h = ground arith

round : (cpu i j : ℕ) (k : Kernel) → Round cpu i j k
unfolding reparent_one
round cpu i j k = elim (Option-cases (get_elem? k.procs j)) [
  | inl e ↦ skipped (rw (e, reparent_one)) (rw (parent_of-none k j e))
  | inr (p, e) ↦ elim (Bool-cases (is_child i p)) [
    | inl c ↦
        moved p e (rw (e, reparent_one, c))
          (rw (parent_of-some k j p e) (adopt-child k.initproc i p c))
    | inr c ↦
        skipped (rw (e, reparent_one, c))
          (rw (parent_of-some k j p e) (adopt-not_child k.initproc i p c))
  ]
]

initproc-wakeup : (cpu chan : ℕ) (k : Kernel) → (wakeup cpu chan k).initproc ≡ k.initproc
unfolding wakeup
initproc-wakeup cpu chan k = refl

length-wakeup : (cpu chan : ℕ) (k : Kernel) → length (wakeup cpu chan k).procs ≡ length k.procs
unfolding wakeup
length-wakeup cpu chan k = length-map_others (myproc k cpu) (rouse chan) k.procs

reparent_one_self :
    (cpu i j : ℕ) (k : Kernel)
    → parent_of (reparent_one cpu i j k) j ≡ adopt k.initproc i (parent_of k j)
reparent_one_self cpu i j k = elim (round cpu i j k) [
  | skipped e a ↦ rw e (sym a)
  | moved p at e a ↦ rw e (
      parent_of-wakeup cpu (chan_of k.initproc) (adopted j k) j
      ∙ parent_of-adopted k j p at
      ∙ sym a)
]

reparent_one-ne :
    (cpu i j m : ℕ) (k : Kernel) → j ≢ m → parent_of (reparent_one cpu i j k) m ≡ parent_of k m
reparent_one-ne cpu i j m k ne = elim (round cpu i j k) [
  | skipped e a ↦ rw e
  | moved p at e a ↦
      rw e
        (parent_of-wakeup cpu (chan_of k.initproc) (adopted j k) m ∙ parent_of-adopted_ne k j m ne)
]

reparent_one-initproc : (cpu i j : ℕ) (k : Kernel) → (reparent_one cpu i j k).initproc ≡ k.initproc
reparent_one-initproc cpu i j k = elim (round cpu i j k) [
  | skipped e a ↦ rw e
  | moved p at e a ↦ rw e (initproc-wakeup cpu (chan_of k.initproc) (adopted j k))
]

-- The slots that the loop has not reached, or never reaches, keep their parents.
reparent_from-outside :
    (n cpu i j m : ℕ) (k : Kernel)
    → (m < j) ⊎ (j + n ≤ m)
    → parent_of (reparent_from n cpu i j k) m ≡ parent_of k m
unfolding reparent_from
reparent_from-outside zero cpu i j m k h = refl
reparent_from-outside (suc n) cpu i j m k h =
    reparent_from-outside n cpu i (j + 1) m (reparent_one cpu i j k) (outside h)
    ∙ reparent_one-ne cpu i j m k (omega arith)
  where
    outside : (m < j) ⊎ (j + suc n ≤ m) → (m < j + 1) ⊎ (j + 1 + n ≤ m)
    outside (inl lt) = inl (omega arith)
    outside (inr le) = inr (omega arith)

reparent_from-inside :
    (n cpu i j m : ℕ) (k : Kernel)
    → j ≤ m
    → m < j + n
    → parent_of (reparent_from n cpu i j k) m ≡ adopt k.initproc i (parent_of k m)
unfolding reparent_from
reparent_from-inside zero cpu i j m k lo hi = absurd (omega arith)
reparent_from-inside (suc n) cpu i j m k lo hi = elim (lt_or_eq_or_lt j m) [
  | inl lt ↦
      reparent_from-inside n cpu i (j + 1) m (reparent_one cpu i j k) (omega arith) (omega arith)
      ∙ ap (λ (o : Option ℕ). adopt o i (parent_of (reparent_one cpu i j k) m))
          (reparent_one-initproc cpu i j k)
      ∙ ap (adopt k.initproc i) (reparent_one-ne cpu i j m k (omega arith))
  | inr (inl e) ↦
      reparent_from-outside n cpu i (j + 1) m (reparent_one cpu i j k) (inl (omega arith))
      ∙ rw (← e) (reparent_one_self cpu i j k)
  | inr (inr gt) ↦ absurd (omega arith)
]

get_elem?-beyond {ℓ} : {A : Type ℓ} (xs : List A) (i : ℕ) → length xs ≤ i → get_elem? xs i ≡ none
get_elem?-beyond [] i h = refl
get_elem?-beyond (x ∷ xs) zero h = absurd (omega arith)
get_elem?-beyond (x ∷ xs) (suc i) h = get_elem?-beyond xs i (omega arith)

-- `reparent` gives every child of the process in slot `i` to the init process, and changes the parent
-- of no other process.
pub parent_of-reparent :
    (cpu i j : ℕ) (k : Kernel) → parent_of (reparent cpu i k) j ≡ adopt k.initproc i (parent_of k j)
unfolding reparent
parent_of-reparent cpu i j k = elim (dec_lt j (length k.procs)) [
  | yes lt ↦ reparent_from-inside (length k.procs) cpu i 0 j k (omega arith) (omega arith)
  | no ge ↦
      reparent_from-outside (length k.procs) cpu i 0 j k (inr (omega arith))
      ∙ (let e = parent_of-none k j (get_elem?-beyond k.procs j (omega arith)) in rw e)
]
