-- ===== src/Console/Editing.antt =====
-- What editing may and may not touch (kernel/console.c).
use mathlib.Core.Path.{ap₂, subst}
use os_cea.Base.{
  ℕ, zero, suc, ◌+◌, ◌%◌, ◌^◌, ◌≤◌, ◌<◌, ◌≡◌, ◌≢◌, inl, inr, refl, ap, ◌∙◌, true, false, not, ◌&&◌,
  ◌||◌, List, [], ◌∷◌, ◌==◌, ltb, get_or, set, length, length-set, get_or-set_ne, arith, Bool-cases,
}
use os_cea.Console.{
  Cons, input_buf_size, newline, ctrl_d, sub32, erase, erasable, kill_line, backspace, cooked,
  store, hand_over, consoleintr,
}

-- The bytes that are complete, and those that are in the buffer at all.
abbrev pub ready : Cons → ℕ
ready s = sub32 s.w s.r

abbrev pub stored : Cons → ℕ
stored s = sub32 s.e s.r

pub record IsValid (s : Cons) : Type 0 where
  pub room : length s.buf ≡ input_buf_size
  pub r_fits : s.r < 2 ^ 32
  pub w_fits : s.w < 2 ^ 32
  pub e_fits : s.e < 2 ^ 32
  pub order : ready s ≤ stored s
  pub few : stored s ≤ input_buf_size

abbrev pub window : List ℕ → ℕ → ℕ → List ℕ
window buf r zero = []
window buf r (suc n) = get_or buf (r % input_buf_size) 0 ∷ window buf (r + 1) n

-- The bytes that the next reads will see.
abbrev pub line : Cons → List ℕ
line s = window s.buf s.r (ready s)

window-set :
    (buf : List ℕ) (r n i c : ℕ)
    → ((k : ℕ) → k < n → i ≢ (r + k) % input_buf_size)
    → window (set buf i c) r n ≡ window buf r n
window-set buf r zero i c far = refl
window-set buf r (suc n) i c far =
    ap₂ ◌∷◌ (get_or-set_ne buf i (r % input_buf_size) c 0 (λ e. far 0 (omega arith) (omega arith)))
      (window-set buf (r + 1) n i c (λ k lt e.
        far (suc k) (omega arith) (e ∙ ap (λ (j : ℕ). j % input_buf_size) (omega arith))))

erase-IsValid : (s : Cons) → IsValid s → s.e ≢ s.w → IsValid (erase s)
unfolding erase
erase-IsValid s v ne = omega arith

-- A step that keeps what readers see: the buffer stays valid, and the complete bytes stay as they were and
-- stay complete, others at most being added behind them.
pub record Keeps (s t : Cons) : Type 0 where
  pub valid : IsValid t
  pub same_r : t.r ≡ s.r
  pub none_lost : ready s ≤ ready t
  pub line : window t.buf s.r (ready s) ≡ window s.buf s.r (ready s)

Keeps-refl : (s : Cons) → IsValid s → Keeps s s
Keeps-refl s v = record { valid = v; same_r = refl; none_lost = omega arith; line = refl }

erase-Keeps :
    (s : Cons)
    → IsValid s
    → s.e ≢ s.w
    → (Keeps s (erase s)) × ((erase s).w ≡ s.w) × (stored s ≡ suc (stored (erase s)))
unfolding erase
erase-Keeps s v ne = (
  record { valid = erase-IsValid s v ne; same_r = refl; none_lost = omega arith; line = refl },
  refl,
  omega arith,
)

Keeps-trans : (s t u : Cons) → Keeps s t → t.w ≡ s.w → Keeps t u → Keeps s u
Keeps-trans s t u a e b = record {
  valid = b.valid;
  same_r = b.same_r ∙ a.same_r;
  none_lost = omega (arith, a.none_lost, b.none_lost);
  line =
      subst (λ (n : ℕ). window u.buf s.r n ≡ window t.buf s.r n) (ap₂ sub32 e a.same_r)
        (subst (λ (r : ℕ). window u.buf r (ready t) ≡ window t.buf r (ready t)) a.same_r b.line)
      ∙ a.line;
}

erasable-ne : (s : Cons) → erasable s ≡ true → s.e ≢ s.w
unfolding erasable
erasable-ne s h = ground arith

erasable-done : (s : Cons) → s.e ≡ s.w → erasable s ≡ false
unfolding erasable
erasable-done s h = ground arith

e-eq-w : (s : Cons) → IsValid s → stored s ≤ ready s → s.e ≡ s.w
e-eq-w s v h = omega arith

w-erase : (s : Cons) → (erase s).w ≡ s.w
unfolding erase
w-erase s = refl

ready-erase : (s : Cons) → ready (erase s) ≡ ready s
unfolding erase
ready-erase s = refl

kill_line-ends :
    (fuel : ℕ) (s : Cons)
    → IsValid s
    → stored s ≤ ready s + fuel
    → Keeps s (kill_line fuel s)
      × ((kill_line fuel s).w ≡ s.w)
      × (erasable (kill_line fuel s) ≡ false)
unfolding kill_line
kill_line-ends zero s v h = (Keeps-refl s v, refl, erasable-done s (e-eq-w s v (omega arith)))
kill_line-ends (suc fuel) s v h = elim (Bool-cases (erasable s)) [
  | inr stop ↦ rw (stop, kill_line) (Keeps-refl s v, refl, stop)
  | inl go ↦
      (let (k, w, less) = erase-Keeps s v (erasable-ne s go) in
        let (a, b, c) = kill_line-ends fuel (erase s) k.valid (omega (arith, ready-erase s)) in
        rw (go, kill_line) (Keeps-trans s (erase s) (kill_line fuel (erase s)) k w a, b ∙ w, c))
]

-- Control-U erases back to the end of the last complete line, or to a newline: the loop always ends by
-- its own test within the bytes of the buffer, and touches no complete byte.
pub kill_line_lem :
    (s : Cons)
    → IsValid s
    → Keeps s (kill_line input_buf_size s)
      × ((kill_line input_buf_size s).w ≡ s.w)
      × (erasable (kill_line input_buf_size s) ≡ false)
kill_line_lem s v = kill_line-ends input_buf_size s v (omega (arith, v.few))

store-far :
    (s : Cons)
    → IsValid s
    → stored s < input_buf_size
    → (k : ℕ) → k < ready s
    → s.e % input_buf_size ≢ (s.r + k) % input_buf_size
store-far s v lt k below = omega (arith, v.order, v.r_fits, v.e_fits)

store-Keeps :
    (c : ℕ) (s : Cons)
    → IsValid s
    → stored s < input_buf_size
    → Keeps s (store c s) × ((store c s).w ≡ s.w)
unfolding store
store-Keeps c s v lt = (
  record {
    valid = record {
      room = length-set s.buf (s.e % input_buf_size) c ∙ v.room;
      r_fits = v.r_fits;
      w_fits = v.w_fits;
      e_fits = omega arith;
      order = omega (arith, v.order, v.r_fits, v.w_fits, v.e_fits);
      few = omega (arith, v.r_fits, v.e_fits);
    };
    same_r = refl;
    none_lost = omega arith;
    line = window-set s.buf s.r (ready s) (s.e % input_buf_size) c (store-far s v lt);
  },
  refl,
)

hand_over-Keeps : (c : ℕ) (s : Cons) → IsValid s → Keeps s (hand_over c s)
unfolding hand_over
hand_over-Keeps c s v =
    elim (Bool-cases (c == newline || (c == ctrl_d || sub32 s.e s.r == input_buf_size))) [
      | inl e ↦ rw e (record {
        valid = record {
          room = v.room;
          r_fits = v.r_fits;
          w_fits = v.e_fits;
          e_fits = v.e_fits;
          order = omega arith;
          few = v.few;
        };
        same_r = refl;
        none_lost = omega (arith, v.order);
        line = refl;
      })
      | inr e ↦ rw e (Keeps-refl s v)
    ]

backspace-Keeps : (s : Cons) → IsValid s → Keeps s (backspace s)
unfolding backspace
backspace-Keeps s v = elim (Bool-cases (s.e == s.w)) [
  | inl e ↦ rw e (Keeps-refl s v)
  | inr e ↦ rw e (erase-Keeps s v (ground arith)).0
]

-- Whatever character arrives, the buffer stays valid, and the complete bytes that readers have not yet
-- taken stay as they were and stay complete: editing reaches only what has not been handed over.
pub consoleintr-Keeps : (c : ℕ) (s : Cons) → IsValid s → Keeps s (consoleintr c s)
unfolding consoleintr
consoleintr-Keeps c s v = elim (Bool-cases (c == 16)) [
  | inl e ↦ rw e (Keeps-refl s v)
  | inr e ↦ elim (Bool-cases (c == 21)) [
    | inl u ↦ rw (e, u) (kill_line_lem s v).0
    | inr u ↦ elim (Bool-cases (c == 8 || c == 127)) [
      | inl h ↦ rw (e, u, h) (backspace-Keeps s v)
      | inr h ↦ elim (Bool-cases (not (c == 0) && ltb (sub32 s.e s.r) input_buf_size)) [
        | inr f ↦ rw (e, u, h, f) (Keeps-refl s v)
        | inl f ↦
            (let (k, w) = store-Keeps (cooked c) s v (ground arith) in
              rw (e, u, h, f)
                (Keeps-trans s (store (cooked c) s) (hand_over (cooked c) (store (cooked c) s)) k w
                  (hand_over-Keeps (cooked c) (store (cooked c) s) k.valid)))
      ]
    ]
  ]
]
