-- ===== src/Pipe/Fifo.antt =====
-- A pipe is a queue of at most `pipe_size` bytes, also across the wrap-around of its counters
-- (kernel/pipe.c).
use mathlib.Core.List.{append_assoc, append-nil}
use mathlib.Core.Path.{ap₂}
use os_cea.Base.{
  ℕ, zero, suc, ◌+◌, ◌-◌, ◌%◌, ◌^◌, ◌≤◌, ◌<◌, ◌≡◌, ◌≢◌, ◌⊎◌, inl, inr, refl, sym, ap, ◌∙◌, Bool,
  true, false, not, ◌||◌, Option, none, some, List, [], ◌∷◌, ◌++◌, map, get_or, set, length,
  length-set, get_or-set_self, get_or-set_ne, arith, Bool-cases,
}
use os_cea.Pipe.{
  Pipe, pipe_size, inc, is_full, is_empty, Pass, returns, fails, sleeps, put, pipewrite,
}

-- The number of bytes in the pipe, a uint difference.
abbrev pub held : Pipe → ℕ
held pi = (pi.nwrite + 2 ^ 32 - pi.nread) % 2 ^ 32

abbrev pub window : List ℕ → ℕ → ℕ → List ℕ
window bytes r zero = []
window bytes r (suc n) = get_or bytes (r % pipe_size) 0 ∷ window bytes (r + 1) n

abbrev pub contents : Pipe → List ℕ
contents pi = window pi.bytes pi.nread (held pi)

pub record IsValid (pi : Pipe) : Type 0 where
  pub room : length pi.bytes ≡ pipe_size
  pub read_fits : pi.nread < 2 ^ 32
  pub write_fits : pi.nwrite < 2 ^ 32
  pub few : held pi ≤ pipe_size

length-window : (bytes : List ℕ) (r n : ℕ) → length (window bytes r n) ≡ n
length-window bytes r zero = refl
length-window bytes r (suc n) = ap suc (length-window bytes (r + 1) n)

pub length-contents : (pi : Pipe) → length (contents pi) ≡ held pi
length-contents pi = length-window pi.bytes pi.nread (held pi)

-- Only the counter modulo the size matters, and the size divides 2 ^ 32.
window-mod :
    (bytes : List ℕ) (r s n : ℕ)
    → r % pipe_size ≡ s % pipe_size
    → window bytes r n ≡ window bytes s n
window-mod bytes r s zero e = refl
window-mod bytes r s (suc n) e =
    ap₂ ◌∷◌ (ap (λ (i : ℕ). get_or bytes i 0) e) (window-mod bytes (r + 1) (s + 1) n (omega arith))

window-set :
    (bytes : List ℕ) (r n i ch : ℕ)
    → length bytes ≡ pipe_size
    → n < pipe_size
    → i ≡ (r + n) % pipe_size
    → window (set bytes i ch) r (suc n) ≡ window bytes r n ++ (ch ∷ [])
window-set bytes r zero i ch len lt e =
    ap (λ (v : ℕ). v ∷ [])
      (ap (λ (j : ℕ). get_or (set bytes i ch) j 0) (omega arith)
        ∙ get_or-set_self bytes i ch 0 (omega arith))
window-set bytes r (suc n) i ch len lt e =
    ap₂ ◌∷◌ (get_or-set_ne bytes i (r % pipe_size) ch 0 (omega arith))
      (window-set bytes (r + 1) n i ch len (omega arith) (omega arith))

held-put :
    (pi : Pipe) (ch : ℕ) → IsValid pi → held pi < pipe_size → held (put ch pi) ≡ suc (held pi)
unfolding put
held-put pi ch v lt = omega arith

-- A byte that is put goes to the back of the queue.
pub contents-put :
    (pi : Pipe) (ch : ℕ)
    → IsValid pi
    → held pi < pipe_size
    → (contents (put ch pi) ≡ contents pi ++ (ch ∷ [])) × IsValid (put ch pi)
unfolding put
contents-put pi ch v lt = (
  ap (window (set pi.bytes (pi.nwrite % pipe_size) ch) pi.nread) (held-put pi ch v lt)
      ∙ window-set pi.bytes pi.nread (held pi) (pi.nwrite % pipe_size) ch v.room lt (back pi v),
  record {
    room = length-set pi.bytes (pi.nwrite % pipe_size) ch ∙ v.room;
    read_fits = v.read_fits;
    write_fits = omega arith;
    few = omega (arith, held-put pi ch v lt);
  },
)
  where
    back : (pi : Pipe) → IsValid pi → pi.nwrite % pipe_size ≡ (pi.nread + held pi) % pipe_size
    back pi v = omega arith

abbrev pub advance : Pipe → Pipe
advance pi = record pi { nread = inc pi.nread }

held-advance : (pi : Pipe) → IsValid pi → pi.nread ≢ pi.nwrite → held pi ≡ suc (held (advance pi))
held-advance pi v ne = omega arith

-- A byte that is taken comes from the front of the queue.
pub contents-advance :
    (pi : Pipe)
    → IsValid pi
    → pi.nread ≢ pi.nwrite
    → (contents pi ≡ get_or pi.bytes (pi.nread % pipe_size) 0 ∷ contents (advance pi))
      × IsValid (advance pi)
contents-advance pi v ne = (
  ap (window pi.bytes pi.nread) (held-advance pi v ne)
      ∙ ap (λ (q : List ℕ). get_or pi.bytes (pi.nread % pipe_size) 0 ∷ q)
          (window-mod pi.bytes (pi.nread + 1) (inc pi.nread) (held (advance pi)) (omega arith)),
  record {
    room = v.room;
    read_fits = omega arith;
    write_fits = v.write_fits;
    few = omega (arith, held-advance pi v ne, v.few);
  },
)

is_full_iff : (pi : Pipe) → IsValid pi → is_full pi ≡ false → held pi < pipe_size
unfolding is_full
is_full_iff pi v h = ground arith

is_full-held : (pi : Pipe) → IsValid pi → is_full pi ≡ true → held pi ≡ pipe_size
unfolding is_full
is_full-held pi v h = ground arith

pub is_empty_iff : (pi : Pipe) → is_empty pi ≡ false → pi.nread ≢ pi.nwrite
unfolding is_empty
is_empty_iff pi h = ground arith

-- What a pass of `pipewrite` over the bytes `src` does to the queue, `i` bytes being done before.
pub record Wrote (killed : Bool) (src : List (Option ℕ)) (i : ℕ) (pi : Pipe) (out : Pass × Pipe)
    : Type 0 where
  pub taken : List ℕ
  pub left : List (Option ℕ)
  pub split : src ≡ map some taken ++ left
  pub queue : contents out.1 ≡ contents pi ++ taken
  pub valid : IsValid out.1
  pub count : (n : ℕ) → (out.0 ≡ returns n) ⊎ (out.0 ≡ sleeps n) → n ≡ i + length taken
  pub full : (n : ℕ) → out.0 ≡ sleeps n → held out.1 ≡ pipe_size
  pub broken : out.0 ≡ fails → (pi.readopen ≡ false) ⊎ (killed ≡ true)

Wrote-nothing :
    (killed : Bool) (src : List (Option ℕ)) (i : ℕ) (pi : Pipe) (p : Pass)
    → IsValid pi
    → ((n : ℕ) → (p ≡ returns n) ⊎ (p ≡ sleeps n) → n ≡ i)
    → ((n : ℕ) → p ≡ sleeps n → held pi ≡ pipe_size)
    → (p ≡ fails → (pi.readopen ≡ false) ⊎ (killed ≡ true))
    → Wrote killed src i pi (p, pi)
Wrote-nothing killed src i pi p v c f b = record {
  taken = [];
  left = src;
  split = refl;
  queue = sym (append-nil (contents pi));
  valid = v;
  count = λ n e. c n e ∙ omega arith;
  full = f;
  broken = b;
}

Wrote-put :
    (killed : Bool) (ch : ℕ) (src : List (Option ℕ)) (i : ℕ) (pi : Pipe) (out : Pass × Pipe)
    → IsValid pi
    → held pi < pipe_size
    → Wrote killed src (i + 1) (put ch pi) out
    → Wrote killed (some ch ∷ src) i pi out
unfolding put
Wrote-put killed ch src i pi out v lt w = record {
  taken = ch ∷ w.taken;
  left = w.left;
  split = ap (λ (l : List (Option ℕ)). some ch ∷ l) w.split;
  queue =
      w.queue
      ∙ ap (λ (q : List ℕ). q ++ w.taken) (contents-put pi ch v lt).0
      ∙ append_assoc (contents pi) (ch ∷ []) w.taken;
  valid = w.valid;
  count = λ n e. w.count n e ∙ omega arith;
  full = w.full;
  broken = w.broken;
}

returns-injective : (a b : ℕ) → (returns a ≡ returns b) ⊎ (returns a ≡ sleeps b) → b ≡ a
returns-injective a b (inl e) = cc
returns-injective a b (inr e) = absurd (cc)

sleeps-injective : (a b : ℕ) → (sleeps a ≡ returns b) ⊎ (sleeps a ≡ sleeps b) → b ≡ a
sleeps-injective a b (inl e) = absurd (cc)
sleeps-injective a b (inr e) = cc

not_done : (n : ℕ) → (fails ≡ returns n) ⊎ (fails ≡ sleeps n) → ⊥
not_done n (inl e) = cc
not_done n (inr e) = cc

fails-Wrote :
    (killed : Bool) (src : List (Option ℕ)) (i : ℕ) (pi : Pipe)
    → IsValid pi
    → (not pi.readopen || killed) ≡ true
    → Wrote killed src i pi (fails, pi)
fails-Wrote killed src i pi v b =
    Wrote-nothing killed src i pi fails v (λ n e. absurd (not_done n e)) (λ n e. absurd (cc))
      (λ _. why pi.readopen killed b)
  where
    why : (r k : Bool) → (not r || k) ≡ true → (r ≡ false) ⊎ (k ≡ true)
    why r k h = ground arith

sleeps-Wrote :
    (killed : Bool) (src : List (Option ℕ)) (i : ℕ) (pi : Pipe)
    → IsValid pi
    → is_full pi ≡ true
    → Wrote killed src i pi (sleeps i, pi)
sleeps-Wrote killed src i pi v f =
    Wrote-nothing killed src i pi (sleeps i) v (sleeps-injective i) (λ n _. is_full-held pi v f)
      (λ e. absurd (cc))

-- A pass of `pipewrite` appends to the pipe exactly the bytes that it counts, which are the first ones
-- of the user's buffer; it sleeps only on a full pipe, and fails only where the read end is closed or
-- the process has been killed.
pub pipewrite-Wrote :
    (killed : Bool) (src : List (Option ℕ)) (i : ℕ) (pi : Pipe)
    → IsValid pi
    → Wrote killed src i pi (pipewrite killed src i pi)
unfolding pipewrite
pipewrite-Wrote killed [] i pi v =
    Wrote-nothing killed [] i pi (returns i) v (returns-injective i) (λ n e. absurd (cc))
      (λ e. absurd (cc))
pipewrite-Wrote killed (none ∷ src) i pi v = elim (Bool-cases (not pi.readopen || killed)) [
  | inl b ↦ rw b (fails-Wrote killed (none ∷ src) i pi v b)
  | inr b ↦ elim (Bool-cases (is_full pi)) [
    | inl f ↦ rw (b, f) (sleeps-Wrote killed (none ∷ src) i pi v f)
    | inr f ↦
        rw (b, f)
          (Wrote-nothing killed (none ∷ src) i pi (returns i) v (returns-injective i)
            (λ n e. absurd (cc)) (λ e. absurd (cc)))
  ]
]
pipewrite-Wrote killed (some ch ∷ src) i pi v = elim (Bool-cases (not pi.readopen || killed)) [
  | inl b ↦ rw b (fails-Wrote killed (some ch ∷ src) i pi v b)
  | inr b ↦ elim (Bool-cases (is_full pi)) [
    | inl f ↦ rw (b, f) (sleeps-Wrote killed (some ch ∷ src) i pi v f)
    | inr f ↦
        rw (b, f)
          (Wrote-put killed ch src i pi (pipewrite killed src (i + 1) (put ch pi)) v
            (is_full_iff pi v f)
            (pipewrite-Wrote killed src (i + 1) (put ch pi)
              (contents-put pi ch v (is_full_iff pi v f)).1))
  ]
]
