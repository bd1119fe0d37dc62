-- ===== src/Log/Reserve.antt =====
-- The space that `begin_op` reserves is enough: `log_write` never panics (kernel/log.c).
use mathlib.Core.Path.{subst}
use mathlib.Core.Option.{some-injective}
use os_cea.Base.{
  ℕ, ap, sym, ◌∙◌, zero, suc, ◌+◌, ◌-◌, ◌*◌, ◌≤◌, ◌<◌, ◌≡◌, refl, Bool, true, false, ◌||◌, ◌==◌,
  some, List, [], ◌∷◌, ◌++◌, length, length-append, set, length-set, get_elem?, arith, inl, inr,
  Bool-cases, true≢false, ==_iff,
}
use os_cea.Log.{log_blocks, max_op_blocks}
use os_cea.Log.Ops.{Counts, begin_op, end_op, end_commit, log_write, elem}

-- What the calls in progress may still write, each of them up to `max_op_blocks` different blocks.
abbrev pub room : List (List ℕ) → ℕ
room [] = 0
room (c ∷ cs) = (max_op_blocks - length c) + room cs

abbrev pub remove : List (List ℕ) → ℕ → List (List ℕ)
remove [] i = []
remove (x ∷ xs) zero = xs
remove (x ∷ xs) (suc i) = x ∷ remove xs i

-- The log with, for each file-system call in progress, the different blocks it has written so far.
pub record World : Type 0 where
  pub log : Counts
  pub calls : List (List ℕ)

-- The calls of any number of processes, interleaved: each call writes at most `max_op_blocks` different
-- blocks, each of them as often as it likes.
pub data Step (w : World) : World → Type 0 where
  starts :
      {l : Counts} → begin_op w.log ≡ some l → Step w (record { log = l; calls = [] ∷ w.calls })
  writes :
      (i b : ℕ) {c : List ℕ} {l : Counts}
      → get_elem? w.calls i ≡ some c
      → elem b c ≡ false
      → length c < max_op_blocks
      → log_write b w.log ≡ some l
      → Step w (record { log = l; calls = set w.calls i (b ∷ c) })
  rewrites :
      (i b : ℕ) {c : List ℕ} {l : Counts}
      → get_elem? w.calls i ≡ some c
      → elem b c ≡ true
      → log_write b w.log ≡ some l
      → Step w (record { log = l; calls = w.calls })
  ends :
      (i : ℕ) {c : List ℕ} {l : Counts} {last : Bool}
      → get_elem? w.calls i ≡ some c
      → end_op w.log ≡ some (l, last)
      → Step w (record { log = l; calls = remove w.calls i })
  commits : w.log.committing ≡ true → Step w (record { log = end_commit w.log; calls = w.calls })

pub data Reach (w : World) : World → Type 0 where
  here : Reach w w
  next : {u v : World} → Reach w u → Step u v → Reach w v

-- The blocks of every call in progress are in the header.
abbrev pub AreLogged : List (List ℕ) → List ℕ → Type 0
AreLogged [] lh = Unit
AreLogged (c ∷ cs) lh = ((b : ℕ) → elem b c ≡ true → elem b lh ≡ true) × AreLogged cs lh

-- The header and what the calls in progress may still add to it fit in the log.
pub record HasRoom (w : World) : Type 0 where
  pub counted : w.log.outstanding ≡ length w.calls
  pub quiet : w.log.committing ≡ true → w.log.outstanding ≡ 0
  pub logged : AreLogged w.calls w.log.lh
  pub fits : length w.log.lh + room w.calls ≤ log_blocks

room-set :
    (xs : List (List ℕ)) (i b : ℕ) (c : List ℕ)
    → get_elem? xs i ≡ some c
    → length c < max_op_blocks
    → room (set xs i (b ∷ c)) + 1 ≡ room xs
room-set [] i b c h lt = absurd (cc)
room-set (x ∷ xs) zero b c h lt = ground arith
room-set (x ∷ xs) (suc i) b c h lt = omega (arith, room-set xs i b c h lt)

room-remove :
    (xs : List (List ℕ)) (i : ℕ) (c : List ℕ)
    → get_elem? xs i ≡ some c
    → (room (remove xs i) ≤ room xs) × (length (remove xs i) + 1 ≡ length xs)
room-remove [] i c h = absurd (cc)
room-remove (x ∷ xs) zero c h = omega arith
room-remove (x ∷ xs) (suc i) c h = omega (arith, room-remove xs i c h)

room-le : (xs : List (List ℕ)) → room xs ≤ max_op_blocks * length xs
room-le [] = omega arith
room-le (x ∷ xs) = omega (arith, room-le xs)

AreLogged-more :
    (cs : List (List ℕ)) (lh lh' : List ℕ)
    → ((b : ℕ) → elem b lh ≡ true → elem b lh' ≡ true)
    → AreLogged cs lh
    → AreLogged cs lh'
AreLogged-more [] lh lh' more h = tt
AreLogged-more (c ∷ cs) lh lh' more h = (λ b e. more b (h.0 b e), AreLogged-more cs lh lh' more h.1)

AreLogged-set :
    (cs : List (List ℕ)) (i : ℕ) (c lh : List ℕ)
    → ((b : ℕ) → elem b c ≡ true → elem b lh ≡ true)
    → AreLogged cs lh
    → AreLogged (set cs i c) lh
AreLogged-set [] i c lh new h = tt
AreLogged-set (x ∷ xs) zero c lh new h = (new, h.1)
AreLogged-set (x ∷ xs) (suc i) c lh new h = (h.0, AreLogged-set xs i c lh new h.1)

AreLogged-remove :
    (cs : List (List ℕ)) (i : ℕ) (lh : List ℕ) → AreLogged cs lh → AreLogged (remove cs i) lh
AreLogged-remove [] i lh h = tt
AreLogged-remove (x ∷ xs) zero lh h = h.1
AreLogged-remove (x ∷ xs) (suc i) lh h = (h.0, AreLogged-remove xs i lh h.1)

AreLogged-get :
    (cs : List (List ℕ)) (i : ℕ) (c lh : List ℕ)
    → AreLogged cs lh
    → get_elem? cs i ≡ some c
    → (b : ℕ) → elem b c ≡ true
    → elem b lh ≡ true
AreLogged-get [] i c lh h e b t = absurd (cc)
AreLogged-get (x ∷ xs) zero c lh h e b t = h.0 b (ap (elem b) (some-injective _ _ e) ∙ t)
AreLogged-get (x ∷ xs) (suc i) c lh h e b t = AreLogged-get xs i c lh h.1 e b t

length-positive :
    (xs : List (List ℕ)) (i : ℕ) (c : List ℕ) → get_elem? xs i ≡ some c → 0 < length xs
length-positive [] i c h = absurd (cc)
length-positive (x ∷ xs) i c h = omega arith

room-get :
    (xs : List (List ℕ)) (i : ℕ) (c : List ℕ)
    → get_elem? xs i ≡ some c
    → max_op_blocks ≤ room xs + length c
room-get [] i c h = absurd (cc)
room-get (x ∷ xs) zero c h = ground arith
room-get (x ∷ xs) (suc i) c h = omega (arith, room-get xs i c h)

elem-append_self : (xs : List ℕ) (b : ℕ) → elem b (xs ++ (b ∷ [])) ≡ true
elem-append_self [] b = ground arith
elem-append_self (x ∷ xs) b = rw (elem-append_self xs b) (ground arith)

elem-append : (xs ys : List ℕ) (b : ℕ) → elem b xs ≡ true → elem b (xs ++ ys) ≡ true
elem-append [] ys b h = absurd (true≢false h refl)
elem-append (x ∷ xs) ys b h = elim (Bool-cases (x == b)) [
  | inl e ↦ rw e refl
  | inr e ↦ rw e (elem-append xs ys b (sym (ap (λ t. t || elem b xs) e) ∙ h))
]

elem-cons :
    (b x : ℕ) (c lh : List ℕ)
    → ((y : ℕ) → elem y c ≡ true → elem y lh ≡ true)
    → elem b lh ≡ true
    → elem x (b ∷ c) ≡ true
    → elem x lh ≡ true
elem-cons b x c lh old new h = elim (Bool-cases (b == x)) [
  | inl e ↦ sym (ap (λ y. elem y lh) ((==_iff b x).0 e)) ∙ new
  | inr e ↦ old x (sym (ap (λ t. t || elem x c) e) ∙ h)
]

begin_op-some :
    (l : Counts) {l' : Counts}
    → begin_op l ≡ some l'
    → (length l.lh + (l.outstanding + 1) * max_op_blocks ≤ log_blocks)
      × (l'.outstanding ≡ l.outstanding + 1)
      × (l'.lh ≡ l.lh)
      × (l'.committing ≡ false)
unfolding begin_op
begin_op-some l h = ground arith

-- What `log_write` does to the header.
record HasWritten (b : ℕ) (l l' : Counts) : Type 0 where
  grows : length l'.lh ≤ length l.lh + 1
  absorbs : elem b l.lh ≡ true → length l'.lh ≡ length l.lh
  same_count : l'.outstanding ≡ l.outstanding
  same_state : l'.committing ≡ l.committing
  keeps : (x : ℕ) → elem x l.lh ≡ true → elem x l'.lh ≡ true
  adds : elem b l'.lh ≡ true

log_write-room :
    (b : ℕ) (l : Counts)
    → length l.lh < log_blocks
    → 0 < l.outstanding
    → (l' : Counts) × (log_write b l ≡ some l') × HasWritten b l l'
unfolding log_write
log_write-room b l h o = elim (Bool-cases (elem b l.lh)) [
  | inl e ↦ (
    l,
    rw e (ground arith),
    record {
      grows = omega arith;
      absorbs = λ _. refl;
      same_count = refl;
      same_state = refl;
      keeps = λ _ t. t;
      adds = e;
    },
  )
  | inr e ↦ (
    record l { lh = l.lh ++ (b ∷ []) },
    rw e (ground arith),
    record {
      grows = omega (arith, length-append l.lh (b ∷ []));
      absorbs = λ t. absurd (true≢false t e);
      same_count = refl;
      same_state = refl;
      keeps = λ x t. elem-append l.lh (b ∷ []) x t;
      adds = elem-append_self l.lh b;
    },
  )
]

log_write-bounds :
    (b : ℕ) (l : Counts) {l' : Counts}
    → log_write b l ≡ some l'
    → (length l.lh < log_blocks) × (0 < l.outstanding)
unfolding log_write
log_write-bounds b l h = ground arith

log_write-some : (b : ℕ) (l : Counts) {l' : Counts} → log_write b l ≡ some l' → HasWritten b l l'
log_write-some b l {l'} h =
    let (lt, pos) = log_write-bounds b l h in
    let (l₂, e, out) = log_write-room b l lt pos in
    subst (HasWritten b l) (some-injective _ _ (sym e ∙ h)) out

end_op-some :
    (l : Counts) {l' : Counts} {last : Bool}
    → end_op l ≡ some (l', last)
    → (l'.outstanding ≡ l.outstanding - 1)
      × (l'.lh ≡ l.lh)
      × (l'.committing ≡ true → l'.outstanding ≡ 0)
unfolding end_op
end_op-some l h = ground arith

end_commit_lem :
    (l : Counts)
    → ((end_commit l).outstanding ≡ l.outstanding)
      × ((end_commit l).lh ≡ [])
      × ((end_commit l).committing ≡ false)
unfolding end_commit
end_commit_lem l = (refl, refl, refl)

empty : (xs : List (List ℕ)) → length xs ≡ 0 → xs ≡ []
empty [] h = refl
empty (x ∷ xs) h = absurd (omega arith)

Step-HasRoom : {w v : World} → HasRoom w → Step w v → HasRoom v
Step-HasRoom {w} r (starts {l = l} e) =
    let (fits, out, lh, off) = begin_op-some w.log e in
    record {
      counted = omega (arith, r.counted);
      quiet = λ t. absurd (true≢false t off);
      logged = (λ b t. absurd (true≢false t refl), subst (AreLogged w.calls) (sym lh) r.logged);
      fits = omega (arith, room-le w.calls, r.counted, ap (λ (l : List ℕ). length l) lh);
    }
Step-HasRoom {w} r (writes i b {c = c} {l = l} at new lt e) =
    let out = log_write-some b w.log e in
    record {
      counted = omega (arith, r.counted, out.same_count, length-set w.calls i (b ∷ c));
      quiet = λ t. out.same_count ∙ r.quiet (sym out.same_state ∙ t);
      logged =
          AreLogged-set w.calls i (b ∷ c) l.lh
            (λ x t.
              elem-cons b x c l.lh
                (λ y u. out.keeps y (AreLogged-get w.calls i c w.log.lh r.logged at y u)) out.adds
                t)
            (AreLogged-more w.calls w.log.lh l.lh out.keeps r.logged);
      fits = omega (arith, r.fits, out.grows, room-set w.calls i b c at lt);
    }
Step-HasRoom {w} r (rewrites i b {c = c} {l = l} at old e) =
    let out = log_write-some b w.log e in
    let same = out.absorbs (AreLogged-get w.calls i c w.log.lh r.logged at b old) in
    record {
      counted = out.same_count ∙ r.counted;
      quiet = λ t. out.same_count ∙ r.quiet (sym out.same_state ∙ t);
      logged = AreLogged-more w.calls w.log.lh l.lh out.keeps r.logged;
      fits = omega (arith, r.fits, same);
    }
Step-HasRoom {w} r (ends i {c = c} at e) =
    let (out, lh, off) = end_op-some w.log e in
    record {
      counted = omega (arith, r.counted, room-remove w.calls i c at);
      quiet = off;
      logged =
          subst (AreLogged (remove w.calls i)) (sym lh)
            (AreLogged-remove w.calls i w.log.lh r.logged);
      fits = omega (arith, r.fits, room-remove w.calls i c at, ap (λ (l : List ℕ). length l) lh);
    }
Step-HasRoom {w} r (commits t) =
    let (out, lh, off) = end_commit_lem w.log in
    let none_left = empty w.calls (sym r.counted ∙ r.quiet t) in
    record {
      counted = out ∙ r.counted;
      quiet = λ u. absurd (true≢false u off);
      logged = subst (λ cs. AreLogged cs (end_commit w.log).lh) (sym none_left) tt;
      fits = omega (arith, r.fits, ap (λ (l : List ℕ). length l) lh);
    }

pub Reach-HasRoom : {w v : World} → HasRoom w → Reach w v → HasRoom v
Reach-HasRoom r here = r
Reach-HasRoom r (next reach st) = Step-HasRoom (Reach-HasRoom r reach) st

abbrev pub idle : World
idle = record { log = record { outstanding = 0; committing = false; lh = [] }; calls = [] }

idle-HasRoom : HasRoom idle
idle-HasRoom = record { counted = refl; quiet = λ _. refl; logged = tt; fits = omega arith }

-- However the calls of any number of processes interleave, a call that has written fewer than
-- `max_op_blocks` different blocks, however often each of them, never makes `log_write` panic, whatever
-- block it writes next, and that block is in the header afterwards.
pub log_write_never_panics :
    {w : World}
    → Reach idle w
    → (i : ℕ) (c : List ℕ) (b : ℕ) → get_elem? w.calls i ≡ some c
    → length c < max_op_blocks
    → (l : Counts) × (log_write b w.log ≡ some l) × (elem b l.lh ≡ true)
log_write_never_panics {w} reach i c b at lt =
    let r = Reach-HasRoom idle-HasRoom reach in
    let (l, e, out) =
      log_write-room b w.log (omega (arith, r.fits, room-get w.calls i c at))
        (omega (arith, r.counted, length-positive w.calls i c at)) in
    (l, e, out.adds)
