-- ===== src/Proc/Life/Kill.antt =====
-- kkill, and what it leaves for a later allocproc (kernel/proc.c).
use mathlib.Core.Option
use mathlib.Core.Option.{some-injective}
use os_cea.Base.{
  ℕ, Bool, Bool-cases, ◌≡◌, ◌≢◌, ap, ◌∙◌, sym, inl, inr, true, false, none, some, List, get_elem?,
  modify, find_index?, ◌||◌, get_elem?-modify_self, get_elem?-modify_ne, arith, true≢false,
  Option-cases, ◌==◌, ==_iff, IsFirst-find_index?, find_index?-modify, IsFirst, find_index?-IsFirst,
  find_index?-none,
}
use os_cea.Proc.Life.Pids.{HasPids, settle, allocproc-some}
use os_cea.Proc.{used, Proc, Kernel, is_unused, is_sleeping}
use os_cea.Proc.Mlfq.{init_mlfq_proc}
use os_cea.Proc.Life.{strike, kkill, claim, allocproc}

strike_lem :
    (p : Proc)
    → ((strike p).killed ≡ 1) × (is_sleeping (strike p).state ≡ false) × ((strike p).pid ≡ p.pid)
unfolding strike
strike_lem p = ground arith

kkill-some :
    (pid : ℕ) (k : Kernel) (i : ℕ)
    → find_index? (λ p. p.pid == pid) k.procs ≡ some i
    → kkill pid k ≡ (true, record k { procs = modify k.procs i strike })
unfolding kkill
kkill-some pid k i e = rw (e, kkill)

kkill-none :
    (pid : ℕ) (k : Kernel)
    → find_index? (λ p. p.pid == pid) k.procs ≡ none
    → kkill pid k ≡ (false, k)
unfolding kkill
kkill-none pid k e = rw (e, kkill)

-- What a call of `kkill` has done to the table, by its result.
pub data Killed (pid : ℕ) (k : Kernel) : Type 0 where
  hit :
      (i : ℕ) (p q : Proc)
      → get_elem? k.procs i ≡ some p
      → p.pid ≡ pid
      → get_elem? (kkill pid k).1.procs i ≡ some q
      → q.killed ≡ 1
      → is_sleeping q.state ≡ false
      → ((j : ℕ) → i ≢ j → get_elem? (kkill pid k).1.procs j ≡ get_elem? k.procs j)
      → (kkill pid k).0 ≡ true
      → Killed pid k
  miss :
      ((j : ℕ) (p : Proc) → get_elem? k.procs j ≡ some p → p.pid ≢ pid)
      → kkill pid k ≡ (false, k)
      → Killed pid k

-- `kkill` either marks one process that has the pid as killed, awake if it slept, leaves every other
-- process alone and succeeds, or finds that no process has the pid, changes nothing and fails.
pub kkill-Killed : (pid : ℕ) (k : Kernel) → Killed pid k
kkill-Killed pid k = elim (Option-cases (find_index? (λ (p : Proc). p.pid == pid) k.procs)) [
  | inl e ↦
      miss
        (λ j p at same.
          true≢false ((==_iff p.pid pid).1 same) (find_index?-none _ k.procs e j p at))
        (kkill-none pid k e)
  | inr (i, e) ↦ found i e (find_index?-IsFirst _ k.procs i e)
]
  where
    found :
        (i : ℕ)
        → find_index? (λ (p : Proc). p.pid == pid) k.procs ≡ some i
        → IsFirst (λ (p : Proc). p.pid == pid) k.procs i
        → Killed pid k
    found i e f =
        hit i f.item (strike f.item) f.at ((==_iff _ _).0 f.passes)
          (rw (kkill-some pid k i e)
            (get_elem?-modify_self k.procs i strike ∙ ap (Option.map strike) f.at))
          (strike_lem f.item).0 (strike_lem f.item).1
          (λ j ne. rw (kkill-some pid k i e) (get_elem?-modify_ne k.procs i j strike ne))
          (rw (kkill-some pid k i e))

IsFirst-agrees :
    (procs : List Proc) (i : ℕ) (test other : Proc → Bool)
    → ((j : ℕ) (p : Proc) → get_elem? procs j ≡ some p → test p ≡ other p)
    → IsFirst test procs i
    → IsFirst other procs i
IsFirst-agrees procs i test other same f = record {
  item = f.item;
  at = f.at;
  passes = sym (same i f.item f.at) ∙ f.passes;
  before = λ j y lt at. sym (same j y at) ∙ f.before j y lt at;
}

pid-unused :
    {procs : List Proc} {n : ℕ} (pids : HasPids procs n) (j : ℕ) (p : Proc)
    → get_elem? procs j ≡ some p
    → (p.pid == 0) ≡ is_unused p.state
pid-unused pids j p at = elim (Bool-cases (is_unused p.state)) [
  | inl u ↦ (let z : p.pid ≡ 0 = pids.idle j p at u in ground arith)
  | inr u ↦ (let (z, _) = pids.fresh j p at u in ground arith)
]

settle_killed :
    (pid ticks frame table : ℕ) (p : Proc)
    → frame ≢ 0
    → table ≢ 0
    → ((settle pid ticks frame table p).killed ≡ p.killed)
      × ((settle pid ticks frame table p).state ≡ used)
unfolding claim init_mlfq_proc
settle_killed pid ticks frame table p nf nt = ground arith

strike-unused : (p : Proc) → is_unused (strike p).state ≡ is_unused p.state
unfolding strike
strike-unused p = ground arith

-- `kkill(0)` finds the first free slot, whose pid is 0, and reports success; the next process that is
-- allocated takes that slot and starts out killed.
pub kkill_zero_poisons :
    (frame table i : ℕ) (k : Kernel)
    → HasPids k.procs k.nextpid
    → find_index? (λ p. is_unused p.state) k.procs ≡ some i
    → frame ≢ 0
    → table ≢ 0
    → ((kkill 0 k).0 ≡ true)
      × ((allocproc frame table (kkill 0 k).1).0 ≡ some i)
      × (p : Proc) × (get_elem? (allocproc frame table (kkill 0 k).1).1.procs i ≡ some p)
      × (p.state ≡ used)
      × (p.killed ≡ 1)
kkill_zero_poisons frame table i k pids e nf nt =
    let first = find_index?-IsFirst (λ (p : Proc). is_unused p.state) k.procs i e in
    let ans = kkill-some 0 k i zero_first in
    let (procs, _, slot) = allocproc-some frame table k₁ i still in
    let q = settle k.nextpid k.ticks frame table (strike first.item) in
    let (kept, state) = settle_killed k.nextpid k.ticks frame table (strike first.item) nf nt in
    (
      rw ans,
      rw ans (slot ∙ rw pages),
      q,
      rw (ans, procs)
          (get_elem?-modify_self (modify k.procs i strike) i (settle k.nextpid k.ticks frame table)
            ∙ ap (Option.map (settle k.nextpid k.ticks frame table))
                (get_elem?-modify_self k.procs i strike ∙ ap (Option.map strike) first.at)),
      state,
      kept ∙ (strike_lem first.item).0,
    )
  where
    k₁ : Kernel
    k₁ = record k { procs = modify k.procs i strike }

    pages : (frame == 0 || table == 0) ≡ false
    pages = ground arith

    zero_first : find_index? (λ p. p.pid == 0) k.procs ≡ some i
    zero_first = IsFirst-find_index? _ k.procs i (
        IsFirst-agrees k.procs i (λ p. is_unused p.state) _ (λ j p at. sym (pid-unused pids j p at))
          (find_index?-IsFirst _ k.procs i e))

    still : find_index? (λ p. is_unused p.state) k₁.procs ≡ some i
    still = find_index?-modify _ k.procs i strike strike-unused ∙ e
