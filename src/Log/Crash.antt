-- ===== src/Log/Crash.antt =====
-- Crash recovery (kernel/log.c): whatever prefix of the disk writes of `commit` has reached the disk,
-- `recover_from_log` leaves the blocks of the transaction all old or all new.
use mathlib.Core.Path.{ap₂}
use os_cea.Base.{
  ℕ, zero, suc, ◌+◌, ◌-◌, ◌≤◌, ◌<◌, ◌⊎◌, inl, inr, ◌≡◌, ◌≢◌, refl, sym, ap, ◌∙◌, false, none, List,
  [], ◌∷◌, ◌++◌, length, get_or, if◌then◌else◌, arith,
}
use os_cea.Log.{
  log_blocks, Block, Disk, Store, update, bread, bwrite, install_trans, write_head, header, words,
  read_head, recover_from_log,
}
use os_cea.Log.Ops.{elem}
use os_cea.Log.Writes.{
  IsOutside, AreOutside, apply, log_writes, home_writes, IsLogged, install_trans-Installed,
  apply-home,
}

abbrev pub take {ℓ} : {A : Type ℓ} → ℕ → List A → List A
take zero xs = []
take (suc n) [] = []
take (suc n) (x ∷ xs) = x ∷ take n xs

pub take-nil {ℓ} : {A : Type ℓ} (n : ℕ) → take {A = A} n [] ≡ []
take-nil zero = refl
take-nil (suc n) = refl

-- A prefix of a joined list ends in the first part, or holds all of it and something of the second.
pub take-append {ℓ} :
    {A : Type ℓ} (m : ℕ) (xs : List A) (y : A) (ys : List A)
    → ((k : ℕ) × (take m (xs ++ (y ∷ ys)) ≡ take k xs))
      ⊎ ((k : ℕ) × (take m (xs ++ (y ∷ ys)) ≡ xs ++ (y ∷ take k ys)))
take-append zero xs y ys = inl (0, refl)
take-append (suc m) [] y ys = inr (m, refl)
take-append (suc m) (x ∷ xs) y ys = elim (take-append m xs y ys) [
  | inl (k, e) ↦ inl (suc k, ap (λ zs. x ∷ zs) e)
  | inr (k, e) ↦ inr (k, ap (λ zs. x ∷ zs) e)
]

-- What a crash leaves: the disk, and an empty cache.
abbrev pub crash : Disk → Store
crash d = record { disk = d; cache = λ _. none; writes = [] }

abbrev pub recovered : ℕ → Disk → Disk
recovered start d = (recover_from_log start (crash d)).disk

pub bread-crash : (d : Disk) (x : ℕ) → bread (crash d) x ≡ d x
unfolding bread
bread-crash d x = refl

words-eq :
    (ys : List ℕ) (i : ℕ) (blk : Block)
    → ((k : ℕ) → k < length ys → blk (i + k + 1) ≡ get_or ys k 0)
    → words (length ys) i blk ≡ ys
unfolding words
words-eq [] i blk h = refl
words-eq (y ∷ ys) i blk h =
    ap₂ ◌∷◌ (ap blk (omega arith) ∙ h 0 (omega arith))
      (words-eq ys (i + 1) blk (λ k lt. ap blk (omega arith) ∙ h (suc k) (omega arith)))

pub header-length : (lh : List ℕ) (old : Block) → header lh old 0 ≡ length lh
unfolding header
header-length lh old = refl

header-entry :
    (lh : List ℕ) (old : Block) (k : ℕ) → k < length lh → header lh old (0 + k + 1) ≡ get_or lh k 0
unfolding header
header-entry lh old k lt = let e : 0 + k + 1 - 1 ≡ k = omega arith in ground arith

-- `read_head` gives back what `write_head` wrote.
pub read_head-header :
    (start : ℕ) (lh : List ℕ) (old : Block) (d : Disk)
    → d start ≡ header lh old
    → read_head start (crash d) ≡ lh
unfolding read_head
read_head-header start lh old d e =
    rw (bread-crash d start, e, header-length lh old)
      (words-eq lh 0 (header lh old) (header-entry lh old))

read_head_empty : (start : ℕ) (d : Disk) → d start 0 ≡ 0 → read_head start (crash d) ≡ []
unfolding read_head words
read_head_empty start d e = rw (bread-crash d start, e)

pub start-ne-outside : (start x : ℕ) → IsOutside start x → x ≢ start
start-ne-outside start x (inl lt) = omega arith
start-ne-outside start x (inr lt) = omega arith

pub disk-write_head :
    (start x : ℕ) (lh : List ℕ) (s : Store) → x ≢ start → (write_head start lh s).disk x ≡ s.disk x
unfolding write_head bwrite
disk-write_head start x lh s ne = ground arith

pub recovered_empty :
    (start : ℕ) (d : Disk) (x : ℕ) → d start 0 ≡ 0 → IsOutside start x → recovered start d x ≡ d x
unfolding recover_from_log install_trans write_head bwrite
recovered_empty start d x e o =
    rw (read_head_empty start d e)
      (disk-write_head start x [] (crash d) (start-ne-outside start x o))

pub recovered_logged :
    (start : ℕ) (lh : List ℕ) (new d : Disk) (x : ℕ)
    → read_head start (crash d) ≡ lh
    → AreOutside start lh
    → length lh ≤ log_blocks
    → IsLogged (bread (crash d)) start 0 lh new
    → IsOutside start x
    → recovered start d x ≡ (if elem x lh then new x else d x)
unfolding recover_from_log write_head bwrite
recovered_logged start lh new d x e o len l out = rw e (
    disk-write_head start x [] (install_trans start 0 lh (crash d)) (start-ne-outside start x out)
    ∙ ap (λ (f : Disk). f x)
        (install_trans-Installed start 0 lh new (crash d) o (omega arith) l).disk
    ∙ apply-home lh new d x)

pub update_self : (d : Disk) (b : ℕ) (v : Block) → update d b v b ≡ v
update_self d b v = ground arith

pub update-ne : (d : Disk) (b x : ℕ) (v : Block) → x ≢ b → update d b v x ≡ d x
update-ne d b x v ne = ground arith

-- A prefix of the log writes touches none but the log blocks.
pub apply-log_writes :
    (start tail k : ℕ) (bs : List ℕ) (new d : Disk) (x : ℕ)
    → (x < start + tail + 1) ⊎ (start + log_blocks < x)
    → tail + length bs ≤ log_blocks
    → apply (take k (log_writes start tail bs new)) d x ≡ d x
apply-log_writes start tail zero bs new d x o len = refl
apply-log_writes start tail (suc k) [] new d x o len = refl
apply-log_writes start tail (suc k) (b ∷ bs) new d x o len =
    apply-log_writes start (tail + 1) k bs new (update d (start + tail + 1) (new b)) x (next o)
      (omega arith)
    ∙ same o
  where
    next :
        (x < start + tail + 1) ⊎ (start + log_blocks < x)
        → (x < start + (tail + 1) + 1) ⊎ (start + log_blocks < x)
    next (inl lt) = inl (omega arith)
    next (inr lt) = inr lt

    same :
        (x < start + tail + 1) ⊎ (start + log_blocks < x)
        → update d (start + tail + 1) (new b) x ≡ d x
    same (inl lt) = ground arith
    same (inr lt) = ground arith

take-length {ℓ} : {A : Type ℓ} (xs : List A) → take (length xs) xs ≡ xs
take-length [] = refl
take-length (x ∷ xs) = ap (λ ys. x ∷ ys) (take-length xs)

pub apply-log_writes_all :
    (start tail : ℕ) (bs : List ℕ) (new d : Disk) (x : ℕ)
    → (x < start + tail + 1) ⊎ (start + log_blocks < x)
    → tail + length bs ≤ log_blocks
    → apply (log_writes start tail bs new) d x ≡ d x
apply-log_writes_all start tail bs new d x o len =
    ap (λ (ws : List (ℕ × Block)). apply ws d x) (sym (take-length (log_writes start tail bs new)))
    ∙ apply-log_writes start tail (length (log_writes start tail bs new)) bs new d x o len

pub IsLogged-apply :
    (start tail : ℕ) (bs : List ℕ) (new d : Disk)
    → tail + length bs ≤ log_blocks
    → IsLogged (apply (log_writes start tail bs new) d) start tail bs new
IsLogged-apply start tail [] new d len = tt
IsLogged-apply start tail (b ∷ bs) new d len = (
  apply-log_writes_all start (tail + 1) bs new (update d (start + tail + 1) (new b))
        (start + tail + 1) (inl (omega arith)) (omega arith)
      ∙ update_self d (start + tail + 1) (new b),
  IsLogged-apply start (tail + 1) bs new (update d (start + tail + 1) (new b)) (omega arith),
)

-- A prefix of the writes to the home blocks touches none but those blocks.
pub apply-home_writes :
    (k : ℕ) (bs : List ℕ) (new d : Disk) (x : ℕ)
    → elem x bs ≡ false
    → apply (take k (home_writes bs new)) d x ≡ d x
apply-home_writes zero bs new d x e = refl
apply-home_writes (suc k) [] new d x e = refl
apply-home_writes (suc k) (b ∷ bs) new d x e =
    apply-home_writes k bs new (update d b (new b)) x (ground arith) ∙ ground arith

pub AreOutside-elem :
    (start x : ℕ) (bs : List ℕ)
    → AreOutside start bs
    → start ≤ x
    → x ≤ start + log_blocks
    → elem x bs ≡ false
AreOutside-elem start x [] o lo hi = refl
AreOutside-elem start x (b ∷ bs) o lo hi =
    let rest = AreOutside-elem start x bs o.1 lo hi in let ne : b ≢ x = omega arith in ground arith

pub IsLogged-same :
    (start tail : ℕ) (bs : List ℕ) (new d e : Disk)
    → ((x : ℕ) → start ≤ x → x ≤ start + log_blocks → x ≢ start → e x ≡ d x)
    → tail + length bs ≤ log_blocks
    → IsLogged d start tail bs new
    → IsLogged e start tail bs new
IsLogged-same start tail [] new d e same len l = tt
IsLogged-same start tail (b ∷ bs) new d e same len l = (
  same (start + tail + 1) (omega arith) (omega arith) (omega arith) ∙ l.0,
  IsLogged-same start (tail + 1) bs new d e same (omega arith) l.1,
)
