-- ===== src/Log/Writes.antt =====
-- What the disk writes of kernel/log.c's commit are, in order, and what they leave on the disk.
use mathlib.Core.List.{append_assoc, append-nil}
use native.Mathlib.Decide.{ℕ_discrete}
use os_cea.Base.{
  ℕ, suc, ◌+◌, ◌≤◌, ◌<◌, ◌⊎◌, inl, inr, ◌≡◌, ◌≢◌, refl, sym, ap, ◌∙◌, ◌||◌, List, [], ◌∷◌, ◌++◌,
  length, ◌==◌, if◌then◌else◌, arith, Bool-cases,
}
use os_cea.Log.{log_blocks, Block, Disk, Store, update, bread, bwrite, write_log, install_trans}
use os_cea.Log.Ops.{elem}

-- A block that is not one of the header and the log blocks behind it.
abbrev pub IsOutside : ℕ → ℕ → Type 0
IsOutside start b = (b < start) ⊎ (start + log_blocks < b)

abbrev pub AreOutside : ℕ → List ℕ → Type 0
AreOutside start [] = Unit
AreOutside start (b ∷ bs) = IsOutside start b × AreOutside start bs

-- The disk after a list of writes.
abbrev pub apply : List (ℕ × Block) → Disk → Disk
apply [] d = d
apply ((b, v) ∷ ws) d = apply ws (update d b v)

pub apply-append :
    (xs ys : List (ℕ × Block)) (d : Disk) → apply (xs ++ ys) d ≡ apply ys (apply xs d)
apply-append [] ys d = refl
apply-append ((b, v) ∷ xs) ys d = apply-append xs ys (update d b v)

-- The writes of `write_log` and of `install_trans`, where `new b` is the new contents of block `b`.
abbrev pub log_writes : ℕ → ℕ → List ℕ → Disk → List (ℕ × Block)
log_writes start tail [] new = []
log_writes start tail (b ∷ lh) new = (start + tail + 1, new b) ∷ log_writes start (tail + 1) lh new

abbrev pub home_writes : List ℕ → Disk → List (ℕ × Block)
home_writes [] new = []
home_writes (b ∷ lh) new = (b, new b) ∷ home_writes lh new

-- The log blocks from `tail` on hold the new contents of the blocks in the header.
abbrev pub IsLogged : (ℕ → Block) → ℕ → ℕ → List ℕ → Disk → Type 0
IsLogged read start tail [] new = Unit
IsLogged read start tail (b ∷ lh) new =
    (read (start + tail + 1) ≡ new b) × IsLogged read start (tail + 1) lh new

pub bread-bwrite :
    (b x : ℕ) (v : Block) (s : Store) → bread (bwrite b v s) x ≡ (if x == b then v else bread s x)
unfolding bread bwrite
bread-bwrite b x v s = ground arith

pub disk-bwrite : (b : ℕ) (v : Block) (s : Store) → (bwrite b v s).disk ≡ update s.disk b v
unfolding bwrite
disk-bwrite b v s = refl

pub writes-bwrite :
    (b : ℕ) (v : Block) (s : Store) → (bwrite b v s).writes ≡ s.writes ++ ((b, v) ∷ [])
unfolding bwrite
writes-bwrite b v s = refl

bread-bwrite_ne : (b x : ℕ) (v : Block) (s : Store) → x ≢ b → bread (bwrite b v s) x ≡ bread s x
bread-bwrite_ne b x v s ne = bread-bwrite b x v s ∙ ground arith

bread-bwrite_eq : (b x : ℕ) (v : Block) (s : Store) → x ≡ b → bread (bwrite b v s) x ≡ v
bread-bwrite_eq b x v s e = bread-bwrite b x v s ∙ ground arith

-- A store in which the blocks of the header read as `new`.
abbrev pub Reads : List ℕ → Disk → Store → Type 0
Reads [] new s = Unit
Reads (b ∷ bs) new s = (bread s b ≡ new b) × Reads bs new s

Reads-bwrite :
    (start c : ℕ) (v : Block) (bs : List ℕ) (new : Disk) (s : Store)
    → AreOutside start bs
    → start ≤ c
    → c ≤ start + log_blocks
    → Reads bs new s
    → Reads bs new (bwrite c v s)
Reads-bwrite start c v [] new s o lo hi r = tt
Reads-bwrite start c v (b ∷ bs) new s o lo hi r =
    (bread-bwrite_ne c b v s (omega arith) ∙ r.0, Reads-bwrite start c v bs new s o.1 lo hi r.1)

IsLogged-bwrite :
    (start tail c : ℕ) (v : Block) (bs : List ℕ) (new : Disk) (s : Store)
    → (c < start + tail + 1) ⊎ (start + log_blocks < c)
    → tail + length bs ≤ log_blocks
    → IsLogged (bread s) start tail bs new
    → IsLogged (bread (bwrite c v s)) start tail bs new
IsLogged-bwrite start tail c v [] new s o len l = tt
IsLogged-bwrite start tail c v (b ∷ bs) new s o len l = (
  bread-bwrite_ne c (start + tail + 1) v s (omega arith) ∙ l.0,
  IsLogged-bwrite start (tail + 1) c v bs new s (out o) (omega arith) l.1,
)
  where
    out :
        (c < start + tail + 1) ⊎ (start + log_blocks < c)
        → (c < start + (tail + 1) + 1) ⊎ (start + log_blocks < c)
    out (inl lt) = inl (omega arith)
    out (inr lt) = inr lt

-- What a run of `write_log` has done.
pub record Copied (start tail : ℕ) (bs : List ℕ) (new : Disk) (s t : Store) : Type 0 where
  pub trace : t.writes ≡ s.writes ++ log_writes start tail bs new
  pub disk : t.disk ≡ apply (log_writes start tail bs new) s.disk
  pub logged : IsLogged (bread t) start tail bs new
  pub rest : (x : ℕ) → (x < start + tail + 1) ⊎ (start + log_blocks < x) → bread t x ≡ bread s x

Copied-cons :
    (start tail b : ℕ) (bs : List ℕ) (new : Disk) (s : Store) {t : Store}
    → tail + suc (length bs) ≤ log_blocks
    → bread s b ≡ new b
    → Copied start (tail + 1) bs new (bwrite (start + tail + 1) (bread s b) s) t
    → Copied start tail (b ∷ bs) new s t
Copied-cons start tail b bs new s len r later = record {
  trace =
      later.trace
      ∙ ap (λ (ws : List (ℕ × Block)). ws ++ log_writes start (tail + 1) bs new) first
      ∙ append_assoc s.writes ((c, new b) ∷ []) (log_writes start (tail + 1) bs new);
  disk =
      later.disk
      ∙ ap (apply (log_writes start (tail + 1) bs new))
          (disk-bwrite c (bread s b) s ∙ ap (update s.disk c) r);
  logged =
      (later.rest c (inl (omega arith)) ∙ bread-bwrite_eq c c (bread s b) s refl ∙ r, later.logged);
  rest = λ x out. later.rest x (wider x out) ∙ bread-bwrite_ne c x (bread s b) s (apart x out);
}
  where
    c : ℕ
    c = start + tail + 1

    first : (bwrite c (bread s b) s).writes ≡ s.writes ++ ((c, new b) ∷ [])
    first = writes-bwrite c (bread s b) s ∙ ap (λ (v : Block). s.writes ++ ((c, v) ∷ [])) r

    wider :
        (x : ℕ)
        → (x < start + tail + 1) ⊎ (start + log_blocks < x)
        → (x < start + (tail + 1) + 1) ⊎ (start + log_blocks < x)
    wider x (inl lt) = inl (omega arith)
    wider x (inr lt) = inr lt

    apart : (x : ℕ) → (x < start + tail + 1) ⊎ (start + log_blocks < x) → x ≢ c
    apart x (inl lt) = omega arith
    apart x (inr lt) = omega arith

pub write_log-Copied :
    (start tail : ℕ) (bs : List ℕ) (new : Disk) (s : Store)
    → AreOutside start bs
    → tail + length bs ≤ log_blocks
    → Reads bs new s
    → Copied start tail bs new s (write_log start tail bs s)
unfolding write_log
write_log-Copied start tail [] new s o len r = record {
  trace = sym (append-nil s.writes);
  disk = refl;
  logged = tt;
  rest = λ x _. refl;
}
write_log-Copied start tail (b ∷ bs) new s o len r = Copied-cons start tail b bs new s len r.0 (
    write_log-Copied start (tail + 1) bs new (bwrite (start + tail + 1) (bread s b) s) o.1
      (omega arith)
      (Reads-bwrite start (start + tail + 1) (bread s b) bs new s o.1 (omega arith) (omega arith)
        r.1))

-- What a run of `install_trans` has done.
pub record Installed (start : ℕ) (bs : List ℕ) (new : Disk) (s t : Store) : Type 0 where
  pub trace : t.writes ≡ s.writes ++ home_writes bs new
  pub disk : t.disk ≡ apply (home_writes bs new) s.disk
  pub head : bread t start ≡ bread s start

Installed-cons :
    (start tail b : ℕ) (bs : List ℕ) (new : Disk) (s : Store) {t : Store}
    → IsOutside start b
    → bread s (start + tail + 1) ≡ new b
    → Installed start bs new (bwrite b (bread s (start + tail + 1)) s) t
    → Installed start (b ∷ bs) new s t
Installed-cons start tail b bs new s o l later = record {
  trace =
      later.trace
      ∙ ap (λ (ws : List (ℕ × Block)). ws ++ home_writes bs new) first
      ∙ append_assoc s.writes ((b, new b) ∷ []) (home_writes bs new);
  disk = later.disk ∙ ap (apply (home_writes bs new)) (disk-bwrite b v s ∙ ap (update s.disk b) l);
  head = later.head ∙ bread-bwrite_ne b start v s (apart o);
}
  where
    v : Block
    v = bread s (start + tail + 1)

    apart : IsOutside start b → start ≢ b
    apart (inl lt) = omega arith
    apart (inr lt) = omega arith

    first : (bwrite b v s).writes ≡ s.writes ++ ((b, new b) ∷ [])
    first = writes-bwrite b v s ∙ ap (λ (w : Block). s.writes ++ ((b, w) ∷ [])) l

IsOutside-low :
    (start tail b : ℕ) → IsOutside start b → (b < start + (tail + 1) + 1) ⊎ (start + log_blocks < b)
IsOutside-low start tail b (inl lt) = inl (omega arith)
IsOutside-low start tail b (inr lt) = inr lt

pub install_trans-Installed :
    (start tail : ℕ) (bs : List ℕ) (new : Disk) (s : Store)
    → AreOutside start bs
    → tail + length bs ≤ log_blocks
    → IsLogged (bread s) start tail bs new
    → Installed start bs new s (install_trans start tail bs s)
unfolding install_trans
install_trans-Installed start tail [] new s o len l = record {
  trace = sym (append-nil s.writes);
  disk = refl;
  head = refl;
}
install_trans-Installed start tail (b ∷ bs) new s o len l =
    Installed-cons start tail b bs new s o.0 l.0 (
      install_trans-Installed start (tail + 1) bs new (bwrite b (bread s (start + tail + 1)) s) o.1
        (omega arith)
        (IsLogged-bwrite start (tail + 1) b (bread s (start + tail + 1)) bs new s
          (IsOutside-low start tail b o.0) (omega arith) l.1))

-- Where the disk holds a list of new blocks.
pub apply-home :
    (bs : List ℕ) (new : Disk) (d : Disk) (x : ℕ)
    → apply (home_writes bs new) d x ≡ (if elem x bs then new x else d x)
apply-home [] new d x = refl
apply-home (b ∷ bs) new d x = apply-home bs new (update d b (new b)) x ∙ split
  where
    split :
        (if elem x bs then new x else update d b (new b) x)
        ≡ (if b == x || elem x bs then new x else d x)
    split = elim (Bool-cases (elem x bs)) [
      | inl e ↦ rw e (ground arith)
      | inr e ↦ rw e (elim (ℕ_discrete b x) [ yes same ↦ ground arith | no ne ↦ ground arith ])
    ]

-- The header block lies below the log blocks.
pub IsLogged-bwrite_head :
    (start : ℕ) (v : Block) (bs : List ℕ) (new : Disk) (s : Store)
    → length bs ≤ log_blocks
    → IsLogged (bread s) start 0 bs new
    → IsLogged (bread (bwrite start v s)) start 0 bs new
IsLogged-bwrite_head start v bs new s len l =
    IsLogged-bwrite start 0 start v bs new s (inl (omega arith)) (omega arith) l
