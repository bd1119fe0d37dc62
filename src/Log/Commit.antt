-- ===== src/Log/Commit.antt =====
-- The disk writes of `commit` (kernel/log.c), in order.
use mathlib.Core.List.{append_assoc}
use os_cea.Base.{ℕ, ◌≤◌, inl, ◌≡◌, refl, ap, ◌∙◌, List, [], ◌∷◌, ◌++◌, length, arith}
use os_cea.Log.{
  log_blocks, Block, Disk, Store, bread, write_log, install_trans, write_head, header, commit,
}
use os_cea.Log.Writes.{
  AreOutside, log_writes, home_writes, IsLogged, bread-bwrite, writes-bwrite, Reads, Copied,
  write_log-Copied, Installed, install_trans-Installed, IsLogged-bwrite_head,
}

pub Reads-self : (bs : List ℕ) (s : Store) → Reads bs (bread s) s
Reads-self [] s = tt
Reads-self (b ∷ bs) s = (refl, Reads-self bs s)

-- The writes of `commit`, over the header's old contents in the cache.
abbrev pub commit_writes : ℕ → List ℕ → Disk → Block → List (ℕ × Block)
commit_writes start lh new old =
    log_writes start 0 lh new
    ++ ((start, header lh old) ∷ (home_writes lh new ++ ((start, header [] (header lh old)) ∷ [])))

writes-write_head :
    (start : ℕ) (lh : List ℕ) (s : Store)
    → (write_head start lh s).writes ≡ s.writes ++ ((start, header lh (bread s start)) ∷ [])
unfolding write_head
writes-write_head start lh s = writes-bwrite start (header lh (bread s start)) s

pub IsLogged-write_head :
    (start : ℕ) (hd lh : List ℕ) (new : Disk) (s : Store)
    → length lh ≤ log_blocks
    → IsLogged (bread s) start 0 lh new
    → IsLogged (bread (write_head start hd s)) start 0 lh new
unfolding write_head
IsLogged-write_head start hd lh new s len l =
    IsLogged-bwrite_head start (header hd (bread s start)) lh new s len l

bread-write_head :
    (start : ℕ) (lh : List ℕ) (s : Store)
    → bread (write_head start lh s) start ≡ header lh (bread s start)
unfolding write_head
bread-write_head start lh s = bread-bwrite start start (header lh (bread s start)) s ∙ ground arith

pub commit-steps :
    (start b : ℕ) (bs : List ℕ) (s : Store)
    → commit start (b ∷ bs) s
      ≡ write_head start [] (
          install_trans start 0 (b ∷ bs) (write_head start (b ∷ bs) (write_log start 0 (b ∷ bs) s)))
unfolding commit
commit-steps start b bs s = ground arith

pub writes-commit :
    (start b : ℕ) (bs : List ℕ) (s : Store)
    → s.writes ≡ []
    → AreOutside start (b ∷ bs)
    → length (b ∷ bs) ≤ log_blocks
    → (commit start (b ∷ bs) s).writes ≡ commit_writes start (b ∷ bs) (bread s) (bread s start)
writes-commit start b bs s e o len =
    ap (λ (t : Store). t.writes) (commit-steps start b bs s)
    ∙ writes-write_head start [] s₃
    ∙ ap (λ (v : Block). s₃.writes ++ ((start, header [] v) ∷ [])) last_head
    ∙ ap (λ (ws : List (ℕ × Block)). ws ++ ((start, header [] (header lh old)) ∷ [])) third
    ∙ append_assoc (log_writes start 0 lh (bread s) ++ ((start, header lh old) ∷ []))
        (home_writes lh (bread s)) ((start, header [] (header lh old)) ∷ [])
    ∙ append_assoc (log_writes start 0 lh (bread s)) ((start, header lh old) ∷ [])
        (home_writes lh (bread s) ++ ((start, header [] (header lh old)) ∷ []))
  where
    lh : List ℕ
    lh = b ∷ bs

    old : Block
    old = bread s start

    s₁ : Store
    s₁ = write_log start 0 lh s

    copied : Copied start 0 lh (bread s) s s₁
    copied = write_log-Copied start 0 lh (bread s) s o (omega arith) (Reads-self lh s)

    s₂ : Store
    s₂ = write_head start lh s₁

    kept : bread s₁ start ≡ old
    kept = copied.rest start (inl (omega arith))

    s₃ : Store
    s₃ = install_trans start 0 lh s₂

    installed : Installed start lh (bread s) s₂ s₃
    installed =
        install_trans-Installed start 0 lh (bread s) s₂ o (omega arith)
          (IsLogged-write_head start lh lh (bread s) s₁ len copied.logged)

    last_head : bread s₃ start ≡ header lh old
    last_head = installed.head ∙ bread-write_head start lh s₁ ∙ ap (header lh) kept

    first : s₁.writes ≡ log_writes start 0 lh (bread s)
    first = copied.trace ∙ ap (λ (ws : List (ℕ × Block)). ws ++ log_writes start 0 lh (bread s)) e

    second : s₂.writes ≡ log_writes start 0 lh (bread s) ++ ((start, header lh old) ∷ [])
    second =
        writes-write_head start lh s₁
        ∙ ap (λ (v : Block). s₁.writes ++ ((start, header lh v) ∷ [])) kept
        ∙ ap (λ (ws : List (ℕ × Block)). ws ++ ((start, header lh old) ∷ [])) first

    third :
        s₃.writes
        ≡ (log_writes start 0 lh (bread s) ++ ((start, header lh old) ∷ []))
          ++ home_writes lh (bread s)
    third = installed.trace ∙ ap (λ (ws : List (ℕ × Block)). ws ++ home_writes lh (bread s)) second

pub writes-commit_nil : (start : ℕ) (s : Store) → (commit start [] s).writes ≡ s.writes
unfolding commit
writes-commit_nil start s = refl
