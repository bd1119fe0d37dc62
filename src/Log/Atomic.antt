-- ===== src/Log/Atomic.antt =====
-- The atomicity of `commit` (kernel/log.c) under a crash at any of its disk writes.
use mathlib.Core.Path.{subst, fun_ext}
use os_cea.Base.{
  ℕ, ◌+◌, ◌≤◌, ◌<◌, ◌⊎◌, inl, inr, ◌≡◌, sym, ap, ◌∙◌, List, [], ◌∷◌, ◌++◌, length, if◌then◌else◌,
  arith, Bool-cases,
}
use os_cea.Log.{
  log_blocks, Block, Disk, Store, update, bread, bwrite, write_log, install_trans, write_head,
  header, commit,
}
use os_cea.Log.Ops.{elem}
use os_cea.Log.Writes.{
  IsOutside, AreOutside, apply, apply-append, log_writes, home_writes, IsLogged, Copied,
  write_log-Copied, Installed, install_trans-Installed, apply-home,
}
use os_cea.Log.Crash.{
  bread-crash, take, take-nil, take-append, crash, recovered, recovered_empty, recovered_logged,
  disk-write_head, read_head-header, apply-log_writes, apply-log_writes_all, IsLogged-apply,
  apply-home_writes, AreOutside-elem, IsLogged-same, update_self, update-ne, header-length,
  start-ne-outside,
}
use os_cea.Log.Commit.{
  Reads-self, commit_writes, IsLogged-write_head, commit-steps, writes-commit, writes-commit_nil,
}

-- Every block outside the log is as before the transaction.
abbrev pub IsOld : ℕ → Disk → Disk → Type 0
IsOld start d r = (x : ℕ) → IsOutside start x → r x ≡ d x

-- The blocks of the transaction have their new contents, and every other block outside the log is as
-- before.
abbrev pub IsNew : ℕ → List ℕ → Disk → Disk → Disk → Type 0
IsNew start lh new d r = (x : ℕ) → IsOutside start x → r x ≡ (if elem x lh then new x else d x)

module _ (start : ℕ) (lh : List ℕ) (new : Disk) (old : Block) (d : Disk) (clear : d start 0 ≡ 0)
    (o : AreOutside start lh) (len : length lh ≤ log_blocks) where
  -- The disk when the header has just been written.
  abbrev committed : Disk
  committed = update (apply (log_writes start 0 lh new) d) start (header lh old)

  committed-outside : (x : ℕ) → IsOutside start x → committed x ≡ d x
  committed-outside x (inl lt) =
      update-ne (apply (log_writes start 0 lh new) d) start x (header lh old) (omega arith)
      ∙ apply-log_writes_all start 0 lh new d x (inl (omega arith)) (omega arith)
  committed-outside x (inr lt) =
      update-ne (apply (log_writes start 0 lh new) d) start x (header lh old) (omega arith)
      ∙ apply-log_writes_all start 0 lh new d x (inr lt) (omega arith)

  -- A crash among the log writes.
  crash_before :
      (k : ℕ) → IsOld start d (recovered start (apply (take k (log_writes start 0 lh new)) d))
  crash_before k x out =
      recovered_empty start (apply (take k (log_writes start 0 lh new)) d) x
        (ap (λ (b : Block). b 0)
            (apply-log_writes start 0 k lh new d start (inl (omega arith)) (omega arith))
          ∙ clear)
        out
      ∙ apply-log_writes start 0 k lh new d x (beyond out) (omega arith)
    where
      beyond : IsOutside start x → (x < start + 0 + 1) ⊎ (start + log_blocks < x)
      beyond (inl lt) = inl (omega arith)
      beyond (inr lt) = inr lt

  -- A crash among the writes to the home blocks.
  crash_between :
      (k : ℕ)
      → IsNew start lh new d (recovered start (apply (take k (home_writes lh new)) committed))
  crash_between k x out =
      recovered_logged start lh new e x
        (read_head-header start lh old e (
          at_region start (omega arith) (omega arith)
          ∙ update_self (apply (log_writes start 0 lh new) d) start (header lh old)))
        o len logged out
      ∙ rest
    where
      e : Disk
      e = apply (take k (home_writes lh new)) committed

      at_region : (y : ℕ) → start ≤ y → y ≤ start + log_blocks → e y ≡ committed y
      at_region y lo hi =
          apply-home_writes k lh new committed y (AreOutside-elem start y lh o lo hi)

      logged : IsLogged (bread (crash e)) start 0 lh new
      logged =
          subst (λ (f : Disk). IsLogged f start 0 lh new) (sym (fun_ext (bread-crash e)))
            (IsLogged-same start 0 lh new (apply (log_writes start 0 lh new) d) e
              (λ y lo hi ne.
                at_region y lo hi
                ∙ update-ne (apply (log_writes start 0 lh new) d) start y (header lh old) ne)
              (omega arith) (IsLogged-apply start 0 lh new d (omega arith)))

      rest : (if elem x lh then new x else e x) ≡ (if elem x lh then new x else d x)
      rest = elim (Bool-cases (elem x lh)) [
        | inl i ↦ rw i
        | inr n ↦ rw n (apply-home_writes k lh new committed x n ∙ committed-outside x out)
      ]

  -- A crash after the header has been erased.
  crash_after : IsNew start lh new d (
      recovered start
        (update (apply (home_writes lh new) committed) start (header [] (header lh old))))
  crash_after x out =
      recovered_empty start
        (update (apply (home_writes lh new) committed) start (header [] (header lh old))) x
        (ap (λ (b : Block). b 0)
            (update_self (apply (home_writes lh new) committed) start (header [] (header lh old)))
          ∙ header-length [] (header lh old))
        out
      ∙ update-ne (apply (home_writes lh new) committed) start x (header [] (header lh old))
          (start-ne-outside start x out)
      ∙ apply-home lh new committed x
      ∙ ap (λ (v : Block). if elem x lh then new x else v) (committed-outside x out)

  crash_late :
      (k : ℕ)
      → IsNew start lh new d (
          recovered start (
            apply
              (take k (home_writes lh new ++ ((start, header [] (header lh old)) ∷ [])))
              committed))
  crash_late k = elim (take-append k (home_writes lh new) (start, header [] (header lh old)) []) [
    | inl (j, e) ↦
        subst
          (λ (ws : List (ℕ × Block)). IsNew start lh new d (recovered start (apply ws committed)))
          (sym e) (crash_between j)
    | inr (j, e) ↦
        subst
          (λ (ws : List (ℕ × Block)). IsNew start lh new d (recovered start (apply ws committed)))
          (sym (
            e
            ∙ ap
                (λ (ws : List (ℕ × Block)).
                  home_writes lh new ++ ((start, header [] (header lh old)) ∷ ws))
                (take-nil j)))
          (subst (λ (f : Disk). IsNew start lh new d (recovered start f))
            (sym (
              apply-append (home_writes lh new) ((start, header [] (header lh old)) ∷ [])
                committed))
            crash_after)
  ]

  crash_any :
      (m : ℕ)
      → IsOld start d (recovered start (apply (take m (commit_writes start lh new old)) d))
        ⊎ IsNew start lh new d (recovered start (apply (take m (commit_writes start lh new old)) d))
  crash_any m =
      elim (take-append m (log_writes start 0 lh new) (start, header lh old)
        (home_writes lh new ++ ((start, header [] (header lh old)) ∷ []))) [
          | inl (j, e) ↦ inl (
              subst (λ (ws : List (ℕ × Block)). IsOld start d (recovered start (apply ws d)))
                (sym e) (crash_before j))
          | inr (j, e) ↦ inr (
              subst (λ (ws : List (ℕ × Block)). IsNew start lh new d (recovered start (apply ws d)))
                (sym e)
                (subst (λ (f : Disk). IsNew start lh new d (recovered start f))
                  (sym (
                    apply-append (log_writes start 0 lh new)
                      ((start, header lh old)
                        ∷ take j (home_writes lh new ++ ((start, header [] (header lh old)) ∷ [])))
                      d))
                  (crash_late j)))
        ]

-- If the header on the disk is empty and the blocks of the transaction lie outside the log, then after
-- a crash at any disk write of `commit` (`m` writes have reached the disk), recovery leaves the blocks
-- outside the log either all as they were, or all as the transaction wanted them.
pub commit_atomic :
    (start m : ℕ) (lh : List ℕ) (s : Store)
    → s.writes ≡ []
    → s.disk start 0 ≡ 0
    → AreOutside start lh
    → length lh ≤ log_blocks
    → IsOld start s.disk (recovered start (apply (take m (commit start lh s).writes) s.disk))
      ⊎ IsNew start lh
          (bread s)
          s.disk
          (recovered start (apply (take m (commit start lh s).writes) s.disk))
commit_atomic start m [] s e clear o len = inl (
    subst (λ (ws : List (ℕ × Block)). IsOld start s.disk (recovered start (apply ws s.disk)))
      (sym (ap (take m) (writes-commit_nil start s ∙ e) ∙ take-nil m))
      (λ x out. recovered_empty start s.disk x clear out))
commit_atomic start m (b ∷ bs) s e clear o len =
    subst
      (λ (ws : List (ℕ × Block)).
        IsOld start s.disk (recovered start (apply (take m ws) s.disk))
        ⊎ IsNew start (b ∷ bs) (bread s) s.disk (recovered start (apply (take m ws) s.disk)))
      (sym (writes-commit start b bs s e o len))
      (crash_any start (b ∷ bs) (bread s) (bread s start) s.disk clear o len m)

write_head_empty : (start : ℕ) (s : Store) → (write_head start [] s).disk start 0 ≡ 0
unfolding write_head bwrite header
write_head_empty start s = ground arith

-- With no crash `commit` leaves the transaction on the disk, and the header there empty.
pub commit_durable :
    (start b : ℕ) (bs : List ℕ) (s : Store)
    → AreOutside start (b ∷ bs)
    → length (b ∷ bs) ≤ log_blocks
    → IsNew start (b ∷ bs) (bread s) s.disk (commit start (b ∷ bs) s).disk
      × ((commit start (b ∷ bs) s).disk start 0 ≡ 0)
commit_durable start b bs s o len =
    (contents, rw (commit-steps start b bs s) (write_head_empty start s₃))
  where
    lh : List ℕ
    lh = b ∷ bs

    s₁ : Store
    s₁ = write_log start 0 lh s

    copied : Copied start 0 lh (bread s) s s₁
    copied = write_log-Copied start 0 lh (bread s) s o (omega arith) (Reads-self lh s)

    s₂ : Store
    s₂ = write_head start lh s₁

    s₃ : Store
    s₃ = install_trans start 0 lh s₂

    installed : Installed start lh (bread s) s₂ s₃
    installed =
        install_trans-Installed start 0 lh (bread s) s₂ o (omega arith)
          (IsLogged-write_head start lh lh (bread s) s₁ len copied.logged)

    untouched : (x : ℕ) → IsOutside start x → s₂.disk x ≡ s.disk x
    untouched x out =
        disk-write_head start x lh s₁ (start-ne-outside start x out)
        ∙ ap (λ (f : Disk). f x) copied.disk
        ∙ apply-log_writes_all start 0 lh (bread s) s.disk x (beyond out) (omega arith)
      where
        beyond : IsOutside start x → (x < start + 0 + 1) ⊎ (start + log_blocks < x)
        beyond (inl lt) = inl (omega arith)
        beyond (inr lt) = inr lt

    contents : IsNew start lh (bread s) s.disk (commit start lh s).disk
    contents x out =
        ap (λ (t : Store). t.disk x) (commit-steps start b bs s)
        ∙ disk-write_head start x [] s₃ (start-ne-outside start x out)
        ∙ ap (λ (f : Disk). f x) installed.disk
        ∙ apply-home lh (bread s) s₂.disk x
        ∙ ap (λ (v : Block). if elem x lh then bread s x else v) (untouched x out)
