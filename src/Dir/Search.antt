-- ===== src/Dir/Search.antt =====
-- dirlookup (kernel/fs.c) finds the first entry in use with the name.
use mathlib.Core.Path.{subst, fun_ext}
use os_cea.Base.{
  ℕ, zero, suc, ◌+◌, ◌*◌, ◌/◌, ◌%◌, ◌≤◌, ◌<◌, ◌≡◌, ◌≢◌, refl, sym, ap, ◌∙◌, Bool, true, false, not,
  ◌&&◌, Option, none, some, ◌==◌, ltb, arith, Bool-cases, inl, inr, lt_or_eq_or_lt,
}
use os_cea.Base.Int.{ℤ, pos}
use os_cea.Str.{Memory}
use os_cea.Str.Move.{within}
use os_cea.Disk.{Superblock, Disk}
use os_cea.Inode.{Inode, to_memory, readi}
use os_cea.Inode.Mapping.{lookup}
use os_cea.Inode.Reading.{with_content, available, readi-content}
use os_cea.Dir.{t_dir, is_count, namecmp, de_inum, lookup_from, dirlookup}

-- A directory of whole entries, with all its blocks there.
pub record IsWhole (dp : Inode) (d : Disk) : Type 0 where
  pub entries : dp.size % 16 ≡ 0
  pub low : dp.size ≤ 268 * 1024
  pub there : (bn : ℕ) → bn * 1024 < dp.size → lookup dp d bn ≢ 0

module _ (sb : Superblock) (de name : ℕ) (dp : Inode) (d : Disk) (s : Memory) where
  -- Memory with entry `k` of the directory at `de`.
  abbrev pub entry : ℕ → Memory
  entry k = with_content de 16 (16 * k) dp d s

  -- Entry `k` is in use and has the name.
  abbrev pub is_hit : ℕ → Bool
  is_hit k = not (de_inum de (entry k) == 0) && is_count 0 (namecmp name (de + 2) (entry k))

  -- What a search from entry `k` on finds.
  pub data Searched (k : ℕ) (out : Option (Option (ℕ × ℕ) × Inode × Disk × Memory)) : Type 0 where
    absent :
        (s' : Memory)
        → out ≡ some (none, dp, d, s')
        → ((j : ℕ) → k ≤ j → 16 * j < dp.size → is_hit j ≡ false)
        → Searched k out
    present :
        (j : ℕ)
        → out ≡ some (some (16 * j, de_inum de (entry j)), dp, d, entry j)
        → k ≤ j
        → 16 * j < dp.size
        → is_hit j ≡ true
        → ((i : ℕ) → k ≤ i → i < j → is_hit i ≡ false)
        → Searched k out

  abbrev Agrees : Memory → Type 0
  Agrees cur = (a : ℕ) → within de 16 a ≡ false → cur a ≡ s a

  Agrees-entry : (k : ℕ) → Agrees (entry k)
  Agrees-entry k a f = rw f refl

  overlay :
      (cur : Memory) → Agrees cur → (k a : ℕ) → with_content de 16 (16 * k) dp d cur a ≡ entry k a
  overlay cur agree k a = elim (Bool-cases (within de 16 a)) [
    | inl t ↦ rw t refl
    | inr f ↦ rw f (agree a f)
  ]

  readi-entry :
      (cur : Memory) (k : ℕ)
      → IsWhole dp d
      → Agrees cur
      → 16 * k < dp.size
      → readi to_memory sb de (16 * k) 16 dp d cur ≡ some (pos 16, dp, d, entry k)
  readi-entry cur k w agree lt =
      let whole = w.entries in
      let low = w.low in
      let size : available dp.size (16 * k) 16 ≡ 16 =
        (let f : ltb dp.size (16 * k + 16) ≡ false =
            (let le : 16 * k + 16 ≤ dp.size = omega arith in ground arith) in
          rw f refl) in
      let (s', e, at) =
        readi-content sb de (16 * k) 16 dp d cur (omega arith) (omega arith) low w.there in
      let same : s' ≡ entry k = fun_ext (λ a.
        at a ∙ (ap (λ n. with_content de n (16 * k) dp d cur a) size ∙ overlay cur agree k a)) in
      e ∙ (ap (λ n. some (pos n, dp, d, s')) size ∙ ap (λ m. some (pos 16, dp, d, m)) same)

  abbrev after_read :
      ℕ → ℕ → Option (ℤ × Inode × Disk × Memory) → Option (Option (ℕ × ℕ) × Inode × Disk × Memory)
  after_read n off o = elim o [
    | none ↦ none
    | some (r, dp', d', s') ↦ elim (is_count 16 r) [
      | false ↦ none
      | true ↦ elim (de_inum de s' == 0) [
        | true ↦ lookup_from sb de n name (off + 16) dp' d' s'
        | false ↦ elim (is_count 0 (namecmp name (de + 2) s')) [
          | true ↦ some (some (off, de_inum de s'), dp', d', s')
          | false ↦ lookup_from sb de n name (off + 16) dp' d' s'
        ]
      ]
    ]
  ]

  lookup_from-read :
      (n off : ℕ) (cur : Memory)
      → off < dp.size
      → lookup_from sb de (suc n) name off dp d cur
        ≡ after_read n off (readi to_memory sb de off 16 dp d cur)
  unfolding lookup_from
  lookup_from-read n off cur lt =
      let t : ltb off dp.size ≡ true = ground arith in rw (t, lookup_from) refl

  after_read-hit :
      (n k : ℕ)
      → is_hit k ≡ true
      → after_read n (16 * k) (some (pos 16, dp, d, entry k))
        ≡ some (some (16 * k, de_inum de (entry k)), dp, d, entry k)
  unfolding is_count
  after_read-hit n k h =
      let f : (de_inum de (entry k) == 0) ≡ false = grind arith in
      let t : is_count 0 (namecmp name (de + 2) (entry k)) ≡ true = grind arith in
      rw (f, t, after_read) refl

  after_read-miss :
      (n k : ℕ)
      → is_hit k ≡ false
      → after_read n (16 * k) (some (pos 16, dp, d, entry k))
        ≡ lookup_from sb de n name (16 * k + 16) dp d (entry k)
  unfolding is_count
  after_read-miss n k h = elim (Bool-cases (de_inum de (entry k) == 0)) [
    | inl t ↦ rw (t, after_read) refl
    | inr f ↦
        (let g : is_count 0 (namecmp name (de + 2) (entry k)) ≡ false = grind arith in
          rw (f, g, after_read) refl)
  ]

  Searched-suc :
      (k : ℕ) {out : Option (Option (ℕ × ℕ) × Inode × Disk × Memory)}
      → is_hit k ≡ false
      → Searched (suc k) out
      → Searched k out
  Searched-suc k miss (absent s' e all) = absent s' e (λ j le lt. from_here j le (all j) lt)
    where
      from_here :
          (j : ℕ)
          → k ≤ j
          → (suc k ≤ j → 16 * j < dp.size → is_hit j ≡ false)
          → 16 * j < dp.size
          → is_hit j ≡ false
      from_here j le later lt = elim (lt_or_eq_or_lt k j) [
        | inl below ↦ later (omega arith) lt
        | inr (inl e) ↦ subst (λ x. is_hit x ≡ false) e miss
        | inr (inr above) ↦ absurd (omega arith)
      ]
  Searched-suc k miss (present j e le lt hit before) =
      present j e (omega arith) lt hit (λ i le' lt'. from_here i le' (before i) lt')
    where
      from_here :
          (i : ℕ) → k ≤ i → (suc k ≤ i → i < j → is_hit i ≡ false) → i < j → is_hit i ≡ false
      from_here i le' later lt' = elim (lt_or_eq_or_lt k i) [
        | inl below ↦ later (omega arith) lt'
        | inr (inl e) ↦ subst (λ x. is_hit x ≡ false) e miss
        | inr (inr above) ↦ absurd (omega arith)
      ]

  lookup_from-end :
      (n off : ℕ) (cur : Memory)
      → dp.size ≤ off
      → lookup_from sb de n name off dp d cur ≡ some (none, dp, d, cur)
  unfolding lookup_from
  lookup_from-end zero off cur le =
      let f : ltb off dp.size ≡ false = ground arith in rw (f, lookup_from) refl
  lookup_from-end (suc n) off cur le =
      let f : ltb off dp.size ≡ false = ground arith in rw (f, lookup_from) refl

  lookup_from-Searched :
      (n k : ℕ) (cur : Memory)
      → IsWhole dp d
      → Agrees cur
      → dp.size ≤ 16 * k + 16 * n
      → Searched k (lookup_from sb de n name (16 * k) dp d cur)
  lookup_from-Searched zero k cur w agree enough =
      absent cur (lookup_from-end zero (16 * k) cur (omega arith)) (λ j le lt. absurd (omega arith))
  lookup_from-Searched (suc n) k cur w agree enough = elim (Bool-cases (ltb (16 * k) dp.size)) [
    | inr f ↦
        (let past : dp.size ≤ 16 * k = ground arith in
          absent cur (lookup_from-end (suc n) (16 * k) cur past) (λ j le lt. absurd (omega arith)))
    | inl t ↦
        (let lt : 16 * k < dp.size = ground arith in
          let step =
            lookup_from-read n (16 * k) cur lt
            ∙ ap (after_read n (16 * k)) (readi-entry cur k w agree lt) in
          elim (Bool-cases (is_hit k)) [
            | inl h ↦
                present k (step ∙ after_read-hit n k h) (omega arith) lt h
                  (λ i le lt'. absurd (omega arith))
            | inr miss ↦
                (let next : 16 * k + 16 ≡ 16 * suc k = omega arith in
                  subst (Searched k)
                    (sym (
                      step
                      ∙ (after_read-miss n k miss
                          ∙ ap (λ o. lookup_from sb de n name o dp d (entry k)) next)))
                    (Searched-suc k miss
                      (lookup_from-Searched n (suc k) (entry k) w (Agrees-entry k) (omega arith))))
          ])
  ]

  dirlookup-loop :
      dp.type ≡ t_dir
      → dirlookup sb de name dp d s ≡ lookup_from sb de ((dp.size + 15) / 16) name 0 dp d s
  unfolding dirlookup
  dirlookup-loop kind = let t : (dp.type == t_dir) ≡ true = ground arith in rw t refl

  -- The search of the whole directory, with enough fuel.
  pub dirlookup-Searched : dp.type ≡ t_dir → IsWhole dp d → Searched 0 (dirlookup sb de name dp d s)
  dirlookup-Searched kind w =
      subst (Searched 0) (sym (dirlookup-loop kind))
        (lookup_from-Searched ((dp.size + 15) / 16) 0 s w (λ a _. refl) (omega arith))
