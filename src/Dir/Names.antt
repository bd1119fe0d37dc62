-- ===== src/Dir/Names.antt =====
-- The entries of a directory by the bytes on the disk, for dirlookup (kernel/fs.c).
use os_cea.Base.{
  ℕ, zero, suc, ◌+◌, ◌-◌, ◌*◌, ◌<◌, ◌≡◌, ◌≢◌, ◌↔◌, refl, sym, ap, ◌∙◌, true, false, not, ◌&&◌,
  Option, none, some, [], ◌∷◌, if◌then◌else◌, ◌==◌, arith, Bool-cases, inl, inr, true≢false, ==_iff,
}
use os_cea.Base.Int.{ℤ, pos, negsuc}
use os_cea.Str.{Memory}
use os_cea.Str.Compare.{cstr, strncmp_iff}
use os_cea.Str.Move.{within}
use os_cea.Disk.{Superblock, Disk}
use os_cea.Inode.{Inode}
use os_cea.Inode.Reading.{content}
use os_cea.Dir.{t_dir, is_count, namecmp, de_inum, dirlookup}
use os_cea.Dir.Search.{IsWhole, entry, is_hit, absent, present, dirlookup-Searched}

is_count_iff : (z : ℤ) → (is_count 0 z ≡ true) ↔ (z ≡ pos 0)
unfolding is_count
is_count_iff (pos n) = (λ e. ap pos ((==_iff n 0).0 e), λ e. ap (is_count 0) e)
is_count_iff (negsuc n) = (λ e. absurd (true≢false e refl), λ e. ap (is_count 0) e)

-- A string depends on its bytes.
cstr-same :
    (n p q : ℕ) (m m' : Memory)
    → ((i : ℕ) → i < n → m (p + i) ≡ m' (q + i))
    → cstr p n m ≡ cstr q n m'
cstr-same zero p q m m' same = refl
cstr-same (suc n) p q m m' same =
    let first : m p ≡ m' q =
      ap m (plus_zero p) ∙ (same 0 (omega arith) ∙ ap m' (sym (plus_zero q))) in
    let rest =
      cstr-same n (p + 1) (q + 1) m m'
        (λ i lt. ap m (shift p i) ∙ (same (suc i) (omega arith) ∙ ap m' (sym (shift q i)))) in
    ap (λ x. if x == 0 then [] else x ∷ cstr (p + 1) n m) first
    ∙ ap (λ xs. if m' q == 0 then [] else m' q ∷ xs) rest
  where
    plus_zero : (p : ℕ) → p ≡ p + 0
    plus_zero p = omega arith

    shift : (p i : ℕ) → p + 1 + i ≡ p + suc i
    shift p i = omega arith

-- The inode number in entry `k`, and whether the entry is in use and its name is the string at `name`, as
-- `DIRSIZ` bytes tell them apart.
abbrev pub inum_at : Inode → Disk → ℕ → ℕ
inum_at dp d k = content dp d (16 * k) + 256 * content dp d (16 * k + 1)

abbrev pub IsEntry : ℕ → Memory → Inode → Disk → ℕ → Type 0
IsEntry name s dp d k =
    (inum_at dp d k ≢ 0) × (cstr name 14 s ≡ cstr (16 * k + 2) 14 (content dp d))

module _ (sb : Superblock) (de name : ℕ) (dp : Inode) (d : Disk) (s : Memory) where
  -- What a search of the directory finds: nothing, or the first entry that is in use and has the name.
  pub data Looked (out : Option (Option (ℕ × ℕ) × Inode × Disk × Memory)) : Type 0 where
    missing :
        (s' : Memory)
        → out ≡ some (none, dp, d, s')
        → ((j : ℕ) → 16 * j < dp.size → ¬ IsEntry name s dp d j)
        → Looked out
    first :
        (j : ℕ) (s' : Memory)
        → out ≡ some (some (16 * j, inum_at dp d j), dp, d, s')
        → 16 * j < dp.size
        → IsEntry name s dp d j
        → ((i : ℕ) → i < j → ¬ IsEntry name s dp d i)
        → Looked out

  byte-entry : (k i : ℕ) → i < 16 → entry sb de name dp d s k (de + i) ≡ content dp d (16 * k + i)
  byte-entry k i lt =
      let t : within de 16 (de + i) ≡ true = ground arith in
      let e : de + i - de ≡ i = omega arith in rw t (ap (λ n. content dp d (16 * k + n)) e)

  inum-entry : (k : ℕ) → de_inum de (entry sb de name dp d s k) ≡ inum_at dp d k
  inum-entry k =
      let z : de ≡ de + 0 = omega arith in
      let z' : 16 * k + 0 ≡ 16 * k = omega arith in
      let b₀ =
        ap (entry sb de name dp d s k) z ∙ (byte-entry k 0 (omega arith) ∙ ap (content dp d) z') in
      let b₁ = byte-entry k 1 (omega arith) in
      ap (λ x. x + 256 * entry sb de name dp d s k (de + 1)) b₀
      ∙ ap (λ x. content dp d (16 * k) + 256 * x) b₁

  module _ (far : (i : ℕ) → i < 14 → within de 16 (name + i) ≡ false) where
    namecmp_iff :
        (k : ℕ)
        → (namecmp name (de + 2) (entry sb de name dp d s k) ≡ pos 0)
          ↔ (cstr name 14 s ≡ cstr (16 * k + 2) 14 (content dp d))
    unfolding namecmp
    namecmp_iff k =
        let m = entry sb de name dp d s k in
        let here : cstr name 14 m ≡ cstr name 14 s =
          cstr-same 14 name name m s (λ i lt. (let f = far i lt in rw f refl)) in
        let there : cstr (de + 2) 14 m ≡ cstr (16 * k + 2) 14 (content dp d) =
          cstr-same 14 (de + 2) (16 * k + 2) m (content dp d) (λ i lt.
            ap m (add_two de i)
            ∙ (byte-entry k (2 + i) (omega arith)
                ∙ ap (content dp d) (sym (add_two (16 * k) i)))) in
        let iff = strncmp_iff 14 name (de + 2) m in
        (λ e. sym here ∙ (iff.0 e ∙ there), λ e. iff.1 (here ∙ (e ∙ sym there)))
      where
        add_two : (a i : ℕ) → a + 2 + i ≡ a + (2 + i)
        add_two a i = omega arith

    hit-IsEntry : (k : ℕ) → is_hit sb de name dp d s k ≡ true → IsEntry name s dp d k
    hit-IsEntry k h = elim (Bool-cases (de_inum de (entry sb de name dp d s k) == 0)) [
      | inl t ↦ absurd (
          true≢false h
            (ap (λ b. not b && is_count 0 (namecmp name (de + 2) (entry sb de name dp d s k))) t))
      | inr f ↦ (
        λ z. true≢false ((==_iff _ 0).1 (inum-entry k ∙ z)) f,
        (namecmp_iff k).0 (
            (is_count_iff _).0 (
              sym (
                ap (λ b. not b && is_count 0 (namecmp name (de + 2) (entry sb de name dp d s k))) f)
              ∙ h)),
      )
    ]

    IsEntry-hit : (k : ℕ) → IsEntry name s dp d k → is_hit sb de name dp d s k ≡ true
    IsEntry-hit k (ne, same) = elim (Bool-cases (de_inum de (entry sb de name dp d s k) == 0)) [
      | inl t ↦ absurd (ne (sym (inum-entry k) ∙ (==_iff _ 0).0 t))
      | inr f ↦
          ap (λ b. not b && is_count 0 (namecmp name (de + 2) (entry sb de name dp d s k))) f
          ∙ (is_count_iff _).1 ((namecmp_iff k).1 same)
    ]

    -- `dirlookup` of a name, whose bytes are not those of the entry read, in a directory of whole entries,
    -- whose blocks are all there, does not panic. It returns the first entry with an inode number other than
    -- 0 whose name is the string asked for, as the first `DIRSIZ` bytes tell, with its offset and that inode
    -- number, and nothing if there is no such entry; the directory and the disk do not change. The fuel of one
    -- round for each 16 bytes of the directory is enough.
    pub dirlookup-Looked : dp.type ≡ t_dir → IsWhole dp d → Looked (dirlookup sb de name dp d s)
    dirlookup-Looked kind w = elim (dirlookup-Searched sb de name dp d s kind w) [
      | absent s' e none_of ↦
          missing s' e (λ j lt is. true≢false (IsEntry-hit j is) (none_of j (omega arith) lt))
      | present j e _ lt hit before ↦
          first j (entry sb de name dp d s j)
            (e ∙ ap (λ n. some (some (16 * j, n), dp, d, entry sb de name dp d s j)) (inum-entry j))
            lt (hit-IsEntry j hit)
            (λ i less is. true≢false (IsEntry-hit i is) (before i (omega arith) less))
    ]
