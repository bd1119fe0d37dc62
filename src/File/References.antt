-- ===== src/File/References.antt =====
-- Reference counts of the open-file table are exact (kernel/file.c).

use mathlib.Core.Path.{subst}
use os_cea.Base.{
  ℕ, suc, ◌+◌, ◌-◌, ◌<◌, ◌≡◌, ◌≢◌, ◌⊎◌, inl, inr, refl, sym, ap, ◌∙◌, false, none, some, List, [],
  ◌∷◌, ◌==◌, if◌then◌else◌, get_elem?, modify, find_index?, ltb, arith, Bool-cases, Option-cases,
  find_index?-IsFirst, get_elem?-modify_inv, ==_iff, true≢false, find_index?-none, tests,
}
use os_cea.File.{
  File, filealloc, filedup, fileclose, FileType, Close, still_open, close_pipe, put_inode, nothing,
  last_close, fd_none, fd_pipe, fd_inode, fd_device,
}

-- How many of the references are to one file.
abbrev pub count : ℕ → List ℕ → ℕ
count i [] = 0
count i (x ∷ xs) = (if x == i then 1 else 0) + count i xs

-- The references that processes hold, each the index of a file, are those that the table counts.
abbrev pub IsCounted : List File → List ℕ → Type 0
IsCounted fs owners = (i : ℕ) (f : File) → get_elem? fs i ≡ some f → f.ref ≡ count i owners

-- A change of one entry, and of the references to that entry.
IsCounted-modify :
    (fs : List File) (owners owners' : List ℕ) (i : ℕ) (g : File → File)
    → IsCounted fs owners
    → ((f : File) → get_elem? fs i ≡ some f → (g f).ref ≡ count i owners')
    → ((j : ℕ) → j ≢ i → count j owners' ≡ count j owners)
    → IsCounted (modify fs i g) owners'
IsCounted-modify fs owners owners' i g h here there j f e =
    let (a, at, came) = get_elem?-modify_inv fs i j g e in
    elim came [
      | inl (same, v) ↦
          ap (λ x. x.ref) v
          ∙ subst (λ k. (g a).ref ≡ count k owners') same
              (here a (subst (λ k. get_elem? fs k ≡ some a) (sym same) at))
      | inr (apart, v) ↦ ap (λ x. x.ref) v ∙ (h j a at ∙ sym (there j (λ q. apart (sym q))))
    ]

count_self : (i : ℕ) (owners : List ℕ) → count i (i ∷ owners) ≡ suc (count i owners)
count_self i owners = ground arith

count-other : (i j : ℕ) (owners : List ℕ) → j ≢ i → count j (i ∷ owners) ≡ count j owners
count-other i j owners ne = ground arith

-- `filealloc` finds a file that nobody refers to, or nothing only if every file is referred to; the
-- counts stay exact, the new reference included.
pub filealloc-IsCounted :
    (fs : List File) (owners : List ℕ)
    → IsCounted fs owners
    → ((filealloc fs ≡ (none, fs)) × ((i : ℕ) (f : File) → get_elem? fs i ≡ some f → f.ref ≢ 0))
      ⊎ ((i : ℕ) × ((filealloc fs).0 ≡ some i)
          × (count i owners ≡ 0)
          × IsCounted (filealloc fs).1 (i ∷ owners))
unfolding filealloc
filealloc-IsCounted fs owners h = elim (Option-cases (find_index? (λ f. f.ref == 0) fs)) [
  | inl e ↦ inl (
    rw (e, filealloc) refl,
    λ i f at z. true≢false ((==_iff f.ref 0).1 z) (find_index?-none (λ f. f.ref == 0) fs e i f at),
  )
  | inr (i, e) ↦ inr (
      let first = find_index?-IsFirst (λ f. f.ref == 0) fs i e in
      let free : first.item.ref ≡ 0 = (==_iff first.item.ref 0).0 first.passes in
      let nobody : count i owners ≡ 0 = sym (h i first.item first.at) ∙ free in
      (
        i,
        rw (e, filealloc) refl,
        nobody,
        rw (e, filealloc)
            (IsCounted-modify fs owners (i ∷ owners) i (λ f. record f { ref = 1 }) h
              (λ g at. omega (arith, count_self i owners, nobody))
              (λ j ne. count-other i j owners ne)),
      ))
]

-- A file that somebody refers to can be duplicated: `filedup` does not panic and the counts stay exact.
pub filedup-IsCounted :
    (i : ℕ) (f : File) (fs : List File) (owners : List ℕ)
    → IsCounted fs owners
    → get_elem? fs i ≡ some f
    → 0 < count i owners
    → (fs' : List File) × (filedup i fs ≡ some fs') × IsCounted fs' (i ∷ owners)
unfolding filedup
filedup-IsCounted i f fs owners h at some_owner =
    let up : File → File = λ f. record f { ref = f.ref + 1 } in
    let n = h i f at in
    let used : ltb f.ref 1 ≡ false = ground arith in
    (
      modify fs i up,
      rw (at, used, filedup) refl,
      IsCounted-modify fs owners (i ∷ owners) i up h
          (λ g e. omega (arith, h i g e, count_self i owners)) (λ j ne. count-other i j owners ne),
    )

-- What there is to do when the last reference to a file goes: for a pipe, to close its read or write end;
-- for an inode or a device, to put the inode; for neither, nothing.
pub data Closes (f : File) : Close → Type 0 where
  closes_pipe : f.type ≡ fd_pipe → Closes f (close_pipe f.pipe f.writable)
  puts_inode : f.type ≡ fd_inode → Closes f (put_inode f.ip)
  puts_device : f.type ≡ fd_device → Closes f (put_inode f.ip)
  has_none : f.type ≡ fd_none → Closes f nothing

FileType-cases :
    (t : FileType) → (t ≡ fd_none) ⊎ ((t ≡ fd_pipe) ⊎ ((t ≡ fd_inode) ⊎ (t ≡ fd_device)))
FileType-cases fd_none = inl refl
FileType-cases fd_pipe = inr (inl refl)
FileType-cases fd_inode = inr (inr (inl refl))
FileType-cases fd_device = inr (inr (inr refl))

abbrev close_at : File → FileType → Close
close_at f t = elim t [
  | fd_none ↦ nothing
  | fd_pipe ↦ close_pipe f.pipe f.writable
  | fd_inode ↦ put_inode f.ip
  | fd_device ↦ put_inode f.ip
]

last_close-Closes : (f : File) → Closes f (last_close f)
last_close-Closes f = elim (FileType-cases f.type) [
  | inl e ↦ subst (Closes f) (sym (ap (close_at f) e)) (has_none e)
  | inr (inl e) ↦ subst (Closes f) (sym (ap (close_at f) e)) (closes_pipe e)
  | inr (inr (inl e)) ↦ subst (Closes f) (sym (ap (close_at f) e)) (puts_inode e)
  | inr (inr (inr e)) ↦ subst (Closes f) (sym (ap (close_at f) e)) (puts_device e)
]

-- `fileclose` of a file that is referred to does not panic, and the counts stay exact without that
-- reference. If others are left there is nothing else to do; if this was the last one, the end of the
-- pipe that the file was open for is to be closed, or the inode of the file or device to be put.
pub fileclose-IsCounted :
    (i : ℕ) (f : File) (fs : List File) (owners : List ℕ)
    → IsCounted fs (i ∷ owners)
    → get_elem? fs i ≡ some f
    → (c : Close) × (fs' : List File) × (fileclose i fs ≡ some (c, fs'))
      × IsCounted fs' owners
      × (((0 < count i owners) × (c ≡ still_open)) ⊎ ((count i owners ≡ 0) × Closes f c))
unfolding fileclose
fileclose-IsCounted i f fs owners h at =
    let n = h i f at in
    let more = count_self i owners in
    let used : ltb f.ref 1 ≡ false = ground arith in
    elim (Bool-cases (ltb 0 (f.ref - 1))) [
      | inl t ↦ (
        still_open,
        modify fs i (λ f. record f { ref = f.ref - 1 }),
        rw (at, used, t, fileclose) refl,
        IsCounted-modify fs (i ∷ owners) owners i (λ f. record f { ref = f.ref - 1 }) h
            (λ g e. omega (arith, h i g e, more)) (λ j ne. sym (count-other i j owners ne)),
        inl (omega (tests, n, more, t), refl),
      )
      | inr u ↦ (
        last_close f,
        modify fs i (λ f. record f { ref = 0; type = fd_none }),
        rw (at, used, u, fileclose) refl,
        IsCounted-modify fs (i ∷ owners) owners i (λ f. record f { ref = 0; type = fd_none }) h
            (λ g e. ground arith) (λ j ne. sym (count-other i j owners ne)),
        inr (ground arith, last_close-Closes f),
      )
    ]
