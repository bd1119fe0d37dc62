-- ===== src/Fs/Table.antt =====
-- The inode table never has two entries in use for one inode (kernel/fs.c).
use mathlib.Core.Option
use mathlib.Core.Option.{some-injective}
use mathlib.Core.Path.{subst}
use os_cea.Base.{
  ℕ, zero, suc, ◌+◌, ◌≤◌, ◌<◌, ◌≡◌, inl, inr, refl, sym, ap, ◌∙◌, true, false, Option, none, some,
  List, [], ◌∷◌, if◌then◌else◌, get_elem?, modify, find_index?, find_index?-IsFirst,
  find_index?-none, get_elem?-modify_self, arith, Bool-cases, Option-cases, ==_iff,
}
use os_cea.Fs.{Inode, is_entry, is_unreferenced, one_more, reuse, iget, idup, put, iput, is_orphan}

abbrev pub weight : ℕ → ℕ → Inode → ℕ
weight dev inum ip = if is_entry dev inum ip then 1 else 0

-- How many entries in use are for an inode.
abbrev pub entries : ℕ → ℕ → List Inode → ℕ
entries dev inum [] = 0
entries dev inum (ip ∷ ips) = weight dev inum ip + entries dev inum ips

abbrev pub HasOneEntry : List Inode → Type 0
HasOneEntry ips = (dev inum : ℕ) → entries dev inum ips ≤ 1

entries-modify :
    (d n : ℕ) (ips : List Inode) (i : ℕ) (f : Inode → Inode) (ip : Inode)
    → get_elem? ips i ≡ some ip
    → entries d n (modify ips i f) + weight d n ip ≡ entries d n ips + weight d n (f ip)
entries-modify d n [] i f ip h = absurd cc
entries-modify d n (p ∷ ips) zero f ip h =
    let e : p ≡ ip = some-injective _ _ h in
    subst (λ x. entries d n (f p ∷ ips) + weight d n x ≡ entries d n (p ∷ ips) + weight d n (f x)) e
      (omega arith)
entries-modify d n (p ∷ ips) (suc i) f ip h = omega (arith, entries-modify d n ips i f ip h)

entries-none :
    (d n : ℕ) (ips : List Inode) → find_index? (is_entry d n) ips ≡ none → entries d n ips ≡ 0
entries-none d n [] h = refl
entries-none d n (p ∷ ips) h = elim (Bool-cases (is_entry d n p)) [
  | inl t ↦ ground arith
  | inr f ↦ (let rest = entries-none d n ips (ground arith) in ground arith)
]

is_entry_lem :
    (dev inum : ℕ) (ip : Inode)
    → is_entry dev inum ip ≡ true
    → (0 < ip.ref) × (ip.dev ≡ dev) × (ip.inum ≡ inum)
is_entry_lem dev inum ip h = ground arith

weight-used : (d n : ℕ) (ip : Inode) → 0 < ip.ref → weight d n (one_more ip) ≡ weight d n ip
weight-used d n ip lt = ground arith

weight-empty : (d n : ℕ) (ip : Inode) → ip.ref ≡ 0 → weight d n ip ≡ 0
weight-empty d n ip z = ground arith

weight-put : (d n : ℕ) (ip : Inode) → weight d n (put ip) ≤ weight d n ip
weight-put d n ip = elim (Bool-cases (is_orphan ip)) [
  | inl t ↦ rw t (ground arith)
  | inr f ↦ rw f (ground arith)
]

at-modify :
    (ips : List Inode) (i : ℕ) (f : Inode → Inode) {ip : Inode}
    → get_elem? ips i ≡ some ip
    → get_elem? (modify ips i f) i ≡ some (f ip)
at-modify ips i f e = get_elem?-modify_self ips i f ∙ ap (Option.map f) e

HasOneEntry-one_more :
    (ips : List Inode) (i : ℕ) (ip : Inode)
    → get_elem? ips i ≡ some ip
    → 0 < ip.ref
    → HasOneEntry ips
    → HasOneEntry (modify ips i one_more)
HasOneEntry-one_more ips i ip at lt one d n =
    omega (arith, entries-modify d n ips i one_more ip at, weight-used d n ip lt, one d n)

HasOneEntry-reuse :
    (dev inum i : ℕ) (ips : List Inode) (ip : Inode)
    → find_index? (is_entry dev inum) ips ≡ none
    → get_elem? ips i ≡ some ip
    → ip.ref ≡ 0
    → HasOneEntry ips
    → HasOneEntry (modify ips i (reuse dev inum))
HasOneEntry-reuse dev inum i ips ip e at z one d n =
    let change = entries-modify d n ips i (reuse dev inum) ip at in
    let old = weight-empty d n ip z in
    let few = one d n in
    elim (Bool-cases (is_entry d n (reuse dev inum ip))) [
      | inr f ↦ (let new : weight d n (reuse dev inum ip) ≡ 0 = rw f refl in omega arith)
      | inl t ↦
          (let key = is_entry_lem d n (reuse dev inum ip) t in
            let new : weight d n (reuse dev inum ip) ≡ 1 = rw t refl in
            let nobody : entries d n ips ≡ 0 =
              rw (sym key.1) (rw (sym key.2) (entries-none dev inum ips e)) in
            omega arith)
    ]

iget-hit :
    (dev inum i : ℕ) (ips : List Inode)
    → find_index? (is_entry dev inum) ips ≡ some i
    → iget dev inum ips ≡ some (i, modify ips i one_more)
unfolding iget
iget-hit dev inum i ips h = rw (h, iget) refl

iget-miss :
    (dev inum : ℕ) (ips : List Inode) (o : Option ℕ)
    → find_index? (is_entry dev inum) ips ≡ none
    → find_index? is_unreferenced ips ≡ o
    → iget dev inum ips
      ≡ (elim o [ none ↦ none | some i ↦ some (i, modify ips i (reuse dev inum)) ])
unfolding iget
iget-miss dev inum ips none h l = rw (h, l, iget) refl
iget-miss dev inum ips (some i) h l = rw (h, l, iget) refl

-- What `iget` answers.
pub data Got (dev inum : ℕ) (ips : List Inode) : Type 0 where
  panicked :
      iget dev inum ips ≡ none
      → ((i : ℕ) (ip : Inode) → get_elem? ips i ≡ some ip → is_unreferenced ip ≡ false)
      → Got dev inum ips
  got :
      (i : ℕ) (ip : Inode) (ips' : List Inode)
      → iget dev inum ips ≡ some (i, ips')
      → get_elem? ips' i ≡ some ip
      → (0 < ip.ref) × (ip.dev ≡ dev) × (ip.inum ≡ inum)
      → HasOneEntry ips'
      → Got dev inum ips

-- In a table with one entry in use per inode at most, `iget` panics only if every entry is in use.
-- Otherwise it returns an entry for the inode, in use, and there is still one per inode at most.
pub iget-Got : (dev inum : ℕ) (ips : List Inode) → HasOneEntry ips → Got dev inum ips
iget-Got dev inum ips one = elim (Option-cases (find_index? (is_entry dev inum) ips)) [
  | inr (i, e) ↦
      (let f = find_index?-IsFirst (is_entry dev inum) ips i e in
        let (lt, same_dev, same_inum) = is_entry_lem dev inum f.item f.passes in
        got i (one_more f.item) (modify ips i one_more) (iget-hit dev inum i ips e)
          (at-modify ips i one_more f.at) (omega arith, same_dev, same_inum)
          (HasOneEntry-one_more ips i f.item f.at lt one))
  | inl e ↦ elim (Option-cases (find_index? is_unreferenced ips)) [
    | inl l ↦ panicked (iget-miss dev inum ips none e l) (find_index?-none is_unreferenced ips l)
    | inr (i, l) ↦
        (let f = find_index?-IsFirst is_unreferenced ips i l in
          got i (reuse dev inum f.item) (modify ips i (reuse dev inum))
            (iget-miss dev inum ips (some i) e l) (at-modify ips i (reuse dev inum) f.at)
            (omega arith, refl, refl)
            (HasOneEntry-reuse dev inum i ips f.item e f.at ((==_iff f.item.ref 0).0 f.passes) one))
  ]
]

-- `idup` and `iput` of an entry in use keep one entry in use per inode at most.
pub idup-iput-HasOneEntry :
    (i : ℕ) (ip : Inode) (ips : List Inode)
    → get_elem? ips i ≡ some ip
    → 0 < ip.ref
    → HasOneEntry ips
    → HasOneEntry (idup i ips) × HasOneEntry (iput i ips).1
unfolding idup iput
idup-iput-HasOneEntry i ip ips at lt one = (
  HasOneEntry-one_more ips i ip at lt one,
  rw (at, iput)
      (λ d n. omega (arith, entries-modify d n ips i put ip at, weight-put d n ip, one d n)),
)
