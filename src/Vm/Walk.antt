-- ===== src/Vm/Walk.antt =====
-- What a walk that may add page tables does (kernel/vm.c).
use mathlib.Core.Path.{subst}
use os_cea.Base.{
  ℕ, zero, suc, ◌+◌, ◌≤◌, ◌<◌, ◌≡◌, ◌≢◌, inl, inr, refl, sym, ap, ◌∙◌, true, false, Option, none,
  some, List, [], ◌∷◌, ◌==◌, if◌then◌else◌, arith, Bool-cases, List-cases,
}
use os_cea.Kalloc
use os_cea.Kalloc.{kalloc, fill}
use os_cea.Vm.{Mem, is_valid, pa2pte, pte2pa, px, set_pte, fill_words, alloc, walk_from}
use os_cea.Vm.Tree.{IsFrame, AreFree, IsTree, slot, entry, slot-step, slot-stop, px-small}
use os_cea.Vm.Grow.{ranked, linked, linked-IsTree, entry-linked, slot-linked, word_kept}

-- A memory with more page tables: still a tree, with every address mapped as before.
pub record Grows (rank : ℕ → ℕ) (m m' : Mem) : Type 0 where
  pub new_rank : ℕ → ℕ
  pub tree : IsTree new_rank m'.pte m'.phys.freelist
  pub kept : (p l : ℕ) → rank p ≡ l → l ≤ 2 → new_rank p ≡ l
  pub same : (k q va : ℕ) → k ≤ 2 → rank q ≡ k → entry k q va m'.pte ≡ entry k q va m.pte
  pub links :
      (p i k : ℕ) → rank p ≡ k → k ≤ 2 → is_valid (m.pte p i) ≡ true → m'.pte p i ≡ m.pte p i
  pub stays :
      (k q va : ℕ) (s : ℕ × ℕ)
      → k ≤ 2
      → rank q ≡ k
      → slot k q va m.pte ≡ some s
      → slot k q va m'.pte ≡ some s

Grows-refl : {rank : ℕ → ℕ} (m : Mem) → IsTree rank m.pte m.phys.freelist → Grows rank m m
Grows-refl {rank = rank} m t = record {
  new_rank = rank;
  tree = t;
  kept = λ p l e le. e;
  same = λ k q va le e. refl;
  links = λ p i k e le v. refl;
  stays = λ k q va s le e h. h;
}

pub Grows-trans :
    {rank : ℕ → ℕ} {m m' m'' : Mem} (g : Grows rank m m')
    → Grows g.new_rank m' m''
    → Grows rank m m''
Grows-trans g h = record {
  new_rank = h.new_rank;
  tree = h.tree;
  kept = λ p l e le. h.kept p l (g.kept p l e le) le;
  same = λ k q va le e. h.same k q va le (g.kept q k e le) ∙ g.same k q va le e;
  links = λ p i k e le v.
      (let here = g.links p i k e le v in
        h.links p i k (g.kept p k e le) le (ap is_valid here ∙ v) ∙ here);
  stays = λ k q va s le e x. h.stays k q va s le (g.kept q k e le) (g.stays k q va s le e x);
}

abbrev pub taken : ℕ → List ℕ → Mem → Mem
taken r rest m = record {
  phys = record { freelist = rest; byte = fill r 5 m.phys.byte };
  pte = fill_words r 0x0505050505050505 m.pte;
}

kalloc-cons :
    (phys : Kalloc.Memory) (r : ℕ) (rest : List ℕ)
    → phys.freelist ≡ r ∷ rest
    → kalloc phys ≡ (r, record { freelist = rest; byte = fill r 5 phys.byte })
unfolding kalloc
kalloc-cons phys r rest e = rw (e, kalloc) refl

abbrev first_page : Kalloc.Memory → List ℕ → ℕ × Kalloc.Memory
first_page phys fl = elim fl [
  | [] ↦ (0, phys)
  | r ∷ rest ↦ (r, record { freelist = rest; byte = fill r 5 phys.byte })
]

kalloc-nil : (phys : Kalloc.Memory) → phys.freelist ≡ [] → kalloc phys ≡ (0, phys)
unfolding kalloc
kalloc-nil phys e = ap (first_page phys) e

abbrev junked : Mem → ℕ × Kalloc.Memory → ℕ × Mem
junked m (r, phys) = (
  r,
  record { phys = phys; pte = if r == 0 then m.pte else fill_words r 0x0505050505050505 m.pte },
)

pub alloc-cons :
    (m : Mem) (r : ℕ) (rest : List ℕ)
    → m.phys.freelist ≡ r ∷ rest
    → 0 < r
    → alloc m ≡ (r, taken r rest m)
unfolding alloc
alloc-cons m r rest e lt =
    let z : (r == 0) ≡ false = ground arith in
    ap (junked m) (kalloc-cons m.phys r rest e) ∙ rw z refl

pub alloc-nil : (m : Mem) → m.phys.freelist ≡ [] → alloc m ≡ (0, m)
unfolding alloc
alloc-nil m e = ap (junked m) (kalloc-nil m.phys e)

abbrev with_table : ℕ → ℕ → ℕ → List ℕ → Mem → Mem
with_table pt index r rest m = record (taken r rest m) {
  pte = linked pt index r 0x0505050505050505 m.pte;
}

abbrev after_alloc : ℕ → ℕ → ℕ → ℕ × Mem → Option (ℕ × ℕ) × Mem
after_alloc l pt va (r, m') = elim (r == 0) [
  | true ↦ (none, m')
  | false ↦
      walk_from l r va true
        (record m' { pte = set_pte pt (px (suc l) va) (pa2pte r + 1) (fill_words r 0 m'.pte) })
]

module _ (l pt va : ℕ) (m : Mem) where
  walk_from-down :
      is_valid (m.pte pt (px (suc l) va)) ≡ true
      → walk_from (suc l) pt va true m ≡ walk_from l (pte2pa (m.pte pt (px (suc l) va))) va true m
  unfolding walk_from
  walk_from-down v = rw (v, walk_from) refl

  walk_from-alloc :
      is_valid (m.pte pt (px (suc l) va)) ≡ false
      → walk_from (suc l) pt va true m ≡ after_alloc l pt va (alloc m)
  unfolding walk_from
  walk_from-alloc f = rw (f, walk_from) refl

  walk_from-full :
      is_valid (m.pte pt (px (suc l) va)) ≡ false
      → m.phys.freelist ≡ []
      → walk_from (suc l) pt va true m ≡ (none, m)
  unfolding walk_from
  walk_from-full f n = walk_from-alloc f ∙ ap (after_alloc l pt va) (alloc-nil m n)

  walk_from-new :
      (r : ℕ) (rest : List ℕ)
      → is_valid (m.pte pt (px (suc l) va)) ≡ false
      → m.phys.freelist ≡ r ∷ rest
      → 0 < r
      → walk_from (suc l) pt va true m
        ≡ walk_from l r va true (with_table pt (px (suc l) va) r rest m)
  unfolding walk_from
  walk_from-new r rest f n lt =
      let z : (r == 0) ≡ false = ground arith in
      walk_from-alloc f
      ∙ (ap (after_alloc l pt va) (alloc-cons m r rest n lt) ∙ rw (z, after_alloc) refl)

  Grows-new :
      {rank : ℕ → ℕ} (r : ℕ) (rest : List ℕ)
      → IsTree rank m.pte m.phys.freelist
      → suc l ≤ 2
      → rank pt ≡ suc l
      → is_valid (m.pte pt (px (suc l) va)) ≡ false
      → m.phys.freelist ≡ r ∷ rest
      → (g : Grows rank m (with_table pt (px (suc l) va) r rest m)) × (g.new_rank r ≡ l)
  Grows-new {rank = rank} r rest t le e f n =
      let t' : IsTree rank m.pte (r ∷ rest) = subst (IsTree rank m.pte) n t in
      let index = px (suc l) va in
      let junk : ℕ = 0x0505050505050505 in
      (
        record {
          new_rank = ranked r l rank;
          tree = linked-IsTree r junk pt index l t' e (omega arith) (px-small (suc l) va) f;
          kept = λ p k q le'.
              (let far = t'.free.1 in
                let ne : p ≢ r = (λ z. absurd (far_off p r k far q le' z)) in ground arith);
          same = entry-linked r junk pt index l t' e (omega arith) (px-small (suc l) va) f;
          links = word_kept r junk pt index l t' e (omega arith) (px-small (suc l) va) f;
          stays = slot-linked r junk pt index l t' e (omega arith) (px-small (suc l) va) f;
        },
        ground arith,
      )
    where
      far_off : (p r k : ℕ) → 3 ≤ rank r → rank p ≡ k → k ≤ 2 → p ≡ r → ⊥
      far_off p r k far q le' z = let same : rank p ≡ rank r = ap rank z in omega arith

-- What a walk has found: nothing, since the address has no entry and there is no page for a table, or the
-- entry.
pub data Walked (rank : ℕ → ℕ) (l pt va : ℕ) (m : Mem) (out : Option (ℕ × ℕ) × Mem) : Type 0 where
  no_memory :
      out.0 ≡ none
      → out.1.phys.freelist ≡ []
      → slot l pt va out.1.pte ≡ none
      → Grows rank m out.1
      → Walked rank l pt va m out
  found :
      (s : ℕ × ℕ)
      → out.0 ≡ some s
      → slot l pt va out.1.pte ≡ some s
      → Grows rank m out.1
      → Walked rank l pt va m out

Walked-down :
    {rank : ℕ → ℕ} (l pt va : ℕ) (m : Mem) {out : Option (ℕ × ℕ) × Mem}
    → suc l ≤ 2
    → rank pt ≡ suc l
    → is_valid (m.pte pt (px (suc l) va)) ≡ true
    → Walked rank l (pte2pa (m.pte pt (px (suc l) va))) va m out
    → Walked rank (suc l) pt va m out
Walked-down l pt va m {out = out} le e v (no_memory z n h g) =
    let same = g.links pt (px (suc l) va) (suc l) e le v in
    no_memory z n
      (slot-step l pt va out.1.pte (ap is_valid same ∙ v)
        ∙ (ap (λ c. slot l (pte2pa c) va out.1.pte) same ∙ h))
      g
Walked-down l pt va m {out = out} le e v (found s z h g) =
    let same = g.links pt (px (suc l) va) (suc l) e le v in
    found s z
      (slot-step l pt va out.1.pte (ap is_valid same ∙ v)
        ∙ (ap (λ c. slot l (pte2pa c) va out.1.pte) same ∙ h))
      g

-- The new table is what the new entry leads to.
link_word :
    (pt index r : ℕ) (w : ℕ → ℕ → ℕ)
    → linked pt index r 0x0505050505050505 w pt index ≡ pa2pte r + 1
link_word pt index r w = ground arith

link_lem : (r : ℕ) → IsFrame r → (is_valid (pa2pte r + 1) ≡ true) × (pte2pa (pa2pte r + 1) ≡ r)
link_lem r (a, b, c) = (ground arith, omega arith)

-- The walk goes through the new table.
new_step :
    {rank : ℕ → ℕ} (l pt va : ℕ) (m : Mem) (r : ℕ) (rest : List ℕ) (m' : Mem) (o : Option (ℕ × ℕ))
    → suc l ≤ 2
    → rank pt ≡ suc l
    → IsFrame r
    → (g : Grows rank m (with_table pt (px (suc l) va) r rest m))
    → Grows g.new_rank (with_table pt (px (suc l) va) r rest m) m'
    → slot l r va m'.pte ≡ o
    → slot (suc l) pt va m'.pte ≡ o
new_step l pt va m r rest m' o le e frame g h x =
    let index = px (suc l) va in
    let new = link_word pt index r m.pte in
    let (odd, back) = link_lem r frame in
    let same : m'.pte pt index ≡ pa2pte r + 1 =
      h.links pt index (suc l) (g.kept pt (suc l) e le) le (ap is_valid new ∙ odd) ∙ new in
    slot-step l pt va m'.pte (ap is_valid same ∙ odd)
    ∙ (ap (λ c. slot l c va m'.pte) (ap pte2pa same ∙ back) ∙ x)

Walked-new :
    {rank : ℕ → ℕ} (l pt va : ℕ) (m : Mem) (r : ℕ) (rest : List ℕ) {out : Option (ℕ × ℕ) × Mem}
    → suc l ≤ 2
    → rank pt ≡ suc l
    → IsFrame r
    → (g : Grows rank m (with_table pt (px (suc l) va) r rest m))
    → Walked g.new_rank l r va (with_table pt (px (suc l) va) r rest m) out
    → Walked rank (suc l) pt va m out
Walked-new l pt va m r rest {out = out} le e frame g (no_memory z n x h) =
    no_memory z n (new_step l pt va m r rest out.1 none le e frame g h x) (Grows-trans g h)
Walked-new l pt va m r rest {out = out} le e frame g (found s z x h) =
    found s z (new_step l pt va m r rest out.1 (some s) le e frame g h x) (Grows-trans g h)

pub walk_from-Walked :
    (l pt va : ℕ) {rank : ℕ → ℕ} (m : Mem)
    → IsTree rank m.pte m.phys.freelist
    → l ≤ 2
    → rank pt ≡ l
    → Walked rank l pt va m (walk_from l pt va true m)
unfolding walk_from
walk_from-Walked zero pt va m t le e = found (pt, px 0 va) refl refl (Grows-refl m t)
walk_from-Walked (suc l) pt va {rank = rank} m t le e =
    elim (Bool-cases (is_valid (m.pte pt (px (suc l) va)))) [
      | inl v ↦ subst (Walked rank (suc l) pt va m) (sym (walk_from-down l pt va m v)) (
          Walked-down l pt va m le e v (
            walk_from-Walked l (pte2pa (m.pte pt (px (suc l) va))) va m t (omega arith)
              (t.leads pt (px (suc l) va) l e (omega arith) (px-small (suc l) va) v)))
      | inr f ↦ elim (List-cases m.phys.freelist) [
        | inl n ↦
            subst (Walked rank (suc l) pt va m) (sym (walk_from-full l pt va m f n))
              (no_memory refl n (slot-stop l pt va m.pte f) (Grows-refl m t))
        | inr (r, rest, n) ↦
            (let frame = (subst (AreFree rank) n t.free).0 in
              let (g, e') = Grows-new l pt va m r rest t le e f n in
              subst (Walked rank (suc l) pt va m) (sym (walk_from-new l pt va m r rest f n frame.1))
                (Walked-new l pt va m r rest le e frame g (
                  walk_from-Walked l r va (with_table pt (px (suc l) va) r rest m) g.tree
                    (omega arith) e')))
      ]
    ]
