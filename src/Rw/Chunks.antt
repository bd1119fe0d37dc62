-- ===== src/Rw/Chunks.antt =====
-- filewrite (kernel/file.c), transaction by transaction, writes the bytes as one write would.
use mathlib.Core.Path.{subst}
use os_cea.Base.{
  ℕ, zero, suc, ◌+◌, ◌-◌, ◌*◌, ◌≤◌, ◌<◌, ◌≡◌, refl, sym, ap, ◌∙◌, true, false, Option, none, some,
  ◌==◌, leb, ltb, if◌then◌else◌, arith,
}
use os_cea.Base.Int.{ℤ, pos}
use os_cea.Str.{Memory}
use os_cea.Disk.{Superblock, Disk}
use os_cea.File.{fd_inode, File}
use os_cea.Inode.{Inode, from_memory, writei}
use os_cea.Inode.Writing.{IsPlaced, IsPlaced-same, IsWritten, IsWritten-more, IsWritten-none}
use os_cea.Inode.RoundTrip.{IsReady, grown, writei-IsWritten}
use os_cea.Rw.{max, advance_off, is_all, write_chunks, filewrite}

IsPlaced-grown :
    (sb : Superblock) (end : ℕ) (ip : Inode) (d : Disk)
    → IsPlaced sb ip d
    → IsPlaced sb (grown end ip) d
IsPlaced-grown sb end ip d p = record {
  distinct = p.distinct;
  apart = p.apart;
  indirect = p.indirect;
}

grown_twice : (a b : ℕ) (ip : Inode) → a ≤ b → grown b (grown a ip) ≡ grown b ip
grown_twice a b ip le =
    let size : (if ltb (if ltb ip.size a then a else ip.size) b
          then b
          else (if ltb ip.size a then a else ip.size))
        ≡ (if ltb ip.size b then b else ip.size) =
      ground arith in
    ap (λ z. record ip { size = z }) size

grown_none : (end : ℕ) (ip : Inode) → end ≤ ip.size → ip ≡ grown end ip
grown_none end ip le = let f : ltb ip.size end ≡ false = ground arith in rw f refl

IsReady-written :
    (sb : Superblock) (end off n src : ℕ) (s : Memory) (ip : Inode) (d d' : Disk) (e : ℕ)
    → end ≤ 268 * 1024
    → IsReady sb end ip d
    → IsWritten off n src s ip d d'
    → IsReady sb end (grown e ip) d'
IsReady-written sb end off n src s ip d d' e low (placed, there) (same, _) = (
  IsPlaced-grown sb e ip d' (IsPlaced-same sb ip d d' same placed),
  λ bn lt. (let few : bn < 268 = omega arith in λ z. there bn lt (sym (same bn few) ∙ z)),
)

module _ (sb : Superblock) (s : Memory) where
  abbrev after_writei :
      ℕ → ℕ → ℕ → ℕ → ℕ → ℕ → Option (ℤ × Inode × Disk) → Option (ℕ × ℕ × Inode × Disk)
  after_writei fuel i n addr off n1 o = elim o [
    | none ↦ none
    | some (r, ip', d') ↦ elim (is_all n1 r) [
      | false ↦ some (i, advance_off r off, ip', d')
      | true ↦ write_chunks (from_memory s) sb fuel (i + n1) n addr (advance_off r off) ip' d'
    ]
  ]

  abbrev size_of : ℕ → ℕ
  size_of left = if ltb max left then max else left

  write_chunks-step :
      (fuel i n addr off : ℕ) (ip : Inode) (d : Disk)
      → i < n
      → write_chunks (from_memory s) sb (suc fuel) i n addr off ip d
        ≡ after_writei fuel i n addr off
            (size_of (n - i))
            (writei (from_memory s) sb (addr + i) off (size_of (n - i)) ip d)
  unfolding write_chunks
  write_chunks-step fuel i n addr off ip d lt =
      let more : leb n i ≡ false = ground arith in rw (more, write_chunks) refl

  write_chunks-done :
      (fuel n addr off : ℕ) (ip : Inode) (d : Disk)
      → write_chunks (from_memory s) sb fuel n n addr off ip d ≡ some (n, off, ip, d)
  unfolding write_chunks
  write_chunks-done zero n addr off ip d =
      let e : leb n n ≡ true = ground arith in rw (e, write_chunks) refl
  write_chunks-done (suc fuel) n addr off ip d =
      let e : leb n n ≡ true = ground arith in rw (e, write_chunks) refl

  after_writei-all :
      (fuel i n addr off k : ℕ) (ip : Inode) (d : Disk)
      → after_writei fuel i n addr off k (some (pos k, ip, d))
        ≡ write_chunks (from_memory s) sb fuel (i + k) n addr (off + k) ip d
  after_writei-all fuel i n addr off k ip d =
      let t : (k == k) ≡ true = ground arith in rw (t, after_writei) refl

  abbrev Written : ℕ → ℕ → ℕ → ℕ → ℕ → Inode → Disk → Type 0
  Written fuel left n addr off ip d =
      (d' : Disk) × (write_chunks (from_memory s) sb fuel (n - left) n addr off ip d
        ≡ some (n, off + left, grown (off + left) ip, d'))
      × IsWritten off left (addr + (n - left)) s ip d d'

  Written-done :
      (fuel n addr off : ℕ) (ip : Inode) (d : Disk) → off ≤ ip.size → Written fuel 0 n addr off ip d
  Written-done fuel n addr off ip d le =
      let whole : n - 0 ≡ n = omega arith in
      let same : off ≡ off + 0 = omega arith in
      (
        d,
        ap (λ i. write_chunks (from_memory s) sb fuel i n addr off ip d) whole
            ∙ (write_chunks-done fuel n addr off ip d
                ∙ (ap (λ x. some (n, off, x, d)) (grown_none off ip le)
                    ∙ ap (λ x. some (n, x, grown x ip, d)) same)),
        IsWritten-none off (addr + (n - 0)) s ip d,
      )

  Written-more :
      (fuel left n addr off : ℕ) (ip : Inode) (d d₁ : Disk)
      → 0 < left
      → left ≤ n
      → writei (from_memory s) sb (addr + (n - left)) off (size_of left) ip d
        ≡ some (pos (size_of left), grown (off + size_of left) ip, d₁)
      → IsWritten off (size_of left) (addr + (n - left)) s ip d d₁
      → Written fuel
          (left - size_of left)
          n
          addr
          (off + size_of left)
          (grown (off + size_of left) ip)
          d₁
      → Written (suc fuel) left n addr off ip d
  Written-more fuel left n addr off ip d d₁ pos_left le e w (d₂, e', w') =
      let k = size_of left in
      let small : k ≤ left = ground arith in
      let rest : n - (n - left) ≡ left = omega arith in
      let next : n - left + k ≡ n - (left - k) = omega arith in
      let end : off + k + (left - k) ≡ off + left = omega arith in
      let src : addr + (n - (left - k)) ≡ addr + (n - left) + k = omega arith in
      (
        d₂,
        write_chunks-step fuel (n - left) n addr off ip d (omega arith)
            ∙ (ap
                  (λ x.
                    after_writei fuel (n - left) n addr off (size_of x)
                      (writei (from_memory s) sb (addr + (n - left)) off (size_of x) ip d))
                  rest
                ∙ (ap (after_writei fuel (n - left) n addr off k) e
                    ∙ (after_writei-all fuel (n - left) n addr off k (grown (off + k) ip) d₁
                        ∙ (ap
                              (λ x.
                                write_chunks (from_memory s) sb fuel x n addr (off + k)
                                  (grown (off + k) ip) d₁)
                              next
                            ∙ (e'
                                ∙ (ap (λ x. some (n, x, grown x (grown (off + k) ip), d₂)) end
                                    ∙ ap (λ x. some (n, off + left, x, d₂))
                                        (grown_twice (off + k) (off + left) ip (omega arith)))))))),
        IsWritten-more off k left (addr + (n - left)) s ip d d₁ d₂ small w
            (subst (λ x. IsWritten (off + k) (left - k) x s ip d₁ d₂) src w'),
      )

  write_chunks-Written :
      (fuel left n addr off : ℕ) (ip : Inode) (d : Disk)
      → left ≤ n
      → left ≤ fuel
      → off ≤ ip.size
      → off + left ≤ 268 * 1024
      → IsReady sb (off + left) ip d
      → Written fuel left n addr off ip d
  write_chunks-Written fuel zero n addr off ip d le enough inside low ready =
      Written-done fuel n addr off ip d inside
  write_chunks-Written zero (suc left) n addr off ip d le enough inside low ready =
      absurd (omega arith)
  write_chunks-Written (suc fuel) (suc left) n addr off ip d le enough inside low (placed, there) =
      let k = size_of (suc left) in
      let small : k ≤ suc left = ground arith in
      let some_byte : 0 < k = ground arith in
      let (d₁, e, w) =
        writei-IsWritten sb (addr + (n - suc left)) off k s ip d inside (omega arith)
          (placed, λ bn lt. there bn (omega arith)) in
      let last : off + k + (suc left - k) ≡ off + suc left = omega arith in
      let ready' =
        IsReady-written sb (off + suc left) off k (addr + (n - suc left)) s ip d d₁ (off + k) low
          (placed, there) w in
      let bigger : off + k ≤ (grown (off + k) ip).size = ground arith in
      Written-more fuel (suc left) n addr off ip d d₁ (omega arith) le e w (
        write_chunks-Written fuel (suc left - k) n addr (off + k) (grown (off + k) ip) d₁
          (omega arith) (omega arith) bigger (omega arith)
          (subst (λ x. IsReady sb x (grown (off + k) ip) d₁) (sym last) ready'))

filewrite-loop :
    (sb : Superblock) (s : Memory) (f : File) (pipe device : Option ℤ) (addr n off off' : ℕ)
    (ip ip' : Inode) (d d' : Disk)
    → f.writable ≡ true
    → f.type ≡ fd_inode
    → write_chunks (from_memory s) sb n 0 n addr off ip d ≡ some (n, off', ip', d')
    → filewrite (from_memory s) sb f pipe device addr n off ip d ≡ some (pos n, off', ip', d')
unfolding filewrite
filewrite-loop sb s f pipe device addr n off off' ip ip' d d' w kind e =
    let whole : (n == n) ≡ true = ground arith in rw (w, kind, e, whole, filewrite) refl

-- `filewrite` of a file that is open for writing, from kernel memory, at an offset within the file and up to
-- the largest file size, into blocks that are there, returns the count that was asked for. However many
-- transactions it takes, the result is that of one write: the offset advances by the count, the size becomes
-- the end of the write if that is larger, the bytes of the file from the offset on are the new ones, and
-- every other byte of its blocks is what it was. One round of fuel for each byte is enough.
pub filewrite-IsWritten :
    (sb : Superblock) (s : Memory) (f : File) (pipe device : Option ℤ) (addr n off : ℕ) (ip : Inode)
    (d : Disk)
    → f.writable ≡ true
    → f.type ≡ fd_inode
    → off ≤ ip.size
    → off + n ≤ 268 * 1024
    → IsReady sb (off + n) ip d
    → (d' : Disk) × (filewrite (from_memory s) sb f pipe device addr n off ip d
        ≡ some (pos n, off + n, grown (off + n) ip, d'))
      × IsWritten off n addr s ip d d'
filewrite-IsWritten sb s f pipe device addr n off ip d w kind inside low ready =
    let (d', e, written) =
      write_chunks-Written sb s n n n addr off ip d (omega arith) (omega arith) inside low ready in
    let start : 0 ≡ n - n = omega arith in
    let at : addr + (n - n) ≡ addr = omega arith in
    (
      d',
      filewrite-loop sb s f pipe device addr n off (off + n) ip (grown (off + n) ip) d d' w kind
          (ap (λ x. write_chunks (from_memory s) sb n x n addr off ip d) start ∙ e),
      subst (λ x. IsWritten off n x s ip d d') at written,
    )
