-- ===== src/Rw/User.antt =====
-- filewrite from user memory (kernel/file.c; kernel/proc.c: either_copyin with user_src 1).
use mathlib.Core.Path.{subst}
use os_cea.Base.{
  ℕ, zero, suc, ◌+◌, ◌-◌, ◌*◌, ◌≤◌, ◌<◌, ◌≡◌, ◌≢◌, inl, inr, refl, sym, ap, ◌∙◌, Bool, true, false,
  not, Option, none, some, ◌==◌, leb, ltb, if◌then◌else◌, arith, Bool-cases,
}
use os_cea.Base.Int.{ℤ, pos, negsuc}
use os_cea.Str.{Memory}
use os_cea.Str.Move.{within}
use os_cea.Vm.{Mem, pgrounddown, walkaddr}
use os_cea.Vm.Copy.{copyin}
use os_cea.Vm.Copy.Chunks.{phys_of, copied, copyin-bytes}
use os_cea.Disk.{Superblock, Disk}
use os_cea.File.{fd_none, fd_pipe, fd_device, fd_inode, File}
use os_cea.Inode.{Inode, Fetch, from_memory, writei}
use os_cea.Inode.Source.{Gives, writei-same}
use os_cea.Inode.Writing.{IsWritten}
use os_cea.Inode.RoundTrip.{IsReady, grown}
use os_cea.Rw.{max, advance_off, is_all, write_chunks, filewrite}
use os_cea.Rw.Chunks.{filewrite-IsWritten}

-- `either_copyin` of `m` bytes from the user address `src` to the kernel address `dst src`: the bytes that
-- are there afterwards, and whether it returned 0. A panic of it counts as a failure that writes nothing.
-- `vm` is the memory when the write starts.
pub from_user : ℕ → ℕ → ℕ → ℕ → (ℕ → ℕ) → Mem → Fetch
from_user first sz own root dst vm src m = elim (copyin first sz own m root (dst src) src m vm) [
  | none ↦ (λ i. 0, 0, false)
  | some (ok, vm') ↦ (λ i. vm'.phys.byte (dst src + i), m, ok)
]

-- What the process has at a user address.
abbrev pub user_byte : ℕ → Mem → Memory
user_byte root vm a = vm.phys.byte (phys_of root vm a)

abbrev size_of : ℕ → ℕ
size_of left = if ltb max left then max else left

module _ (fetch : Fetch) (sb : Superblock) (fuel i n addr off : ℕ) where
  abbrev after_writei : ℕ → Option (ℤ × Inode × Disk) → Option (ℕ × ℕ × Inode × Disk)
  after_writei n1 o = elim o [
    | none ↦ none
    | some (r, ip', d') ↦ elim (is_all n1 r) [
      | false ↦ some (i, advance_off r off, ip', d')
      | true ↦ write_chunks fetch sb fuel (i + n1) n addr (advance_off r off) ip' d'
    ]
  ]

  write_chunks-step :
      (ip : Inode) (d : Disk)
      → i < n
      → write_chunks fetch sb (suc fuel) i n addr off ip d
        ≡ after_writei (size_of (n - i)) (writei fetch sb (addr + i) off (size_of (n - i)) ip d)
  unfolding write_chunks
  write_chunks-step ip d lt =
      let more : leb n i ≡ false = ground arith in rw (more, write_chunks) refl

abbrev after_loop :
    File
    → Option ℤ
    → Option ℤ
    → ℕ
    → ℕ
    → Inode
    → Disk
    → Option (ℕ × ℕ × Inode × Disk)
    → Option (ℤ × ℕ × Inode × Disk)
after_loop f pipe device n off ip d o =
    if not f.writable then some (negsuc 0, off, ip, d) else elim f.type [
      | fd_none ↦ none
      | fd_pipe ↦ elim pipe [ none ↦ none | some r ↦ some (r, off, ip, d) ]
      | fd_device ↦ elim device [
        | none ↦ some (negsuc 0, off, ip, d)
        | some r ↦ some (r, off, ip, d)
      ]
      | fd_inode ↦ elim o [
        | none ↦ none
        | some (i, off', ip', d') ↦ some (if i == n then pos n else negsuc 0, off', ip', d')
      ]
    ]

module _ (fetch : Fetch) (s : Memory) (lo hi : ℕ) (gives : Gives fetch s lo hi)
    (sb : Superblock) where
  write_chunks-same :
      (fuel i n addr off : ℕ) (ip : Inode) (d : Disk)
      → lo ≤ addr
      → addr + n ≤ hi
      → write_chunks fetch sb fuel i n addr off ip d
        ≡ write_chunks (from_memory s) sb fuel i n addr off ip d
  unfolding write_chunks
  write_chunks-same zero i n addr off ip d ge le = refl
  write_chunks-same (suc fuel) i n addr off ip d ge le = elim (Bool-cases (leb n i)) [
    | inl t ↦ rw (t, write_chunks) refl
    | inr f ↦
        (let lt : i < n = ground arith in
          let small : size_of (n - i) ≤ n - i = ground arith in
          write_chunks-step fetch sb fuel i n addr off ip d lt
          ∙ (ap (after_writei fetch sb fuel i n addr off (size_of (n - i))) (
                writei-same fetch s lo hi gives sb (addr + i) off (size_of (n - i)) ip d
                  (omega arith) (omega arith))
              ∙ (later (λ i' off' ip' d'. write_chunks-same fuel i' n addr off' ip' d' ge le)
                    (writei (from_memory s) sb (addr + i) off (size_of (n - i)) ip d)
                  ∙ sym (write_chunks-step (from_memory s) sb fuel i n addr off ip d lt))))
  ]
    where
      later :
          ((i' off' : ℕ) (ip' : Inode) (d' : Disk)
            → write_chunks fetch sb fuel i' n addr off' ip' d'
              ≡ write_chunks (from_memory s) sb fuel i' n addr off' ip' d')
          → (o : Option (ℤ × Inode × Disk))
          → after_writei fetch sb fuel i n addr off (size_of (n - i)) o
            ≡ after_writei (from_memory s) sb fuel i n addr off (size_of (n - i)) o
      later next none = refl
      later next (some (r, ip', d')) = elim (Bool-cases (is_all (size_of (n - i)) r)) [
        | inl t ↦ rw (t, after_writei) (next (i + size_of (n - i)) (advance_off r off) ip' d')
        | inr f ↦ rw (f, after_writei) refl
      ]

  filewrite-same :
      (f : File) (pipe device : Option ℤ) (addr n off : ℕ) (ip : Inode) (d : Disk)
      → lo ≤ addr
      → addr + n ≤ hi
      → filewrite fetch sb f pipe device addr n off ip d
        ≡ filewrite (from_memory s) sb f pipe device addr n off ip d
  unfolding filewrite
  filewrite-same f pipe device addr n off ip d ge le =
      let e = write_chunks-same n 0 n addr off ip d ge le in
      ap (after_loop f pipe device n off ip d) e

-- A copy of mapped user bytes.
module _ (first sz own root : ℕ) (dst : ℕ → ℕ) (vm : Mem) (addr n : ℕ)
    (mapped : (i : ℕ) → i < n → walkaddr root (pgrounddown (addr + i)) vm ≢ 0)
    (apart : (src i : ℕ) → i < n → within (dst src) 1024 (phys_of root vm (addr + i)) ≡ false) where
  from_user-Gives : Gives (from_user first sz own root dst vm) (user_byte root vm) addr (addr + n)
  unfolding from_user
  from_user-Gives src m ge le small =
      let there : (i : ℕ) → i < m → addr + (src - addr + i) ≡ src + i = λ i lt. omega arith in
      let (b, e, at) =
        copyin-bytes first sz own m root (dst src) src m vm vm.phys.byte (omega arith)
          (λ i lt.
            subst (λ x. walkaddr root (pgrounddown x) vm ≢ 0) (there i lt)
              (mapped (src - addr + i) (omega arith)))
          (λ i lt. narrow (dst src) m (phys_of root vm (src + i)) small (
            subst (λ x. within (dst src) 1024 (phys_of root vm x) ≡ false) (there i lt)
              (apart src (src - addr + i) (omega arith)))) in
      (λ i. b (dst src + i), ap answer e, λ i lt. at (dst src + i) ∙ byte src m i b lt)
    where
      narrow : (d m a : ℕ) → m ≤ 1024 → within d 1024 a ≡ false → within d m a ≡ false
      narrow d m a le f = ground arith

      answer : Option (Bool × Mem) → (ℕ → ℕ) × ℕ × Bool
      answer o = elim o [
        | none ↦ (λ i. 0, 0, false)
        | some (ok, vm') ↦ (λ i. vm'.phys.byte (dst src + i), m, ok)
      ]

      byte :
          (src m i : ℕ) (b : Memory)
          → i < m
          → copied root (dst src) src m vm vm.phys.byte (dst src + i) ≡ user_byte root vm (src + i)
      byte src m i b lt =
          let t : within (dst src) m (dst src + i) ≡ true = ground arith in
          let e : dst src + i - dst src ≡ i = omega arith in
          rw t (ap (λ x. vm.phys.byte (phys_of root vm (src + x))) e)

  -- `filewrite` from user memory of a file that is open for writing, at an offset within the file and up to
  -- the largest file size, into blocks that are there, returns the count that was asked for. However many
  -- transactions, blocks and user pages it takes, the result is that of one write of the bytes that the
  -- process has at its addresses: the offset advances by the count, the size becomes the end of the write if
  -- that is larger, the bytes of the file from the offset on are the process's, and every other byte of its
  -- blocks is what it was. The user pages are all mapped, and none of the bytes lies where a block is kept
  -- that they are copied to. One round of fuel for each byte is enough.
  pub filewrite-user :
      (sb : Superblock) (f : File) (pipe device : Option ℤ) (off : ℕ) (ip : Inode) (d : Disk)
      → f.writable ≡ true
      → f.type ≡ fd_inode
      → off ≤ ip.size
      → off + n ≤ 268 * 1024
      → IsReady sb (off + n) ip d
      → (d' : Disk) × (filewrite
            (from_user first sz own root dst vm)
            sb
            f
            pipe
            device
            addr
            n
            off
            ip
            d
          ≡ some (pos n, off + n, grown (off + n) ip, d'))
        × IsWritten off n addr (user_byte root vm) ip d d'
  filewrite-user sb f pipe device off ip d w kind inside low ready =
      let (d', e, written) =
        filewrite-IsWritten sb (user_byte root vm) f pipe device addr n off ip d w kind inside low
          ready in
      (
        d',
        filewrite-same (from_user first sz own root dst vm) (user_byte root vm) addr (addr + n)
              from_user-Gives sb f pipe device addr n off ip d (omega arith) (omega arith)
            ∙ e,
        written,
      )
