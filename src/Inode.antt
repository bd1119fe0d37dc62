-- ===== src/Inode.antt =====
-- The contents of inodes (kernel/fs.c: ialloc, iupdate, ilock, bmap, itrunc, stati, readi, writei). What
-- either_copyout and either_copyin (kernel/proc.c) do with the other side of a copy is an argument.
pub mod Dinode
pub mod Mapping
pub mod Growing
pub mod Allocating
pub mod Reading
pub mod Writing
pub mod Source
pub mod RoundTrip
mod Tests
use os_cea.Base.{
  ℕ, zero, suc, ◌+◌, ◌-◌, ◌*◌, ◌/◌, ◌%◌, ◌^◌, Bool, true, false, not, ◌&&◌, ◌||◌, Option, none,
  some, ◌==◌, leb, ltb, if◌then◌else◌,
}
use os_cea.Base.Int.{ℤ, pos, negsuc}
use os_cea.Str.{Memory}
use os_cea.Disk.{
  Superblock, Disk, bsize, log_write, put_byte, get_short, get_word, put_short, put_word, balloc,
  bfree,
}

abbrev pub ndirect : ℕ
ndirect = 12

abbrev pub nindirect : ℕ
nindirect = 256

-- `struct inode`, less the device, the reference count and the sleep-lock.
pub record Inode : Type 0 where
  pub inum : ℕ
  pub valid : Bool
  pub type : ℕ
  pub major : ℕ
  pub minor : ℕ
  pub nlink : ℕ
  pub size : ℕ
  pub addrs : ℕ → ℕ

-- IBLOCK, and the place of the dinode in that block.
abbrev pub iblock : ℕ → Superblock → ℕ
iblock i sb = i / 16 + sb.inodestart

abbrev pub dip : ℕ → ℕ
dip inum = inum % 16 * 64

abbrev pub set_addr : ℕ → ℕ → Inode → Inode
set_addr i v ip = record ip { addrs = λ j. if j == i then v else ip.addrs j }

-- memmove(dip->addrs, ip->addrs, sizeof(ip->addrs)), for the first `n` addresses.
pub put_addrs : ℕ → ℕ → ℕ → (ℕ → ℕ) → Disk → Disk
put_addrs zero b at addrs d = d
put_addrs (suc n) b at addrs d = put_word b (at + 4 * n) (addrs n) (put_addrs n b at addrs d)

pub iupdate : Superblock → Inode → Disk → Disk
iupdate sb ip d =
    let b = iblock ip.inum sb in
    let at = dip ip.inum in
    let d₁ = put_short b at ip.type d in
    let d₂ = put_short b (at + 2) ip.major d₁ in
    let d₃ = put_short b (at + 4) ip.minor d₂ in
    let d₄ = put_short b (at + 6) ip.nlink d₃ in
    let d₅ = put_word b (at + 8) ip.size d₄ in log_write b (put_addrs 13 b (at + 12) ip.addrs d₅)

-- The dinode read into `ip`.
pub load : Superblock → Inode → Disk → Inode
load sb ip d =
    let b = iblock ip.inum sb in
    let at = dip ip.inum in
    record ip {
      valid = true;
      type = get_short b at d;
      major = get_short b (at + 2) d;
      minor = get_short b (at + 4) d;
      nlink = get_short b (at + 6) d;
      size = get_word b (at + 8) d;
      addrs = λ i. if ltb i 13 then get_word b (at + 12 + 4 * i) d else ip.addrs i;
    }

-- `ilock` after its guard and `acquiresleep`; `none` is the panic.
pub ilock : Superblock → Inode → Disk → Option Inode
ilock sb ip d =
    if ip.valid
    then some ip
    else (let ip' = load sb ip d in if ip'.type == 0 then none else some ip')

-- memset(dip, 0, sizeof(*dip))
abbrev pub clear_dinode : ℕ → ℕ → Disk → Disk
clear_dinode b at d = record d {
  byte = λ b' i. if b' == b && (leb at i && ltb i (at + 64)) then 0 else d.byte b' i;
}

-- The loop of `ialloc` from `inum` on, with `n` inodes to go; the result is what `iget` is called for.
pub ialloc_from : ℕ → Superblock → ℕ → ℕ → Disk → Option ℕ × Disk
ialloc_from zero sb inum type d = (none, d)
ialloc_from (suc n) sb inum type d =
    (let b = iblock inum sb in
      elim (get_short b (dip inum) d == 0) [
        | true ↦
            (some inum, log_write b (put_short b (dip inum) type (clear_dinode b (dip inum) d)))
        | false ↦ ialloc_from n sb (inum + 1) type d
      ])

pub ialloc : Superblock → ℕ → Disk → Option ℕ × Disk
ialloc sb type d = ialloc_from (sb.ninodes - 1) sb 1 type d

-- The indirect block of an inode, allocated if need be; 0 is out of disk space.
pub bmap_indirect : Superblock → Inode → Disk → ℕ × Inode × Disk
bmap_indirect sb ip d = elim (ip.addrs ndirect == 0) [
  | false ↦ (ip.addrs ndirect, ip, d)
  | true ↦
      (let (addr, d') = balloc sb d in
        if addr == 0 then (0, ip, d') else (addr, set_addr ndirect addr ip, d'))
]

-- `none` is the panic.
pub bmap : Superblock → Inode → ℕ → Disk → Option (ℕ × Inode × Disk)
bmap sb ip bn d = elim (ltb bn ndirect) [
  | true ↦ elim (ip.addrs bn == 0) [
    | false ↦ some (ip.addrs bn, ip, d)
    | true ↦
        (let (addr, d') = balloc sb d in
          if addr == 0 then some (0, ip, d') else some (addr, set_addr bn addr ip, d'))
  ]
  | false ↦ elim (ltb (bn - ndirect) nindirect) [
    | false ↦ none
    | true ↦
        (let (addr, ip', d') = bmap_indirect sb ip d in
          elim (addr == 0) [
            | true ↦ some (0, ip', d')
            | false ↦ elim (get_word addr (4 * (bn - ndirect)) d' == 0) [
              | false ↦ some (get_word addr (4 * (bn - ndirect)) d', ip', d')
              | true ↦
                  (let (new, d'') = balloc sb d' in
                    if new == 0
                    then some (0, ip', d'')
                    else some
                        (new, ip', log_write addr (put_word addr (4 * (bn - ndirect)) new d'')))
            ]
          ])
  ]
]

-- The first loop of `itrunc`, from address `i` on.
pub free_direct : ℕ → Superblock → ℕ → Inode → Disk → Option (Inode × Disk)
free_direct zero sb i ip d = some (ip, d)
free_direct (suc n) sb i ip d = elim (ip.addrs i == 0) [
  | true ↦ free_direct n sb (i + 1) ip d
  | false ↦ elim (bfree sb (ip.addrs i) d) [
    | none ↦ none
    | some d' ↦ free_direct n sb (i + 1) (set_addr i 0 ip) d'
  ]
]

-- The second, from word `j` of the indirect block `b` on.
pub free_words : ℕ → Superblock → ℕ → ℕ → Disk → Option Disk
free_words zero sb b j d = some d
free_words (suc n) sb b j d = elim (get_word b (4 * j) d == 0) [
  | true ↦ free_words n sb b (j + 1) d
  | false ↦ elim (bfree sb (get_word b (4 * j) d) d) [
    | none ↦ none
    | some d' ↦ free_words n sb b (j + 1) d'
  ]
]

pub free_indirect : Superblock → Inode → Disk → Option (Inode × Disk)
free_indirect sb ip d = elim (ip.addrs ndirect == 0) [
  | true ↦ some (ip, d)
  | false ↦ elim (free_words nindirect sb (ip.addrs ndirect) 0 d) [
    | none ↦ none
    | some d' ↦ elim (bfree sb (ip.addrs ndirect) d') [
      | none ↦ none
      | some d'' ↦ some (set_addr ndirect 0 ip, d'')
    ]
  ]
]

pub itrunc : Superblock → Inode → Disk → Option (Inode × Disk)
itrunc sb ip d = elim (free_direct ndirect sb 0 ip d) [
  | none ↦ none
  | some (ip₁, d₁) ↦ elim (free_indirect sb ip₁ d₁) [
    | none ↦ none
    | some (ip₂, d₂) ↦ (let ip₃ = record ip₂ { size = 0 } in some (ip₃, iupdate sb ip₃ d₂))
  ]
]

-- `struct stat`
pub record Stat : Type 0 where
  pub dev : ℕ
  pub ino : ℕ
  pub type : ℕ
  pub nlink : ℕ
  pub size : ℕ

pub stati : ℕ → Inode → Stat
stati dev ip = record { dev = dev; ino = ip.inum; type = ip.type; nlink = ip.nlink; size = ip.size }

-- min(n - tot, BSIZE - off%BSIZE)
abbrev pub chunk : ℕ → ℕ → ℕ → ℕ
chunk n tot off =
    let left = n - tot in let room = bsize - off % bsize in if ltb left room then left else room

-- The other side of `readi`: `copy dst bytes m s` is either_copyout of `m` bytes to `dst`, `none` for -1.
abbrev pub Copy : Type 0 → Type 0
Copy S = ℕ → (ℕ → ℕ) → ℕ → S → Option S

-- A copy to kernel memory (`user_dst` is 0), which always succeeds.
abbrev pub to_memory : Copy Memory
to_memory dst bytes m s = some (λ a. if leb dst a && ltb a (dst + m) then bytes (a - dst) else s a)

module _ {S : Type 0} (copy : Copy S) (sb : Superblock) where
  -- The loop of `readi`; each round reads at least a byte, and `none` is a panic or the fuel used up.
  pub read_from : ℕ → ℕ → ℕ → ℕ → ℕ → Inode → Disk → S → Option (ℤ × Inode × Disk × S)
  read_from zero tot n off dst ip d s = if leb n tot then some (pos tot, ip, d, s) else none
  read_from (suc fuel) tot n off dst ip d s = elim (leb n tot) [
    | true ↦ some (pos tot, ip, d, s)
    | false ↦ elim (bmap sb ip (off / bsize) d) [
      | none ↦ none
      | some (addr, ip', d') ↦ elim (addr == 0) [
        | true ↦ some (pos tot, ip', d', s)
        | false ↦
            (let m = chunk n tot off in
              elim (copy dst (λ i. d'.byte addr (off % bsize + i)) m s) [
                | none ↦ some (negsuc 0, ip', d', s)
                | some s' ↦ read_from fuel (tot + m) n (off + m) (dst + m) ip' d' s'
              ])
      ]
    ]
  ]

  -- `off` and `n` are of type uint.
  pub readi : ℕ → ℕ → ℕ → Inode → Disk → S → Option (ℤ × Inode × Disk × S)
  readi dst off n ip d s =
      if ltb ip.size off || ltb ((off + n) % 2 ^ 32) off
      then some (pos 0, ip, d, s)
      else (let count = if ltb ip.size ((off + n) % 2 ^ 32) then ip.size - off else n in
          read_from count 0 count off dst ip d s)

-- The other side of `writei`: what either_copyin of `m` bytes from `src` writes, how many bytes of it, and
-- whether it is all of them.
abbrev pub Fetch : Type 0
Fetch = ℕ → ℕ → (ℕ → ℕ) × ℕ × Bool

-- A copy from kernel memory.
abbrev pub from_memory : Memory → Fetch
from_memory s src m = (λ i. s (src + i), m, true)

-- Block `addr` with `k` bytes at `at` replaced.
abbrev pub fill_in : ℕ → ℕ → (ℕ → ℕ) → ℕ → Disk → Disk
fill_in addr at bytes k d = record d {
  byte = λ b i. if b == addr && (leb at i && ltb i (at + k)) then bytes (i - at) else d.byte b i;
}

module _ (fetch : Fetch) (sb : Superblock) where
  -- The loop of `writei`: the bytes written, the last value of `off`, and the new inode and disk.
  pub write_from : ℕ → ℕ → ℕ → ℕ → ℕ → Inode → Disk → Option (ℕ × ℕ × Inode × Disk)
  write_from zero tot n off src ip d = if leb n tot then some (tot, off, ip, d) else none
  write_from (suc fuel) tot n off src ip d = elim (leb n tot) [
    | true ↦ some (tot, off, ip, d)
    | false ↦ elim (bmap sb ip (off / bsize) d) [
      | none ↦ none
      | some (addr, ip', d') ↦ elim (addr == 0) [
        | true ↦ some (tot, off, ip', d')
        | false ↦
            (let m = chunk n tot off in
              let (bytes, k, ok) = fetch src m in
              let d'' = fill_in addr (off % bsize) bytes k d' in
              elim ok [
                | false ↦ some (tot, off, ip', d'')
                | true ↦ write_from fuel (tot + m) n (off + m) (src + m) ip' (log_write addr d'')
              ])
      ]
    ]
  ]

  -- MAXFILE*BSIZE is 274432.
  pub writei : ℕ → ℕ → ℕ → Inode → Disk → Option (ℤ × Inode × Disk)
  writei src off n ip d =
      if ltb ip.size off || ltb ((off + n) % 2 ^ 32) off
      then some (negsuc 0, ip, d)
      else if ltb ((ndirect + nindirect) * bsize) ((off + n) % 2 ^ 32)
      then some (negsuc 0, ip, d)
      else elim (write_from n 0 n off src ip d) [
        | none ↦ none
        | some (tot, end, ip', d') ↦
            (let ip'' = if ltb ip'.size end then record ip' { size = end } else ip' in
              some (pos tot, ip'', iupdate sb ip'' d'))
      ]
