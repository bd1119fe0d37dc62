-- ===== src/Inode/Source.antt =====
-- writei (kernel/fs.c) sees of its source only the bytes that are asked for.
use mathlib.Core.Path.{fun_ext}
use os_cea.Base.{
  ℕ, zero, suc, ◌+◌, ◌-◌, ◌/◌, ◌%◌, ◌≤◌, ◌<◌, ◌≡◌, ◌≢◌, inl, inr, refl, sym, ap, ◌∙◌, Bool, true,
  false, ◌&&◌, Option, none, some, ◌==◌, leb, ltb, arith, Bool-cases,
}
use os_cea.Str.{Memory}
use os_cea.Disk.{Superblock, Disk, log_write}
use os_cea.Inode.{Inode, Fetch, from_memory, fill_in, bmap, chunk, write_from, writei}

-- A source that gives the bytes of `s` from `lo` up to `hi`, a block at most at a time.
abbrev pub Gives : Fetch → Memory → ℕ → ℕ → Type 0
Gives fetch s lo hi =
    (src m : ℕ)
    → lo ≤ src
    → src + m ≤ hi
    → m ≤ 1024
    → (bytes : ℕ → ℕ) × (fetch src m ≡ (bytes, m, true)) × ((i : ℕ) → i < m → bytes i ≡ s (src + i))

fill_in-same :
    (addr at : ℕ) (f g : ℕ → ℕ) (k : ℕ) (d : Disk)
    → ((i : ℕ) → i < k → f i ≡ g i)
    → fill_in addr at f k d ≡ fill_in addr at g k d
fill_in-same addr at f g k d same =
    ap (λ b. record d { byte = b }) (fun_ext (λ b. fun_ext (λ i. byte b i)))
  where
    byte : (b i : ℕ) → (fill_in addr at f k d).byte b i ≡ (fill_in addr at g k d).byte b i
    byte b i = elim (Bool-cases (b == addr && (leb at i && ltb i (at + k)))) [
      | inl t ↦ rw t (same (i - at) (ground arith))
      | inr e ↦ rw e refl
    ]

module _ (fetch : Fetch) (sb : Superblock) (fuel tot n off src : ℕ) where
  abbrev after_fetch : ℕ → Inode → Disk → (ℕ → ℕ) × ℕ × Bool → Option (ℕ × ℕ × Inode × Disk)
  after_fetch addr ip' d' (bytes, k, ok) =
      let m = chunk n tot off in
      let d'' = fill_in addr (off % 1024) bytes k d' in
      elim ok [
        | false ↦ some (tot, off, ip', d'')
        | true ↦ write_from fetch sb fuel (tot + m) n (off + m) (src + m) ip' (log_write addr d'')
      ]

  abbrev after_bmap : Option (ℕ × Inode × Disk) → Option (ℕ × ℕ × Inode × Disk)
  after_bmap o = elim o [
    | none ↦ none
    | some (addr, ip', d') ↦ elim (addr == 0) [
      | true ↦ some (tot, off, ip', d')
      | false ↦ after_fetch addr ip' d' (fetch src (chunk n tot off))
    ]
  ]

  write_from-step :
      (ip : Inode) (d : Disk)
      → tot < n
      → write_from fetch sb (suc fuel) tot n off src ip d ≡ after_bmap (bmap sb ip (off / 1024) d)
  unfolding write_from
  write_from-step ip d lt =
      let more : leb n tot ≡ false = ground arith in rw (more, write_from) refl

  after_bmap-given :
      (addr : ℕ) (ip : Inode) (d : Disk) (bytes : ℕ → ℕ)
      → addr ≢ 0
      → fetch src (chunk n tot off) ≡ (bytes, chunk n tot off, true)
      → after_bmap (some (addr, ip, d))
        ≡ write_from fetch sb fuel
            (tot + chunk n tot off)
            n
            (off + chunk n tot off)
            (src + chunk n tot off)
            ip
            (log_write addr (fill_in addr (off % 1024) bytes (chunk n tot off) d))
  after_bmap-given addr ip d bytes ne e =
      let f : (addr == 0) ≡ false = ground arith in
      rw (f, after_bmap) (ap (after_fetch addr ip d) e)

write_from-stop :
    (fetch : Fetch) (sb : Superblock) (fuel tot n off src : ℕ) (ip : Inode) (d : Disk)
    → n ≤ tot
    → write_from fetch sb fuel tot n off src ip d ≡ some (tot, off, ip, d)
unfolding write_from
write_from-stop fetch sb zero tot n off src ip d le =
    let t : leb n tot ≡ true = ground arith in rw (t, write_from) refl
write_from-stop fetch sb (suc fuel) tot n off src ip d le =
    let t : leb n tot ≡ true = ground arith in rw (t, write_from) refl

-- The code sees of the source only the bytes asked for.
module _ (fetch : Fetch) (s : Memory) (lo hi : ℕ) (gives : Gives fetch s lo hi)
    (sb : Superblock) where
  write_from-same :
      (fuel tot n off src : ℕ) (ip : Inode) (d : Disk)
      → lo ≤ src
      → src + (n - tot) ≤ hi
      → write_from fetch sb fuel tot n off src ip d
        ≡ write_from (from_memory s) sb fuel tot n off src ip d
  unfolding write_from
  write_from-same zero tot n off src ip d ge le = refl
  write_from-same (suc fuel) tot n off src ip d ge le = elim (Bool-cases (leb n tot)) [
    | inl t ↦
        (let done : n ≤ tot = ground arith in
          write_from-stop fetch sb (suc fuel) tot n off src ip d done
          ∙ sym (write_from-stop (from_memory s) sb (suc fuel) tot n off src ip d done))
    | inr f ↦
        (let lt : tot < n = ground arith in
          write_from-step fetch sb fuel tot n off src ip d lt
          ∙ (round
                (λ ip' d' a z.
                  write_from-same fuel (tot + chunk n tot off) n (off + chunk n tot off)
                    (src + chunk n tot off) ip' d' a z)
                (bmap sb ip (off / 1024) d) lt
              ∙ sym (write_from-step (from_memory s) sb fuel tot n off src ip d lt)))
  ]
    where
      round :
          ((ip : Inode) (d : Disk)
            → lo ≤ src + chunk n tot off
            → src + chunk n tot off + (n - (tot + chunk n tot off)) ≤ hi
            → write_from fetch sb fuel
                (tot + chunk n tot off)
                n
                (off + chunk n tot off)
                (src + chunk n tot off)
                ip
                d
              ≡ write_from
                  (from_memory s)
                  sb
                  fuel
                  (tot + chunk n tot off)
                  n
                  (off + chunk n tot off)
                  (src + chunk n tot off)
                  ip
                  d)
          → (o : Option (ℕ × Inode × Disk)) → tot < n
          → after_bmap fetch sb fuel tot n off src o
            ≡ after_bmap (from_memory s) sb fuel tot n off src o
      round next none lt = refl
      round next (some (addr, ip', d')) lt = elim (Bool-cases (addr == 0)) [
        | inl t ↦ rw (t, after_bmap) refl
        | inr f ↦
            (let m = chunk n tot off in
              let ne : addr ≢ 0 = ground arith in
              let small : m ≤ 1024 = ground arith in
              let inside : m ≤ n - tot = ground arith in
              let (bytes, e, at) = gives src m ge (omega arith) small in
              after_bmap-given fetch sb fuel tot n off src addr ip' d' bytes ne e
              ∙ (next ip' (log_write addr (fill_in addr (off % 1024) bytes m d')) (omega arith)
                    (omega arith)
                  ∙ (ap
                        (λ x.
                          write_from (from_memory s) sb fuel (tot + m) n (off + m) (src + m) ip'
                            (log_write addr x))
                        (fill_in-same addr (off % 1024) bytes (λ i. s (src + i)) m d' at)
                      ∙ sym (
                          after_bmap-given (from_memory s) sb fuel tot n off src addr ip' d'
                            (λ i. s (src + i)) ne refl))))
      ]

  pub writei-same :
      (src off n : ℕ) (ip : Inode) (d : Disk)
      → lo ≤ src
      → src + n ≤ hi
      → writei fetch sb src off n ip d ≡ writei (from_memory s) sb src off n ip d
  unfolding writei
  writei-same src off n ip d ge le =
      let e = write_from-same n 0 n off src ip d ge (omega arith) in rw (e, writei) refl
