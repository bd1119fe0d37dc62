-- ===== src/Disk/Bits.antt =====
-- Setting and clearing one bit (the `|=` and `&= ~` of kernel/fs.c).
use os_cea.Base.{ℕ, zero, suc, ◌+◌, ◌*◌, ◌/◌, ◌%◌, ◌≡◌, ◌≢◌, refl, ap, ◌∙◌, arith}
use os_cea.Disk.{bit, set_bit, clear_bit}

pub bit-set_bit : (v i : ℕ) → bit (set_bit v i) i ≡ 1
unfolding bit set_bit
bit-set_bit v zero = omega arith
bit-set_bit v (suc i) =
    let half : (v % 2 + 2 * set_bit (v / 2) i) / 2 ≡ set_bit (v / 2) i = omega arith in
    ap (λ x. bit x i) half ∙ bit-set_bit (v / 2) i

pub bit-clear_bit : (v i : ℕ) → bit (clear_bit v i) i ≡ 0
unfolding bit clear_bit
bit-clear_bit v zero = omega arith
bit-clear_bit v (suc i) =
    let half : (v % 2 + 2 * clear_bit (v / 2) i) / 2 ≡ clear_bit (v / 2) i = omega arith in
    ap (λ x. bit x i) half ∙ bit-clear_bit (v / 2) i

pub bit-set_bit_other : (v i j : ℕ) → i ≢ j → bit (set_bit v i) j ≡ bit v j
unfolding bit set_bit
bit-set_bit_other v zero zero ne = absurd (ne refl)
bit-set_bit_other v zero (suc j) ne =
    let half : (v / 2 * 2 + 1) / 2 ≡ v / 2 = omega arith in ap (λ x. bit x j) half
bit-set_bit_other v (suc i) zero ne = omega arith
bit-set_bit_other v (suc i) (suc j) ne =
    let half : (v % 2 + 2 * set_bit (v / 2) i) / 2 ≡ set_bit (v / 2) i = omega arith in
    ap (λ x. bit x j) half ∙ bit-set_bit_other (v / 2) i j (λ e. ne (ap suc e))

pub bit-clear_bit_other : (v i j : ℕ) → i ≢ j → bit (clear_bit v i) j ≡ bit v j
unfolding bit clear_bit
bit-clear_bit_other v zero zero ne = absurd (ne refl)
bit-clear_bit_other v zero (suc j) ne =
    let half : v / 2 * 2 / 2 ≡ v / 2 = omega arith in ap (λ x. bit x j) half
bit-clear_bit_other v (suc i) zero ne = omega arith
bit-clear_bit_other v (suc i) (suc j) ne =
    let half : (v % 2 + 2 * clear_bit (v / 2) i) / 2 ≡ clear_bit (v / 2) i = omega arith in
    ap (λ x. bit x j) half ∙ bit-clear_bit_other (v / 2) i j (λ e. ne (ap suc e))

-- A bit that was clear is clear again after both, and nothing is left behind.
pub clear_bit-set_bit : (v i : ℕ) → bit v i ≡ 0 → clear_bit (set_bit v i) i ≡ v
unfolding bit set_bit clear_bit
clear_bit-set_bit v zero h = omega arith
clear_bit-set_bit v (suc i) h =
    let s = set_bit (v / 2) i in
    let half : (v % 2 + 2 * s) / 2 ≡ s = omega arith in
    let low : (v % 2 + 2 * s) % 2 ≡ v % 2 = omega arith in
    let back = ap (λ x. clear_bit x i) half ∙ clear_bit-set_bit (v / 2) i h in omega arith
