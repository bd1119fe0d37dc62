-- ===== src/Disk/Words.antt =====
-- Fields written to a block read back, and fields elsewhere are kept (kernel/fs.c).
use os_cea.Base.{ℕ, ◌+◌, ◌/◌, ◌%◌, ◌^◌, ◌≤◌, ◌<◌, ◌≡◌, ◌≢◌, ◌⊎◌, inl, inr, ◌∙◌, arith}
use os_cea.Disk.{Disk, put_byte, get_short, get_word, put_short, put_word}

pub byte-put_byte : (b i v : ℕ) (d : Disk) → (put_byte b i v d).byte b i ≡ v
unfolding put_byte
byte-put_byte b i v d = ground arith

pub byte-put_byte_other :
    (b i v b' i' : ℕ) (d : Disk)
    → (b' ≢ b) ⊎ (i' ≢ i)
    → (put_byte b i v d).byte b' i' ≡ d.byte b' i'
unfolding put_byte
byte-put_byte_other b i v b' i' d (inl ne) = ground arith
byte-put_byte_other b i v b' i' d (inr ne) = ground arith

-- Outside the `n` bytes from `i` on of block `b`.
abbrev pub IsAway : ℕ → ℕ → ℕ → ℕ → ℕ → Type 0
IsAway b i n b' i' = (b' ≢ b) ⊎ ((i' < i) ⊎ (i + n ≤ i'))

at-ne : (b i n b' i' k : ℕ) → k < n → IsAway b i n b' i' → (b' ≢ b) ⊎ (i' ≢ i + k)
at-ne b i n b' i' k lt (inl ne) = inl ne
at-ne b i n b' i' k lt (inr (inl l)) = inr (omega arith)
at-ne b i n b' i' k lt (inr (inr l)) = inr (omega arith)

first-ne : (b i n b' i' : ℕ) → 0 < n → IsAway b i n b' i' → (b' ≢ b) ⊎ (i' ≢ i)
first-ne b i n b' i' lt (inl ne) = inl ne
first-ne b i n b' i' lt (inr (inl l)) = inr (omega arith)
first-ne b i n b' i' lt (inr (inr l)) = inr (omega arith)

pub byte-put_short_other :
    (b i v b' i' : ℕ) (d : Disk)
    → IsAway b i 2 b' i'
    → (put_short b i v d).byte b' i' ≡ d.byte b' i'
byte-put_short_other b i v b' i' d far =
    byte-put_byte_other b (i + 1) (v / 256 % 256) b' i' (put_byte b i (v % 256) d)
      (at-ne b i 2 b' i' 1 (omega arith) far)
    ∙ byte-put_byte_other b i (v % 256) b' i' d (first-ne b i 2 b' i' (omega arith) far)

IsAway-low : (b i b' i' : ℕ) → IsAway b i 4 b' i' → IsAway b i 2 b' i' × IsAway b (i + 2) 2 b' i'
IsAway-low b i b' i' (inl ne) = (inl ne, inl ne)
IsAway-low b i b' i' (inr (inl l)) = (inr (inl l), inr (inl (omega arith)))
IsAway-low b i b' i' (inr (inr l)) = (inr (inr (omega arith)), inr (inr (omega arith)))

pub byte-put_word_other :
    (b i v b' i' : ℕ) (d : Disk) → IsAway b i 4 b' i' → (put_word b i v d).byte b' i' ≡ d.byte b' i'
byte-put_word_other b i v b' i' d far =
    let (low, high) = IsAway-low b i b' i' far in
    byte-put_short_other b (i + 2) (v / 65536) b' i' (put_short b i v d) high
    ∙ byte-put_short_other b i v b' i' d low

pub get_short-put_short : (b i v : ℕ) (d : Disk) → get_short b i (put_short b i v d) ≡ v % 65536
get_short-put_short b i v d =
    let low : (put_short b i v d).byte b i ≡ v % 256 =
      byte-put_byte_other b (i + 1) (v / 256 % 256) b i (put_byte b i (v % 256) d)
        (inr (omega arith))
      ∙ byte-put_byte b i (v % 256) d in
    let high : (put_short b i v d).byte b (i + 1) ≡ v / 256 % 256 =
      byte-put_byte b (i + 1) (v / 256 % 256) (put_byte b i (v % 256) d) in
    omega arith

pub get_word-put_word : (b i v : ℕ) (d : Disk) → get_word b i (put_word b i v d) ≡ v % 2 ^ 32
get_word-put_word b i v d =
    let d₁ = put_short b i v d in
    let low₀ = byte-put_short_other b (i + 2) (v / 65536) b i d₁ (inr (inl (omega arith))) in
    let low₁ = byte-put_short_other b (i + 2) (v / 65536) b (i + 1) d₁ (inr (inl (omega arith))) in
    let low = get_short-put_short b i v d in
    let high = get_short-put_short b (i + 2) (v / 65536) d₁ in omega arith
