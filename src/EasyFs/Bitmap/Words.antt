-- ===== src/EasyFs/Bitmap/Words.antt =====
-- The bits of one block of a bitmap (bitmap.rs).
use tg_rcore_tutorial.Prelude.{
  ℕ, zero, suc, ◌+◌, ◌-◌, ◌*◌, ◌/◌, ◌%◌, ◌^◌, ◌<◌, ◌≡◌, refl, ap, ap₂, ◌∙◌, ◌⊎◌, inl, inr, ◌==◌,
  if◌then◌else◌, Bool-cases, none, some, [], ◌∷◌, length, arith,
}
use Prim.Native.Nat.{bit_or}
use tg_rcore_tutorial.Prelude.Bits.{
  bit, bit-bit_or, bit-pow, bit-le_one, trailing_ones, trailing_ones_lem, bit_or-bound, bit_not,
  bit-bit_not, bit-zero,
}
use native.Mathlib.Nat.{one-le-pow, pow-le-pow_right}
use tg_rcore_tutorial.EasyFs.Bitmap.{BitmapBlock, u64_max, find_free, word, set_word, alloc_block}

-- Bit `k` of a block.
abbrev pub taken_in : BitmapBlock → ℕ → ℕ
taken_in block k = bit (k % 64) (word (k / 64) block)

abbrev pub AllWords : BitmapBlock → Type 0
AllWords [] = Unit
AllWords (w ∷ ws) = (w < 2 ^ 64) × AllWords ws

pub word-set_word :
    (p q x : ℕ) (block : BitmapBlock)
    → p < length block
    → word q (set_word p x block) ≡ (if q == p then x else word q block)
unfolding word set_word
word-set_word p q x [] h = absurd (omega arith)
word-set_word zero zero x (w ∷ ws) h = ground arith
word-set_word zero (suc q) x (w ∷ ws) h = ground arith
word-set_word (suc p) zero x (w ∷ ws) h = ground arith
word-set_word (suc p) (suc q) x (w ∷ ws) h = ground (arith, word-set_word p q x ws (omega arith))

pub length-set_word : (p x : ℕ) (block : BitmapBlock) → length (set_word p x block) ≡ length block
unfolding set_word
length-set_word p x [] = refl
length-set_word zero x (w ∷ ws) = refl
length-set_word (suc p) x (w ∷ ws) = ap suc (length-set_word p x ws)

pub set_word-AllWords :
    (p x : ℕ) (block : BitmapBlock) → x < 2 ^ 64 → AllWords block → AllWords (set_word p x block)
unfolding set_word
set_word-AllWords p x [] lt h = h
set_word-AllWords zero x (w ∷ ws) lt (_, h) = (lt, h)
set_word-AllWords (suc p) x (w ∷ ws) lt (hw, h) = (hw, set_word-AllWords p x ws lt h)

pub word-lt : (p : ℕ) (block : BitmapBlock) → AllWords block → word p block < 2 ^ 64
unfolding word
word-lt p [] h = omega arith
word-lt zero (w ∷ ws) (lt, h) = lt
word-lt (suc p) (w ∷ ws) (lt, h) = word-lt p ws h

pow-lt-64 : (i : ℕ) → i < 64 → 2 ^ i < 2 ^ 64
pow-lt-64 i h = omega (arith, pow-le-pow_right {n = 2} (omega arith) {i = i} {j = 63} (omega arith))

full_bit : (n k : ℕ) → k < n → bit k (2 ^ n - 1) ≡ 1
full_bit n k h =
    let same : 2 ^ n - 1 ≡ bit_not n 0 = omega arith in
    ap (bit k) same ∙ ground (arith, bit-bit_not k n 0 h (one-le-pow n 2 (omega arith)), bit-zero k)

-- The word found is the first that is not full, and the bit its lowest one that is free.
find_free_lem :
    (block : BitmapBlock)
    → AllWords block
    → ((find_free block ≡ none)
        × ((p i : ℕ) → p < length block → i < 64 → bit i (word p block) ≡ 1))
      ⊎ ((p : ℕ) × (i : ℕ) × (find_free block ≡ some (p, i))
          × (p < length block)
          × (i < 64)
          × (bit i (word p block) ≡ 0)
          × ((q j : ℕ) → q * 64 + j < p * 64 + i → j < 64 → bit j (word q block) ≡ 1))
unfolding find_free word
find_free_lem [] h = inl (refl, λ p i lt. absurd (omega arith))
find_free_lem (w ∷ ws) (hw, h) = elim (Bool-cases (w == u64_max)) [
  | inl full ↦ elim (find_free_lem ws h) [
    | inl (e, all) ↦ inl (ground (arith, full, e), all_full (ground (arith, full)) all)
    | inr (p, i, e, lt, lt_i, free, below) ↦ inr (
      suc p,
      i,
      ground (arith, full, e),
      omega (arith, lt),
      lt_i,
      free,
      all_below p i (ground (arith, full)) below,
    )
  ]
  | inr room ↦
      let (lt, free, below) = trailing_ones_lem 64 w hw (λ e. ground (arith, room, e)) in
      inr (
        0,
        trailing_ones 64 w,
        ground (arith, room),
        omega arith,
        lt,
        free,
        first_below (trailing_ones 64 w) lt below,
      )
]
  where
    all_full :
        w ≡ u64_max
        → ((p i : ℕ) → p < length ws → i < 64 → bit i (word p ws) ≡ 1)
        → (p i : ℕ) → p < length (w ∷ ws)
        → i < 64
        → bit i (word p (w ∷ ws)) ≡ 1
    all_full e all zero i lt lt_i = ap (bit i) e ∙ full_bit 64 i lt_i
    all_full e all (suc p) i lt lt_i = all p i (omega arith) lt_i

    all_below :
        (p i : ℕ)
        → w ≡ u64_max
        → ((q j : ℕ) → q * 64 + j < p * 64 + i → j < 64 → bit j (word q ws) ≡ 1)
        → (q j : ℕ) → q * 64 + j < suc p * 64 + i
        → j < 64
        → bit j (word q (w ∷ ws)) ≡ 1
    all_below p i e below zero j lt lt_j = ap (bit j) e ∙ full_bit 64 j lt_j
    all_below p i e below (suc q) j lt lt_j = below q j (omega arith) lt_j

    first_below :
        (t : ℕ)
        → t < 64
        → ((k : ℕ) → k < t → bit k w ≡ 1)
        → (q j : ℕ) → q * 64 + j < 0 * 64 + t
        → j < 64
        → bit j (word q (w ∷ ws)) ≡ 1
    first_below t lt_t below zero j lt lt_j = below j (omega arith)
    first_below t lt_t below (suc q) j lt lt_j = absurd (omega arith)

-- A block from which a bit is taken: the lowest that is free, and no other bit changes.
pub alloc_block_lem :
    (block : BitmapBlock)
    → length block ≡ 64
    → AllWords block
    → ((alloc_block block ≡ none) × ((k : ℕ) → k < 4096 → taken_in block k ≡ 1))
      ⊎ ((p : ℕ) × (i : ℕ) × (block' : BitmapBlock) × (alloc_block block ≡ some ((p, i), block'))
          × (p * 64 + i < 4096)
          × (length block' ≡ 64)
          × AllWords block'
          × (taken_in block (p * 64 + i) ≡ 0)
          × ((k : ℕ) → k < p * 64 + i → taken_in block k ≡ 1)
          × ((k : ℕ) → taken_in block' k ≡ (if k == p * 64 + i then 1 else taken_in block k)))
unfolding alloc_block
alloc_block_lem block len h = elim (find_free_lem block h) [
  | inl (e, all) ↦
      inl (ground (arith, e), λ k lt. all (k / 64) (k % 64) (omega arith) (omega arith))
  | inr (p, i, e, lt, lt_i, free, below) ↦
      let x = bit_or (word p block) (2 ^ i) in
      let pos : (p * 64 + i) / 64 ≡ p = omega (arith, lt_i) in
      let inner : (p * 64 + i) % 64 ≡ i = omega (arith, lt_i) in
      inr (
        p,
        i,
        set_word p x block,
        ground (arith, e),
        omega (arith, lt, lt_i, len),
        length-set_word p x block ∙ len,
        set_word-AllWords p x block
            (bit_or-bound 64 (word p block) (2 ^ i) (word-lt p block h) (pow-lt-64 i lt_i)) h,
        ap₂ (λ a b. bit a (word b block)) inner pos ∙ free,
        λ k lt_k. below (k / 64) (k % 64) (omega arith) (omega arith),
        λ k. changed p i lt lt_i k,
      )
]
  where
    changed :
        (p i : ℕ)
        → p < length block
        → i < 64
        → (k : ℕ)
        → taken_in (set_word p (bit_or (word p block) (2 ^ i)) block) k
          ≡ (if k == p * 64 + i then 1 else taken_in block k)
    changed p i lt lt_i k = ground (
      arith,
      ap (bit (k % 64)) (word-set_word p (k / 64) (bit_or (word p block) (2 ^ i)) block lt),
      bit-bit_or (k % 64) (word p block) (2 ^ i),
      bit-pow (k % 64) i,
      bit-le_one (k % 64) (word p block),
    )
