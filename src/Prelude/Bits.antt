-- ===== src/Prelude/Bits.antt =====
-- The bits of a word: `&`, `|`, `!`, `<<`, `>>` and `trailing_zeros` of `usize`.
use Prim.Native.Nat.{
  ℕ, zero, suc, ◌+◌, ◌-◌, ◌*◌, ◌/◌, ◌%◌, ◌^◌, ◌≤◌, ◌<◌, min, max, bit_and, bit_or, digits,
  bit_and-bitwise, bit_or-bitwise,
}
use mathlib.Core.Path.{◌≡◌, refl, sym, ap, ◌∙◌}
use mathlib.Core.Logic.{◌⊎◌, ◌≢◌, inl, inr}
use native.Mathlib.Omega.{arith}
use native.Mathlib.Nat.{pow-suc, one-le-pow, le_refl, div-div-eq-div-mul}
use tg_rcore_tutorial.Prelude.Tests.{◌==◌, if◌then◌else◌, Bool-cases}

-- The native operations count down the digits: a count above the first number changes nothing.
module _ (z : ℕ → ℕ) (f : ℕ → ℕ → ℕ) where
  one_more : (count a b : ℕ) → a ≤ count → digits z f (suc count) a b ≡ digits z f count a b
  one_more zero zero b h = refl
  one_more (suc count) zero b h = refl
  one_more zero (suc a) b h = absurd (omega arith)
  one_more (suc count) (suc a) b h =
      ap (λ high. high * 2 + f (suc a % 2) (b % 2))
        (one_more count (suc a / 2) (b / 2) (omega arith))

  any_more : (extra a b : ℕ) → digits z f (a + extra) a b ≡ digits z f a a b
  any_more zero a b = let same : a + 0 ≡ a = omega arith in ap (λ count. digits z f count a b) same
  any_more (suc extra) a b =
      let next : a + suc extra ≡ suc (a + extra) = omega arith in
      ap (λ count. digits z f count a b) next
      ∙ one_more (a + extra) a b (omega arith)
      ∙ any_more extra a b

  halves : (a b : ℕ) → digits z f a (suc a / 2) b ≡ digits z f (suc a / 2) (suc a / 2) b
  halves a b =
      let split : a ≡ suc a / 2 + (a - suc a / 2) = omega arith in
      ap (λ count. digits z f count (suc a / 2) b) split ∙ any_more (a - suc a / 2) (suc a / 2) b

-- One equation for the lowest digit of each operation.
bit_and_low : (a b : ℕ) → bit_and a b ≡ min (a % 2) (b % 2) + 2 * bit_and (a / 2) (b / 2)
bit_and_low zero b = omega (arith, bit_and-bitwise 0 (b / 2), bit_and-bitwise 0 b)
bit_and_low (suc a) b =
    let below = halves (λ y. 0) min a (b / 2) in
    omega (arith, below, bit_and-bitwise (suc a / 2) (b / 2), bit_and-bitwise (suc a) b)

bit_or_low : (a b : ℕ) → bit_or a b ≡ max (a % 2) (b % 2) + 2 * bit_or (a / 2) (b / 2)
bit_or_low zero b = omega (arith, bit_or-bitwise 0 (b / 2), bit_or-bitwise 0 b)
bit_or_low (suc a) b =
    let below = halves (λ y. y) max a (b / 2) in
    omega (arith, below, bit_or-bitwise (suc a / 2) (b / 2), bit_or-bitwise (suc a) b)

-- Bit `k` of a number.
abbrev pub bit : ℕ → ℕ → ℕ
bit zero a = a % 2
bit (suc k) a = bit k (a / 2)

pub bit-le_one : (k a : ℕ) → bit k a ≤ 1
bit-le_one zero a = omega arith
bit-le_one (suc k) a = bit-le_one k (a / 2)

pub bit-bit_and : (k a b : ℕ) → bit k (bit_and a b) ≡ min (bit k a) (bit k b)
bit-bit_and zero a b = omega (arith, bit_and_low a b)
bit-bit_and (suc k) a b =
    let half : bit_and a b / 2 ≡ bit_and (a / 2) (b / 2) = omega (arith, bit_and_low a b) in
    ap (bit k) half ∙ bit-bit_and k (a / 2) (b / 2)

pub bit-bit_or : (k a b : ℕ) → bit k (bit_or a b) ≡ max (bit k a) (bit k b)
bit-bit_or zero a b = omega (arith, bit_or_low a b)
bit-bit_or (suc k) a b =
    let half : bit_or a b / 2 ≡ bit_or (a / 2) (b / 2) = omega (arith, bit_or_low a b) in
    ap (bit k) half ∙ bit-bit_or k (a / 2) (b / 2)

pub bit_and-lt : (n a b : ℕ) → a < 2 ^ n → bit_and a b < 2 ^ n
bit_and-lt zero a b h = ground (arith, bit_and-bitwise 0 b)
bit_and-lt (suc n) a b h =
    omega (
      arith,
      bit_and_low a b,
      pow-suc 2 n,
      bit_and-lt n (a / 2) (b / 2) (omega (arith, pow-suc 2 n)),
    )

pub bit_or-bound : (n a b : ℕ) → a < 2 ^ n → b < 2 ^ n → bit_or a b < 2 ^ n
bit_or-bound zero a b h k = ground (arith, bit_or-bitwise 0 0)
bit_or-bound (suc n) a b h k = omega (
  arith,
  bit_or_low a b,
  pow-suc 2 n,
  bit_or-bound n (a / 2) (b / 2) (omega (arith, pow-suc 2 n)) (omega (arith, pow-suc 2 n)),
)

-- `!a` of a word of `n` bits.
abbrev pub bit_not : ℕ → ℕ → ℕ
bit_not n a = 2 ^ n - 1 - a

pub bit-bit_not : (k n a : ℕ) → k < n → a < 2 ^ n → bit k (bit_not n a) ≡ 1 - bit k a
bit-bit_not k zero a lt h = absurd (omega arith)
bit-bit_not zero (suc n) a lt h = omega (arith, pow-suc 2 n, one-le-pow n 2)
bit-bit_not (suc k) (suc n) a lt h =
    let half : bit_not (suc n) a / 2 ≡ bit_not n (a / 2) =
      omega (arith, pow-suc 2 n, one-le-pow n 2) in
    ap (bit k) half ∙ bit-bit_not k n (a / 2) (omega arith) (omega (arith, pow-suc 2 n))

pub bit-zero : (k : ℕ) → bit k 0 ≡ 0
bit-zero zero = refl
bit-zero (suc k) = bit-zero k

pub bit-above : (k n a : ℕ) → n ≤ k → a < 2 ^ n → bit k a ≡ 0
bit-above k zero a le h = let none : a ≡ 0 = omega arith in ap (bit k) none ∙ bit-zero k
bit-above zero (suc n) a le h = absurd (omega arith)
bit-above (suc k) (suc n) a le h = bit-above k n (a / 2) (omega arith) (omega (arith, pow-suc 2 n))

-- `1 << j`
pub bit-pow : (k j : ℕ) → bit k (2 ^ j) ≡ (if k == j then 1 else 0)
bit-pow zero zero = refl
bit-pow zero (suc j) = ground (arith, pow-suc 2 j)
bit-pow (suc k) zero = ground (arith, bit-zero k)
bit-pow (suc k) (suc j) =
    let half : 2 ^ suc j / 2 ≡ 2 ^ j = omega (arith, pow-suc 2 j) in
    ap (bit k) half ∙ ground (arith, bit-pow k j)

bit_and-zero_count : (n a : ℕ) → a ≤ n → bit_and a 0 ≡ 0
bit_and-zero_count n zero h = bit_and-bitwise 0 0
bit_and-zero_count zero (suc a) h = absurd (omega arith)
bit_and-zero_count (suc n) (suc a) h =
    omega (arith, bit_and_low (suc a) 0, bit_and-zero_count n (suc a / 2) (omega arith))

shift-mod : (k a : ℕ) → a / 2 ^ k % 2 ≡ bit k a
shift-mod zero a = omega arith
shift-mod (suc k) a =
    let split : a / 2 ^ suc k ≡ a / 2 / 2 ^ k =
      ap (◌/◌ a) (omega (arith, pow-suc 2 k)) ∙ sym (div-div-eq-div-mul a 2 (2 ^ k)) in
    ap (λ q. q % 2) split ∙ shift-mod k (a / 2)

-- `(a >> k) & 1`
pub shift-bit : (k a : ℕ) → bit_and (a / 2 ^ k) 1 ≡ bit k a
shift-bit k a = omega (
  arith,
  bit_and_low (a / 2 ^ k) 1,
  bit_and-zero_count (a / 2 ^ k / 2) (a / 2 ^ k / 2) (le_refl _),
  shift-mod k a,
)

-- `trailing_zeros` of a word of `n` bits.
abbrev pub trailing_zeros : ℕ → ℕ → ℕ
trailing_zeros zero a = 0
trailing_zeros (suc n) a = let rest = trailing_zeros n (a / 2) in if a % 2 == 1 then 0 else rest + 1

bits_shift :
    (t a : ℕ)
    → a % 2 ≡ 0
    → ((k : ℕ) → k < t → bit k (a / 2) ≡ 0)
    → (k : ℕ) → k < t + 1
    → bit k a ≡ 0
bits_shift t a low rest zero h = low
bits_shift t a low rest (suc k) h = rest k (omega arith)

-- It is the index of the lowest bit that is set, or the width if none is.
pub trailing_zeros_lem :
    (n a : ℕ)
    → ((k : ℕ) → k < trailing_zeros n a → bit k a ≡ 0)
      × ((trailing_zeros n a ≡ n) ⊎ ((trailing_zeros n a < n) × (bit (trailing_zeros n a) a ≡ 1)))
trailing_zeros_lem zero a = (λ k h. absurd (omega arith), inl refl)
trailing_zeros_lem (suc n) a =
    let (below, here) = trailing_zeros_lem n (a / 2) in
    let next : trailing_zeros n (a / 2) + 1 ≡ suc (trailing_zeros n (a / 2)) = omega arith in
    elim (Bool-cases (a % 2 == 1)) [
      | inl odd ↦ rw odd (λ k h. absurd (omega arith), inr (omega arith, ground (arith, odd)))
      | inr even ↦ rw even (
        bits_shift (trailing_zeros n (a / 2)) a (ground (arith, even)) below,
        elim here [
          | inl e ↦ inl (omega (arith, e))
          | inr (lt, e) ↦ inr (omega (arith, lt), ap (λ k. bit k a) next ∙ e)
        ],
      )
    ]

-- `trailing_ones` of a word of `n` bits.
abbrev pub trailing_ones : ℕ → ℕ → ℕ
trailing_ones zero a = 0
trailing_ones (suc n) a = let rest = trailing_ones n (a / 2) in if a % 2 == 1 then rest + 1 else 0

-- It is the index of the lowest bit that is not set.
pub trailing_ones_lem :
    (n a : ℕ)
    → a < 2 ^ n
    → a ≢ 2 ^ n - 1
    → (trailing_ones n a < n)
      × (bit (trailing_ones n a) a ≡ 0)
      × ((k : ℕ) → k < trailing_ones n a → bit k a ≡ 1)
trailing_ones_lem zero a h ne = absurd (ne (omega arith))
trailing_ones_lem (suc n) a h ne = elim (Bool-cases (a % 2 == 1)) [
  | inl odd ↦
      let (lt, here, below) =
        trailing_ones_lem n (a / 2) (omega (arith, pow-suc 2 n))
          (λ e. ne (ground (arith, e, odd, pow-suc 2 n, one-le-pow n 2))) in
      let next : suc (trailing_ones n (a / 2)) ≡ trailing_ones n (a / 2) + 1 = omega arith in
      rw odd (
        omega arith,
        ap (λ k. bit k a) (sym next) ∙ here,
        ones (trailing_ones n (a / 2)) below (ground (arith, odd)),
      )
  | inr even ↦ rw even (omega arith, ground (arith, even), λ k lt. absurd (omega arith))
]
  where
    ones :
        (t : ℕ)
        → ((k : ℕ) → k < t → bit k (a / 2) ≡ 1)
        → a % 2 ≡ 1
        → (k : ℕ) → k < t + 1
        → bit k a ≡ 1
    ones t below low zero lt = low
    ones t below low (suc k) lt = below k (omega arith)

pow-le : (j a : ℕ) → bit j a ≡ 1 → 2 ^ j ≤ a
pow-le zero a h = omega arith
pow-le (suc j) a h = omega (arith, pow-suc 2 j, pow-le j (a / 2) h)

pub bit-sub_pow : (k j a : ℕ) → bit j a ≡ 1 → bit k (a - 2 ^ j) ≡ (if k == j then 0 else bit k a)
bit-sub_pow zero zero a h = ground arith
bit-sub_pow (suc k) zero a h =
    let half : (a - 2 ^ 0) / 2 ≡ a / 2 = omega arith in ap (bit k) half ∙ ground arith
bit-sub_pow zero (suc j) a h = ground (arith, pow-suc 2 j, pow-le (suc j) a h)
bit-sub_pow (suc k) (suc j) a h =
    let half : (a - 2 ^ suc j) / 2 ≡ a / 2 - 2 ^ j = omega (arith, pow-suc 2 j) in
    ap (bit k) half ∙ ground (arith, bit-sub_pow k j (a / 2) h)

-- `a & (1 << i)`
pub bit_and-pow : (i a : ℕ) → bit_and a (2 ^ i) ≡ (if bit i a == 1 then 2 ^ i else 0)
bit_and-pow zero a = ground (arith, bit_and_low a 1, bit_and-zero_count (a / 2) (a / 2) (le_refl _))
bit_and-pow (suc i) a =
    let half : 2 ^ suc i / 2 ≡ 2 ^ i = omega (arith, pow-suc 2 i) in
    ground (
      arith,
      bit_and_low a (2 ^ suc i),
      ap (bit_and (a / 2)) half,
      pow-suc 2 i,
      bit_and-pow i (a / 2),
    )
