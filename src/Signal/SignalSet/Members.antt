-- ===== src/Signal/SignalSet/Members.antt =====
-- The operations on a word of signals, by its members (signal_set.rs).
use Prim.Native.Nat.{min, bit_and}
use native.Mathlib.Nat.{pow-le-pow_right}
use tg_rcore_tutorial.Prelude.{
  ℕ, ◌-◌, ◌%◌, ◌^◌, ◌<◌, ◌≤◌, ◌≡◌, ◌∙◌, ap, ◌==◌, Bool, true, false, none, some, arith, ◌⊎◌, inl,
  inr, not, ◌&&◌, ◌||◌,
}
use tg_rcore_tutorial.Prelude.Bits.{
  bit, bit-le_one, bit-bit_and, bit-bit_or, bit_and-lt, bit_or-bound, bit_not, bit-bit_not, bit-pow,
  shift-bit, trailing_zeros, trailing_zeros_lem,
}
use tg_rcore_tutorial.Signal.SignalSet.{
  SignalSet, one_at, contain_bit, add_bit, remove_bit, find_first_one,
}

-- Whether a signal is in a set.
abbrev pub has : ℕ → SignalSet → Bool
has k s = bit k s == 1

abbrev pub IsWord : ℕ → Type 0
IsWord s = s < 2 ^ 64

same_index : (k : ℕ) → k < 64 → k % 64 ≡ k
same_index k h = omega arith

pub one_at-lt : (k : ℕ) → IsWord (one_at k)
one_at-lt k =
    let small : k % 64 ≤ 63 = omega arith in
    let top : 2 ^ (k % 64) ≤ 2 ^ 63 = pow-le-pow_right {n = 2} (omega arith) small in omega arith

pub contain_bit_lem : (k : ℕ) (s : SignalSet) → k < 64 → contain_bit s k ≡ has k s
unfolding contain_bit
contain_bit_lem k s h = ground (arith, shift-bit k s, same_index k h, bit-le_one k s)

pub add_bit-has : (j k : ℕ) (s : SignalSet) → k < 64 → has j (add_bit k s) ≡ (j == k) || has j s
unfolding add_bit
add_bit-has j k s h =
    ground (arith, bit-bit_or j s (one_at k), bit-pow j k, same_index k h, bit-le_one j s)

pub add_bit-IsWord : (k : ℕ) (s : SignalSet) → IsWord s → IsWord (add_bit k s)
unfolding add_bit
add_bit-IsWord k s w = bit_or-bound 64 s (one_at k) w (one_at-lt k)

pub remove_bit-has :
    (j k : ℕ) (s : SignalSet) → j < 64 → k < 64 → has j (remove_bit k s) ≡ not (j == k) && has j s
unfolding remove_bit
remove_bit-has j k s hj hk = ground (
  arith,
  bit-bit_and j s (bit_not 64 (one_at k)),
  bit-bit_not j 64 (one_at k) hj (one_at-lt k),
  bit-pow j k,
  same_index k hk,
  bit-le_one j s,
)

pub remove_bit-IsWord : (k : ℕ) (s : SignalSet) → IsWord s → IsWord (remove_bit k s)
unfolding remove_bit
remove_bit-IsWord k s w = bit_and-lt 64 s (bit_not 64 (one_at k)) w

is_index : (t n : ℕ) → t ≡ n → (t == n) ≡ true
is_index t n e = ground arith

below_index : (t n : ℕ) → t < n → (t == n) ≡ false
below_index t n lt = ground arith

pending_bit :
    (k : ℕ) (mask s : SignalSet)
    → IsWord mask
    → k < 64
    → bit k (bit_and s (bit_not 64 mask)) ≡ min (bit k s) (1 - bit k mask)
pending_bit k mask s w h =
    bit-bit_and k s (bit_not 64 mask) ∙ ap (min (bit k s)) (bit-bit_not k 64 mask h w)

pending_none :
    (k : ℕ) (mask s : SignalSet)
    → IsWord mask
    → k < 64
    → bit k (bit_and s (bit_not 64 mask)) ≡ 0
    → has k s && not (has k mask) ≡ false
pending_none k mask s w h e =
    ground (arith, pending_bit k mask s w h, bit-le_one k s, bit-le_one k mask)

pending_one :
    (k : ℕ) (mask s : SignalSet)
    → IsWord mask
    → k < 64
    → bit k (bit_and s (bit_not 64 mask)) ≡ 1
    → (has k s ≡ true) × (has k mask ≡ false)
pending_one k mask s w h e = (
  ground (arith, pending_bit k mask s w h, bit-le_one k s, bit-le_one k mask),
  ground (arith, pending_bit k mask s w h, bit-le_one k s, bit-le_one k mask),
)

-- `find_first_one` gives the lowest member that the mask does not hold, or none if it holds all.
pub find_first_one_lem :
    (mask s : SignalSet)
    → IsWord mask
    → ((find_first_one mask s ≡ none) × ((k : ℕ) → k < 64 → has k s && not (has k mask) ≡ false))
      ⊎ ((k : ℕ) × (find_first_one mask s ≡ some k)
          × (k < 64)
          × (has k s ≡ true)
          × (has k mask ≡ false)
          × ((j : ℕ) → j < k → has j s && not (has j mask) ≡ false))
unfolding find_first_one
find_first_one_lem mask s w =
    let (below, here) = trailing_zeros_lem 64 (bit_and s (bit_not 64 mask)) in
    let t = trailing_zeros 64 (bit_and s (bit_not 64 mask)) in
    elim here [
      | inl e ↦
          let all : (t == 64) ≡ true = is_index t 64 e in
          inl (rw all, λ k h. pending_none k mask s w h (below k (omega (arith, e))))
      | inr (lt, e) ↦
          let some_left : (t == 64) ≡ false = below_index t 64 lt in
          let (mine, free) = pending_one t mask s w lt e in
          inr (
            t,
            rw some_left,
            lt,
            mine,
            free,
            λ j h. pending_none j mask s w (omega (arith, lt)) (below j h),
          )
    ]
