-- ===== src/Signal/SignalSet.antt =====
-- tg-rcore-tutorial-signal-impl/src/signal_set.rs: a set of signals in one word. A shift counts
-- modulo 64, as it does without overflow checks.
pub mod Members
use Prim.Native.Nat.{bit_and, bit_or}
use tg_rcore_tutorial.Prelude.{ℕ, ◌/◌, ◌%◌, ◌^◌, ◌==◌, ltb, if◌then◌else◌, Bool, Option, none, some}
use tg_rcore_tutorial.Prelude.Bits.{bit_not, trailing_zeros}

abbrev pub SignalSet : Type 0
SignalSet = ℕ

abbrev pub one_at : ℕ → ℕ
one_at kth = 2 ^ (kth % 64)

unfoldable pub empty : SignalSet
empty = 0

unfoldable pub contain_bit : SignalSet → ℕ → Bool
contain_bit s kth = ltb 0 (bit_and (s / 2 ^ (kth % 64)) 1)

unfoldable pub add_bit : ℕ → SignalSet → SignalSet
add_bit kth s = bit_or s (one_at kth)

unfoldable pub remove_bit : ℕ → SignalSet → SignalSet
remove_bit kth s = bit_and s (bit_not 64 (one_at kth))

unfoldable pub get_union : SignalSet → SignalSet → SignalSet
get_union set s = bit_or s set

unfoldable pub get_difference : SignalSet → SignalSet → SignalSet
get_difference set s = bit_and s (bit_not 64 set)

unfoldable pub set_new : SignalSet → SignalSet → ℕ × SignalSet
set_new set s = (s, set)

unfoldable pub get_trailing_zeros : SignalSet → ℕ
get_trailing_zeros s = trailing_zeros 64 s

unfoldable pub find_first_one : SignalSet → SignalSet → Option ℕ
find_first_one mask s =
    let ans = trailing_zeros 64 (bit_and s (bit_not 64 mask)) in
    if ans == 64 then none else some ans
