-- ===== src/Sync/Semaphore.antt =====
-- tg-rcore-tutorial-sync/src/semaphore.rs. The count is an `isize`, kept as its 64-bit pattern:
-- a pattern from 2^63 on stands for a negative count, and sums wrap.
pub mod Resources
use tg_rcore_tutorial.Prelude.{
  ℕ, ◌+◌, ◌-◌, ◌%◌, ◌^◌, if◌then◌else◌, ltb, not, Bool, true, false, Option, none, some, List, [],
  ◌∷◌, ◌++◌, pop_front,
}
use tg_rcore_tutorial.Sync.Mutex.{ThreadId}

pub record Semaphore : Type 0 where
  pub count : ℕ
  pub wait_queue : List ThreadId

unfoldable pub new : ℕ → Semaphore
new res_count = record { count = res_count; wait_queue = [] }

-- `count < 0` on the pattern.
abbrev pub is_negative : ℕ → Bool
is_negative c = not (ltb c (2 ^ 63))

unfoldable pub up : Semaphore → Option ThreadId × Semaphore
up s = elim (pop_front s.wait_queue) [
  | some (tid, rest) ↦ (some tid, record { count = (s.count + 1) % 2 ^ 64; wait_queue = rest })
  | none ↦ (none, record s { count = (s.count + 1) % 2 ^ 64 })
]

unfoldable pub down : ThreadId → Semaphore → Bool × Semaphore
down tid s =
    let count = (s.count + (2 ^ 64 - 1)) % 2 ^ 64 in
    if is_negative count
    then (false, record { count = count; wait_queue = s.wait_queue ++ tid ∷ [] })
    else (true, record s { count = count })
