-- ===== src/Sync/Mutex.antt =====
-- tg-rcore-tutorial-sync/src/mutex.rs: `MutexBlocking`. Each method runs with interrupts masked,
-- so it is one step on the inner state.
pub mod Fifo
use tg_rcore_tutorial.Prelude.{
  ℕ, if◌then◌else◌, Bool, true, false, Option, none, some, List, [], ◌∷◌, ◌++◌, Outcome, ok, ◌>>=◌,
  ◌>>◌, assert, pop_front,
}

abbrev pub ThreadId : Type 0
ThreadId = ℕ

pub record MutexBlocking : Type 0 where
  pub locked : Bool
  pub wait_queue : List ThreadId

unfoldable pub new : MutexBlocking
new = record { locked = false; wait_queue = [] }

unfoldable pub lock : ThreadId → MutexBlocking → Bool × MutexBlocking
lock tid m =
    if m.locked
    then (false, record m { wait_queue = m.wait_queue ++ tid ∷ [] })
    else (true, record m { locked = true })

unfoldable pub unlock : MutexBlocking → Outcome (Option ThreadId × MutexBlocking)
unlock m = do
  assert m.locked
  ok (elim (pop_front m.wait_queue) [
    | some (waking_task, rest) ↦ (some waking_task, record m { wait_queue = rest })
    | none ↦ (none, record m { locked = false })
  ])
