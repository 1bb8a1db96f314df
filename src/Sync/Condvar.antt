-- ===== src/Sync/Condvar.antt =====
-- tg-rcore-tutorial-sync/src/condvar.rs. The mutex of `wait_with_mutex` is a `MutexBlocking`.
pub mod Waiting
use tg_rcore_tutorial.Prelude.{
  Bool, true, false, Option, none, some, List, [], ◌∷◌, ◌++◌, Outcome, ok, ◌>>=◌, unwrap, pop_front,
}
use tg_rcore_tutorial.Sync.Mutex
use tg_rcore_tutorial.Sync.Mutex.{ThreadId, MutexBlocking}

pub record Condvar : Type 0 where
  pub wait_queue : List ThreadId

unfoldable pub new : Condvar
new = record { wait_queue = [] }

unfoldable pub signal : Condvar → Option ThreadId × Condvar
signal c = elim (pop_front c.wait_queue) [
  | some (tid, rest) ↦ (some tid, record { wait_queue = rest })
  | none ↦ (none, c)
]

unfoldable pub wait_no_sched : ThreadId → Condvar → Bool × Condvar
wait_no_sched tid c = (false, record { wait_queue = c.wait_queue ++ tid ∷ [] })

-- The answer, and the two objects after the call.
unfoldable pub wait_with_mutex :
    ThreadId
    → Condvar
    → MutexBlocking
    → Outcome ((Bool × Option ThreadId) × Condvar × MutexBlocking)
wait_with_mutex tid c mutex = do
  (freed, mutex') ← Mutex.unlock mutex
  waking_tid ← unwrap freed
  let (got, mutex'') = Mutex.lock tid mutex'
  ok ((got, some waking_tid), c, mutex'')
