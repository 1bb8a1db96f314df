-- ===== src/Sync/Condvar/Waiting.antt =====
-- What the waits of a condition variable do (condvar.rs).
use tg_rcore_tutorial.Prelude.{
  ◌≡◌, ◌⊎◌, inl, inr, true, false, some, List, [], ◌∷◌, ◌++◌, arith, ok, panic, List-cases,
  append_assoc, append-nil, releases_move, sym, ◌∙◌,
}
use tg_rcore_tutorial.Sync.Mutex.{ThreadId, MutexBlocking, lock, unlock}
use tg_rcore_tutorial.Sync.Mutex.Fifo.{woken}
use tg_rcore_tutorial.Sync.Condvar.{Condvar, signal, wait_no_sched, wait_with_mutex}

-- `wait_with_mutex` on a held mutex panics if nobody waits for the mutex. Else it hands the mutex
-- to its first waiter, reports that thread, queues the caller behind the other waiters of the
-- mutex, and does not touch the queue of the condition variable.
pub wait_with_mutex_lem :
    (tid : ThreadId) (c : Condvar) (m : MutexBlocking)
    → m.locked ≡ true
    → ((m.wait_queue ≡ []) × (wait_with_mutex tid c m ≡ panic))
      ⊎ ((w : ThreadId) × (ws : List ThreadId) × (m.wait_queue ≡ w ∷ ws)
          × (wait_with_mutex tid c m
              ≡ ok ((false, some w), c, record { locked = true; wait_queue = ws ++ tid ∷ [] })))
unfolding wait_with_mutex lock unlock
wait_with_mutex_lem tid c m h = elim (List-cases m.wait_queue) [
  | inl e ↦ inl (e, ground arith)
  | inr (w, ws, e) ↦ inr (w, ws, e, ground arith)
]

-- Threads that block by `wait_no_sched` while others signal.
pub data Call : Type 0 where
  waits : ThreadId → Call
  signals : Call

unfoldable pub run : Condvar → List Call → List ThreadId × Condvar
run c [] = ([], c)
run c (waits tid ∷ cs) = run (wait_no_sched tid c).1 cs
run c (signals ∷ cs) = let (o, c') = signal c in let (ws, t) = run c' cs in (woken o ++ ws, t)

abbrev pub waiters : List Call → List ThreadId
waiters [] = []
waiters (waits tid ∷ cs) = tid ∷ waiters cs
waiters (signals ∷ cs) = waiters cs

signal_order : (c : Condvar) → c.wait_queue ≡ woken (signal c).0 ++ (signal c).1.wait_queue
unfolding signal
signal_order c = ground (arith, List-cases c.wait_queue)

-- Threads that block by `wait_no_sched` are woken by `signal` in the order in which they began to
-- wait, none is lost and none is woken twice.
run_wakes :
    (cs : List Call) (c : Condvar)
    → let (ws, t) = run c cs in c.wait_queue ++ waiters cs ≡ ws ++ t.wait_queue
unfolding run signal wait_no_sched
run_wakes [] c = append-nil c.wait_queue
run_wakes (waits tid ∷ cs) c =
    sym (append_assoc c.wait_queue (tid ∷ []) (waiters cs)) ∙ run_wakes cs (wait_no_sched tid c).1
run_wakes (signals ∷ cs) c =
    releases_move c.wait_queue (waiters cs) _ _ _ _ (signal_order c) (run_wakes cs (signal c).1)
