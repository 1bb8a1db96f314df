-- ===== src/Sync/Tests.antt =====
-- Histories of the synchronisation objects on concrete inputs.
use tg_rcore_tutorial.Prelude.{
  ℕ, ◌+◌, ◌≡◌, refl, arith, true, false, some, List, [], ◌∷◌, ◌++◌, Outcome, ok, panic, inl, inr,
  length, ◌⊎◌,
}
use tg_rcore_tutorial.Sync.Mutex.{ThreadId, MutexBlocking, lock, unlock}
use tg_rcore_tutorial.Sync.Mutex.Fifo
use tg_rcore_tutorial.Sync.Mutex.Fifo.{run_in_order}
use tg_rcore_tutorial.Sync.Semaphore
use tg_rcore_tutorial.Sync.Semaphore.{up, down}
use tg_rcore_tutorial.Sync.Semaphore.Resources
use tg_rcore_tutorial.Sync.Semaphore.Resources.{run_resources}
use tg_rcore_tutorial.Sync.Condvar.{wait_with_mutex}
use tg_rcore_tutorial.Sync.Condvar.Waiting.{wait_with_mutex_lem}
use tg_rcore_tutorial.Sync.Masking.{Hart, Cell, enter, exclusive_session}
use tg_rcore_tutorial.Sync.Masking.Nesting.{IsMasked, Same, exclusive_session_lem}

abbrev mutex_calls : List Fifo.Call
mutex_calls = Fifo.locks 1 ∷ Fifo.locks 2 ∷ Fifo.locks 3 ∷ Fifo.unlocks ∷ Fifo.unlocks ∷ []

abbrev free_mutex : MutexBlocking
free_mutex = record { locked = false; wait_queue = [] }

mutex_grants :
    Fifo.run free_mutex mutex_calls ≡ ok (1 ∷ 2 ∷ 3 ∷ [], record { locked = true; wait_queue = [] })
unfolding Fifo.run lock unlock
mutex_grants = refl

run_in_order_example :
    (gs : List ThreadId) × (m' : MutexBlocking) × (Fifo.run free_mutex mutex_calls ≡ ok (gs, m'))
    × Fifo.IsValid m'
    × (1 ∷ 2 ∷ 3 ∷ [] ≡ gs ++ m'.wait_queue)
    × (length gs + 0 ≡ Fifo.holders m' + 2)
run_in_order_example = run_in_order mutex_calls free_mutex (inr refl) (omega arith)

abbrev two_free : Semaphore.Semaphore
two_free = record { count = 2; wait_queue = [] }

abbrev semaphore_calls : List Resources.Call
semaphore_calls = Resources.downs 1 ∷ Resources.downs 2 ∷ Resources.downs 3 ∷ Resources.ups ∷ []

semaphore_grants : (Resources.run two_free semaphore_calls).0 ≡ 1 ∷ 2 ∷ 3 ∷ []
unfolding Resources.run up down
semaphore_grants = refl

run_resources_example :
    let (gs, t) = Resources.run two_free semaphore_calls in
    Resources.IsValid t
    × (1 ∷ 2 ∷ 3 ∷ [] ≡ gs ++ t.wait_queue)
    × (length gs + Resources.available t ≡ 3)
run_resources_example =
    run_resources semaphore_calls two_free (inl (omega arith, refl)) (omega arith) (omega arith)

abbrev held_mutex : MutexBlocking
held_mutex = record { locked = true; wait_queue = 2 ∷ [] }

wait_with_mutex_lem_example :
    ((held_mutex.wait_queue ≡ [])
      × (wait_with_mutex 1 (record { wait_queue = [] }) held_mutex ≡ panic))
    ⊎ ((w : ThreadId) × (ws : List ThreadId) × (held_mutex.wait_queue ≡ w ∷ ws)
        × (wait_with_mutex 1 (record { wait_queue = [] }) held_mutex
            ≡ ok (
              (false, some w),
              record { wait_queue = [] },
              record { locked = true; wait_queue = ws ++ 1 ∷ [] },
            )))
wait_with_mutex_lem_example = wait_with_mutex_lem 1 (record { wait_queue = [] }) held_mutex refl

abbrev running : Hart
running = record { sie = true; nested_level = 0; sie_before_masking = false }

abbrev counter : Cell ℕ
counter = record { value = 41; borrowed = false }

abbrev increment : Hart → ℕ → Outcome (Hart × ℕ × ℕ)
increment h n = ok (h, n + 1, n)

exclusive_session_lem_example :
    IsMasked (enter running)
    × (h3 : Hart) × (exclusive_session increment running counter
        ≡ ok (h3, record { value = 42; borrowed = false }, 41))
    × Same h3 running
exclusive_session_lem_example =
    exclusive_session_lem increment running counter (inl refl) (omega arith) refl (enter running) 42
      41 refl (record { sie = refl; level = refl; before = λ h. refl })
