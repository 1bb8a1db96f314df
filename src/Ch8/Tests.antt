-- ===== src/Ch8/Tests.antt =====
-- Runs of the threads of chapter 8 on concrete inputs.
use tg_rcore_tutorial.Prelude.{
  ℕ, ◌≡◌, refl, Bool, true, false, none, some, [], ◌∷◌, arith, ok, count, ◌↔◌, ◌⊎◌, ◌<◌,
}
use tg_rcore_tutorial.Sync.Mutex.{MutexBlocking}
use tg_rcore_tutorial.Sync.Mutex
use tg_rcore_tutorial.Sync.Condvar
use tg_rcore_tutorial.Ch8.Process.{Process}
use tg_rcore_tutorial.Ch8.Process
use tg_rcore_tutorial.Ch8.SyncCalls
use tg_rcore_tutorial.Ch8.SyncCalls.{mutex_create, mutex_lock, condvar_wait, enable_deadlock_detect}
use tg_rcore_tutorial.Ch8.SyncCalls.Reflects.{claim_now, IsRunning}
use tg_rcore_tutorial.Ch8.SyncCalls.NoDeadlock
use tg_rcore_tutorial.Ch8.SyncCalls.NoDeadlock.{no_deadlock, Reach, Step}
use tg_rcore_tutorial.Ch8.Deadlock.Safe.{IsSafe}
use tg_rcore_tutorial.Prelude.Int.{pos, negsuc}
use tg_rcore_tutorial.Ch8.Deadlock.{check_deadlock, all_tids}
use tg_rcore_tutorial.Ch8.Deadlock
use tg_rcore_tutorial.Ch8.Deadlock.Completes.{Resource, Completes, claims}
use tg_rcore_tutorial.Ch8.Deadlock.Rows.{one_of, takes_part}
use tg_rcore_tutorial.Ch8.Deadlock.Check.{check_deadlock_lem, free_of, held_of, claim_of}

-- Thread 1 holds mutex 0, and thread 2 holds mutex 1 and waits for mutex 0.
abbrev crossed : Process
crossed = record {
  semaphore_list = some (record { count = 1; wait_queue = [] }) ∷ [];
  mutex_list =
      some (record { locked = true; wait_queue = 2 ∷ [] })
      ∷ some (record { locked = true; wait_queue = [] })
      ∷ [];
  condvar_list = [];
  is_deadlock_detect_enabled = true;
  mutex_allocations = (1, 0 ∷ []) ∷ (2, 1 ∷ []) ∷ [];
  sem_allocations = [];
  mutex_requests = (2, 0) ∷ [];
  sem_requests = [];
}

crossed_deadlock : check_deadlock 1 (some 1) none crossed ≡ ok true
unfolding Deadlock.check_deadlock Deadlock.all_tids Deadlock.gather Deadlock.rows Deadlock.row
    Deadlock.add_ones Deadlock.add_one Deadlock.add_request Deadlock.available_mutex
    Deadlock.take_held Deadlock.set_zero Deadlock.available_sem Deadlock.free_count
    Deadlock.unfinished Deadlock.passes Deadlock.sweep Deadlock.can_finish Deadlock.fits
    Deadlock.release Deadlock.reclaim Deadlock.is_deadlock
crossed_deadlock = refl

crossed_free : check_deadlock 1 none (some 0) crossed ≡ ok false
unfolding Deadlock.check_deadlock Deadlock.all_tids Deadlock.gather Deadlock.rows Deadlock.row
    Deadlock.add_ones Deadlock.add_one Deadlock.add_request Deadlock.available_mutex
    Deadlock.take_held Deadlock.set_zero Deadlock.available_sem Deadlock.free_count
    Deadlock.unfinished Deadlock.passes Deadlock.sweep Deadlock.can_finish Deadlock.fits
    Deadlock.release Deadlock.reclaim Deadlock.is_deadlock
crossed_free = refl

check_deadlock_lem_example :
    (dead : Bool) × (check_deadlock 1 (some 1) none crossed ≡ ok dead)
    × ((t : ℕ) → count t (all_tids 1 crossed) ≡ one_of (takes_part 1 crossed t))
    × ((dead ≡ false)
        ↔ Completes
            (free_of crossed)
            (claims (claim_of 1 (some 1) none crossed) (all_tids 1 crossed)))
check_deadlock_lem_example =
    check_deadlock_lem 1 (some 1) none crossed
      (λ t i le. ground arith, λ t i e. ground arith, λ i e. ground arith)
      (λ t i le. ground arith, λ t i e. ground arith, λ i e. ground arith)

-- The detection is on, and thread 1 creates a mutex and locks it.
abbrev made : Process
made = record NoDeadlock.start { mutex_list = some Mutex.new ∷ [] }

abbrev locked : Process
locked = record NoDeadlock.start {
  mutex_list = some (record { locked = true; wait_queue = [] }) ∷ [];
  mutex_allocations = (1, 0 ∷ []) ∷ [];
}

makes : (mutex_create true NoDeadlock.start).2 ≡ made
unfolding mutex_create SyncCalls.place SyncCalls.first_none Mutex.new Process.new
    enable_deadlock_detect
makes = refl

locks : mutex_lock 1 0 made ≡ ok (pos 0, none, locked)
unfolding mutex_lock SyncCalls.take_mutex SyncCalls.guarded SyncCalls.primitive SyncCalls.allocate
    Mutex.lock Mutex.new Process.new enable_deadlock_detect Deadlock.check_deadlock
    Deadlock.all_tids Deadlock.gather Deadlock.rows Deadlock.row Deadlock.add_ones Deadlock.add_one
    Deadlock.add_request Deadlock.available_mutex Deadlock.take_held Deadlock.set_zero
    Deadlock.available_sem Deadlock.free_count Deadlock.unfinished Deadlock.passes Deadlock.sweep
    Deadlock.can_finish Deadlock.fits Deadlock.release Deadlock.reclaim Deadlock.is_deadlock
locks = refl

no_deadlock_example :
    IsSafe (free_of locked) (claim_now locked)
    × ((w : ℕ)
        → (IsRunning locked w)
          ⊎ ((t : ℕ) × (r : Resource) × IsRunning locked t × (0 < held_of locked t r)))
unfolding Process.new enable_deadlock_detect
no_deadlock_example = no_deadlock locked (
    Reach.more (Reach.more Reach.here (Step.creates_mutex true makes))
      (Step.locks 1 0 (pos 0) none (refl, refl) locks))

-- Thread 1 gives up mutex 0 in a wait for a condition variable, and thread 2 gets it: the tables
-- still say that thread 2 waits for it and that nobody holds it.
abbrev wait_table : Process
wait_table = record crossed { condvar_list = some Condvar.new ∷ [] }

wait_is_not_recorded :
    condvar_wait 1 0 0 wait_table
    ≡ ok (
      negsuc 0,
      some 2,
      record wait_table {
        mutex_list =
            some (record { locked = true; wait_queue = 1 ∷ [] })
            ∷ some (record { locked = true; wait_queue = [] })
            ∷ [];
        mutex_allocations = (1, []) ∷ (2, 1 ∷ []) ∷ [];
      },
    )
unfolding condvar_wait SyncCalls.primitive SyncCalls.deallocate Condvar.wait_with_mutex Condvar.new
    Mutex.unlock Mutex.lock
wait_is_not_recorded = refl
