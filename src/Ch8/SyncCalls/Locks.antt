-- ===== src/Ch8/SyncCalls/Locks.antt =====
-- `mutex_lock` (tg-rcore-tutorial-ch8/src/main.rs): the tables stay right, and
-- threads that can all finish still can.
use tg_rcore_tutorial.Prelude.{
  ℕ, ◌+◌, ◌<◌, ◌≤◌, ◌≡◌, ◌≢◌, refl, ap₂, ◌==◌, if◌then◌else◌, true, false, none, some, [], ◌∷◌,
  ◌++◌, length, get_elem?, arith,
}
use tg_rcore_tutorial.Prelude.Assoc.{put, lookup-put}
use tg_rcore_tutorial.Sync.Mutex.{MutexBlocking}
use tg_rcore_tutorial.Ch8.Process.{Process}
use tg_rcore_tutorial.Ch8.Deadlock.Completes.{Resource, mutex, semaphore, by_kind}
use tg_rcore_tutorial.Ch8.Deadlock.Check.{free_of, held_of, claim_from, claim_of}
use tg_rcore_tutorial.Ch8.Deadlock.Safe.{IsSafe, IsSafe-runs, IsSafe-mono}
use tg_rcore_tutorial.Ch8.SyncCalls.{set_at, allocate}
use tg_rcore_tutorial.Ch8.SyncCalls.Tables.{
  holds-allocate, holders-allocate, Queued-wait, length-set_at, get_elem?-lt,
}
use tg_rcore_tutorial.Ch8.SyncCalls.Reflects.{
  Reflects, mutex_at, claim_now, IsRunning, free_mutex, running-waiting, mutex_at-set_at,
}

module _ (p : Process) (ref : Reflects p) (tid i : ℕ) (m : MutexBlocking)
    (at : get_elem? p.mutex_list i ≡ some (some m)) where
  -- The process once the lock is granted.
  abbrev pub granted : Process
  granted = record p {
    mutex_list = set_at i (some (record m { locked = true })) p.mutex_list;
    mutex_allocations = allocate tid i p.mutex_allocations;
  }

  -- The process once the thread waits for the lock.
  abbrev pub waits : Process
  waits = record p {
    mutex_list = set_at i (some (record m { wait_queue = m.wait_queue ++ tid ∷ [] })) p.mutex_list;
    mutex_requests = put tid i p.mutex_requests;
  }

  at-granted :
      (j : ℕ) → mutex_at granted j ≡ (if i == j then record m { locked = true } else mutex_at p j)
  at-granted j = mutex_at-set_at p i j m (record m { locked = true }) at

  at-waits :
      (j : ℕ)
      → mutex_at waits j
        ≡ (if i == j then record m { wait_queue = m.wait_queue ++ tid ∷ [] } else mutex_at p j)
  at-waits j = mutex_at-set_at p i j m (record m { wait_queue = m.wait_queue ++ tid ∷ [] }) at

  pub granted-Reflects : m.locked ≡ false → Reflects granted
  granted-Reflects free = record {
    sorted = (holders-allocate i tid i p.mutex_allocations ref.sorted).0;
    held = λ j. ground (
      arith,
      holders-allocate j tid i p.mutex_allocations ref.sorted,
      ref.held j,
      at-granted j,
      at,
      free,
    );
    mutex_queue = λ j t. ground (arith, ref.mutex_queue j t, at-granted j, at);
    mutex_valid = λ j. ground (arith, ref.mutex_valid j, at-granted j);
    sem_queue = ref.sem_queue;
    sem_valid = ref.sem_valid;
    sem_range = ref.sem_range;
    one_wait = ref.one_wait;
  }

  pub waits-Reflects : m.locked ≡ true → IsRunning p tid → Reflects waits
  waits-Reflects taken (idle, idle') = record {
    sorted = ref.sorted;
    held = λ j. ground (arith, ref.held j, at-waits j, at);
    mutex_queue =
        Queued-wait (λ j. (mutex_at p j).wait_queue) (λ j. (mutex_at waits j).wait_queue)
          p.mutex_requests tid i ref.mutex_queue idle (λ j. ground (arith, at-waits j, at));
    mutex_valid = λ j. ground (arith, ref.mutex_valid j, at-waits j, taken);
    sem_queue = ref.sem_queue;
    sem_valid = ref.sem_valid;
    sem_range = ref.sem_range;
    one_wait = λ t. ground (arith, ref.one_wait t, lookup-put t tid i p.mutex_requests, idle');
  }

  lt : i < length p.mutex_list
  lt = get_elem?-lt i p.mutex_list (some m) at

  pub granted-IsSafe :
      m.locked ≡ false
      → IsRunning p tid
      → IsSafe (free_of p) (claim_of tid (some i) none p)
      → IsSafe (free_of granted) (claim_now granted)
  granted-IsSafe free running safe =
      IsSafe-runs (free_of p) (free_of granted) (claim_of tid (some i) none p) (claim_now granted)
        tid safe same (running-waiting p tid running) sum
    where
      same : (t : ℕ) → t ≢ tid → claim_of tid (some i) none p t ≡ claim_now granted t
      same t ne =
          ap₂ claim_from
            (by_kind (λ j. ground (arith, holds-allocate t j tid i p.mutex_allocations))
              (λ j. refl))
            (by_kind (λ j. ground arith) (λ j. ground arith))

      sum :
          (r : Resource) → free_of p r + held_of p tid r ≤ free_of granted r + held_of granted tid r
      sum (mutex j) = ground (
        arith,
        free_mutex p j ref,
        free_mutex granted j (granted-Reflects free),
        holds-allocate tid j tid i p.mutex_allocations,
        at-granted j,
        length-set_at i (some (record m { locked = true })) p.mutex_list,
      )
      sum (semaphore j) = omega arith

  pub waits-IsSafe :
      m.locked ≡ true
      → IsRunning p tid
      → IsSafe (free_of p) (claim_of tid (some i) none p)
      → IsSafe (free_of waits) (claim_now waits)
  waits-IsSafe taken (idle, idle') safe = IsSafe-mono safe same le
    where
      same : (t : ℕ) → claim_of tid (some i) none p t ≡ claim_now waits t
      same t = ap₂ claim_from refl (
          by_kind (λ j. ground (arith, lookup-put t tid i p.mutex_requests, idle))
            (λ j. ground arith))

      le : (r : Resource) → free_of p r ≤ free_of waits r
      le (mutex j) = ground (
        arith,
        free_mutex p j ref,
        free_mutex waits j (waits-Reflects taken (idle, idle')),
        at-waits j,
        at,
        length-set_at i (some (record m { wait_queue = m.wait_queue ++ tid ∷ [] })) p.mutex_list,
      )
      le (semaphore j) = omega arith
