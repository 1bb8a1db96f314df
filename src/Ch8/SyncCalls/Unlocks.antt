-- ===== src/Ch8/SyncCalls/Unlocks.antt =====
-- `mutex_unlock` (tg-rcore-tutorial-ch8/src/main.rs): the tables stay right, and
-- threads that can all finish still can.
use tg_rcore_tutorial.Prelude.{
  ℕ, ◌+◌, ◌<◌, ◌≤◌, ◌≡◌, ◌≢◌, refl, ap₂, inl, inr, ◌==◌, if◌then◌else◌, true, false, Bool-cases,
  some, List, [], ◌∷◌, get_elem?, arith,
}
use tg_rcore_tutorial.Prelude.Assoc.{lookup, del, lookup-del}
use tg_rcore_tutorial.Sync.Mutex.{MutexBlocking}
use tg_rcore_tutorial.Ch8.Process.{Process}
use tg_rcore_tutorial.Ch8.Deadlock.Completes.{Resource, mutex, semaphore, by_kind}
use tg_rcore_tutorial.Ch8.Deadlock.Check.{free_of, held_of, waiting_of, claim_from}
use tg_rcore_tutorial.Ch8.Deadlock.Safe.{IsSafe, IsSafe-runs, IsSafe-wakes}
use tg_rcore_tutorial.Ch8.SyncCalls.{set_at, allocate, deallocate}
use tg_rcore_tutorial.Ch8.SyncCalls.Tables.{
  holds, holds-le-holders, holds-allocate, holds-deallocate, holders-allocate, holders-deallocate,
  Queued, Queued-wake, length-set_at, get_elem?-lt,
}
use tg_rcore_tutorial.Ch8.SyncCalls.Reflects.{
  Reflects, mutex_at, claim_now, IsRunning, free_mutex, running-waiting, mutex_at-set_at,
}

module _ (p : Process) (ref : Reflects p) (tid i : ℕ) (m : MutexBlocking)
    (at : get_elem? p.mutex_list i ≡ some (some m)) where
  -- The process once the lock is free again.
  abbrev pub freed : Process
  freed = record p {
    mutex_list = set_at i (some (record m { locked = false })) p.mutex_list;
    mutex_allocations = deallocate tid i p.mutex_allocations;
  }

  at-freed :
      (j : ℕ) → mutex_at freed j ≡ (if i == j then record m { locked = false } else mutex_at p j)
  at-freed j = mutex_at-set_at p i j m (record m { locked = false }) at

  pub held-locked : 0 < holds tid i p.mutex_allocations → m.locked ≡ true
  held-locked held = elim (Bool-cases m.locked) [
    | inl e ↦ e
    | inr e ↦ absurd (ground (arith, holds-le-holders tid i p.mutex_allocations, ref.held i, at, e))
  ]

  pub freed-Reflects : 0 < holds tid i p.mutex_allocations → m.wait_queue ≡ [] → Reflects freed
  freed-Reflects held nobody = record {
    sorted = (holders-deallocate i tid i p.mutex_allocations ref.sorted held).0;
    held = λ j. ground (
      arith,
      holders-deallocate j tid i p.mutex_allocations ref.sorted held,
      ref.held j,
      at-freed j,
      at,
      held-locked held,
    );
    mutex_queue = λ j t. ground (arith, ref.mutex_queue j t, at-freed j, at);
    mutex_valid = λ j. ground (arith, ref.mutex_valid j, at-freed j, nobody);
    sem_queue = ref.sem_queue;
    sem_valid = ref.sem_valid;
    sem_range = ref.sem_range;
    one_wait = ref.one_wait;
  }

  pub freed-IsSafe :
      0 < holds tid i p.mutex_allocations
      → m.wait_queue ≡ []
      → IsRunning p tid
      → IsSafe (free_of p) (claim_now p)
      → IsSafe (free_of freed) (claim_now freed)
  freed-IsSafe held nobody running safe =
      IsSafe-runs (free_of p) (free_of freed) (claim_now p) (claim_now freed) tid safe same
        (running-waiting p tid running) sum
    where
      same : (t : ℕ) → t ≢ tid → claim_now p t ≡ claim_now freed t
      same t ne =
          ap₂ claim_from
            (by_kind (λ j. ground (arith, holds-deallocate t j tid i p.mutex_allocations))
              (λ j. refl))
            (by_kind (λ j. refl) (λ j. refl))

      sum : (r : Resource) → free_of p r + held_of p tid r ≤ free_of freed r + held_of freed tid r
      sum (mutex j) = ground (
        arith,
        free_mutex p j ref,
        free_mutex freed j (freed-Reflects held nobody),
        holds-deallocate tid j tid i p.mutex_allocations,
        held-locked held,
        at-freed j,
        at,
        get_elem?-lt i p.mutex_list (some m) at,
        length-set_at i (some (record m { locked = false })) p.mutex_list,
      )
      sum (semaphore j) = omega arith

  -- The process once the lock has gone to its first waiter.
  module _ (w : ℕ) (rest : List ℕ) (first : m.wait_queue ≡ w ∷ rest)
      (held : 0 < holds tid i p.mutex_allocations) where
    abbrev pub handed : Process
    handed = record p {
      mutex_list = set_at i (some (record m { wait_queue = rest })) p.mutex_list;
      mutex_allocations = allocate w i (deallocate tid i p.mutex_allocations);
      mutex_requests = del w p.mutex_requests;
    }

    at-handed :
        (j : ℕ)
        → mutex_at handed j ≡ (if i == j then record m { wait_queue = rest } else mutex_at p j)
    at-handed j = mutex_at-set_at p i j m (record m { wait_queue = rest }) at

    woken_queue :
        (lookup w p.mutex_requests ≡ some i)
        × Queued (λ j. (mutex_at handed j).wait_queue) (del w p.mutex_requests)
    woken_queue =
        Queued-wake (λ j. (mutex_at p j).wait_queue) (λ j. (mutex_at handed j).wait_queue)
          p.mutex_requests w i ref.mutex_queue (ground (arith, at, first, at-handed i))
          (λ j ne. ground (arith, at-handed j))

    pub handed-Reflects : Reflects handed
    handed-Reflects =
        let (sorted, less) = holders-deallocate i tid i p.mutex_allocations ref.sorted held in
        record {
          sorted = (holders-allocate i w i (deallocate tid i p.mutex_allocations) sorted).0;
          held = λ j. ground (
            arith,
            holders-allocate j w i (deallocate tid i p.mutex_allocations) sorted,
            holders-deallocate j tid i p.mutex_allocations ref.sorted held,
            ref.held j,
            at-handed j,
            at,
            held-locked held,
          );
          mutex_queue = woken_queue.1;
          mutex_valid = λ j. ground (arith, ref.mutex_valid j, at-handed j, held-locked held);
          sem_queue = ref.sem_queue;
          sem_valid = ref.sem_valid;
          sem_range = ref.sem_range;
          one_wait = λ t. ground (arith, ref.one_wait t, lookup-del t w p.mutex_requests);
        }

    pub handed-IsSafe :
        IsRunning p tid
        → IsSafe (free_of p) (claim_now p)
        → IsSafe (free_of handed) (claim_now handed)
    handed-IsSafe (idle, idle') safe =
        IsSafe-wakes (free_of p) (free_of handed) (claim_now p) (claim_now handed) tid w safe ne
          busy same runs woken sum
      where
        ne : w ≢ tid
        ne = ground (arith, woken_queue.0, idle)

        busy : ¬ ((r : Resource) → (held_of p w r ≡ 0) × (waiting_of p w r ≡ 0))
        busy h = ground (arith, h (mutex i), woken_queue.0)

        same : (t : ℕ) → t ≢ tid → t ≢ w → claim_now p t ≡ claim_now handed t
        same t ne_c ne_w =
            ap₂ claim_from
              (by_kind
                (λ j. ground (
                  arith,
                  holds-deallocate t j tid i p.mutex_allocations,
                  holds-allocate t j w i (deallocate tid i p.mutex_allocations),
                ))
                (λ j. refl))
              (by_kind (λ j. ground (arith, lookup-del t w p.mutex_requests)) (λ j. refl))

        runs : (r : Resource) → waiting_of handed tid r ≡ 0
        runs (mutex j) = ground (arith, lookup-del tid w p.mutex_requests, idle)
        runs (semaphore j) = ground (arith, idle')

        woken : (r : Resource) → waiting_of handed w r ≡ 0
        woken (mutex j) = ground (arith, lookup-del w w p.mutex_requests)
        woken (semaphore j) = ground (arith, ref.one_wait w, woken_queue.0)

        sum :
            (r : Resource)
            → free_of p r + held_of p tid r + held_of p w r
              ≤ free_of handed r + held_of handed tid r + held_of handed w r
        sum (mutex j) = ground (
          arith,
          free_mutex p j ref,
          free_mutex handed j handed-Reflects,
          holds-deallocate tid j tid i p.mutex_allocations,
          holds-deallocate w j tid i p.mutex_allocations,
          holds-allocate tid j w i (deallocate tid i p.mutex_allocations),
          holds-allocate w j w i (deallocate tid i p.mutex_allocations),
          held-locked held,
          at-handed j,
          at,
          length-set_at i (some (record m { wait_queue = rest })) p.mutex_list,
          ne,
        )
        sum (semaphore j) = omega arith
