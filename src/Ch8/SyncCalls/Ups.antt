-- ===== src/Ch8/SyncCalls/Ups.antt =====
-- `semaphore_up` (tg-rcore-tutorial-ch8/src/main.rs): the tables stay right, and
-- threads that can all finish still can.
use tg_rcore_tutorial.Prelude.{
  ℕ, ◌+◌, ◌%◌, ◌^◌, ◌<◌, ◌≤◌, ◌≡◌, ◌≢◌, refl, ap, ap₂, subst, sym, ◌==◌, if◌then◌else◌, some, List,
  [], ◌∷◌, length, get_elem?, arith,
}
use tg_rcore_tutorial.Prelude.Assoc.{lookup, del, lookup-del}
use tg_rcore_tutorial.Sync.Semaphore.Resources.{available}
use tg_rcore_tutorial.Sync.Semaphore.Resources
use tg_rcore_tutorial.Sync.Semaphore.{Semaphore}
use tg_rcore_tutorial.Ch8.Process.{Process}
use tg_rcore_tutorial.Ch8.Deadlock.Completes.{Resource, mutex, semaphore, by_kind}
use tg_rcore_tutorial.Ch8.Deadlock.Check.{free_of, held_of, waiting_of, claim_from}
use tg_rcore_tutorial.Ch8.Deadlock.Safe.{IsSafe, IsSafe-runs, IsSafe-wakes}
use tg_rcore_tutorial.Ch8.SyncCalls.{set_at, allocate, deallocate}
use tg_rcore_tutorial.Ch8.SyncCalls.Tables.{
  holds-allocate, holds-deallocate, Queued, Queued-wake, length-set_at, get_elem?-lt,
}
use tg_rcore_tutorial.Ch8.SyncCalls.Reflects.{
  Reflects, sem_at, claim_now, IsRunning, free_semaphore, running-waiting, sem_at-set_at, sem_or,
  if_IsValid,
}

abbrev pub up_count : Semaphore → ℕ
up_count s = (s.count + 1) % 2 ^ 64

abbrev pub after_up : Semaphore → Semaphore
after_up s = record s { count = up_count s }

abbrev pub after_wake : List ℕ → Semaphore → Semaphore
after_wake rest s = record { count = up_count s; wait_queue = rest }

after_up_lem :
    (s : Semaphore)
    → Resources.IsValid s
    → s.wait_queue ≡ []
    → available s + 1 < 2 ^ 63
    → Resources.IsValid (after_up s) × (available (after_up s) ≡ available s + 1)
after_up_lem s v h lt = ground arith

after_wake_lem :
    (s : Semaphore) (w : ℕ) (rest : List ℕ)
    → Resources.IsValid s
    → s.wait_queue ≡ w ∷ rest
    → Resources.IsValid (after_wake rest s) × (available s ≡ 0)
after_wake_lem s w rest v h = ground arith

module _ (p : Process) (ref : Reflects p) (tid i : ℕ) (s : Semaphore)
    (at : get_elem? p.semaphore_list i ≡ some (some s)) where
  valid : Resources.IsValid s
  valid = subst Resources.IsValid (ap sem_or at) (ref.sem_valid i)

  lt : i < length p.semaphore_list
  lt = get_elem?-lt i p.semaphore_list (some s) at

  -- The process once the resource is free.
  module _ (nobody : s.wait_queue ≡ []) (few : available s + 1 < 2 ^ 63) where
    abbrev pub freed : Process
    freed = record p {
      semaphore_list = set_at i (some (after_up s)) p.semaphore_list;
      sem_allocations = deallocate tid i p.sem_allocations;
    }

    at-freed : (j : ℕ) → sem_at freed j ≡ (if i == j then after_up s else sem_at p j)
    at-freed j = sem_at-set_at p i j s (after_up s) at

    pub freed-Reflects : Reflects freed
    freed-Reflects = record {
      sorted = ref.sorted;
      held = ref.held;
      mutex_queue = ref.mutex_queue;
      mutex_valid = ref.mutex_valid;
      sem_queue = λ j t. ground (arith, ref.sem_queue j t, at-freed j, at);
      sem_valid = λ j.
          subst Resources.IsValid (sym (at-freed j))
            (if_IsValid (i == j) (after_up_lem s valid nobody few).0 (ref.sem_valid j));
      sem_range = λ t j le. ground (
        arith,
        holds-deallocate t j tid i p.sem_allocations,
        ref.sem_range t j,
        length-set_at i (some (after_up s)) p.semaphore_list,
        le,
      );
      one_wait = ref.one_wait;
    }

    pub freed-IsSafe :
        IsRunning p tid
        → IsSafe (free_of p) (claim_now p)
        → IsSafe (free_of freed) (claim_now freed)
    freed-IsSafe running safe =
        IsSafe-runs (free_of p) (free_of freed) (claim_now p) (claim_now freed) tid safe same
          (running-waiting p tid running) sum
      where
        same : (t : ℕ) → t ≢ tid → claim_now p t ≡ claim_now freed t
        same t ne =
            ap₂ claim_from
              (by_kind (λ j. refl)
                (λ j. ground (arith, holds-deallocate t j tid i p.sem_allocations)))
              (by_kind (λ j. refl) (λ j. refl))

        sum : (r : Resource) → free_of p r + held_of p tid r ≤ free_of freed r + held_of freed tid r
        sum (mutex j) = omega arith
        sum (semaphore j) = ground (
          arith,
          free_semaphore p j,
          free_semaphore freed j,
          ap available (at-freed j),
          holds-deallocate tid j tid i p.sem_allocations,
          after_up_lem s valid nobody few,
          at,
        )

  -- The process once the resource has gone to the first waiter.
  module _ (w : ℕ) (rest : List ℕ) (first : s.wait_queue ≡ w ∷ rest) where
    abbrev pub handed : Process
    handed = record p {
      semaphore_list = set_at i (some (after_wake rest s)) p.semaphore_list;
      sem_allocations = allocate w i (deallocate tid i p.sem_allocations);
      sem_requests = del w p.sem_requests;
    }

    at-handed : (j : ℕ) → sem_at handed j ≡ (if i == j then after_wake rest s else sem_at p j)
    at-handed j = sem_at-set_at p i j s (after_wake rest s) at

    woken_queue :
        (lookup w p.sem_requests ≡ some i)
        × Queued (λ j. (sem_at handed j).wait_queue) (del w p.sem_requests)
    woken_queue =
        Queued-wake (λ j. (sem_at p j).wait_queue) (λ j. (sem_at handed j).wait_queue)
          p.sem_requests w i ref.sem_queue (ground (arith, at, first, at-handed i))
          (λ j ne. ground (arith, at-handed j))

    pub handed-Reflects : Reflects handed
    handed-Reflects = record {
      sorted = ref.sorted;
      held = ref.held;
      mutex_queue = ref.mutex_queue;
      mutex_valid = ref.mutex_valid;
      sem_queue = woken_queue.1;
      sem_valid = λ j.
          subst Resources.IsValid (sym (at-handed j))
            (if_IsValid (i == j) (after_wake_lem s w rest valid first).0 (ref.sem_valid j));
      sem_range = λ t j le. ground (
        arith,
        holds-allocate t j w i (deallocate tid i p.sem_allocations),
        holds-deallocate t j tid i p.sem_allocations,
        ref.sem_range t j,
        length-set_at i (some (after_wake rest s)) p.semaphore_list,
        lt,
        le,
      );
      one_wait = λ t. ground (arith, ref.one_wait t, lookup-del t w p.sem_requests);
    }

    pub handed-IsSafe :
        IsRunning p tid
        → IsSafe (free_of p) (claim_now p)
        → IsSafe (free_of handed) (claim_now handed)
    handed-IsSafe (idle, idle') safe =
        IsSafe-wakes (free_of p) (free_of handed) (claim_now p) (claim_now handed) tid w safe ne
          busy same runs woken sum
      where
        ne : w ≢ tid
        ne = ground (arith, woken_queue.0, idle')

        busy : ¬ ((r : Resource) → (held_of p w r ≡ 0) × (waiting_of p w r ≡ 0))
        busy h = ground (arith, h (semaphore i), woken_queue.0)

        same : (t : ℕ) → t ≢ tid → t ≢ w → claim_now p t ≡ claim_now handed t
        same t ne_c ne_w =
            ap₂ claim_from
              (by_kind (λ j. refl)
                (λ j. ground (
                  arith,
                  holds-deallocate t j tid i p.sem_allocations,
                  holds-allocate t j w i (deallocate tid i p.sem_allocations),
                )))
              (by_kind (λ j. refl) (λ j. ground (arith, lookup-del t w p.sem_requests)))

        runs : (r : Resource) → waiting_of handed tid r ≡ 0
        runs (mutex j) = ground (arith, idle)
        runs (semaphore j) = ground (arith, lookup-del tid w p.sem_requests, idle')

        woken : (r : Resource) → waiting_of handed w r ≡ 0
        woken (mutex j) = ground (arith, ref.one_wait w, woken_queue.0)
        woken (semaphore j) = ground (arith, lookup-del w w p.sem_requests)

        sum :
            (r : Resource)
            → free_of p r + held_of p tid r + held_of p w r
              ≤ free_of handed r + held_of handed tid r + held_of handed w r
        sum (mutex j) = omega arith
        sum (semaphore j) = ground (
          arith,
          free_semaphore p j,
          free_semaphore handed j,
          ap available (at-handed j),
          holds-deallocate tid j tid i p.sem_allocations,
          holds-deallocate w j tid i p.sem_allocations,
          holds-allocate tid j w i (deallocate tid i p.sem_allocations),
          holds-allocate w j w i (deallocate tid i p.sem_allocations),
          after_wake_lem s w rest valid first,
          at,
          ne,
        )
