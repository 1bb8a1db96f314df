-- ===== src/Ch8/SyncCalls/Downs.antt =====
-- `semaphore_down` (tg-rcore-tutorial-ch8/src/main.rs): the tables stay right, and
-- threads that can all finish still can.
use tg_rcore_tutorial.Prelude.{
  ℕ, ◌+◌, ◌-◌, ◌%◌, ◌^◌, ◌<◌, ◌≤◌, ◌≡◌, ◌≢◌, refl, ap, ap₂, subst, sym, ◌==◌, if◌then◌else◌, true,
  false, none, some, [], ◌∷◌, ◌++◌, length, length-append, get_elem?, arith,
}
use tg_rcore_tutorial.Prelude.Assoc.{put, lookup-put}
use tg_rcore_tutorial.Sync.Semaphore.Resources.{available}
use tg_rcore_tutorial.Sync.Semaphore.Resources
use tg_rcore_tutorial.Sync.Semaphore.{Semaphore, is_negative}
use tg_rcore_tutorial.Ch8.Process.{Process}
use tg_rcore_tutorial.Ch8.Deadlock.Completes.{Resource, mutex, semaphore, by_kind}
use tg_rcore_tutorial.Ch8.Deadlock.Check.{free_of, held_of, claim_from, claim_of}
use tg_rcore_tutorial.Ch8.Deadlock.Safe.{IsSafe, IsSafe-runs, IsSafe-mono}
use tg_rcore_tutorial.Ch8.SyncCalls.{set_at, allocate}
use tg_rcore_tutorial.Ch8.SyncCalls.Tables.{
  holds-allocate, Queued-wait, length-set_at, get_elem?-lt,
}
use tg_rcore_tutorial.Ch8.SyncCalls.Reflects.{
  Reflects, sem_at, claim_now, IsRunning, free_semaphore, running-waiting, sem_at-set_at, sem_or,
  if_IsValid,
}

abbrev pub down_count : Semaphore → ℕ
down_count s = (s.count + (2 ^ 64 - 1)) % 2 ^ 64

abbrev pub after_down : Semaphore → Semaphore
after_down s = record s { count = down_count s }

abbrev pub after_wait : ℕ → Semaphore → Semaphore
after_wait tid s = record { count = down_count s; wait_queue = s.wait_queue ++ tid ∷ [] }

after_down_lem :
    (s : Semaphore)
    → Resources.IsValid s
    → is_negative (down_count s) ≡ false
    → length s.wait_queue < 2 ^ 63
    → Resources.IsValid (after_down s) × (available (after_down s) + 1 ≡ available s)
after_down_lem s v h lt = ground arith

after_wait_lem :
    (tid : ℕ) (s : Semaphore)
    → Resources.IsValid s
    → is_negative (down_count s) ≡ true
    → length s.wait_queue < 2 ^ 63
    → Resources.IsValid (after_wait tid s) × (available (after_wait tid s) ≡ available s)
after_wait_lem tid s v h lt = ground (arith, length-append s.wait_queue (tid ∷ []))

module _ (p : Process) (ref : Reflects p) (tid i : ℕ) (s : Semaphore)
    (at : get_elem? p.semaphore_list i ≡ some (some s)) where
  -- The process once the thread has the resource.
  abbrev pub taken : Process
  taken = record p {
    semaphore_list = set_at i (some (after_down s)) p.semaphore_list;
    sem_allocations = allocate tid i p.sem_allocations;
  }

  -- The process once the thread waits for it.
  abbrev pub waits : Process
  waits = record p {
    semaphore_list = set_at i (some (after_wait tid s)) p.semaphore_list;
    sem_requests = put tid i p.sem_requests;
  }

  at-taken : (j : ℕ) → sem_at taken j ≡ (if i == j then after_down s else sem_at p j)
  at-taken j = sem_at-set_at p i j s (after_down s) at

  at-waits : (j : ℕ) → sem_at waits j ≡ (if i == j then after_wait tid s else sem_at p j)
  at-waits j = sem_at-set_at p i j s (after_wait tid s) at

  valid : Resources.IsValid s
  valid = subst Resources.IsValid (ap sem_or at) (ref.sem_valid i)

  pub taken-Reflects :
      is_negative (down_count s) ≡ false → length s.wait_queue < 2 ^ 63 → Reflects taken
  taken-Reflects got few = record {
    sorted = ref.sorted;
    held = ref.held;
    mutex_queue = ref.mutex_queue;
    mutex_valid = ref.mutex_valid;
    sem_queue = λ j t. ground (arith, ref.sem_queue j t, at-taken j, at);
    sem_valid = λ j.
        subst Resources.IsValid (sym (at-taken j))
          (if_IsValid (i == j) (after_down_lem s valid got few).0 (ref.sem_valid j));
    sem_range = λ t j le. ground (
      arith,
      holds-allocate t j tid i p.sem_allocations,
      ref.sem_range t j,
      length-set_at i (some (after_down s)) p.semaphore_list,
      get_elem?-lt i p.semaphore_list (some s) at,
      le,
    );
    one_wait = ref.one_wait;
  }

  pub waits-Reflects :
      is_negative (down_count s) ≡ true
      → length s.wait_queue < 2 ^ 63
      → IsRunning p tid
      → Reflects waits
  waits-Reflects full few (idle, idle') = record {
    sorted = ref.sorted;
    held = ref.held;
    mutex_queue = ref.mutex_queue;
    mutex_valid = ref.mutex_valid;
    sem_queue =
        Queued-wait (λ j. (sem_at p j).wait_queue) (λ j. (sem_at waits j).wait_queue) p.sem_requests
          tid i ref.sem_queue idle' (λ j. ground (arith, at-waits j, at));
    sem_valid = λ j.
        subst Resources.IsValid (sym (at-waits j))
          (if_IsValid (i == j) (after_wait_lem tid s valid full few).0 (ref.sem_valid j));
    sem_range = λ t j le.
        ref.sem_range t j
          (omega (arith, le, length-set_at i (some (after_wait tid s)) p.semaphore_list));
    one_wait = λ t. ground (arith, ref.one_wait t, lookup-put t tid i p.sem_requests, idle);
  }

  pub taken-IsSafe :
      is_negative (down_count s) ≡ false
      → length s.wait_queue < 2 ^ 63
      → IsRunning p tid
      → IsSafe (free_of p) (claim_of tid none (some i) p)
      → IsSafe (free_of taken) (claim_now taken)
  taken-IsSafe got few running safe =
      IsSafe-runs (free_of p) (free_of taken) (claim_of tid none (some i) p) (claim_now taken) tid
        safe same (running-waiting p tid running) sum
    where
      same : (t : ℕ) → t ≢ tid → claim_of tid none (some i) p t ≡ claim_now taken t
      same t ne =
          ap₂ claim_from
            (by_kind (λ j. refl) (λ j. ground (arith, holds-allocate t j tid i p.sem_allocations)))
            (by_kind (λ j. ground arith) (λ j. ground arith))

      sum : (r : Resource) → free_of p r + held_of p tid r ≤ free_of taken r + held_of taken tid r
      sum (mutex j) = omega arith
      sum (semaphore j) = ground (
        arith,
        free_semaphore p j,
        free_semaphore taken j,
        ap available (at-taken j),
        holds-allocate tid j tid i p.sem_allocations,
        after_down_lem s valid got few,
        at,
      )

  pub waits-IsSafe :
      is_negative (down_count s) ≡ true
      → length s.wait_queue < 2 ^ 63
      → IsRunning p tid
      → IsSafe (free_of p) (claim_of tid none (some i) p)
      → IsSafe (free_of waits) (claim_now waits)
  waits-IsSafe full few (idle, idle') safe = IsSafe-mono safe same le
    where
      same : (t : ℕ) → claim_of tid none (some i) p t ≡ claim_now waits t
      same t = ap₂ claim_from refl (
          by_kind (λ j. ground arith)
            (λ j. ground (arith, lookup-put t tid i p.sem_requests, idle')))

      le : (r : Resource) → free_of p r ≤ free_of waits r
      le (mutex j) = omega arith
      le (semaphore j) = ground (
        arith,
        free_semaphore p j,
        free_semaphore waits j,
        ap available (at-waits j),
        after_wait_lem tid s valid full few,
        at,
      )
