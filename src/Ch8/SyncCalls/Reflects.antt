-- ===== src/Ch8/SyncCalls/Reflects.antt =====
-- The tables and the primitives of a process (tg-rcore-tutorial-ch8/src/process.rs) between calls.
use tg_rcore_tutorial.Prelude.{
  ℕ, ◌<◌, ◌≤◌, ◌≡◌, refl, ◌⊎◌, inl, inr, ltb, ◌==◌, if◌then◌else◌, Bool, true, false, Bool-cases,
  Option, none, some, [], length, get_elem?, arith,
}
use tg_rcore_tutorial.Prelude.Assoc.{lookup, IsSorted}
use tg_rcore_tutorial.Sync.Mutex.{MutexBlocking}
use tg_rcore_tutorial.Sync.Mutex.Fifo
use tg_rcore_tutorial.Sync.Semaphore.{Semaphore}
use tg_rcore_tutorial.Sync.Semaphore.Resources
use tg_rcore_tutorial.Ch8.Process.{Process}
use tg_rcore_tutorial.Ch8.Deadlock.{free_count}
use tg_rcore_tutorial.Ch8.Deadlock.Completes.{Resource, mutex, semaphore, Claim}
use tg_rcore_tutorial.Ch8.Deadlock.Rows.{free_at}
use tg_rcore_tutorial.Ch8.Deadlock.Check.{free_of, held_of, waiting_of, claim_from, AllBelow}
use tg_rcore_tutorial.Ch8.SyncCalls.{set_at}
use tg_rcore_tutorial.Ch8.SyncCalls.Tables.{
  holds, holders, is_held-holders, holds-le-holders, Queued, get_elem?-set_at, get_elem?-none,
}

-- The primitive under an id; one that nobody uses, where there is none.
abbrev pub mutex_or : Option (Option MutexBlocking) → MutexBlocking
mutex_or (some (some m)) = m
mutex_or _ = record { locked = false; wait_queue = [] }

abbrev pub sem_or : Option (Option Semaphore) → Semaphore
sem_or (some (some s)) = s
sem_or _ = record { count = 0; wait_queue = [] }

abbrev pub mutex_at : Process → ℕ → MutexBlocking
mutex_at p i = mutex_or (get_elem? p.mutex_list i)

abbrev pub sem_at : Process → ℕ → Semaphore
sem_at p i = sem_or (get_elem? p.semaphore_list i)

-- A locked mutex is held once, by one thread, and a free one by nobody; the requests are those of
-- the threads in the queues; no thread waits twice.
pub record Reflects (p : Process) : Type 0 where
  pub sorted : IsSorted p.mutex_allocations
  pub held : (i : ℕ) → holders i p.mutex_allocations ≡ (if (mutex_at p i).locked then 1 else 0)
  pub mutex_queue : Queued (λ i. (mutex_at p i).wait_queue) p.mutex_requests
  pub mutex_valid : (i : ℕ) → Fifo.IsValid (mutex_at p i)
  pub sem_queue : Queued (λ i. (sem_at p i).wait_queue) p.sem_requests
  pub sem_valid : (i : ℕ) → Resources.IsValid (sem_at p i)
  pub sem_range : (t i : ℕ) → length p.semaphore_list ≤ i → holds t i p.sem_allocations ≡ 0
  pub one_wait : (t : ℕ) → (lookup t p.mutex_requests ≡ none) ⊎ (lookup t p.sem_requests ≡ none)

-- What each thread holds and waits for.
abbrev pub claim_now : Process → ℕ → Claim
claim_now p t = claim_from (held_of p t) (waiting_of p t)

abbrev pub IsRunning : Process → ℕ → Type 0
IsRunning p t = (lookup t p.mutex_requests ≡ none) × (lookup t p.sem_requests ≡ none)

pub free_mutex :
    (p : Process) (i : ℕ)
    → Reflects p
    → free_of p (mutex i)
      ≡ (if (mutex_at p i).locked then 0 else (if ltb i (length p.mutex_list) then 1 else 0))
free_mutex p i ref = ground (arith, is_held-holders i p.mutex_allocations, ref.held i)

pub free_semaphore :
    (p : Process) (i : ℕ) → free_of p (semaphore i) ≡ Resources.available (sem_at p i)
unfolding free_count
free_semaphore p i = same (get_elem? p.semaphore_list i)
  where
    same : (o : Option (Option Semaphore)) → free_at o ≡ Resources.available (sem_or o)
    same none = refl
    same (some none) = refl
    same (some (some s)) = refl

pub running-waiting : (p : Process) (t : ℕ) → IsRunning p t → (r : Resource) → waiting_of p t r ≡ 0
running-waiting p t (h, h') (mutex i) = ground (arith, h)
running-waiting p t (h, h') (semaphore i) = ground (arith, h')

pub mutex_at-set_at :
    (p : Process) (i j : ℕ) (m m' : MutexBlocking)
    → get_elem? p.mutex_list i ≡ some (some m)
    → mutex_or (get_elem? (set_at i (some m') p.mutex_list) j)
      ≡ (if i == j then m' else mutex_at p j)
mutex_at-set_at p i j m m' e =
    ground (arith, get_elem?-set_at i j (some m') (some m) p.mutex_list e)

pub sem_at-set_at :
    (p : Process) (i j : ℕ) (s s' : Semaphore)
    → get_elem? p.semaphore_list i ≡ some (some s)
    → sem_or (get_elem? (set_at i (some s') p.semaphore_list) j)
      ≡ (if i == j then s' else sem_at p j)
sem_at-set_at p i j s s' e =
    ground (arith, get_elem?-set_at i j (some s') (some s) p.semaphore_list e)

-- The check of deadlock.rs finds every id that it meets.
pub AllBelow-mutexes :
    (p : Process) (req : Option ℕ)
    → Reflects p
    → ((i : ℕ) → req ≡ some i → i < length p.mutex_list)
    → AllBelow (length p.mutex_list) p.mutex_allocations p.mutex_requests req
AllBelow-mutexes p req ref h = (
  λ t i le. ground (
    arith,
    holds-le-holders t i p.mutex_allocations,
    ref.held i,
    get_elem?-none i p.mutex_list le,
  ),
  λ t i e. elim (Bool-cases (ltb i (length p.mutex_list))) [
    | inl lt ↦ ground arith
    | inr ge ↦
        absurd
          (ground (arith, ref.mutex_queue i t, get_elem?-none i p.mutex_list (ground arith), e))
  ],
  h,
)

pub AllBelow-semaphores :
    (p : Process) (req : Option ℕ)
    → Reflects p
    → ((i : ℕ) → req ≡ some i → i < length p.semaphore_list)
    → AllBelow (length p.semaphore_list) p.sem_allocations p.sem_requests req
AllBelow-semaphores p req ref h = (
  λ t i le. ref.sem_range t i le,
  λ t i e. elim (Bool-cases (ltb i (length p.semaphore_list))) [
    | inl lt ↦ ground arith
    | inr ge ↦
        absurd
          (ground (arith, ref.sem_queue i t, get_elem?-none i p.semaphore_list (ground arith), e))
  ],
  h,
)

pub if_IsValid :
    (b : Bool) {s s' : Semaphore}
    → Resources.IsValid s
    → Resources.IsValid s'
    → Resources.IsValid (if b then s else s')
if_IsValid true v v' = v
if_IsValid false v v' = v'
