-- ===== src/Ch8/SyncCalls.antt =====
-- The system calls of `impl SyncMutex for SyscallContext` (tg-rcore-tutorial-ch8/src/main.rs), on
-- the process of the thread `tid` that makes the call. A result is what the call returns, the
-- thread that it puts back in the ready queue, if any, and the process afterwards.
pub mod Tables
pub mod Reflects
pub mod Locks
pub mod Unlocks
pub mod Downs
pub mod Ups
pub mod Creates
pub mod Checks
pub mod Calls
pub mod NoDeadlock
use tg_rcore_tutorial.Prelude.{
  ℕ, zero, suc, ◌-◌, ◌==◌, if◌then◌else◌, Bool, true, false, not, Option, none, some, List, [], ◌∷◌,
  ◌++◌, length, get_elem?, erase, Outcome, ok, panic, ◌>>=◌, unwrap,
}
use tg_rcore_tutorial.Prelude.Int.{ℤ, pos, negsuc}
use tg_rcore_tutorial.Prelude.Assoc.{lookup, put, del}
use tg_rcore_tutorial.Sync.Mutex
use tg_rcore_tutorial.Sync.Mutex.{ThreadId, MutexBlocking}
use tg_rcore_tutorial.Sync.Semaphore
use tg_rcore_tutorial.Sync.Semaphore.{Semaphore}
use tg_rcore_tutorial.Sync.Condvar
use tg_rcore_tutorial.Sync.Condvar.{Condvar}
use tg_rcore_tutorial.Ch8.Process.{Process}
use tg_rcore_tutorial.Ch8.Deadlock.{check_deadlock, ids_of}

abbrev pub Reply : Type 0
Reply = ℤ × Option ThreadId × Process

-- `-0xDEAD`, the call would lead to a deadlock.
abbrev pub would_deadlock : ℤ
would_deadlock = negsuc (0xdead - 1)

-- `list[id] = item`
abbrev pub set_at {ℓ} : {A : Type ℓ} → ℕ → A → List A → List A
set_at i x [] = []
set_at zero x (y ∷ ys) = x ∷ ys
set_at (suc i) x (y ∷ ys) = y ∷ set_at i x ys

module _ {ℓ} {A : Type ℓ} where
  -- `list[id].as_ref().unwrap()`
  unfoldable pub primitive : List (Option A) → ℕ → Outcome A
  primitive items id = do item ← unwrap (get_elem? items id); unwrap item

  -- `iter().enumerate().find(|(_, item)| item.is_none())`
  unfoldable pub first_none : List (Option A) → Option ℕ
  first_none [] = none
  first_none (none ∷ items) = some 0
  first_none (some a ∷ items) = elim (first_none items) [ none ↦ none | some i ↦ some (suc i) ]

  -- The first free entry takes the item, or a new one at the end.
  unfoldable pub place : Option A → List (Option A) → ℕ × List (Option A)
  place item items = elim (first_none items) [
    | some id ↦ (id, set_at id item items)
    | none ↦ (length items, items ++ item ∷ [])
  ]

-- `entry(tid).or_default().push(id)`
unfoldable pub allocate : ThreadId → ℕ → List (ℕ × List ℕ) → List (ℕ × List ℕ)
allocate tid id table = put tid (ids_of (lookup tid table) ++ id ∷ []) table

-- `if let Some(ids) = get_mut(&tid)`, the removal of the first `id` from `ids`.
unfoldable pub deallocate : ThreadId → ℕ → List (ℕ × List ℕ) → List (ℕ × List ℕ)
deallocate tid id table = elim (lookup tid table) [
  | none ↦ table
  | some ids ↦ put tid (erase id ids) table
]

unfoldable pub semaphore_create : ℕ → Process → Reply
semaphore_create res_count p =
    let (id, items) = place (some (Semaphore.new res_count)) p.semaphore_list in
    (pos id, none, record p { semaphore_list = items })

unfoldable pub semaphore_up : ThreadId → ℕ → Process → Outcome Reply
semaphore_up tid sem_id p = do
  sem ← primitive p.semaphore_list sem_id
  let (woken, sem') = Semaphore.up sem
  let kept = deallocate tid sem_id p.sem_allocations
  let items = set_at sem_id (some sem') p.semaphore_list
  ok (elim woken [
    | none ↦ (pos 0, none, record p { semaphore_list = items; sem_allocations = kept })
    | some waking_tid ↦ (
      pos 0,
      some waking_tid,
      record p {
        semaphore_list = items;
        sem_allocations = allocate waking_tid sem_id kept;
        sem_requests = del waking_tid p.sem_requests;
      },
    )
  ])

-- The part of `semaphore_down` behind the deadlock check.
unfoldable pub take_semaphore : ThreadId → ℕ → Process → Outcome Reply
take_semaphore tid sem_id p = do
  sem ← primitive p.semaphore_list sem_id
  let (got, sem') = Semaphore.down tid sem
  let items = set_at sem_id (some sem') p.semaphore_list
  ok (
      if got
      then (
        pos 0,
        none,
        record p {
          semaphore_list = items;
          sem_allocations = allocate tid sem_id p.sem_allocations;
        },
      )
      else (
        negsuc 0,
        none,
        record p { semaphore_list = items; sem_requests = put tid sem_id p.sem_requests },
      ))

-- A check before a call, where it is enabled: the call is refused if it would lead to a deadlock.
unfoldable pub guarded : Outcome Bool → Process → Outcome Reply → Outcome Reply
guarded check p call =
    if p.is_deadlock_detect_enabled
    then (check >>= λ dead. if dead then ok (would_deadlock, none, p) else call)
    else call

unfoldable pub semaphore_down : ThreadId → ℕ → Process → Outcome Reply
semaphore_down tid sem_id p =
    guarded (check_deadlock tid none (some sem_id) p) p (take_semaphore tid sem_id p)

unfoldable pub mutex_create : Bool → Process → Reply
mutex_create blocking p =
    let new_mutex = if blocking then some Mutex.new else none in
    let (id, items) = place new_mutex p.mutex_list in
    (pos id, none, record p { mutex_list = items })

unfoldable pub mutex_unlock : ThreadId → ℕ → Process → Outcome Reply
mutex_unlock tid mutex_id p = do
  mutex ← primitive p.mutex_list mutex_id
  let kept = deallocate tid mutex_id p.mutex_allocations
  (woken, mutex') ← Mutex.unlock mutex
  let items = set_at mutex_id (some mutex') p.mutex_list
  ok (elim woken [
    | none ↦ (pos 0, none, record p { mutex_list = items; mutex_allocations = kept })
    | some waking_tid ↦ (
      pos 0,
      some waking_tid,
      record p {
        mutex_list = items;
        mutex_allocations = allocate waking_tid mutex_id kept;
        mutex_requests = del waking_tid p.mutex_requests;
      },
    )
  ])

-- The part of `mutex_lock` behind the deadlock check.
unfoldable pub take_mutex : ThreadId → ℕ → Process → Outcome Reply
take_mutex tid mutex_id p = do
  mutex ← primitive p.mutex_list mutex_id
  let (got, mutex') = Mutex.lock tid mutex
  let items = set_at mutex_id (some mutex') p.mutex_list
  ok (
      if got
      then (
        pos 0,
        none,
        record p {
          mutex_list = items;
          mutex_allocations = allocate tid mutex_id p.mutex_allocations;
        },
      )
      else (
        negsuc 0,
        none,
        record p { mutex_list = items; mutex_requests = put tid mutex_id p.mutex_requests },
      ))

unfoldable pub mutex_lock : ThreadId → ℕ → Process → Outcome Reply
mutex_lock tid mutex_id p =
    guarded (check_deadlock tid (some mutex_id) none p) p (take_mutex tid mutex_id p)

unfoldable pub condvar_create : Process → Reply
condvar_create p =
    let (id, items) = place (some Condvar.new) p.condvar_list in
    (pos id, none, record p { condvar_list = items })

unfoldable pub condvar_signal : ℕ → Process → Outcome Reply
condvar_signal condvar_id p = do
  condvar ← primitive p.condvar_list condvar_id
  let (woken, condvar') = Condvar.signal condvar
  ok (pos 0, woken, record p { condvar_list = set_at condvar_id (some condvar') p.condvar_list })

unfoldable pub condvar_wait : ThreadId → ℕ → ℕ → Process → Outcome Reply
condvar_wait tid condvar_id mutex_id p = do
  condvar ← primitive p.condvar_list condvar_id
  mutex ← primitive p.mutex_list mutex_id
  ((flag, waking_tid), condvar', mutex') ← Condvar.wait_with_mutex tid condvar mutex
  ok (
    if flag then pos 0 else negsuc 0,
    waking_tid,
    record p {
      condvar_list = set_at condvar_id (some condvar') p.condvar_list;
      mutex_list = set_at mutex_id (some mutex') p.mutex_list;
      mutex_allocations = deallocate tid mutex_id p.mutex_allocations;
    },
  )

unfoldable pub enable_deadlock_detect : ℤ → Process → Reply
enable_deadlock_detect is_enable p = (
  pos 0,
  none,
  record p {
    is_deadlock_detect_enabled = elim is_enable [ pos n ↦ not (n == 0) | negsuc n ↦ true ];
  },
)
