-- ===== src/Ch8/SyncCalls/NoDeadlock.antt =====
-- Histories of the locking calls of tg-rcore-tutorial-ch8/src/main.rs with detection on.
use tg_rcore_tutorial.Prelude.{
  ℕ, ◌+◌, ◌^◌, ◌<◌, ◌≤◌, ◌≡◌, refl, ◌⊎◌, inl, inr, Bool, Option, none, some, Option-cases, List, [],
  ◌∷◌, length, count, arith, ok, List-cases, subst,
}
use tg_rcore_tutorial.Prelude.Assoc.{lookup}
use tg_rcore_tutorial.Prelude.Int.{ℤ, pos}
use tg_rcore_tutorial.Sync.Semaphore.Resources.{available}
use tg_rcore_tutorial.Sync.Condvar
use tg_rcore_tutorial.Sync.Condvar.{Condvar}
use tg_rcore_tutorial.Ch8.Process.{Process}
use tg_rcore_tutorial.Ch8.Process
use tg_rcore_tutorial.Ch8.Deadlock.{ids_of}
use tg_rcore_tutorial.Ch8.Deadlock.Completes.{
  Resource, mutex, semaphore, Claim, claims, Completes, done, next,
}
use tg_rcore_tutorial.Ch8.Deadlock.Check.{free_of, held_of, waiting_of}
use tg_rcore_tutorial.Ch8.Deadlock.Safe.{IsSafe, IsIdle, picked}
use tg_rcore_tutorial.Ch8.SyncCalls.{
  set_at, mutex_create, mutex_lock, mutex_unlock, semaphore_create, semaphore_down, semaphore_up,
  condvar_create, condvar_signal, enable_deadlock_detect,
}
use tg_rcore_tutorial.Ch8.SyncCalls.Tables.{holds}
use tg_rcore_tutorial.Ch8.SyncCalls.Reflects.{
  Reflects, sem_at, claim_now, IsRunning, free_mutex, free_semaphore,
}
use tg_rcore_tutorial.Ch8.SyncCalls.Creates.{mutex_create-Reflects, semaphore_create-Reflects}
use tg_rcore_tutorial.Ch8.SyncCalls.Checks.{primitive-ok}
use tg_rcore_tutorial.Ch8.SyncCalls.Calls.{
  Kept, mutex_lock-Kept, mutex_unlock-Kept, semaphore_down-Kept, semaphore_up-Kept,
}

-- A call that returns, made by a thread that does not wait. A mutex is unlocked by a thread that
-- holds it, and the counts of semaphores and their waiters stay below 2^63.
pub data Step (p p' : Process) : Type 0 where
  locks :
      (tid i : ℕ) (r : ℤ) (o : Option ℕ)
      → IsRunning p tid
      → mutex_lock tid i p ≡ ok (r, o, p')
      → Step p p'
  unlocks :
      (tid i : ℕ) (r : ℤ) (o : Option ℕ)
      → IsRunning p tid
      → 0 < holds tid i p.mutex_allocations
      → mutex_unlock tid i p ≡ ok (r, o, p')
      → Step p p'
  downs :
      (tid i : ℕ) (r : ℤ) (o : Option ℕ)
      → IsRunning p tid
      → length (sem_at p i).wait_queue < 2 ^ 63
      → semaphore_down tid i p ≡ ok (r, o, p')
      → Step p p'
  ups :
      (tid i : ℕ) (r : ℤ) (o : Option ℕ)
      → IsRunning p tid
      → available (sem_at p i) + 1 < 2 ^ 63
      → semaphore_up tid i p ≡ ok (r, o, p')
      → Step p p'
  creates_mutex : (blocking : Bool) → (mutex_create blocking p).2 ≡ p' → Step p p'
  creates_semaphore : (n : ℕ) → n < 2 ^ 63 → (semaphore_create n p).2 ≡ p' → Step p p'
  creates_condvar : (condvar_create p).2 ≡ p' → Step p p'
  signals : (i : ℕ) (r : ℤ) (o : Option ℕ) → condvar_signal i p ≡ ok (r, o, p') → Step p p'

pub data Reach (p : Process) : Process → Type 0 where
  here : Reach p p
  more : {q q' : Process} → Reach p q → Step q q' → Reach p q'

condvars-Kept :
    (p : Process) (cs : List (Option Condvar)) → Kept p → Kept (record p { condvar_list = cs })
condvars-Kept p cs ((ref, safe), on) = (
  (
    record {
      sorted = ref.sorted;
      held = ref.held;
      mutex_queue = ref.mutex_queue;
      mutex_valid = ref.mutex_valid;
      sem_queue = ref.sem_queue;
      sem_valid = ref.sem_valid;
      sem_range = ref.sem_range;
      one_wait = ref.one_wait;
    },
    safe,
  ),
  on,
)

Step-Kept : (p p' : Process) → Step p p' → Kept p → Kept p'
unfolding mutex_create semaphore_create condvar_create condvar_signal
Step-Kept p p' (locks tid i r o run e) k = mutex_lock-Kept p p' tid i r o k run e
Step-Kept p p' (unlocks tid i r o run held e) k = mutex_unlock-Kept p p' tid i r o k run held e
Step-Kept p p' (downs tid i r o run few e) k = semaphore_down-Kept p p' tid i r o k run few e
Step-Kept p p' (ups tid i r o run few e) k = semaphore_up-Kept p p' tid i r o k run few e
Step-Kept p p' (creates_mutex blocking e) ((ref, safe), on) =
    subst Kept e (mutex_create-Reflects p ref safe blocking, on)
Step-Kept p p' (creates_semaphore n lt e) ((ref, safe), on) =
    subst Kept e (semaphore_create-Reflects p ref safe n lt, on)
Step-Kept p p' (creates_condvar e) k = subst Kept e (condvars-Kept p _ k)
Step-Kept p p' (signals i r o e) k = elim (primitive-ok p.condvar_list i) [
  | inl stop ↦ absurd (ground (arith, e, stop))
  | inr (c, run, at) ↦
      let cs = set_at i (some (Condvar.signal c).1) p.condvar_list in
      let q : record p { condvar_list = cs } ≡ p' = ground (arith, e, run) in
      subst Kept q (condvars-Kept p cs k)
]

-- A new process that has switched the detection on.
abbrev pub start : Process
start = (enable_deadlock_detect (pos 1) Process.new).2

start-Kept : Kept start
unfolding enable_deadlock_detect Process.new
start-Kept = (
  (
    record {
      sorted = tt;
      held = λ i. refl;
      mutex_queue = λ i t. refl;
      mutex_valid = λ i. inr refl;
      sem_queue = λ i t. refl;
      sem_valid = λ i. inl (omega arith, refl);
      sem_range = λ t i le. refl;
      one_wait = λ t. inl refl;
    },
    ([], (λ t. omega arith, λ t. inr (start_idle t)), done refl),
  ),
  refl,
)
  where
    start_idle : (t : ℕ) → IsIdle (claim_now start t)
    start_idle t (mutex i) = (refl, refl)
    start_idle t (semaphore i) = (refl, refl)

Reach-Kept : {p : Process} → Reach start p → Kept p
Reach-Kept here = start-Kept
Reach-Kept (more r st) = Step-Kept _ _ st (Reach-Kept r)

-- A thread either waits for something that is not free, or holds something, or is idle.
data Stance (p : Process) (t : ℕ) : Type 0 where
  blocked : (r : Resource) → free_of p r ≡ 0 → waiting_of p t r ≡ 1 → Stance p t
  holding : (r : Resource) → IsRunning p t → 0 < held_of p t r → Stance p t
  idle : IsRunning p t → IsIdle (claim_now p t) → Stance p t

stance : (p : Process) (t : ℕ) → Reflects p → Stance p t
stance p t ref = elim (Option-cases (lookup t p.mutex_requests)) [
  | inr (i, e) ↦
      blocked (mutex i)
        (ground (arith, free_mutex p i ref, ref.mutex_queue i t, ref.mutex_valid i, e))
        (ground (arith, e))
  | inl e ↦ elim (Option-cases (lookup t p.sem_requests)) [
    | inr (i, f) ↦
        blocked (semaphore i)
          (ground (arith, free_semaphore p i, ref.sem_queue i t, ref.sem_valid i, f))
          (ground (arith, f))
    | inl f ↦ elim (List-cases (ids_of (lookup t p.mutex_allocations))) [
      | inr (i, ids, g) ↦ holding (mutex i) (e, f) (ground (arith, g))
      | inl g ↦ elim (List-cases (ids_of (lookup t p.sem_allocations))) [
        | inr (i, ids, h) ↦ holding (semaphore i) (e, f) (ground (arith, h))
        | inl h ↦ idle (e, f) (nothing e f g h)
      ]
    ]
  ]
]
  where
    nothing :
        lookup t p.mutex_requests ≡ none
        → lookup t p.sem_requests ≡ none
        → ids_of (lookup t p.mutex_allocations) ≡ []
        → ids_of (lookup t p.sem_allocations) ≡ []
        → IsIdle (claim_now p t)
    nothing e f g h (mutex i) = (ground (arith, g), ground (arith, e))
    nothing e f g h (semaphore i) = (ground (arith, h), ground (arith, f))

-- Where all can finish and one waits, one that does not wait holds something.
someone_runs :
    (p : Process) (ref : Reflects p) {free : Resource → ℕ} {cs : List Claim}
    → Completes free cs
    → (ts : List ℕ) → cs ≡ claims (claim_now p) ts
    → ((r : Resource) → free r ≤ free_of p r)
    → (w : ℕ) (r : Resource) → 0 < count w ts
    → waiting_of p w r ≡ 1
    → (t : ℕ) × (r' : Resource) × IsRunning p t × (0 < held_of p t r')
someone_runs p ref (done e) [] same le w r lt waits = absurd (omega arith)
someone_runs p ref (done e) (t ∷ ts) same le w r lt waits = cc
someone_runs p ref (next c rest pick fits later) ts same le w r lt waits =
    let (t, ts', same_c, same_rest, counts) = picked (claim_now p) pick ts same in
    elim (stance p t ref) [
      | blocked r' none_free asks ↦ absurd (ground (arith, fits r', le r', none_free, asks, same_c))
      | holding r' runs holds ↦ (t, r', runs, holds)
      | idle runs i ↦
          someone_runs p ref later ts' same_rest (λ x. ground (arith, le x, i x, same_c)) w r
            (ground (arith, counts w, i r)) waits
    ]

-- A new process switches deadlock detection on. However its threads then create primitives, lock,
-- unlock, take and give back, and signal, as long as every call is made by a thread that does
-- not wait, mutexes are unlocked by a thread that holds them, and the counts of semaphores stay
-- below 2^63: the threads can always all finish in some order, and whenever a thread waits, a thread
-- that does not wait holds something.
pub no_deadlock :
    (p : Process)
    → Reach start p
    → IsSafe (free_of p) (claim_now p)
      × ((w : ℕ)
          → (IsRunning p w) ⊎ ((t : ℕ) × (r : Resource) × IsRunning p t × (0 < held_of p t r)))
no_deadlock p reach =
    let ((ref, safe), on) = Reach-Kept reach in
    let (ts, cover, all) = safe in
    (
      safe,
      λ w. elim (stance p w ref) [
        | blocked r none_free waits ↦ inr (
            someone_runs p ref all ts refl (λ x. omega arith) w r
              (elim (cover.1 w) [
                | inl e ↦ omega arith
                | inr i ↦ absurd (ground (arith, i r, waits))
              ])
              waits)
        | holding r runs holds ↦ inl runs
        | idle runs i ↦ inl runs
      ],
    )
