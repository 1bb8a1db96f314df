-- ===== src/Ch8/SyncCalls/Calls.antt =====
-- What each locking call of tg-rcore-tutorial-ch8/src/main.rs makes of a process whose tables are
-- right, and whose deadlock detection is on.
use tg_rcore_tutorial.Prelude.{
  ℕ, ◌+◌, ◌^◌, ◌<◌, ◌≡◌, ap, sym, inl, inr, true, false, Bool-cases, Option, none, some, length,
  arith, ok, List-cases, subst,
}
use tg_rcore_tutorial.Prelude.Int.{ℤ}
use tg_rcore_tutorial.Sync.Mutex
use tg_rcore_tutorial.Sync.Mutex.{MutexBlocking}
use tg_rcore_tutorial.Sync.Semaphore
use tg_rcore_tutorial.Sync.Semaphore.{Semaphore, is_negative}
use tg_rcore_tutorial.Sync.Semaphore.Resources.{available}
use tg_rcore_tutorial.Ch8.Process.{Process}
use tg_rcore_tutorial.Ch8.Deadlock.{check_deadlock}
use tg_rcore_tutorial.Ch8.SyncCalls.{
  take_mutex, mutex_lock, mutex_unlock, take_semaphore, semaphore_down, semaphore_up,
}
use tg_rcore_tutorial.Ch8.SyncCalls.Tables.{holds, get_elem?-lt}
use tg_rcore_tutorial.Ch8.SyncCalls.Reflects.{Reflects, sem_at, sem_or, IsRunning}
use tg_rcore_tutorial.Ch8.SyncCalls.Locks
use tg_rcore_tutorial.Ch8.SyncCalls.Unlocks
use tg_rcore_tutorial.Ch8.SyncCalls.Downs
use tg_rcore_tutorial.Ch8.SyncCalls.Ups
use tg_rcore_tutorial.Ch8.SyncCalls.Checks.{Good, check-IsSafe, guarded-cases, primitive-ok}

-- What every call keeps.
abbrev pub Kept : Process → Type 0
Kept p = Good p × (p.is_deadlock_detect_enabled ≡ true)

module _ (p p' : Process) (tid i : ℕ) (r : ℤ) (o : Option ℕ) (kept : Kept p)
    (running : IsRunning p tid) where
  ref : Reflects p
  ref = kept.0.0

  take_mutex-Kept :
      take_mutex tid i p ≡ ok (r, o, p') → check_deadlock tid (some i) none p ≡ ok false → Kept p'
  unfolding take_mutex Mutex.lock
  take_mutex-Kept call free = elim (primitive-ok p.mutex_list i) [
    | inl stop ↦ absurd (ground (arith, call, stop))
    | inr (m, run, at) ↦
        let below = get_elem?-lt i p.mutex_list (some m) at in
        let safe =
          check-IsSafe tid (some i) none p ref (λ j f. ground (arith, below)) (λ j f. cc) free in
        elim (Bool-cases m.locked) [
          | inl taken ↦
              let q : Locks.waits p ref tid i m at ≡ p' = ground (arith, call, run, taken) in
              subst Kept q (
                (
                  Locks.waits-Reflects p ref tid i m at taken running,
                  Locks.waits-IsSafe p ref tid i m at taken running safe,
                ),
                kept.1,
              )
          | inr untaken ↦
              let q : Locks.granted p ref tid i m at ≡ p' = ground (arith, call, run, untaken) in
              subst Kept q (
                (
                  Locks.granted-Reflects p ref tid i m at untaken,
                  Locks.granted-IsSafe p ref tid i m at untaken running safe,
                ),
                kept.1,
              )
        ]
  ]

  pub mutex_lock-Kept : mutex_lock tid i p ≡ ok (r, o, p') → Kept p'
  unfolding mutex_lock
  mutex_lock-Kept e = elim (guarded-cases _ p (take_mutex tid i p) (r, o, p') kept.1 e) [
    | inl same ↦ subst Kept (ap (λ x. x.2) (sym same)) kept
    | inr (free, call) ↦ take_mutex-Kept call free
  ]

  pub mutex_unlock-Kept :
      0 < holds tid i p.mutex_allocations → mutex_unlock tid i p ≡ ok (r, o, p') → Kept p'
  unfolding mutex_unlock Mutex.unlock
  mutex_unlock-Kept held e = elim (primitive-ok p.mutex_list i) [
    | inl stop ↦ absurd (ground (arith, e, stop))
    | inr (m, run, at) ↦
        let taken = Unlocks.held-locked p ref tid i m at held in
        elim (List-cases m.wait_queue) [
          | inl nobody ↦
              let q : Unlocks.freed p ref tid i m at ≡ p' = ground (arith, e, run, taken, nobody) in
              subst Kept q (
                (
                  Unlocks.freed-Reflects p ref tid i m at held nobody,
                  Unlocks.freed-IsSafe p ref tid i m at held nobody running kept.0.1,
                ),
                kept.1,
              )
          | inr (w, rest, first) ↦
              let q : Unlocks.handed p ref tid i m at w rest first held ≡ p' =
                ground (arith, e, run, taken, first) in
              subst Kept q (
                (
                  Unlocks.handed-Reflects p ref tid i m at w rest first held,
                  Unlocks.handed-IsSafe p ref tid i m at w rest first held running kept.0.1,
                ),
                kept.1,
              )
        ]
  ]

  take_semaphore-Kept :
      length (sem_at p i).wait_queue < 2 ^ 63
      → take_semaphore tid i p ≡ ok (r, o, p')
      → check_deadlock tid none (some i) p ≡ ok false
      → Kept p'
  unfolding take_semaphore Semaphore.down
  take_semaphore-Kept few call free = elim (primitive-ok p.semaphore_list i) [
    | inl stop ↦ absurd (ground (arith, call, stop))
    | inr (s, run, at) ↦
        let below = get_elem?-lt i p.semaphore_list (some s) at in
        let few' : length s.wait_queue < 2 ^ 63 =
          subst (λ x. length x.wait_queue < 2 ^ 63) (ap sem_or at) few in
        let safe =
          check-IsSafe tid none (some i) p ref (λ j f. cc) (λ j f. ground (arith, below)) free in
        elim (Bool-cases (is_negative (Downs.down_count s))) [
          | inl full ↦
              let q : Downs.waits p ref tid i s at ≡ p' = ground (arith, call, run, full) in
              subst Kept q (
                (
                  Downs.waits-Reflects p ref tid i s at full few' running,
                  Downs.waits-IsSafe p ref tid i s at full few' running safe,
                ),
                kept.1,
              )
          | inr got ↦
              let q : Downs.taken p ref tid i s at ≡ p' = ground (arith, call, run, got) in
              subst Kept q (
                (
                  Downs.taken-Reflects p ref tid i s at got few',
                  Downs.taken-IsSafe p ref tid i s at got few' running safe,
                ),
                kept.1,
              )
        ]
  ]

  pub semaphore_down-Kept :
      length (sem_at p i).wait_queue < 2 ^ 63 → semaphore_down tid i p ≡ ok (r, o, p') → Kept p'
  unfolding semaphore_down
  semaphore_down-Kept few e =
      elim (guarded-cases _ p (take_semaphore tid i p) (r, o, p') kept.1 e) [
        | inl same ↦ subst Kept (ap (λ x. x.2) (sym same)) kept
        | inr (free, call) ↦ take_semaphore-Kept few call free
      ]

  pub semaphore_up-Kept :
      available (sem_at p i) + 1 < 2 ^ 63 → semaphore_up tid i p ≡ ok (r, o, p') → Kept p'
  unfolding semaphore_up Semaphore.up
  semaphore_up-Kept few e = elim (primitive-ok p.semaphore_list i) [
    | inl stop ↦ absurd (ground (arith, e, stop))
    | inr (s, run, at) ↦
        let few' : available s + 1 < 2 ^ 63 =
          subst (λ x. available x + 1 < 2 ^ 63) (ap sem_or at) few in
        elim (List-cases s.wait_queue) [
          | inl nobody ↦
              let q : Ups.freed p ref tid i s at nobody few' ≡ p' =
                ground (arith, e, run, nobody) in
              subst Kept q (
                (
                  Ups.freed-Reflects p ref tid i s at nobody few',
                  Ups.freed-IsSafe p ref tid i s at nobody few' running kept.0.1,
                ),
                kept.1,
              )
          | inr (w, rest, first) ↦
              let q : Ups.handed p ref tid i s at w rest first ≡ p' =
                ground (arith, e, run, first) in
              subst Kept q (
                (
                  Ups.handed-Reflects p ref tid i s at w rest first,
                  Ups.handed-IsSafe p ref tid i s at w rest first running kept.0.1,
                ),
                kept.1,
              )
        ]
  ]
