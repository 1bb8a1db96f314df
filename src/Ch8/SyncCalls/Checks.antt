-- ===== src/Ch8/SyncCalls/Checks.antt =====
-- The deadlock check before a locking call of tg-rcore-tutorial-ch8/src/main.rs, and what the check
-- shows of a process whose tables are right.
use tg_rcore_tutorial.Prelude.{
  ℕ, ◌<◌, ◌≡◌, refl, ◌⊎◌, inl, inr, Bool, true, false, Bool-cases, Option, none, some, List, length,
  get_elem?, arith, Outcome, ok, panic,
}
use tg_rcore_tutorial.Prelude.Assoc.{contains-keys}
use tg_rcore_tutorial.Ch8.Process.{Process}
use tg_rcore_tutorial.Ch8.Deadlock.{check_deadlock, all_tids}
use tg_rcore_tutorial.Ch8.Deadlock.Completes.{mutex, semaphore}
use tg_rcore_tutorial.Ch8.Deadlock.Rows.{takes_part}
use tg_rcore_tutorial.Ch8.Deadlock.Check.{free_of, claim_of, check_deadlock_lem}
use tg_rcore_tutorial.Ch8.Deadlock.Safe.{IsSafe, IsIdle}
use tg_rcore_tutorial.Ch8.SyncCalls.{Reply, would_deadlock, primitive, guarded}
use tg_rcore_tutorial.Ch8.SyncCalls.Reflects.{
  Reflects, claim_now, AllBelow-mutexes, AllBelow-semaphores,
}

-- The tables are right, and all threads can finish.
abbrev pub Good : Process → Type 0
Good p = Reflects p × IsSafe (free_of p) (claim_now p)

-- A check that finds no deadlock shows that all threads can finish, the request granted.
pub check-IsSafe :
    (tid : ℕ) (req_mutex req_sem : Option ℕ) (p : Process)
    → Reflects p
    → ((i : ℕ) → req_mutex ≡ some i → i < length p.mutex_list)
    → ((i : ℕ) → req_sem ≡ some i → i < length p.semaphore_list)
    → check_deadlock tid req_mutex req_sem p ≡ ok false
    → IsSafe (free_of p) (claim_of tid req_mutex req_sem p)
check-IsSafe tid req_mutex req_sem p ref hm hs e =
    let (dead, run, counts, iff) =
      check_deadlock_lem tid req_mutex req_sem p (AllBelow-mutexes p req_mutex ref hm)
        (AllBelow-semaphores p req_sem ref hs) in
    (
      all_tids tid p,
      (
        λ t. ground (arith, counts t),
        λ t. elim (Bool-cases (takes_part tid p t)) [
          | inl part ↦ inl (ground (arith, counts t, part))
          | inr rest ↦ inr (idle t rest)
        ],
      ),
      iff.0 (ground (arith, run, e)),
    )
  where
    idle : (t : ℕ) → takes_part tid p t ≡ false → IsIdle (claim_of tid req_mutex req_sem p t)
    idle t rest (mutex i) = (
      ground (arith, rest, contains-keys t p.mutex_allocations),
      ground (arith, rest, contains-keys t p.mutex_requests),
    )
    idle t rest (semaphore i) = (
      ground (arith, rest, contains-keys t p.sem_allocations),
      ground (arith, rest, contains-keys t p.sem_requests),
    )

pub guarded-cases :
    (check : Outcome Bool) (p : Process) (call : Outcome Reply) (reply : Reply)
    → p.is_deadlock_detect_enabled ≡ true
    → guarded check p call ≡ ok reply
    → (reply ≡ (would_deadlock, none, p)) ⊎ ((check ≡ ok false) × (call ≡ ok reply))
unfolding guarded
guarded-cases panic p call reply on e = absurd (ground (arith, on, e))
guarded-cases (ok true) p call reply on e = inl (ground (arith, on, e))
guarded-cases (ok false) p call reply on e = inr (refl, ground (arith, on, e))

pub primitive-ok {ℓ} :
    {A : Type ℓ} (items : List (Option A)) (i : ℕ)
    → (primitive items i ≡ panic)
      ⊎ ((a : A) × (primitive items i ≡ ok a) × (get_elem? items i ≡ some (some a)))
unfolding primitive
primitive-ok items i = from (get_elem? items i) refl
  where
    from :
        (o : Option (Option _))
        → get_elem? items i ≡ o
        → (primitive items i ≡ panic)
          ⊎ ((a : _) × (primitive items i ≡ ok a) × (get_elem? items i ≡ some (some a)))
    from none e = inl (rw (e, primitive) refl)
    from (some none) e = inl (rw (e, primitive) refl)
    from (some (some a)) e = inr (a, rw (e, primitive) refl, e)
