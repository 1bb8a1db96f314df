-- ===== src/Ch8/Process.antt =====
-- tg-rcore-tutorial-ch8/src/process.rs: the part of a process that its threads synchronise by.
use tg_rcore_tutorial.Prelude.{ℕ, Bool, false, Option, List, []}
use tg_rcore_tutorial.Sync.Mutex.{MutexBlocking}
use tg_rcore_tutorial.Sync.Semaphore.{Semaphore}
use tg_rcore_tutorial.Sync.Condvar.{Condvar}

-- Every `Arc` of a primitive is one of these list entries. The tables go from a thread to the ids
-- that it holds, or to the one that it waits for.
pub record Process : Type 0 where
  pub semaphore_list : List (Option Semaphore)
  pub mutex_list : List (Option MutexBlocking)
  pub condvar_list : List (Option Condvar)
  pub is_deadlock_detect_enabled : Bool
  pub mutex_allocations : List (ℕ × List ℕ)
  pub sem_allocations : List (ℕ × List ℕ)
  pub mutex_requests : List (ℕ × ℕ)
  pub sem_requests : List (ℕ × ℕ)

-- Of a process that `fork` or `from_elf` makes.
unfoldable pub new : Process
new = record {
  semaphore_list = [];
  mutex_list = [];
  condvar_list = [];
  is_deadlock_detect_enabled = false;
  mutex_allocations = [];
  sem_allocations = [];
  mutex_requests = [];
  sem_requests = [];
}
