-- ===== src/TaskManage/Threads/Valid.antt =====
-- `PThreadManager` (thread_manager.rs) between calls.
use tg_rcore_tutorial.Prelude.{
  ℕ, ◌≡◌, ◌==◌, if◌then◌else◌, Option, none, some, true, count, is_some,
}
use tg_rcore_tutorial.TaskManage.Manager.{Manager, Store}
use tg_rcore_tutorial.TaskManage.ProcRel.{ProcId}
use tg_rcore_tutorial.TaskManage.ProcThreadRel.{ThreadId}
use tg_rcore_tutorial.TaskManage.Process.Tree.{IsTree}
use tg_rcore_tutorial.TaskManage.Threads.{PThreadManager}
use tg_rcore_tutorial.TaskManage.Threads.Families.{families, threads_of}

-- 1 where the thread belongs to the process, else 0.
abbrev pub belongs : ProcId → Option ProcId → ℕ
belongs pid none = 0
belongs pid (some q) = if q == pid then 1 else 0

-- The processes form a tree; the two containers hold an entity for exactly the processes of the
-- tree and the threads that belong to one; a process lists, each once, the threads that belong to
-- it; and the current thread, if any, belongs to one.
pub record IsValid {T P MT MP : Type 0} (M : Manager T MT) (S : Store P MP)
    (s : PThreadManager MT MP) : Type 0 where
  pub tree : IsTree (families s.rel_map)
  pub stored :
      (m : MP) × (s.proc_manager ≡ some m)
      × ((j : ProcId) → is_some (S.get_mut j m) ≡ is_some (s.rel_map j))
  pub managed :
      (m : MT) × (s.manager ≡ some m)
      × ((t : ThreadId) → is_some (M.get_mut t m) ≡ is_some (s.tid2pid t))
  pub listed : (pid t : ℕ) → count t (threads_of (s.rel_map pid)) ≡ belongs pid (s.tid2pid t)
  pub running : (t : ThreadId) → s.current ≡ some t → is_some (s.tid2pid t) ≡ true
