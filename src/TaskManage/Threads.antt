-- ===== src/TaskManage/Threads.antt =====
-- tg-rcore-tutorial-task-manage/src/thread_manager.rs: `PThreadManager`, the processes with their
-- tree, and the threads with the process that each belongs to.
pub mod Families
pub mod Valid
pub mod Bereaved
pub mod Exit
pub mod Steps
pub mod Schedule
pub mod History
mod Tests
use tg_rcore_tutorial.Prelude.{
  ℕ, ◌==◌, if◌then◌else◌, Option, none, some, List, [], ◌∷◌, length, Outcome, ok, panic, ◌>>=◌,
  unwrap, is_empty, Bool, true, false,
}
use tg_rcore_tutorial.Prelude.Map
use tg_rcore_tutorial.Prelude.Map.{Map}
use tg_rcore_tutorial.Prelude.Int.{ℤ}
use tg_rcore_tutorial.TaskManage.Manager.{Manager, Store}
use tg_rcore_tutorial.TaskManage.ProcRel.{ProcId, usize_max}
use tg_rcore_tutorial.TaskManage.ProcThreadRel
use tg_rcore_tutorial.TaskManage.ProcThreadRel.{
  ThreadId, ProcThreadRel, add_child, del_child, wait_any_child, wait_child, add_thread, del_thread,
  wait_thread,
}

pub record PThreadManager (MT MP : Type 0) : Type 0 where
  pub rel_map : Map ProcThreadRel
  pub proc_manager : Option MP
  pub tid2pid : Map ProcId
  pub manager : Option MT
  pub current : Option ThreadId

unfoldable pub new : {MT MP : Type 0} → PThreadManager MT MP
new = record {
  rel_map = Map.empty;
  proc_manager = none;
  tid2pid = Map.empty;
  manager = none;
  current = none;
}

unfoldable pub set_manager : {MT MP : Type 0} → MT → PThreadManager MT MP → PThreadManager MT MP
set_manager m s = record s { manager = some m }

unfoldable pub set_proc_manager :
    {MT MP : Type 0} → MP → PThreadManager MT MP → PThreadManager MT MP
set_proc_manager m s = record s { proc_manager = some m }

-- `if let Some(rel) = self.rel_map.get_mut(&pid) { f(rel) }`
unfoldable pub update :
    ProcId → (ProcThreadRel → ProcThreadRel) → Map ProcThreadRel → Map ProcThreadRel
update pid f rel = elim (rel pid) [ none ↦ rel | some r ↦ Map.insert pid (f r) rel ]

-- The loop that hands the children of a process that has ended to process 0.
unfoldable pub adopt : List ProcId → Map ProcThreadRel → Outcome (Map ProcThreadRel)
adopt [] rel = ok rel
adopt (i ∷ rest) rel = do
  r ← unwrap (rel i)
  let rel' = Map.insert i (record r { parent = 0 }) rel
  root ← unwrap (rel' 0)
  adopt rest (Map.insert 0 (add_child i root) rel')

-- Whether the process has an entry, and no thread in it.
unfoldable pub is_deserted : Option ProcThreadRel → Bool
is_deserted none = false
is_deserted (some r) = is_empty r.threads

-- A `&mut` result is the entity that it points to.
module _ {T P MT MP : Type 0} (M : Manager T MT) (S : Store P MP) where
  pub switch_to : Option ThreadId → PThreadManager MT MP → MT → Option T × PThreadManager MT MP
  switch_to none s m = (none, record s { manager = some m })
  switch_to (some id) s m = elim (M.get_mut id m) [
    | some task ↦ (some task, record s { manager = some m; current = some id })
    | none ↦ (none, record s { manager = some m })
  ]

  unfoldable pub find_next : PThreadManager MT MP → Outcome (Option T × PThreadManager MT MP)
  find_next s = do m ← unwrap s.manager; (next, m') ← M.fetch m; ok (switch_to next s m')

  unfoldable pub make_current_suspend : PThreadManager MT MP → Outcome (PThreadManager MT MP)
  make_current_suspend s = elim s.current [
    | none ↦ ok s
    | some id ↦
        unwrap s.manager >>= λ m. ok (record s { manager = some (M.add id m); current = none })
  ]

  unfoldable pub del_proc : ProcId → ℤ → PThreadManager MT MP → Outcome (PThreadManager MT MP)
  del_proc id exit_code s = do
    m ← unwrap s.proc_manager
    current_rel ← unwrap (s.rel_map id)
    rel ←
        adopt current_rel.children
          (update current_rel.parent (del_child id exit_code) (Map.remove id s.rel_map))
    ok (record s { rel_map = rel; proc_manager = some (S.delete id m) })

  -- `make_current_exited` of the thread `id`.
  unfoldable pub exit_thread : ThreadId → ℤ → PThreadManager MT MP → Outcome (PThreadManager MT MP)
  exit_thread id exit_code s = do
    m ← unwrap s.manager
    pid ← unwrap (s.tid2pid id)
    let rel = update pid (del_thread id exit_code) s.rel_map
    let s' = record s {
      manager = some (M.delete id m);
      tid2pid = Map.remove id s.tid2pid;
      rel_map = rel;
    }
    t ← (if is_deserted (rel pid) then del_proc pid exit_code s' else ok s')
    ok (record t { current = none })

  unfoldable pub make_current_exited : ℤ → PThreadManager MT MP → Outcome (PThreadManager MT MP)
  make_current_exited exit_code s = elim s.current [
    | none ↦ ok s
    | some id ↦ exit_thread id exit_code s
  ]

  unfoldable pub make_current_blocked : PThreadManager MT MP → PThreadManager MT MP
  make_current_blocked s = elim s.current [ none ↦ s | some id ↦ record s { current = none } ]

  unfoldable pub re_enque : ThreadId → PThreadManager MT MP → Outcome (PThreadManager MT MP)
  re_enque id s = do m ← unwrap s.manager; ok (record s { manager = some (M.add id m) })

  unfoldable pub add : ThreadId → T → ProcId → PThreadManager MT MP → Outcome (PThreadManager MT MP)
  add id task pid s = do
    m ← unwrap s.manager
    let s' = record s { manager = some (M.add id (M.insert id task m)) }
    ok (elim (s.rel_map pid) [
      | none ↦ s'
      | some r ↦ record s' {
        rel_map = Map.insert pid (add_thread id r) s.rel_map;
        tid2pid = Map.insert id pid s.tid2pid;
      }
    ])

  unfoldable pub current : PThreadManager MT MP → Outcome (Option T)
  current s = do id ← unwrap s.current; m ← unwrap s.manager; ok (M.get_mut id m)

  unfoldable pub get_task : ThreadId → PThreadManager MT MP → Outcome (Option T)
  get_task id s = do m ← unwrap s.manager; ok (M.get_mut id m)

  unfoldable pub add_proc :
      ProcId → P → ProcId → PThreadManager MT MP → Outcome (PThreadManager MT MP)
  add_proc id proc parent s = do
    m ← unwrap s.proc_manager
    ok (record s {
      proc_manager = some (S.insert id proc m);
      rel_map = Map.insert id (ProcThreadRel.new parent) (update parent (add_child id) s.rel_map);
    })

  unfoldable pub get_proc : ProcId → PThreadManager MT MP → Outcome (Option P)
  get_proc id s = do m ← unwrap s.proc_manager; ok (S.get_mut id m)

  unfoldable pub get_current_proc : PThreadManager MT MP → Outcome (Option P)
  get_current_proc s = elim s.current [
    | none ↦ ok none
    | some id ↦ unwrap (s.tid2pid id) >>= λ pid. unwrap s.proc_manager >>= λ m. ok (S.get_mut pid m)
  ]

-- The entry of the process of the current thread, with its pid.
unfoldable pub current_rel :
    {MT MP : Type 0} → PThreadManager MT MP → Outcome (ProcId × ProcThreadRel)
current_rel s = do
  id ← unwrap s.current
  pid ← unwrap (s.tid2pid id)
  r ← unwrap (s.rel_map pid)
  ok (pid, r)

unfoldable pub wait :
    {MT MP : Type 0}
    → ProcId
    → PThreadManager MT MP
    → Outcome (Option (ProcId × ℤ) × PThreadManager MT MP)
wait child_pid s = do
  (pid, r) ← current_rel s
  let answer = if child_pid == usize_max then wait_any_child r else wait_child child_pid r
  ok (answer.0, record s { rel_map = Map.insert pid answer.1 s.rel_map })

unfoldable pub waittid :
    {MT MP : Type 0} → ThreadId → PThreadManager MT MP → Outcome (Option ℤ × PThreadManager MT MP)
waittid thread_tid s = do
  (pid, r) ← current_rel s
  let answer = wait_thread thread_tid r
  ok (answer.0, record s { rel_map = Map.insert pid answer.1 s.rel_map })

unfoldable pub thread_count : {MT MP : Type 0} → ProcId → PThreadManager MT MP → Outcome ℕ
thread_count id s = do r ← unwrap (s.rel_map id); ok (length r.threads)

unfoldable pub get_thread :
    {MT MP : Type 0} → ProcId → PThreadManager MT MP → Option (List ThreadId)
get_thread id s = elim (s.rel_map id) [ none ↦ none | some r ↦ some r.threads ]
