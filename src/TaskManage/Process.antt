-- ===== src/TaskManage/Process.antt =====
-- tg-rcore-tutorial-task-manage/src/proc_manage.rs: `PManager`, the processes and their tree.
pub mod Tree
pub mod Adopt
pub mod Exit
pub mod Valid
pub mod Add
pub mod Steps
pub mod Reap
pub mod History
use tg_rcore_tutorial.Prelude.{
  ℕ, ◌≡◌, ◌==◌, if◌then◌else◌, Option, none, some, List, [], ◌∷◌, Outcome, ok, panic, ◌>>=◌, ◌>>◌,
  unwrap, Bool, true, false,
}
use tg_rcore_tutorial.Prelude.Map
use tg_rcore_tutorial.Prelude.Map.{Map}
use tg_rcore_tutorial.Prelude.Int.{ℤ}
use tg_rcore_tutorial.TaskManage.Manager.{Manager}
use tg_rcore_tutorial.TaskManage.ProcRel
use tg_rcore_tutorial.TaskManage.ProcRel.{
  ProcId, ProcRel, usize_max, add_child, del_child, wait_any_child, wait_child,
}

pub record PManager (MP : Type 0) : Type 0 where
  pub rel_map : Map ProcRel
  pub manager : Option MP
  pub current : Option ProcId

unfoldable pub new : {MP : Type 0} → PManager MP
new = record { rel_map = Map.empty; manager = none; current = none }

unfoldable pub set_manager : {MP : Type 0} → MP → PManager MP → PManager MP
set_manager m s = record s { manager = some m }

-- `if let Some(parent_rel) = self.rel_map.get_mut(&parent_pid) { parent_rel.del_child(..) }`
unfoldable pub notify_parent : ProcId → ProcId → ℤ → Map ProcRel → Map ProcRel
notify_parent parent_pid id exit_code rel = elim (rel parent_pid) [
  | none ↦ rel
  | some parent_rel ↦ Map.insert parent_pid (del_child id exit_code parent_rel) rel
]

-- The loop that hands the children of an exited process to process 0.
unfoldable pub adopt : List ProcId → Map ProcRel → Outcome (Map ProcRel)
adopt [] rel = ok rel
adopt (i ∷ rest) rel = do
  r ← unwrap (rel i)
  let rel' = Map.insert i (record r { parent = 0 }) rel
  root ← unwrap (rel' 0)
  adopt rest (Map.insert 0 (add_child i root) rel')

-- A `&mut` result is the entity that it points to.
module _ {P MP : Type 0} (M : Manager P MP) where
  -- The part of `find_next` behind the fetch.
  pub switch_to : Option ProcId → PManager MP → MP → Option P × PManager MP
  switch_to none s m = (none, record s { manager = some m })
  switch_to (some id) s m = elim (M.get_mut id m) [
    | some task ↦ (some task, record s { manager = some m; current = some id })
    | none ↦ (none, record s { manager = some m })
  ]

  unfoldable pub find_next : PManager MP → Outcome (Option P × PManager MP)
  find_next s = do m ← unwrap s.manager; (next, m') ← M.fetch m; ok (switch_to next s m')

  unfoldable pub make_current_suspend : PManager MP → Outcome (PManager MP)
  make_current_suspend s = do
    id ← unwrap s.current
    m ← unwrap s.manager
    ok (record s { manager = some (M.add id m); current = none })

  unfoldable pub make_current_exited : ℤ → PManager MP → Outcome (PManager MP)
  make_current_exited exit_code s = do
    id ← unwrap s.current
    m ← unwrap s.manager
    current_rel ← unwrap (s.rel_map id)
    rel ←
        adopt current_rel.children
          (notify_parent current_rel.parent id exit_code (Map.remove id s.rel_map))
    ok (record { rel_map = rel; manager = some (M.delete id m); current = none })

  unfoldable pub add : ProcId → P → ProcId → PManager MP → Outcome (PManager MP)
  add id task parent s = do
    m ← unwrap s.manager
    rel ←
        (if parent == usize_max then ok s.rel_map else do
          parent_relation ← unwrap (s.rel_map parent)
          ok (Map.insert parent (add_child id parent_relation) s.rel_map))
    ok (record s {
      rel_map = Map.insert id (ProcRel.new parent) rel;
      manager = some (M.add id (M.insert id task m));
    })

  unfoldable pub current : PManager MP → Outcome (Option P)
  current s = do id ← unwrap s.current; m ← unwrap s.manager; ok (M.get_mut id m)

  unfoldable pub get_task : ProcId → PManager MP → Outcome (Option P)
  get_task id s = do m ← unwrap s.manager; ok (M.get_mut id m)

unfoldable pub wait :
    {MP : Type 0} → ProcId → PManager MP → Outcome (Option (ProcId × ℤ) × PManager MP)
wait child_pid s = do
  id ← unwrap s.current
  current_rel ← unwrap (s.rel_map id)
  let answer =
      if child_pid == usize_max
      then wait_any_child current_rel
      else wait_child child_pid current_rel
  ok (answer.0, record s { rel_map = Map.insert id answer.1 s.rel_map })
