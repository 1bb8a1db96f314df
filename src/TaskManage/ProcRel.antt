-- ===== src/TaskManage/ProcRel.antt =====
-- tg-rcore-tutorial-task-manage/src/proc_rel.rs: what a process knows of its parent and children.
pub mod Waits
use tg_rcore_tutorial.Prelude.{
  ℕ, ◌-◌, ◌^◌, ◌==◌, if◌then◌else◌, Option, none, some, List, [], ◌∷◌, ◌++◌, extract, pop_back,
  is_empty,
}
use tg_rcore_tutorial.Prelude.Int.{ℤ, negsuc}

-- `ProcId` and `ThreadId` are newtypes of `usize`.
abbrev pub ProcId : Type 0
ProcId = ℕ

-- `usize::MAX`: "any child" in a wait, "no parent" in an add.
abbrev pub usize_max : ℕ
usize_max = 2 ^ 64 - 1

-- `(ProcId::from_usize(-2 as _), -1)`: there are such children, and none of them has exited.
abbrev pub still_running : ProcId × ℤ
still_running = (2 ^ 64 - 2, negsuc 0)

pub record ProcRel : Type 0 where
  pub parent : ProcId
  pub children : List ProcId
  pub dead_children : List (ProcId × ℤ)

unfoldable pub new : ProcId → ProcRel
new parent_pid = record { parent = parent_pid; children = []; dead_children = [] }

unfoldable pub add_child : ProcId → ProcRel → ProcRel
add_child child_pid r = record r { children = r.children ++ child_pid ∷ [] }

unfoldable pub del_child : ProcId → ℤ → ProcRel → ProcRel
del_child child_pid exit_code r = elim (extract (λ id. id == child_pid) r.children) [
  | none ↦ r
  | some (dead_child, rest) ↦ record r {
    children = rest;
    dead_children = r.dead_children ++ (dead_child, exit_code) ∷ [];
  }
]

unfoldable pub wait_any_child : ProcRel → Option (ProcId × ℤ) × ProcRel
wait_any_child r =
    if is_empty r.dead_children
    then if is_empty r.children then (none, r) else (some still_running, r)
    else elim (pop_back r.dead_children) [
      | none ↦ (none, r)
      | some (d, rest) ↦ (some d, record r { dead_children = rest })
    ]

unfoldable pub wait_child : ProcId → ProcRel → Option (ProcId × ℤ) × ProcRel
wait_child child_pid r = elim (extract (λ d. d.0 == child_pid) r.dead_children) [
  | some (d, rest) ↦ (some d, record r { dead_children = rest })
  | none ↦ elim (extract (λ id. id == child_pid) r.children) [
    | some _ ↦ (some still_running, r)
    | none ↦ (none, r)
  ]
]
