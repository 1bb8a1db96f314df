-- ===== src/TaskManage/ProcThreadRel.antt =====
-- tg-rcore-tutorial-task-manage/src/proc_thread_rel.rs: what a process with threads knows of its
-- parent, its children and its threads. For children the code is that of proc_rel.rs.
pub mod WaitThread
use tg_rcore_tutorial.Prelude.{ℕ, ◌==◌, Option, none, some, List, [], ◌∷◌, ◌++◌, extract}
use tg_rcore_tutorial.Prelude.Int.{ℤ, negsuc}
use tg_rcore_tutorial.TaskManage.ProcRel
use tg_rcore_tutorial.TaskManage.ProcRel.{ProcId, ProcRel}

abbrev pub ThreadId : Type 0
ThreadId = ℕ

pub record ProcThreadRel : Type 0 where
  pub parent : ProcId
  pub children : List ProcId
  pub dead_children : List (ProcId × ℤ)
  pub threads : List ThreadId
  pub dead_threads : List (ThreadId × ℤ)

-- The fields that `ProcRel` has too, and an update of them.
abbrev pub family : ProcThreadRel → ProcRel
family r = record { parent = r.parent; children = r.children; dead_children = r.dead_children }

abbrev pub with_family : ProcRel → ProcThreadRel → ProcThreadRel
with_family f r = record r {
  parent = f.parent;
  children = f.children;
  dead_children = f.dead_children;
}

unfoldable pub new : ProcId → ProcThreadRel
new parent_pid = record {
  parent = parent_pid;
  children = [];
  dead_children = [];
  threads = [];
  dead_threads = [];
}

unfoldable pub add_child : ProcId → ProcThreadRel → ProcThreadRel
add_child child_pid r = with_family (ProcRel.add_child child_pid (family r)) r

unfoldable pub del_child : ProcId → ℤ → ProcThreadRel → ProcThreadRel
del_child child_pid exit_code r = with_family (ProcRel.del_child child_pid exit_code (family r)) r

unfoldable pub wait_any_child : ProcThreadRel → Option (ProcId × ℤ) × ProcThreadRel
wait_any_child r = let (answer, f) = ProcRel.wait_any_child (family r) in (answer, with_family f r)

unfoldable pub wait_child : ProcId → ProcThreadRel → Option (ProcId × ℤ) × ProcThreadRel
wait_child child_pid r =
    let (answer, f) = ProcRel.wait_child child_pid (family r) in (answer, with_family f r)

unfoldable pub add_thread : ThreadId → ProcThreadRel → ProcThreadRel
add_thread tid r = record r { threads = r.threads ++ tid ∷ [] }

unfoldable pub del_thread : ThreadId → ℤ → ProcThreadRel → ProcThreadRel
del_thread tid exit_code r = elim (extract (λ id. id == tid) r.threads) [
  | none ↦ r
  | some (dead_thread, rest) ↦ record r {
    threads = rest;
    dead_threads = r.dead_threads ++ (dead_thread, exit_code) ∷ [];
  }
]

unfoldable pub wait_thread : ThreadId → ProcThreadRel → Option ℤ × ProcThreadRel
wait_thread thread_tid r = elim (extract (λ d. d.0 == thread_tid) r.dead_threads) [
  | some (d, rest) ↦ (some d.1, record r { dead_threads = rest })
  | none ↦ elim (extract (λ id. id == thread_tid) r.threads) [
    | some _ ↦ (some (negsuc 1), r)
    | none ↦ (none, r)
  ]
]
