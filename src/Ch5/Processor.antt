-- ===== src/Ch5/Processor.antt =====
-- tg-rcore-tutorial-ch5/src/processor.rs: `ProcManager`, the container of processes with the
-- stride scheduler. Of a process only `stride` and `priority` are read or written; its other
-- fields are the parameter `R`. Words wrap, as in a release build.
pub mod Stride
pub mod Laws
use tg_rcore_tutorial.Prelude.{
  ℕ, ◌+◌, ◌-◌, ◌/◌, ◌%◌, ◌^◌, ◌==◌, ltb, if◌then◌else◌, not, Bool, Option, none, some, List, [],
  ◌∷◌, ◌++◌, Outcome, ok, ◌>>=◌, ◌>>◌, assert, unwrap, is_empty, remove_at,
}
use tg_rcore_tutorial.Prelude.Map
use tg_rcore_tutorial.Prelude.Map.{Map}
use tg_rcore_tutorial.TaskManage.Manager.{Manager}
use tg_rcore_tutorial.TaskManage.ProcRel.{ProcId, usize_max}

pub record Process (R : Type 0) : Type 0 where
  pub stride : ℕ
  pub priority : ℕ
  pub rest : R

pub record ProcManager (R : Type 0) : Type 0 where
  pub tasks : Map (Process R)
  pub ready_queue : List ProcId

module _ {R : Type 0} where
  unfoldable pub new : ProcManager R
  new = record { tasks = Map.empty; ready_queue = [] }

  unfoldable pub insert : ProcId → Process R → ProcManager R → ProcManager R
  insert id task m = record m { tasks = Map.insert id task m.tasks }

  unfoldable pub get_mut : ProcId → ProcManager R → Option (Process R)
  get_mut id m = m.tasks id

  unfoldable pub delete : ProcId → ProcManager R → ProcManager R
  delete id m = record m { tasks = Map.remove id m.tasks }

  unfoldable pub add : ProcId → ProcManager R → ProcManager R
  add id m = record m { ready_queue = m.ready_queue ++ id ∷ [] }

  -- One round of the search: `idx` is the position of `id` in the queue.
  unfoldable pub closer : Map (Process R) → ℕ → ProcId → ℕ × ℕ → ℕ × ℕ
  closer tasks idx id (min_stride, min_idx) = elim (tasks id) [
    | some task ↦ if ltb task.stride min_stride then (task.stride, idx) else (min_stride, min_idx)
    | none ↦ (min_stride, min_idx)
  ]

  -- The search for the least stride, with the least value so far and its position.
  unfoldable pub search_min : Map (Process R) → ℕ → List ProcId → ℕ × ℕ → ℕ × ℕ
  search_min tasks idx [] best = best
  search_min tasks idx (id ∷ ids) best = search_min tasks (idx + 1) ids (closer tasks idx id best)

  -- The update of the stride: a division by zero panics.
  unfoldable pub advance : ProcId → Map (Process R) → Outcome (Map (Process R))
  advance id tasks = elim (tasks id) [
    | none ↦ ok tasks
    | some task ↦ do
      assert (not (task.priority == 0))
      let pass = 255 / task.priority
      ok (Map.insert id (record task { stride = (task.stride + pass) % 2 ^ 64 }) tasks)
  ]

  -- The part of `fetch` behind the search.
  unfoldable pub dispatch : ℕ → ProcManager R → Outcome (Option ProcId × ProcManager R)
  dispatch min_idx m = do
    (min_id, queue) ← unwrap (remove_at min_idx m.ready_queue)
    tasks ← advance min_id m.tasks
    ok (some min_id, record { tasks = tasks; ready_queue = queue })

  unfoldable pub fetch : ProcManager R → Outcome (Option ProcId × ProcManager R)
  fetch m =
      if is_empty m.ready_queue
      then ok (none, m)
      else dispatch (search_min m.tasks 0 m.ready_queue (usize_max, 0)).1 m

-- `impl Manage` and `impl Schedule`.
abbrev pub manager : {R : Type 0} → Manager (Process R) (ProcManager R)
manager = record { insert = insert; delete = delete; get_mut = get_mut; add = add; fetch = fetch }
