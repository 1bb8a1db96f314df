-- ===== src/Ch5/Tests.antt =====
-- Runs of the stride scheduler on concrete queues.
use tg_rcore_tutorial.Prelude.{
  ℕ, ◌≤◌, ◌≡◌, refl, arith, ◌==◌, if◌then◌else◌, true, some, [], ◌∷◌, ok, contains, count,
}
use tg_rcore_tutorial.Prelude.Map
use tg_rcore_tutorial.Prelude.Map.{Map}
use tg_rcore_tutorial.TaskManage.ProcRel.{ProcId}
use tg_rcore_tutorial.Ch5.Processor.{Process, ProcManager, fetch}
use tg_rcore_tutorial.Ch5.Processor.Stride.{IsValid, stride_of, advanced, fetch_lem}

abbrev process : ℕ → ℕ → Process (Unit {0})
process stride priority = record { stride = stride; priority = priority; rest = tt }

abbrev three : ProcManager (Unit {0})
three = record {
  tasks =
      Map.insert 1 (process 30 16)
        (Map.insert 2 (process 10 5) (Map.insert 3 (process 10 2) Map.empty));
  ready_queue = 1 ∷ 2 ∷ 3 ∷ [];
}

three-IsValid : IsValid three
three-IsValid = record { words = λ id t h. ground arith; positive = λ id t h. ground arith }

fetch_lem_example :
    (id : ProcId) × (m' : ProcManager (Unit {0})) × (fetch three ≡ ok (some id, m'))
    × ((c : ProcId) → count c (1 ∷ 2 ∷ 3 ∷ []) ≡ count c (id ∷ m'.ready_queue))
    × ((j : ProcId)
        → contains (1 ∷ 2 ∷ 3 ∷ []) j ≡ true
        → stride_of three.tasks id ≤ stride_of three.tasks j)
    × ((j : ProcId) → m'.tasks j ≡ (if id == j then advanced (three.tasks j) else three.tasks j))
fetch_lem_example = fetch_lem three 1 (2 ∷ 3 ∷ []) three-IsValid refl
