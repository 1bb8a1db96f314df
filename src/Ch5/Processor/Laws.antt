-- ===== src/Ch5/Processor/Laws.antt =====
-- The container of chapter 5 keeps the laws that `PManager` relies on (processor.rs).
use tg_rcore_tutorial.Prelude.{
  ℕ, ◌≡◌, ◌∙◌, refl, arith, Option, ok, is_some, is_empty, remove_at, Option-cases, Bool-cases,
  Outcome-cases, inl, inr, sym,
}
use tg_rcore_tutorial.Prelude.Map.{Map}
use tg_rcore_tutorial.TaskManage.Manager.{IsManager}
use tg_rcore_tutorial.TaskManage.ProcRel.{ProcId, usize_max}
use tg_rcore_tutorial.Ch5.Processor.{
  Process, ProcManager, insert, get_mut, delete, add, advance, dispatch, fetch, manager, search_min,
}

module _ {R : Type 0} where
  advance-is_some :
      (id j : ProcId) (tasks tasks' : Map (Process R))
      → advance id tasks ≡ ok tasks'
      → is_some (tasks' j) ≡ is_some (tasks j)
  unfolding advance
  advance-is_some id j tasks tasks' h = ground arith

  dispatch-keeps :
      (i j : ℕ) (m m' : ProcManager R) (o : Option ProcId)
      → dispatch i m ≡ ok (o, m')
      → is_some (m'.tasks j) ≡ is_some (m.tasks j)
  unfolding dispatch
  dispatch-keeps i j m m' o h = elim (Option-cases (remove_at i m.ready_queue)) [
    | inl e ↦ absurd (ground (arith, h, e))
    | inr ((id, queue), e) ↦ elim (Outcome-cases (advance id m.tasks)) [
      | inl f ↦ absurd (ground (arith, h, e, f))
      | inr (tasks, f) ↦ ground (arith, h, e, f, advance-is_some id j m.tasks tasks f)
    ]
  ]

  get_mut-fetch :
      (j : ProcId) (m m' : ProcManager R) (o : Option ProcId)
      → fetch m ≡ ok (o, m')
      → is_some (get_mut j m') ≡ is_some (get_mut j m)
  unfolding fetch get_mut
  get_mut-fetch j m m' o h = elim (Bool-cases (is_empty m.ready_queue)) [
    | inl e ↦ ground (arith, h, e)
    | inr e ↦
        let i = (search_min m.tasks 0 m.ready_queue (usize_max, 0)).1 in
        let same : fetch m ≡ dispatch i m = rw (e, fetch) in
        dispatch-keeps i j m m' o (sym same ∙ h)
  ]

  -- What the client of the traits `Manage` and `Schedule` relies on, with the stride scheduler.
  pub manager-IsManager : IsManager (manager {R = R})
  unfolding insert get_mut delete add
  manager-IsManager = record {
    get_mut-insert = λ j id t m. refl;
    get_mut-delete = λ j id m. refl;
    get_mut-add = λ j id m. refl;
    get_mut-fetch = get_mut-fetch;
  }
