-- ===== src/Ch8/Processor.antt =====
-- tg-rcore-tutorial-ch8/src/processor.rs: the container of threads with its queue of ready ones,
-- and the container of processes. What a thread or a process is does not matter here.
use tg_rcore_tutorial.Prelude.{
  refl, Option, none, some, List, [], ◌∷◌, ◌++◌, Outcome, ok, pop_front, List-cases, inl, inr,
  arith,
}
use tg_rcore_tutorial.Prelude.Map
use tg_rcore_tutorial.Prelude.Map.{Map}
use tg_rcore_tutorial.TaskManage.Manager.{Manager, IsManager, Store, IsStore}
use tg_rcore_tutorial.TaskManage.ProcRel.{ProcId}
use tg_rcore_tutorial.TaskManage.ProcThreadRel.{ThreadId}

pub record ThreadManager (T : Type 0) : Type 0 where
  pub tasks : Map T
  pub ready_queue : List ThreadId

pub record ProcManager (P : Type 0) : Type 0 where
  pub procs : Map P

module _ {T : Type 0} where
  unfoldable pub new_threads : ThreadManager T
  new_threads = record { tasks = Map.empty; ready_queue = [] }

  unfoldable pub insert : ThreadId → T → ThreadManager T → ThreadManager T
  insert id task m = record m { tasks = Map.insert id task m.tasks }

  unfoldable pub get_mut : ThreadId → ThreadManager T → Option T
  get_mut id m = m.tasks id

  unfoldable pub delete : ThreadId → ThreadManager T → ThreadManager T
  delete id m = record m { tasks = Map.remove id m.tasks }

  unfoldable pub add : ThreadId → ThreadManager T → ThreadManager T
  add id m = record m { ready_queue = m.ready_queue ++ id ∷ [] }

  -- A fetch never panics.
  unfoldable pub fetch : ThreadManager T → Outcome (Option ThreadId × ThreadManager T)
  fetch m = ok (elim (pop_front m.ready_queue) [
    | none ↦ (none, m)
    | some (id, rest) ↦ (some id, record m { ready_queue = rest })
  ])

  abbrev pub threads : Manager T (ThreadManager T)
  threads = record { insert = insert; delete = delete; get_mut = get_mut; add = add; fetch = fetch }

  pub threads-IsManager : IsManager threads
  unfolding insert get_mut delete add fetch
  threads-IsManager = record {
    get_mut-insert = λ j id t m. refl;
    get_mut-delete = λ j id m. refl;
    get_mut-add = λ j id m. refl;
    get_mut-fetch = λ j m m' o e. elim (List-cases m.ready_queue) [
      | inl f ↦ ground (arith, e, f)
      | inr (id, rest, f) ↦ ground (arith, e, f)
    ];
  }

module _ {P : Type 0} where
  unfoldable pub new_procs : ProcManager P
  new_procs = record { procs = Map.empty }

  unfoldable pub insert_proc : ProcId → P → ProcManager P → ProcManager P
  insert_proc id item m = record { procs = Map.insert id item m.procs }

  unfoldable pub get_proc : ProcId → ProcManager P → Option P
  get_proc id m = m.procs id

  unfoldable pub delete_proc : ProcId → ProcManager P → ProcManager P
  delete_proc id m = record { procs = Map.remove id m.procs }

  abbrev pub procs : Store P (ProcManager P)
  procs = record { insert = insert_proc; delete = delete_proc; get_mut = get_proc }

  pub procs-IsStore : IsStore procs
  unfolding insert_proc get_proc delete_proc
  procs-IsStore = record { get_mut-insert = λ j id t m. refl; get_mut-delete = λ j id m. refl }
