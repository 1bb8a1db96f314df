-- ===== src/TaskManage/Threads/Tests.antt =====
-- Runs of the manager of threads on concrete inputs, over the containers of chapter 8.
use tg_rcore_tutorial.Prelude.{zero, suc, ◌≡◌, refl, arith, none, some, List, [], ◌∷◌, ok}
use tg_rcore_tutorial.Prelude.Map
use tg_rcore_tutorial.Prelude.Map.{Map}
use tg_rcore_tutorial.Prelude.Int.{pos}
use tg_rcore_tutorial.TaskManage.ProcRel.{ProcId, usize_max}
use tg_rcore_tutorial.TaskManage.ProcRel.{ProcRel}
use tg_rcore_tutorial.TaskManage.Process.Tree.{Rooted, at_root, below}
use tg_rcore_tutorial.TaskManage.Threads.Families.{families}
use tg_rcore_tutorial.TaskManage.ProcThreadRel
use tg_rcore_tutorial.TaskManage.ProcThreadRel.{ThreadId, ProcThreadRel}
use tg_rcore_tutorial.TaskManage.Threads
use tg_rcore_tutorial.TaskManage.Threads.{
  PThreadManager, set_manager, set_proc_manager, add, add_proc, make_current_exited, waittid,
}
use tg_rcore_tutorial.TaskManage.Threads.Valid.{IsValid}
use tg_rcore_tutorial.TaskManage.Threads.Exit.{make_current_exited_lem, ProcessAfter}
use tg_rcore_tutorial.TaskManage.Threads.History.{Step, Reach, threads-Reach-IsValid}
use tg_rcore_tutorial.Ch8.Processor
use tg_rcore_tutorial.Ch8.Processor.{
  ThreadManager, ProcManager, threads, procs, threads-IsManager, procs-IsStore,
}

abbrev State : Type 0
State = PThreadManager (ThreadManager Unit) (ProcManager Unit)

abbrev entry : ProcId → List ProcId → List ThreadId → ProcThreadRel
entry parent children tids = record {
  parent = parent;
  children = children;
  dead_children = [];
  threads = tids;
  dead_threads = [];
}

-- Process 0 with the child 1, which has the child 2 and the thread 5, which runs.
abbrev rel : Map ProcThreadRel
rel =
    Map.insert 0 (entry usize_max (1 ∷ []) [])
      (Map.insert 1 (entry 0 (2 ∷ []) (5 ∷ [])) (Map.insert 2 (entry 1 [] []) Map.empty))

abbrev state : State
state = record {
  rel_map = rel;
  proc_manager =
      some (record { procs = Map.insert 0 tt (Map.insert 1 tt (Map.insert 2 tt Map.empty)) });
  tid2pid = Map.insert 5 1 Map.empty;
  manager = some (record { tasks = Map.insert 5 tt Map.empty; ready_queue = [] });
  current = some 5;
}

one-Rooted : Rooted (families rel) 1
one-Rooted = below 1 _ refl at_root

state-Rooted : (c : ProcId) (r : ProcRel) → families rel c ≡ some r → Rooted (families rel) c
state-Rooted zero r h = at_root
state-Rooted (suc zero) r h = one-Rooted
state-Rooted (suc (suc zero)) r h = below 2 _ refl one-Rooted
state-Rooted (suc (suc (suc c))) r h = absurd (ground arith)

state-IsValid : IsValid threads procs state
unfolding Processor.get_mut Processor.get_proc
state-IsValid = record {
  tree = record {
    root = (_, refl, refl);
    unused = refl;
    parent_in = λ c r h. ground arith;
    no_self = λ c r h. ground arith;
    children_count = λ p c r h. ground arith;
    rooted = state-Rooted;
  };
  stored = (_, refl, λ j. ground arith);
  managed = (_, refl, λ t. ground arith);
  listed = λ pid t. ground arith;
  running = λ t h. ground arith;
}

make_current_exited_lem_example :
    (s' : State) × (make_current_exited threads procs (pos 7) state ≡ ok s')
    × IsValid threads procs s'
    × (s'.current ≡ none)
    × (s'.tid2pid 5 ≡ none)
    × ProcessAfter threads threads-IsManager procs procs-IsStore state 5 1
        (pos 7)
        (entry 0 (2 ∷ []) (5 ∷ []))
        state-IsValid
        refl
        refl
        refl
        s'
make_current_exited_lem_example =
    make_current_exited_lem threads threads-IsManager procs procs-IsStore state 5 1 (pos 7)
      (entry 0 (2 ∷ []) (5 ∷ [])) state-IsValid refl refl refl (λ e. omega arith)

abbrev booted : State
booted = record {
  rel_map = Map.insert 0 (entry usize_max [] []) Map.empty;
  proc_manager = some (record { procs = Map.insert 0 tt Map.empty });
  tid2pid = Map.empty;
  manager = some Processor.new_threads;
  current = none;
}

boots :
    add_proc threads procs 0 tt usize_max
      (set_manager Processor.new_threads (set_proc_manager Processor.new_procs Threads.new))
    ≡ ok booted
unfolding add_proc set_manager set_proc_manager Threads.new Processor.new_procs Threads.update
    ProcThreadRel.new Processor.insert_proc
boots = refl

abbrev threaded : State
threaded = record {
  rel_map = Map.insert 0 (entry usize_max [] (4 ∷ [])) booted.rel_map;
  proc_manager = booted.proc_manager;
  tid2pid = Map.insert 4 0 Map.empty;
  manager = some (record { tasks = Map.insert 4 tt Map.empty; ready_queue = 4 ∷ [] });
  current = none;
}

spawns : add threads procs 4 tt 0 booted ≡ ok threaded
unfolding add Processor.add Processor.insert Processor.new_threads ProcThreadRel.add_thread
spawns = refl

threads-Reach-IsValid_example : IsValid threads procs threaded
unfolding Processor.get_mut Processor.get_proc Processor.new_threads Processor.new_procs
threads-Reach-IsValid_example =
    threads-Reach-IsValid threads threads-IsManager procs procs-IsStore Processor.new_threads
      Processor.new_procs tt booted threaded (λ j. refl) (λ j. refl) boots
      (Reach.next Reach.here (Step.adds 4 0 tt refl refl spawns))
