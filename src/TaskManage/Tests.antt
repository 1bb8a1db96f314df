-- ===== src/TaskManage/Tests.antt =====
-- Runs of the process manager on concrete inputs, over the container of chapter 5.
use tg_rcore_tutorial.Prelude.{zero, suc, ◌≡◌, refl, arith, none, some, List, [], ◌∷◌, ok}
use tg_rcore_tutorial.Prelude.Map
use tg_rcore_tutorial.Prelude.Map.{Map}
use tg_rcore_tutorial.Prelude.Int.{pos}
use tg_rcore_tutorial.TaskManage.ProcRel
use tg_rcore_tutorial.TaskManage.ProcRel.{
  ProcId, ProcRel, usize_max, wait_child, wait_any_child, del_child,
}
use tg_rcore_tutorial.TaskManage.ProcRel.Waits.{wait_any_child-del_child}
use tg_rcore_tutorial.TaskManage.Process
use tg_rcore_tutorial.TaskManage.Process.{
  PManager, add, set_manager, find_next, make_current_suspend, make_current_exited, wait,
}
use tg_rcore_tutorial.TaskManage.Process.Tree.{IsTree, Rooted, at_root, below}
use tg_rcore_tutorial.TaskManage.Process.Valid.{IsValid, make_current_exited-IsValid}
use tg_rcore_tutorial.TaskManage.Process.Reap.{exit_then_wait}
use tg_rcore_tutorial.TaskManage.Process.History.{Step, Reach, boot-Reach-IsValid}
use tg_rcore_tutorial.Ch5.Processor.{Process as Task, ProcManager, manager, get_mut}
use tg_rcore_tutorial.Ch5.Processor
use tg_rcore_tutorial.Ch5.Processor.Laws.{manager-IsManager}

abbrev entry : ProcId → List ProcId → ProcRel
entry parent children = record { parent = parent; children = children; dead_children = [] }

abbrev task : Task (Unit {0})
task = record { stride = 0; priority = 16; rest = tt }

-- Process 0 with the child 1, which runs and has the children 2 and 3.
abbrev family_map : Map ProcRel
family_map = Map.insert 0 (entry usize_max (1 ∷ [])) (
    Map.insert 1 (entry 0 (2 ∷ 3 ∷ []))
      (Map.insert 2 (entry 1 []) (Map.insert 3 (entry 1 []) Map.empty)))

abbrev tasks : Map (Task (Unit {0}))
tasks = Map.insert 0 task (Map.insert 1 task (Map.insert 2 task (Map.insert 3 task Map.empty)))

abbrev family : PManager (ProcManager (Unit {0}))
family = record {
  rel_map = family_map;
  manager = some (record { tasks = tasks; ready_queue = 0 ∷ 2 ∷ 3 ∷ [] });
  current = some 1;
}

one-Rooted : Rooted family_map 1
one-Rooted = below 1 (entry 0 (2 ∷ 3 ∷ [])) refl at_root

family-Rooted : (c : ProcId) (r : ProcRel) → family_map c ≡ some r → Rooted family_map c
family-Rooted zero r h = at_root
family-Rooted (suc zero) r h = one-Rooted
family-Rooted (suc (suc zero)) r h = below 2 (entry 1 []) refl one-Rooted
family-Rooted (suc (suc (suc zero))) r h = below 3 (entry 1 []) refl one-Rooted
family-Rooted (suc (suc (suc (suc c)))) r h = absurd (ground arith)

family-IsTree : IsTree family_map
family-IsTree = record {
  root = (entry usize_max (1 ∷ []), refl, refl);
  unused = refl;
  parent_in = λ c r h. ground arith;
  no_self = λ c r h. ground arith;
  children_count = λ p c r h. ground arith;
  rooted = family-Rooted;
}

family-IsValid : IsValid manager family
unfolding get_mut
family-IsValid = record {
  tree = family-IsTree;
  managed = (record { tasks = tasks; ready_queue = 0 ∷ 2 ∷ 3 ∷ [] }, refl, λ j. ground arith);
  running = λ id h. ground arith;
}

abbrev reaper : ProcRel
reaper = record { parent = 0; children = 2 ∷ 3 ∷ []; dead_children = (9, pos 4) ∷ [] }

reap_in_order :
    (wait_any_child (del_child 3 (pos 7) (del_child 2 (pos 5) reaper))).0 ≡ some (3, pos 7)
unfolding wait_any_child del_child
reap_in_order = refl

wait_any_child-del_child_example :
    wait_any_child (del_child 2 (pos 5) reaper)
    ≡ (some (2, pos 5), record reaper { children = 3 ∷ [] })
wait_any_child-del_child_example = wait_any_child-del_child 2 (pos 5) reaper refl

make_current_exited-IsValid_example :
    (s' : PManager (ProcManager (Unit {0}))) × (make_current_exited manager (pos 7) family ≡ ok s')
    × IsValid manager s'
    × (s'.current ≡ none)
    × (s'.rel_map 1 ≡ none)
    × ((c : ProcId) (r : ProcRel)
        → family_map c ≡ some r
        → r.parent ≡ 1
        → (r' : ProcRel) × (s'.rel_map c ≡ some r') × (r'.parent ≡ 0))
make_current_exited-IsValid_example =
    make_current_exited-IsValid manager manager-IsManager family 1 (pos 7) family-IsValid refl
      (omega arith)

abbrev widowed : PManager (ProcManager (Unit {0}))
widowed = record family { current = some 2 }

widowed-IsValid : IsValid manager widowed
widowed-IsValid = record {
  tree = family-IsTree;
  managed = family-IsValid.managed;
  running = λ id h. ground arith;
}

abbrev widowed_exit : PManager (ProcManager (Unit {0}))
widowed_exit = record {
  rel_map =
      Map.insert 1 (record { parent = 0; children = 3 ∷ []; dead_children = (2, pos 7) ∷ [] })
        (Map.remove 2 family_map);
  manager = some (record { tasks = Map.remove 2 tasks; ready_queue = 0 ∷ 2 ∷ 3 ∷ [] });
  current = none;
}

widowed_exits : make_current_exited manager (pos 7) widowed ≡ ok widowed_exit
unfolding make_current_exited Processor.delete Process.adopt Process.notify_parent del_child
widowed_exits = refl

exit_then_wait_example :
    (s'' : PManager (ProcManager (Unit {0}))) × (wait 2 (record widowed_exit { current = some 1 })
      ≡ ok (some (2, pos 7), s''))
    × (wait 2 s'' ≡ ok (none, s''))
exit_then_wait_example =
    exit_then_wait manager widowed widowed_exit 2 (pos 7) (entry 1 []) (entry 0 (2 ∷ 3 ∷ []))
      widowed-IsValid refl (omega arith) refl refl refl widowed_exits

abbrev booted : PManager (ProcManager (Unit {0}))
booted = record {
  rel_map = Map.insert 0 (entry usize_max []) Map.empty;
  manager = some (record { tasks = Map.insert 0 task Map.empty; ready_queue = 0 ∷ [] });
  current = none;
}

boots : add manager 0 task usize_max (set_manager Processor.new Process.new) ≡ ok booted
unfolding add set_manager Processor.new Process.new ProcRel.new Processor.add Processor.insert
boots = refl

abbrev forked : PManager (ProcManager (Unit {0}))
forked = record {
  rel_map = Map.insert 1 (entry 0 []) (Map.insert 0 (entry usize_max (1 ∷ [])) booted.rel_map);
  manager = some (record {
    tasks = Map.insert 1 task (Map.insert 0 task Map.empty);
    ready_queue = 0 ∷ 1 ∷ [];
  });
  current = none;
}

forks : add manager 1 task 0 booted ≡ ok forked
unfolding add ProcRel.new ProcRel.add_child Processor.add Processor.insert
forks = refl

boot-Reach-IsValid_example : IsValid manager forked
unfolding get_mut Processor.new
boot-Reach-IsValid_example =
    boot-Reach-IsValid manager manager-IsManager Processor.new task booted forked (λ j. refl) boots
      (Reach.next Reach.here (Step.adds 1 0 task refl (omega arith) refl forks))
