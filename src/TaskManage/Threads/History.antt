-- ===== src/TaskManage/Threads/History.antt =====
-- Histories of `PThreadManager` (thread_manager.rs).
use tg_rcore_tutorial.Prelude.{
  ℕ, ◌≡◌, ◌≢◌, refl, ap, sym, subst, ◌∙◌, true, Option, none, some, [], arith, erase, is_some, ok,
  ok-injective,
}
use tg_rcore_tutorial.Prelude.Int.{ℤ}
use tg_rcore_tutorial.TaskManage.Manager.{Manager, IsManager, Store, IsStore}
use tg_rcore_tutorial.TaskManage.ProcRel.{ProcId, usize_max}
use tg_rcore_tutorial.TaskManage.ProcRel
use tg_rcore_tutorial.TaskManage.ProcThreadRel
use tg_rcore_tutorial.TaskManage.ProcThreadRel.{ThreadId, ProcThreadRel}
use tg_rcore_tutorial.TaskManage.Threads
use tg_rcore_tutorial.TaskManage.Threads.{
  PThreadManager, set_manager, set_proc_manager, update, find_next, make_current_suspend,
  make_current_exited, make_current_blocked, re_enque, add, add_proc, wait, waittid,
}
use tg_rcore_tutorial.TaskManage.Process.Tree.{Rooted, at_root}
use tg_rcore_tutorial.TaskManage.Threads.Valid.{IsValid}
use tg_rcore_tutorial.TaskManage.Threads.Exit.{make_current_exited_lem}
use tg_rcore_tutorial.TaskManage.Threads.Steps.{add-IsValid, add_proc-IsValid}
use tg_rcore_tutorial.TaskManage.Threads.Schedule.{
  make_current_suspend-IsValid, make_current_blocked-IsValid, re_enque-IsValid, find_next-IsValid,
  wait-IsValid, waittid-IsValid,
}

-- A call that returns. A process is added under a fresh pid and a living parent, a thread under a
-- fresh tid and to a living process, and the last thread of process 0 does not exit.
pub data Step {T P MT MP : Type 0} (M : Manager T MT) (S : Store P MP) (s s' : PThreadManager MT MP)
    : Type 0 where
  adds_proc :
      (id parent : ProcId) (proc : P)
      → s.rel_map id ≡ none
      → id ≢ usize_max
      → is_some (s.rel_map parent) ≡ true
      → add_proc M S id proc parent s ≡ ok s'
      → Step M S s s'
  adds :
      (id : ThreadId) (pid : ProcId) (task : T)
      → s.tid2pid id ≡ none
      → is_some (s.rel_map pid) ≡ true
      → add M S id task pid s ≡ ok s'
      → Step M S s s'
  finds : (next : Option T) → find_next M S s ≡ ok (next, s') → Step M S s s'
  suspends : make_current_suspend M S s ≡ ok s' → Step M S s s'
  blocks : make_current_blocked M S s ≡ s' → Step M S s s'
  enques : (id : ThreadId) → re_enque M S id s ≡ ok s' → Step M S s s'
  exits :
      (code : ℤ) (t : ThreadId) (pid : ProcId) (r : ProcThreadRel)
      → s.current ≡ some t
      → s.tid2pid t ≡ some pid
      → s.rel_map pid ≡ some r
      → (erase t r.threads ≡ [] → pid ≢ 0)
      → make_current_exited M S code s ≡ ok s'
      → Step M S s s'
  waits : (child : ProcId) (o : Option (ProcId × ℤ)) → wait child s ≡ ok (o, s') → Step M S s s'
  waits_thread : (t : ThreadId) (o : Option ℤ) → waittid t s ≡ ok (o, s') → Step M S s s'

pub data Reach {T P MT MP : Type 0} (M : Manager T MT) (S : Store P MP) (s : PThreadManager MT MP)
    : PThreadManager MT MP → Type 0 where
  here : Reach M S s s
  next : {t u : PThreadManager MT MP} → Reach M S s t → Step M S t u → Reach M S s u

module _ {T P MT MP : Type 0} (M : Manager T MT) (L : IsManager M) (S : Store P MP)
    (K : IsStore S) where
  Step-IsValid : (s s' : PThreadManager MT MP) → Step M S s s' → IsValid M S s → IsValid M S s'
  Step-IsValid s s' (adds_proc id parent proc fresh ne known e) v =
      add_proc-IsValid M L S K s s' id parent proc v fresh ne known e
  Step-IsValid s s' (adds id pid task fresh known e) v =
      add-IsValid M L S K s s' id pid task v fresh known e
  Step-IsValid s s' (finds o e) v = find_next-IsValid M L S K s s' o v e
  Step-IsValid s s' (suspends e) v = make_current_suspend-IsValid M L S K s s' v e
  Step-IsValid s s' (blocks e) v = subst (IsValid M S) e (make_current_blocked-IsValid M L S K s v)
  Step-IsValid s s' (enques id e) v = re_enque-IsValid M L S K s s' id v e
  Step-IsValid s s' (exits code t pid r cur owner entry kept e) v =
      let (u, run, valid, _, _, _) =
        make_current_exited_lem M L S K s t pid code r v cur owner entry kept in
      subst (IsValid M S) (ok-injective (sym run ∙ e)) valid
  Step-IsValid s s' (waits child o e) v = wait-IsValid M L S K s s' child o v e
  Step-IsValid s s' (waits_thread t o e) v = waittid-IsValid M L S K s s' t o v e

  Reach-IsValid : {s s' : PThreadManager MT MP} → Reach M S s s' → IsValid M S s → IsValid M S s'
  Reach-IsValid here v = v
  Reach-IsValid (next r st) v = Step-IsValid _ _ st (Reach-IsValid r v)

  boot-IsValid :
      (mt : MT) (mp : MP) (proc : P) (s : PThreadManager MT MP)
      → ((j : ℕ) → M.get_mut j mt ≡ none)
      → ((j : ℕ) → S.get_mut j mp ≡ none)
      → add_proc M S 0 proc usize_max (set_manager mt (set_proc_manager mp Threads.new)) ≡ ok s
      → IsValid M S s
  unfolding add_proc update set_manager set_proc_manager Threads.new ProcThreadRel.new ProcRel.new
  boot-IsValid mt mp proc s none_t none_p e = subst (IsValid M S) (ok-injective e) (record {
    tree = record {
      root = (ProcRel.new usize_max, refl, refl);
      unused = refl;
      parent_in = λ c r h. ground arith;
      no_self = λ c r h. ground arith;
      children_count = λ p c r h. ground arith;
      rooted = λ c r h. let same : 0 ≡ c = ground arith in subst (Rooted _) same at_root;
    };
    stored =
        (S.insert 0 proc mp, refl, λ j. ground (arith, K.get_mut-insert j 0 proc mp, none_p j));
    managed = (mt, refl, λ t. ap is_some (none_t t));
    listed = λ pid t. ground arith;
    running = λ t h. cc;
  })

  -- After process 0 is added to a new manager over empty containers, every history of added
  -- processes and threads (under fresh numbers, for a process not `usize::MAX`, with a living
  -- parent, and to a living process), scheduling, suspensions, blocking, waking, exits other than
  -- that of the last thread of process 0, and waits keeps the state valid: the processes form a
  -- tree, in which process 0 alone has no parent and every process reaches it through its
  -- parents; the containers hold exactly the processes of the tree and the threads that belong to
  -- one, and each process lists exactly its threads.
  pub threads-Reach-IsValid :
      (mt : MT) (mp : MP) (proc : P) (s s' : PThreadManager MT MP)
      → ((j : ℕ) → M.get_mut j mt ≡ none)
      → ((j : ℕ) → S.get_mut j mp ≡ none)
      → add_proc M S 0 proc usize_max (set_manager mt (set_proc_manager mp Threads.new)) ≡ ok s
      → Reach M S s s'
      → IsValid M S s'
  threads-Reach-IsValid mt mp proc s s' none_t none_p e reach =
      Reach-IsValid reach (boot-IsValid mt mp proc s none_t none_p e)
