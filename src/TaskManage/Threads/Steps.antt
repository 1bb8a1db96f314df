-- ===== src/TaskManage/Threads/Steps.antt =====
-- `add` and `add_proc` (thread_manager.rs), and changes of one entry or of the schedule.
use tg_rcore_tutorial.Prelude.{
  ℕ, ◌≡◌, ◌≢◌, refl, ap, sym, subst, ◌∙◌, true, Option, none, some, [], ◌∷◌, arith, count-append,
  is_some, ok, IsSome-value,
}
use tg_rcore_tutorial.Prelude.Map
use tg_rcore_tutorial.Prelude.Map.{Map}
use tg_rcore_tutorial.TaskManage.Manager.{Manager, IsManager, Store, IsStore}
use tg_rcore_tutorial.TaskManage.ProcRel.{ProcId, ProcRel, usize_max}
use tg_rcore_tutorial.TaskManage.ProcRel
use tg_rcore_tutorial.TaskManage.ProcThreadRel
use tg_rcore_tutorial.TaskManage.ProcThreadRel.{
  ThreadId, ProcThreadRel, family, add_child, add_thread, wait_any_child, wait_child, wait_thread,
}
use tg_rcore_tutorial.TaskManage.Process.Tree.{IsTree}
use tg_rcore_tutorial.TaskManage.Process.Add.{grown, grown-IsTree}
use tg_rcore_tutorial.TaskManage.Process.Steps.{replace-IsTree}
use tg_rcore_tutorial.TaskManage.Threads.{PThreadManager, update, add, add_proc}
use tg_rcore_tutorial.TaskManage.Threads.Families.{families, family_of, threads_of, families-insert}
use tg_rcore_tutorial.TaskManage.Threads.Valid.{IsValid}

module _ {T P MT MP : Type 0} (M : Manager T MT) (L : IsManager M) (S : Store P MP)
    (K : IsStore S) where
  -- An entry with the same family and threads.
  pub replace-IsValid :
      (s : PThreadManager MT MP) (pid : ProcId) (r r' : ProcThreadRel)
      → IsValid M S s
      → s.rel_map pid ≡ some r
      → r'.parent ≡ r.parent
      → r'.children ≡ r.children
      → r'.threads ≡ r.threads
      → IsValid M S (record s { rel_map = Map.insert pid r' s.rel_map })
  replace-IsValid s pid r r' v here p c th = record {
    tree = subst IsTree (sym (families-insert pid r' s.rel_map)) (
        replace-IsTree (families s.rel_map) pid (family r) (family r') v.tree (ap family_of here) p
          c);
    stored = let (m, e, all) = v.stored in (m, e, λ j. ground (arith, all j, here));
    managed = v.managed;
    listed = λ q u. ground (arith, v.listed q u, here, th);
    running = v.running;
  }

  -- A thread container with the same threads in it.
  pub reschedule-IsValid :
      (s : PThreadManager MT MP) (m m' : MT) (o : Option ThreadId)
      → IsValid M S s
      → s.manager ≡ some m
      → ((t : ThreadId) → is_some (M.get_mut t m') ≡ is_some (M.get_mut t m))
      → ((t : ThreadId) → o ≡ some t → is_some (s.tid2pid t) ≡ true)
      → IsValid M S (record s { manager = some m'; current = o })
  reschedule-IsValid s m m' o v e same run = record {
    tree = v.tree;
    stored = v.stored;
    managed =
        let (m0, e0, all) = v.managed in
        let q : m0 ≡ m = ground (arith, e, e0) in
        (m', refl, λ t. same t ∙ ap (λ x. is_some (M.get_mut t x)) (sym q) ∙ all t);
    listed = v.listed;
    running = run;
  }

  pub add-IsValid :
      (s s' : PThreadManager MT MP) (id pid : ℕ) (task : T)
      → IsValid M S s
      → s.tid2pid id ≡ none
      → is_some (s.rel_map pid) ≡ true
      → add M S id task pid s ≡ ok s'
      → IsValid M S s'
  unfolding add add_thread
  add-IsValid s s' id pid task v fresh known e =
      let (m, em, dom) = v.managed in
      let (r, here) = IsSome-value (s.rel_map pid) known in
      let t : PThreadManager MT MP = record s {
        manager = some (M.add id (M.insert id task m));
        rel_map = Map.insert pid (add_thread id r) s.rel_map;
        tid2pid = Map.insert id pid s.tid2pid;
      } in
      let run : add M S id task pid s ≡ ok t = rw (em, add) (rw (here, add) refl) in
      let q : t ≡ s' = ground (arith, e, run) in
      subst (IsValid M S) q (record {
        tree = subst IsTree (sym (families-insert pid (add_thread id r) s.rel_map)) (
            replace-IsTree (families s.rel_map) pid (family r) (family r) v.tree (ap family_of here)
              refl refl);
        stored = let (mp, ep, all) = v.stored in (mp, ep, λ j. ground (arith, all j, here));
        managed = (
          M.add id (M.insert id task m),
          refl,
          λ u.
              ground (
                arith,
                L.get_mut-add u id (M.insert id task m),
                L.get_mut-insert u id task m,
                dom u,
              ),
        );
        listed = λ q u.
            ground
              (arith, v.listed q u, v.listed q id, fresh, here, count-append u r.threads (id ∷ []));
        running = λ u h. ground (arith, v.running u h);
      })

  -- A new process without threads.
  spawned-IsValid :
      (s : PThreadManager MT MP) (id parent : ProcId) (proc : P) (m : MP) (rel : Map ProcThreadRel)
      → IsValid M S s
      → s.rel_map id ≡ none
      → s.proc_manager ≡ some m
      → ((j : ProcId) → is_some (rel j) ≡ is_some (s.rel_map j))
      → ((j : ProcId) → threads_of (rel j) ≡ threads_of (s.rel_map j))
      → IsTree (families (Map.insert id (ProcThreadRel.new parent) rel))
      → IsValid M S (record s {
        proc_manager = some (S.insert id proc m);
        rel_map = Map.insert id (ProcThreadRel.new parent) rel;
      })
  unfolding ProcThreadRel.new
  spawned-IsValid s id parent proc m rel v fresh e same threads tree = record {
    tree = tree;
    stored =
        let (m0, e0, all) = v.stored in
        let q : m0 ≡ m = ground (arith, e, e0) in
        (
          S.insert id proc m,
          refl,
          λ j. ground (
            arith,
            K.get_mut-insert j id proc m,
            ap (λ x. is_some (S.get_mut j x)) q,
            all j,
            same j,
          ),
        );
    managed = v.managed;
    listed = λ p u. ground (arith, v.listed p u, v.listed id u, threads p, fresh);
    running = v.running;
  }

  pub add_proc-IsValid :
      (s s' : PThreadManager MT MP) (id parent : ProcId) (proc : P)
      → IsValid M S s
      → s.rel_map id ≡ none
      → id ≢ usize_max
      → is_some (s.rel_map parent) ≡ true
      → add_proc M S id proc parent s ≡ ok s'
      → IsValid M S s'
  unfolding add_proc update add_child ProcThreadRel.new ProcRel.add_child
  add_proc-IsValid s s' id parent proc v fresh ne known e =
      let (m, em, all) = v.stored in
      let (r, here) = IsSome-value (s.rel_map parent) known in
      let rel = Map.insert parent (add_child id r) s.rel_map in
      let t : PThreadManager MT MP = record s {
        proc_manager = some (S.insert id proc m);
        rel_map = Map.insert id (ProcThreadRel.new parent) rel;
      } in
      let run : add_proc M S id proc parent s ≡ ok t = rw (em, add_proc) (rw (here, update) refl) in
      let q : t ≡ s' = ground (arith, e, run) in
      let fams : families (Map.insert id (ProcThreadRel.new parent) rel)
          ≡ grown id parent (family r) (families s.rel_map) =
        families-insert id (ProcThreadRel.new parent) rel
        ∙ ap (Map.insert id (family (ProcThreadRel.new parent)))
            (families-insert parent (add_child id r) s.rel_map) in
      subst (IsValid M S) q (
        spawned-IsValid s id parent proc m rel v fresh em (λ j. ground (arith, here))
          (λ j. ground (arith, here))
          (subst IsTree (sym fams) (
            grown-IsTree (families s.rel_map) v.tree id parent (family r) (ap family_of fresh) ne
              (ap family_of here))))
