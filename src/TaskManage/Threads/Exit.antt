-- ===== src/TaskManage/Threads/Exit.antt =====
-- `make_current_exited` and `del_proc` (thread_manager.rs): a process ends with its last thread.
use tg_rcore_tutorial.Prelude.{
  ℕ, ◌≡◌, ◌≢◌, refl, ap, sym, subst, ◌∙◌, ◌⊎◌, inl, inr, ◌==◌, if◌then◌else◌, Bool-cases, true,
  false, none, some, [], arith, count, count-erase, erase, contains, contains-count, is_some,
  is_empty, ok, ◌>>=◌, List-cases,
}
use tg_rcore_tutorial.Prelude.Map
use tg_rcore_tutorial.Prelude.Map.{Map}
use tg_rcore_tutorial.Prelude.Int.{ℤ}
use tg_rcore_tutorial.TaskManage.Manager.{Manager, IsManager, Store, IsStore}
use tg_rcore_tutorial.TaskManage.ProcRel.{ProcId}
use tg_rcore_tutorial.TaskManage.ProcThreadRel.{ThreadId, ProcThreadRel, family, del_child}
use tg_rcore_tutorial.TaskManage.Process.Tree.{IsTree}
use tg_rcore_tutorial.TaskManage.Process.Exit.{is_some-after, left}
use tg_rcore_tutorial.TaskManage.Threads.{
  PThreadManager, update, adopt, is_deserted, del_proc, exit_thread, make_current_exited,
}
use tg_rcore_tutorial.TaskManage.Threads.Families.{
  families, family_of, threads_of, SameThreads, families-del_thread,
}
use tg_rcore_tutorial.TaskManage.Threads.Bereaved.{
  parent_in, dead_in, moved, mourned, parent-left, dead-left, after_process, one_less,
  update-del_thread,
}
use tg_rcore_tutorial.TaskManage.Threads.Valid.{IsValid, belongs}

module _ {T P MT MP : Type 0} (M : Manager T MT) (L : IsManager M) (S : Store P MP) (K : IsStore S)
    (s : PThreadManager MT MP) (t pid : ℕ) (code : ℤ) (r : ProcThreadRel) (v : IsValid M S s)
    (cur : s.current ≡ some t) (owner : s.tid2pid t ≡ some pid)
    (entry : s.rel_map pid ≡ some r) where
  listed_here : contains r.threads t ≡ true
  listed_here = ground (arith, contains-count r.threads t, v.listed pid t, owner, entry)

  abbrev rel1 : Map ProcThreadRel
  rel1 = Map.insert pid (one_less t code r) s.rel_map

  same_families : families rel1 ≡ families s.rel_map
  same_families =
      ap families (sym (update-del_thread pid t code s.rel_map r entry listed_here))
      ∙ families-del_thread pid t code s.rel_map

  listed_after : (p u : ℕ) → count u (threads_of (rel1 p)) ≡ belongs p (Map.remove t s.tid2pid u)
  listed_after p u =
      ground
        (arith, v.listed p u, v.listed p t, v.listed pid u, owner, entry, count-erase u t r.threads)

  -- The state after the part of the exit that ends the thread.
  abbrev thread_gone : MT → PThreadManager MT MP
  thread_gone m = record s {
    manager = some (M.delete t m);
    tid2pid = Map.remove t s.tid2pid;
    rel_map = rel1;
  }

  abbrev thread_ended : MT → PThreadManager MT MP
  thread_ended m = record (thread_gone m) { current = none }

  thread_ended-IsValid :
      (m : MT)
      → s.manager ≡ some m
      → ((u : ThreadId) → is_some (M.get_mut u m) ≡ is_some (s.tid2pid u))
      → IsValid M S (thread_ended m)
  thread_ended-IsValid m em dom = record {
    tree = subst IsTree (sym same_families) v.tree;
    stored = let (mp, e, all) = v.stored in (mp, e, λ j. ground (arith, all j, entry));
    managed = (M.delete t m, refl, λ u. ground (arith, L.get_mut-delete u t m, dom u));
    listed = listed_after;
    running = λ u h. cc;
  }

  exits : make_current_exited M S code s ≡ exit_thread M S t code s
  unfolding make_current_exited
  exits = ap (λ c. elim c [ none ↦ ok s | some id ↦ exit_thread M S id code s ]) cur

  -- The run up to the question whether the process has a thread left.
  exit_lem :
      (m : MT)
      → s.manager ≡ some m
      → exit_thread M S t code s ≡ (
          if is_empty (erase t r.threads)
          then (del_proc M S pid code (thread_gone m) >>= λ t. ok (record t { current = none }))
          else ok (thread_ended m))
  unfolding exit_thread is_deserted
  exit_lem m em =
      let left : is_deserted (rel1 pid) ≡ is_empty (erase t r.threads) = ground arith in
      rw (em, exit_thread)
        (rw (owner, exit_thread)
          (rw (update-del_thread pid t code s.rel_map r entry listed_here)
            (elim (Bool-cases (is_empty (erase t r.threads))) [
              | inl e ↦ rw (left ∙ e, e) refl
              | inr e ↦ rw (left ∙ e, e) refl
            ])))

  -- The exit of the last thread, whose process is not process 0.
  module _ (m : MT) (em : s.manager ≡ some m)
      (dom : (u : ThreadId) → is_some (M.get_mut u m) ≡ is_some (s.tid2pid u))
      (last : erase t r.threads ≡ []) (ne : pid ≢ 0) where
    tree1 : IsTree (families rel1)
    tree1 = subst IsTree (sym same_families) v.tree

    here1 : rel1 pid ≡ some (one_less t code r)
    here1 = ground arith

    abbrev mourning : Map ProcThreadRel
    mourning = update r.parent (del_child pid code) (Map.remove pid rel1)

    ended :
        (rel' : Map ProcThreadRel) × (adopt r.children mourning ≡ ok rel')
        × (families rel' ≡ left pid r.parent code r.children (families rel1))
        × IsTree (families rel')
        × SameThreads mourning rel'
    ended = after_process rel1 tree1 pid (one_less t code r) code here1 ne

    abbrev process_gone : MP → PThreadManager MT MP
    process_gone mp = record (thread_gone m) {
      rel_map = ended.0;
      proc_manager = some (S.delete pid mp);
    }

    abbrev process_ended : MP → PThreadManager MT MP
    process_ended mp = record (process_gone mp) { current = none }

    del_proc_lem :
        (mp : MP)
        → s.proc_manager ≡ some mp
        → del_proc M S pid code (thread_gone m) ≡ ok (process_gone mp)
    unfolding del_proc
    del_proc_lem mp e =
        let (rel', run, same, tree, threads) = ended in
        rw (e, del_proc) (rw (here1, del_proc) (rw (run, del_proc) refl))

    mourning_threads :
        (p : ProcId) → threads_of (mourning p) ≡ (if pid == p then [] else threads_of (rel1 p))
    unfolding update del_child
    mourning_threads p = ground arith

    process_ended-IsValid :
        (mp : MP)
        → s.proc_manager ≡ some mp
        → ((j : ProcId) → is_some (S.get_mut j mp) ≡ is_some (s.rel_map j))
        → IsValid M S (process_ended mp)
    process_ended-IsValid mp e all =
        let (rel', run, same, tree, threads) = ended in
        record {
          tree = tree;
          stored = (
            S.delete pid mp,
            refl,
            λ j. ground (
              arith,
              K.get_mut-delete j pid mp,
              all j,
              entry,
              ap (λ f. is_some (f j)) same,
              is_some-after (families rel1) tree1 pid (family r) code (ap family_of here1) ne j,
            ),
          );
          managed = (M.delete t m, refl, λ u. ground (arith, L.get_mut-delete u t m, dom u));
          listed = λ p u.
              ground
                (arith, threads p, mourning_threads p, listed_after p u, listed_after pid u, last);
          running = λ u h. cc;
        }

    parents_after :
        (c : ProcId)
        → parent_in (families ended.0 c) ≡ moved pid c (parent_in (families s.rel_map c))
    parents_after c =
        let (rel', run, same, tree, threads) = ended in
        ap (λ f. parent_in (f c)) same
        ∙ parent-left (families rel1) tree1 pid (family r) code (ap family_of here1) c
        ∙ ap (λ f. moved pid c (parent_in (f c))) same_families

    dead_after :
        (q : ProcId)
        → dead_in (families ended.0 q) ≡ mourned pid code r.parent q (families s.rel_map q)
    dead_after q =
        let (rel', run, same, tree, threads) = ended in
        ap (λ f. dead_in (f q)) same
        ∙ dead-left (families rel1) tree1 pid (family r) code (ap family_of here1) q
        ∙ ap (λ f. mourned pid code r.parent q (f q)) same_families

    process_gone_lem : ended.0 pid ≡ none
    process_gone_lem =
        let (rel', run, same, tree, threads) = ended in
        ground (
          arith,
          ap (λ f. is_some (f pid)) same,
          is_some-after (families rel1) tree1 pid (family r) code (ap family_of here1) ne pid,
        )

  -- What the exit makes of the process: it has the exit code of the thread, and goes on with its
  -- other threads; or it ends, its children go to process 0, and its parent has the code.
  abbrev pub ProcessAfter : PThreadManager MT MP → Type 0
  ProcessAfter s' =
      ((erase t r.threads ≢ []) × (s'.rel_map ≡ Map.insert pid (one_less t code r) s.rel_map))
      ⊎ ((erase t r.threads ≡ [])
          × (s'.rel_map pid ≡ none)
          × ((c : ProcId)
              → parent_in (families s'.rel_map c) ≡ moved pid c (parent_in (families s.rel_map c)))
          × ((q : ProcId)
              → dead_in (families s'.rel_map q)
                ≡ mourned pid code r.parent q (families s.rel_map q)))

  -- In a valid state, the current thread exits, and is not the last one of process 0. This does
  -- not panic, and leaves a valid state without the thread and with no current one. If the
  -- process has other threads, it keeps the exit code of the thread, and no other process
  -- changes. If it has none, the process ends: its children have process 0 as their parent, its
  -- own parent has its pid with the code among the dead, and no other process has another parent
  -- or other dead children.
  pub make_current_exited_lem :
      (erase t r.threads ≡ [] → pid ≢ 0)
      → (s' : PThreadManager MT MP) × (make_current_exited M S code s ≡ ok s')
        × IsValid M S s'
        × (s'.current ≡ none)
        × (s'.tid2pid t ≡ none)
        × ProcessAfter s'
  make_current_exited_lem kept =
      let (m, em, dom) = v.managed in
      let (mp, e, all) = v.stored in
      elim (List-cases (erase t r.threads)) [
        | inl last ↦
            let ne = kept last in
            let empty : is_empty (erase t r.threads) ≡ true = ap is_empty last in
            let run = del_proc_lem m em dom last ne mp e in
            (
              process_ended m em dom last ne mp,
              exits ∙ exit_lem m em ∙ rw empty (rw run refl),
              process_ended-IsValid m em dom last ne mp e all,
              refl,
              ground arith,
              inr (
                last,
                process_gone_lem m em dom last ne,
                parents_after m em dom last ne,
                dead_after m em dom last ne,
              ),
            )
        | inr (u, us, more) ↦
            let empty : is_empty (erase t r.threads) ≡ false = ap is_empty more in
            (
              thread_ended m,
              exits ∙ exit_lem m em ∙ rw empty refl,
              thread_ended-IsValid m em dom,
              refl,
              ground arith,
              inl (λ f. ground (arith, f, more), refl),
            )
      ]
