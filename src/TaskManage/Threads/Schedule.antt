-- ===== src/TaskManage/Threads/Schedule.antt =====
-- Scheduling and the waits of `PThreadManager` (thread_manager.rs).
use tg_rcore_tutorial.Prelude.{
  ◌≡◌, refl, ap, sym, subst, ◌∙◌, inl, inr, ◌==◌, if◌then◌else◌, Option, none, some, Option-cases,
  arith, is_some, ok, Outcome-cases, ok-injective,
}
use tg_rcore_tutorial.Prelude.Map
use tg_rcore_tutorial.Prelude.Map.{Map}
use tg_rcore_tutorial.Prelude.Int.{ℤ}
use tg_rcore_tutorial.TaskManage.Manager.{Manager, IsManager, Store, IsStore}
use tg_rcore_tutorial.TaskManage.ProcRel.{ProcId, usize_max}
use tg_rcore_tutorial.TaskManage.ProcThreadRel.{
  ThreadId, ProcThreadRel, family, wait_any_child, wait_child, wait_thread,
}
use tg_rcore_tutorial.TaskManage.Process.Steps.{wait_any_child-keeps, wait_child-keeps}
use tg_rcore_tutorial.TaskManage.Threads.{
  PThreadManager, switch_to, find_next, make_current_suspend, make_current_blocked, re_enque,
  current_rel, wait, waittid,
}
use tg_rcore_tutorial.TaskManage.Threads.Steps.{replace-IsValid, reschedule-IsValid}
use tg_rcore_tutorial.TaskManage.Threads.Valid.{IsValid}

module _ {T P MT MP : Type 0} (M : Manager T MT) (L : IsManager M) (S : Store P MP)
    (K : IsStore S) where
  pub make_current_suspend-IsValid :
      (s s' : PThreadManager MT MP)
      → IsValid M S s
      → make_current_suspend M S s ≡ ok s'
      → IsValid M S s'
  unfolding make_current_suspend
  make_current_suspend-IsValid s s' v e =
      let (m, em, dom) = v.managed in
      elim (Option-cases s.current) [
        | inl idle ↦ subst (IsValid M S) (ground (arith, e, idle)) v
        | inr (id, cur) ↦
            let t : PThreadManager MT MP = record s {
              manager = some (M.add id m);
              current = none;
            } in
            let q : t ≡ s' = ground (arith, e, cur, em) in
            subst (IsValid M S) q (
              reschedule-IsValid M L S K s m (M.add id m) none v em
                (λ u. ap is_some (L.get_mut-add u id m)) (λ u h. cc))
      ]

  pub make_current_blocked-IsValid :
      (s : PThreadManager MT MP) → IsValid M S s → IsValid M S (make_current_blocked M S s)
  unfolding make_current_blocked
  make_current_blocked-IsValid s v =
      let (m, em, dom) = v.managed in
      let blocked : PThreadManager MT MP = record s { current = none } in
      let w : IsValid M S blocked = record {
        tree = v.tree;
        stored = v.stored;
        managed = v.managed;
        listed = v.listed;
        running = λ u h. cc;
      } in
      elim (Option-cases s.current) [
        | inl idle ↦ subst (IsValid M S) (ground (arith, idle)) v
        | inr (id, cur) ↦ subst (IsValid M S) (ground (arith, cur)) w
      ]

  pub re_enque-IsValid :
      (s s' : PThreadManager MT MP) (id : ThreadId)
      → IsValid M S s
      → re_enque M S id s ≡ ok s'
      → IsValid M S s'
  unfolding re_enque
  re_enque-IsValid s s' id v e =
      let (m, em, dom) = v.managed in
      let t : PThreadManager MT MP = record s { manager = some (M.add id m) } in
      let q : t ≡ s' = ground (arith, e, em) in
      subst (IsValid M S) q (
        reschedule-IsValid M L S K s m (M.add id m) s.current v em
          (λ u. ap is_some (L.get_mut-add u id m)) v.running)

  switch_to-IsValid :
      (o : Option ThreadId) (s : PThreadManager MT MP) (m m' : MT)
      → IsValid M S s
      → s.manager ≡ some m
      → ((u : ThreadId) → is_some (M.get_mut u m') ≡ is_some (M.get_mut u m))
      → ((u : ThreadId) → is_some (M.get_mut u m) ≡ is_some (s.tid2pid u))
      → IsValid M S (switch_to M S o s m').1
  unfolding switch_to
  switch_to-IsValid none s m m' v em same dom =
      reschedule-IsValid M L S K s m m' s.current v em same v.running
  switch_to-IsValid (some id) s m m' v em same dom = elim (Option-cases (M.get_mut id m')) [
    | inl gone ↦
        rw (gone, switch_to) (reschedule-IsValid M L S K s m m' s.current v em same v.running)
    | inr (task, there) ↦
        rw (there, switch_to)
          (reschedule-IsValid M L S K s m m' (some id) v em same
            (λ u h. ground (arith, h, there, same u, dom u)))
  ]

  pub find_next-IsValid :
      (s s' : PThreadManager MT MP) (next : Option T)
      → IsValid M S s
      → find_next M S s ≡ ok (next, s')
      → IsValid M S s'
  unfolding find_next
  find_next-IsValid s s' next v e =
      let (m, em, dom) = v.managed in
      elim (Outcome-cases (M.fetch m)) [
        | inl stop ↦ absurd (ground (arith, e, em, stop))
        | inr ((o, m'), run) ↦
            let made : find_next M S s ≡ ok (switch_to M S o s m') =
              rw (em, find_next) (rw (run, find_next) refl) in
            let q : (switch_to M S o s m').1 ≡ s' = ap (λ x. x.1) (ok-injective (sym made ∙ e)) in
            subst (IsValid M S) q
              (switch_to-IsValid o s m m' v em (λ u. L.get_mut-fetch u m m' o run) dom)
      ]

  -- The process of the current thread.
  current_rel-ok :
      (s : PThreadManager MT MP) (x : ProcId × ProcThreadRel)
      → current_rel s ≡ ok x
      → s.rel_map x.0 ≡ some x.1
  unfolding current_rel
  current_rel-ok s x e = ground (arith, e)

  pub wait-IsValid :
      (s s' : PThreadManager MT MP) (child : ProcId) (o : Option (ProcId × ℤ))
      → IsValid M S s
      → wait child s ≡ ok (o, s')
      → IsValid M S s'
  unfolding wait wait_any_child wait_child
  wait-IsValid s s' child o v e = elim (Outcome-cases (current_rel s)) [
    | inl stop ↦ absurd (ground (arith, e, stop))
    | inr ((pid, r), run) ↦
        let answer = if child == usize_max then wait_any_child r else wait_child child r in
        let t : PThreadManager MT MP = record s { rel_map = Map.insert pid answer.1 s.rel_map } in
        let made : wait child s ≡ ok (answer.0, t) = rw (run, wait) refl in
        let q : t ≡ s' = ap (λ x. x.1) (ok-injective (sym made ∙ e)) in
        let any = wait_any_child-keeps (family r) in
        let one = wait_child-keeps child (family r) in
        subst (IsValid M S) q (
          replace-IsValid M L S K s pid r answer.1 v (current_rel-ok s (pid, r) run)
            (ground (arith, any, one)) (ground (arith, any, one)) (ground arith))
  ]

  pub waittid-IsValid :
      (s s' : PThreadManager MT MP) (tid : ThreadId) (o : Option ℤ)
      → IsValid M S s
      → waittid tid s ≡ ok (o, s')
      → IsValid M S s'
  unfolding waittid wait_thread
  waittid-IsValid s s' tid o v e = elim (Outcome-cases (current_rel s)) [
    | inl stop ↦ absurd (ground (arith, e, stop))
    | inr ((pid, r), run) ↦
        let answer = wait_thread tid r in
        let t : PThreadManager MT MP = record s { rel_map = Map.insert pid answer.1 s.rel_map } in
        let made : waittid tid s ≡ ok (answer.0, t) = rw (run, waittid) refl in
        let q : t ≡ s' = ap (λ x. x.1) (ok-injective (sym made ∙ e)) in
        subst (IsValid M S) q (
          replace-IsValid M L S K s pid r answer.1 v (current_rel-ok s (pid, r) run) (ground arith)
            (ground arith) (ground arith))
  ]
