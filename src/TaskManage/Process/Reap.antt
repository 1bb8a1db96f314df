-- ===== src/TaskManage/Process/Reap.antt =====
-- An exit and the parent's wait (proc_manage.rs).
use tg_rcore_tutorial.Prelude.{
  ◌≡◌, ◌≢◌, refl, ap, ◌∙◌, ◌==◌, ltb, if◌then◌else◌, true, false, none, some, List, [], ◌∷◌, ◌++◌,
  arith, count, contains, contains-count, extract, extract-snoc, extract-erase, count-erase,
  count-append, fun_ext, ok, erase,
}
use tg_rcore_tutorial.Prelude.Map
use tg_rcore_tutorial.Prelude.Map.{Map}
use tg_rcore_tutorial.Prelude.Int.{ℤ}
use tg_rcore_tutorial.TaskManage.Manager.{Manager}
use tg_rcore_tutorial.TaskManage.ProcRel.{ProcId, ProcRel, usize_max, wait_child}
use tg_rcore_tutorial.TaskManage.ProcRel.Waits.{del_child_lem}
use tg_rcore_tutorial.TaskManage.Process.{PManager, make_current_exited, wait}
use tg_rcore_tutorial.TaskManage.Process.Tree.{IsTree}
use tg_rcore_tutorial.TaskManage.Process.Exit.{adopt-after, left}
use tg_rcore_tutorial.TaskManage.Process.Valid.{IsValid}

wait_child-dead :
    (c : ProcId) (r : ProcRel) (d : ProcId × ℤ) (rest : List (ProcId × ℤ))
    → extract (λ d. d.0 == c) r.dead_children ≡ some (d, rest)
    → wait_child c r ≡ (some d, record r { dead_children = rest })
unfolding wait_child
wait_child-dead c r d rest e = rw (e, wait_child)

wait_child-absent :
    (c : ProcId) (r : ProcRel)
    → extract (λ d. d.0 == c) r.dead_children ≡ none
    → count c r.children ≡ 0
    → wait_child c r ≡ (none, r)
unfolding wait_child
wait_child-absent c r e h =
    rw (e, wait_child) (ground (arith, extract-erase c r.children, contains-count r.children c))

wait_lem :
    {MP : Type 0} (s : PManager MP) (q pid : ProcId) (r : ProcRel)
    → s.current ≡ some q
    → s.rel_map q ≡ some r
    → pid ≢ usize_max
    → wait pid s
      ≡ ok
          ((wait_child pid r).0, record s { rel_map = Map.insert q (wait_child pid r).1 s.rel_map })
unfolding wait
wait_lem s q pid r cur here ne =
    let other : (pid == usize_max) ≡ false = ground arith in rw (cur, here, other, wait)

-- The entry of the parent once its child has exited.
abbrev pub bereft : ProcId → ℤ → ProcRel → ProcRel → ProcRel
bereft id code r rq = record {
  parent = if ltb 0 (count r.parent r.children) then 0 else rq.parent;
  children = if r.parent == 0 then erase id rq.children ++ r.children else erase id rq.children;
  dead_children = rq.dead_children ++ (id, code) ∷ [];
}

pub left-parent :
    (rel : Map ProcRel) (id : ProcId) (code : ℤ) (r rq : ProcRel)
    → IsTree rel
    → rel id ≡ some r
    → rel r.parent ≡ some rq
    → left id r.parent code r.children rel r.parent ≡ some (bereft id code r rq)
left-parent rel id code r rq t here up =
    let hit : contains rq.children id ≡ true =
      ground (arith, contains-count rq.children id, t.children_count r.parent id rq up, here) in
    ground (arith, up, t.no_self id r here, del_child_lem id code rq, hit)

count-bereft :
    (rel : Map ProcRel) (id : ProcId) (code : ℤ) (r rq : ProcRel)
    → IsTree rel
    → rel id ≡ some r
    → rel r.parent ≡ some rq
    → count id (bereft id code r rq).children ≡ 0
count-bereft rel id code r rq t here up = ground (
  arith,
  here,
  t.no_self id r here,
  t.children_count id id r here,
  t.children_count r.parent id rq up,
  count-erase id id rq.children,
  count-append id (erase id rq.children) r.children,
)

-- Two waits in a row, where the first reaps.
wait_twice :
    {MP : Type 0} (t : PManager MP) (q id : ProcId) (code : ℤ) (a : ProcRel)
    (ds : List (ProcId × ℤ))
    → t.current ≡ some q
    → t.rel_map q ≡ some (record a { dead_children = ds ++ (id, code) ∷ [] })
    → id ≢ usize_max
    → extract (λ d. d.0 == id) ds ≡ none
    → count id a.children ≡ 0
    → let u = record t { rel_map = Map.insert q (record a { dead_children = ds }) t.rel_map } in
      (wait id t ≡ ok (some (id, code), u)) × (wait id u ≡ ok (none, u))
wait_twice t q id code a ds cur at ne unseen none_left =
    let dead = record a { dead_children = ds ++ (id, code) ∷ [] } in
    let reaped = record a { dead_children = ds } in
    let u = record t { rel_map = Map.insert q reaped t.rel_map } in
    let first =
      wait_child-dead id dead (id, code) ds
        (extract-snoc (λ d. d.0 == id) ds (id, code) unseen (ground arith)) in
    let second = wait_child-absent id reaped unseen none_left in
    (
      wait_lem t q id dead cur at ne
          ∙ ap (λ w. ok (w.0, record t { rel_map = Map.insert q w.1 t.rel_map })) first,
      wait_lem u q id reaped cur (ground arith) ne
          ∙ ap (λ w. ok (w.0, record u { rel_map = Map.insert q w.1 u.rel_map })) second
          ∙ ap (λ m. ok (none, record t { rel_map = m })) (fun_ext λ j. ground arith),
    )

module _ {P MP : Type 0} (M : Manager P MP) where
  -- In a valid state the current process, other than process 0, exits with a code, without a
  -- panic. Its parent, in whose list of dead children no entry of that pid is left, becomes the
  -- current process and waits for it: the wait gives the pid with that very code, and a second
  -- one answers that there is no such child.
  pub exit_then_wait :
      (s s' : PManager MP) (id : ProcId) (code : ℤ) (r rq : ProcRel)
      → IsValid M s
      → s.current ≡ some id
      → id ≢ 0
      → s.rel_map id ≡ some r
      → s.rel_map r.parent ≡ some rq
      → extract (λ d. d.0 == id) rq.dead_children ≡ none
      → make_current_exited M code s ≡ ok s'
      → (s'' : PManager MP) × (wait id (record s' { current = some r.parent })
          ≡ ok (some (id, code), s''))
        × (wait id s'' ≡ ok (none, s''))
  unfolding make_current_exited
  exit_then_wait s s' id code r rq v cur ne here up unseen e =
      let (m, em, _) = v.managed in
      let q = r.parent in
      let (run, _) = adopt-after s.rel_map v.tree id r code here ne in
      let made : make_current_exited M code s
          ≡ ok (record {
            rel_map = left id q code r.children s.rel_map;
            manager = some (M.delete id m);
            current = none;
          }) =
        rw (cur, em, here, run, make_current_exited) in
      let same : s'.rel_map ≡ left id q code r.children s.rel_map = cc in
      let (first, second) =
        wait_twice (record s' { current = some q }) q id code (bereft id code r rq) rq.dead_children
          refl (ap (λ m. m q) same ∙ left-parent s.rel_map id code r rq v.tree here up)
          (ground (arith, here, v.tree.unused)) unseen
          (count-bereft s.rel_map id code r rq v.tree here up) in
      (_, first, second)
