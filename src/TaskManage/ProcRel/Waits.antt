-- ===== src/TaskManage/ProcRel/Waits.antt =====
-- What `wait` gives back of a child that has exited (proc_rel.rs).
use tg_rcore_tutorial.Prelude.{
  ◌-◌, ◌≡◌, true, false, ◌==◌, if◌then◌else◌, none, some, List, [], ◌∷◌, ◌++◌, arith, extract,
  extract-erase, extract-snoc, contains, contains-count, count, count-erase, erase, pop_back-snoc,
  is_empty-snoc,
}
use tg_rcore_tutorial.Prelude.Int.{ℤ}
use tg_rcore_tutorial.TaskManage.ProcRel.{ProcId, ProcRel, del_child, wait_any_child, wait_child}

-- `del_child` on a child, and on anything else.
pub del_child_lem :
    (c : ProcId) (code : ℤ) (r : ProcRel)
    → del_child c code r ≡ (
        if contains r.children c
        then record r {
          children = erase c r.children;
          dead_children = r.dead_children ++ (c, code) ∷ [];
        }
        else r)
unfolding del_child
del_child_lem c code r = ground (arith, extract-erase c r.children)

-- A child that is listed once and was not reaped under its pid before, and that exits with a
-- code, is given back by the next `wait_child` with that code and leaves no trace: the list of
-- the dead is as it was before the exit, and a second `wait_child` finds no such child.
wait_child-del_child :
    (c : ProcId) (code : ℤ) (r : ProcRel)
    → count c r.children ≡ 1
    → extract (λ d. d.0 == c) r.dead_children ≡ none
    → let reaped = record r { children = erase c r.children } in
      (wait_child c (del_child c code r) ≡ (some (c, code), reaped))
      × (wait_child c reaped ≡ (none, reaped))
unfolding wait_child
wait_child-del_child c code r h unseen =
    let here : contains r.children c ≡ true = ground (arith, contains-count r.children c) in
    let gone : contains (erase c r.children) c ≡ false =
      ground (arith, contains-count (erase c r.children) c, count-erase c c r.children) in
    let self : (c == c) ≡ true = ground arith in
    (
      rw (del_child_lem c code r, here)
          (ground (
            arith,
            extract-snoc (λ (d : ProcId × ℤ). d.0 == c) r.dead_children (c, code) unseen self,
          )),
      ground (arith, extract-erase c (erase c r.children)),
    )

pub wait_any_child-snoc :
    (r : ProcRel) (ds : List (ProcId × ℤ)) (d : ProcId × ℤ)
    → wait_any_child (record r { dead_children = ds ++ d ∷ [] })
      ≡ (some d, record r { dead_children = ds })
unfolding wait_any_child
wait_any_child-snoc r ds d = rw (is_empty-snoc ds d) (rw (pop_back-snoc ds d))

-- A child that exits with a code is the one that `wait_any_child` gives back next, before the
-- children that exited earlier; it leaves no trace, and the earlier ones wait on.
pub wait_any_child-del_child :
    (c : ProcId) (code : ℤ) (r : ProcRel)
    → contains r.children c ≡ true
    → wait_any_child (del_child c code r)
      ≡ (some (c, code), record r { children = erase c r.children })
wait_any_child-del_child c code r here =
    rw (del_child_lem c code r, here)
      (wait_any_child-snoc (record r { children = erase c r.children }) r.dead_children (c, code))

pub parent-del_child :
    (c : ProcId) (code : ℤ) (r : ProcRel) → (del_child c code r).parent ≡ r.parent
parent-del_child c code r = rw (del_child_lem c code r) (ground arith)

pub count-del_child :
    (a c : ProcId) (code : ℤ) (r : ProcRel)
    → count a (del_child c code r).children ≡ count a r.children - count a (c ∷ [])
count-del_child a c code r =
    rw (del_child_lem c code r)
      (ground (arith, count-erase a c r.children, contains-count r.children c))
