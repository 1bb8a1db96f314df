-- ===== src/TaskManage/Threads/Bereaved.antt =====
-- The entries of the tree when a thread exits, and when its process ends (thread_manager.rs).
use tg_rcore_tutorial.Prelude.{
  ℕ, ◌≡◌, ◌≢◌, refl, ap, sym, subst, ◌∙◌, ◌==◌, if◌then◌else◌, true, Option, none, some, List, [],
  ◌∷◌, ◌++◌, arith, erase, contains, contains-count, ok,
}
use tg_rcore_tutorial.Prelude.Map
use tg_rcore_tutorial.Prelude.Map.{Map}
use tg_rcore_tutorial.Prelude.Int.{ℤ}
use tg_rcore_tutorial.TaskManage.ProcRel.{ProcId, ProcRel}
use tg_rcore_tutorial.TaskManage.ProcThreadRel.{
  ThreadId, ProcThreadRel, family, del_child, del_thread,
}
use tg_rcore_tutorial.TaskManage.ProcThreadRel.WaitThread.{del_thread_lem}
use tg_rcore_tutorial.TaskManage.ProcRel.Waits.{parent-del_child, del_child_lem}
use tg_rcore_tutorial.TaskManage.Process
use tg_rcore_tutorial.TaskManage.Process.Tree.{IsTree}
use tg_rcore_tutorial.TaskManage.Process.Exit.{adopt-after, left}
use tg_rcore_tutorial.TaskManage.Threads.{update, adopt}
use tg_rcore_tutorial.TaskManage.Threads.Families.{
  families, family_of, SameThreads, families-remove, families-notify, adopt_lem,
}

-- The loop of `del_proc`, in a tree.
module _ (rel : Map ProcThreadRel) (tree : IsTree (families rel)) (id : ProcId) (r : ProcThreadRel)
    (code : ℤ) (here : rel id ≡ some r) (ne : id ≢ 0) where
  here' : families rel id ≡ some (family r)
  here' = ap family_of here

  abbrev bereaved : Map ProcThreadRel
  bereaved = update r.parent (del_child id code) (Map.remove id rel)

  pub after_process :
      (rel' : Map ProcThreadRel) × (adopt r.children bereaved ≡ ok rel')
      × (families rel' ≡ left id r.parent code r.children (families rel))
      × IsTree (families rel')
      × SameThreads bereaved rel'
  after_process =
      let (run, kept) = adopt-after (families rel) tree id (family r) code here' ne in
      let fams =
        families-notify r.parent id code (Map.remove id rel)
        ∙ ap (Process.notify_parent r.parent id code) (families-remove id rel) in
      let (rel', runs, same, threads) =
        adopt_lem r.children bereaved (left id r.parent code r.children (families rel))
          (ap (Process.adopt r.children) fams ∙ run) in
      (rel', runs, same, subst IsTree (sym same) kept, threads)

abbrev pub parent_in : Option ProcRel → Option ProcId
parent_in none = none
parent_in (some r) = some r.parent

abbrev pub dead_in : Option ProcRel → List (ProcId × ℤ)
dead_in none = []
dead_in (some r) = r.dead_children

-- The parent of `c` once `id` has ended.
abbrev pub moved : ProcId → ProcId → Option ProcId → Option ProcId
moved id c none = none
moved id c (some q) = if id == c then none else some (if q == id then 0 else q)

-- The dead children of `q` once `id`, a child of `parent`, has ended with a code.
abbrev pub mourned : ProcId → ℤ → ProcId → ProcId → Option ProcRel → List (ProcId × ℤ)
mourned id code parent q none = []
mourned id code parent q (some r) =
    if id == q
    then []
    else if parent == q
    then r.dead_children ++ (id, code) ∷ []
    else r.dead_children

module _ (fam : Map ProcRel) (tree : IsTree fam) (id : ProcId) (r : ProcRel) (code : ℤ)
    (here : fam id ≡ some r) where
  pub parent-left :
      (c : ProcId)
      → parent_in (left id r.parent code r.children fam c) ≡ moved id c (parent_in (fam c))
  parent-left c = from (fam c) refl
    where
      from :
          (o : Option ProcRel)
          → fam c ≡ o
          → parent_in (left id r.parent code r.children fam c) ≡ moved id c (parent_in o)
      from none e = ground (arith, e)
      from (some rc) e =
          ground (arith, e, tree.children_count id c r here, parent-del_child id code rc)

  pub dead-left :
      (q : ProcId)
      → dead_in (left id r.parent code r.children fam q) ≡ mourned id code r.parent q (fam q)
  dead-left q = from (fam q) refl
    where
      from :
          (o : Option ProcRel)
          → fam q ≡ o
          → dead_in (left id r.parent code r.children fam q) ≡ mourned id code r.parent q o
      from none e = ground (arith, e)
      from (some rq) e = ground (
        arith,
        e,
        here,
        tree.children_count r.parent id rq,
        contains-count rq.children id,
        del_child_lem id code rq,
      )

-- The entry of a process once one of its threads has exited.
abbrev pub one_less : ThreadId → ℤ → ProcThreadRel → ProcThreadRel
one_less t code r = record r {
  threads = erase t r.threads;
  dead_threads = r.dead_threads ++ (t, code) ∷ [];
}

pub update-del_thread :
    (pid t : ℕ) (code : ℤ) (rel : Map ProcThreadRel) (r : ProcThreadRel)
    → rel pid ≡ some r
    → contains r.threads t ≡ true
    → update pid (del_thread t code) rel ≡ Map.insert pid (one_less t code r) rel
unfolding update
update-del_thread pid t code rel r e here =
    rw (e, update) (ap (λ x. Map.insert pid x rel) (del_thread_lem t code r here))
