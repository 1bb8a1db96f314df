-- ===== src/TaskManage/Process/Valid.antt =====
-- `PManager` between calls (proc_manage.rs): what every operation keeps.
use tg_rcore_tutorial.Prelude.{◌≡◌, ◌≢◌, refl, true, none, some, arith, is_some, ok, IsSome-value}
use tg_rcore_tutorial.Prelude.Int.{ℤ}
use tg_rcore_tutorial.TaskManage.Manager.{Manager, IsManager}
use tg_rcore_tutorial.TaskManage.ProcRel.{ProcId, ProcRel}
use tg_rcore_tutorial.TaskManage.Process.{PManager, make_current_exited}
use tg_rcore_tutorial.TaskManage.Process.Tree.{IsTree}
use tg_rcore_tutorial.TaskManage.Process.Exit.{adopt-after, is_some-after, orphan-after, left}

-- The entries form a tree, the container holds an entity for exactly the processes of the tree,
-- and the current process, if any, is one of them.
pub record IsValid {P MP : Type 0} (M : Manager P MP) (s : PManager MP) : Type 0 where
  pub tree : IsTree s.rel_map
  pub managed :
      (m : MP) × (s.manager ≡ some m)
      × ((j : ProcId) → is_some (M.get_mut j m) ≡ is_some (s.rel_map j))
  pub running : (id : ProcId) → s.current ≡ some id → is_some (s.rel_map id) ≡ true

module _ {P MP : Type 0} (M : Manager P MP) (L : IsManager M) where
  -- From a valid state, the exit of the current process, if that is not process 0, does not
  -- panic; it leaves a valid state with no current process and without the one that exited, and
  -- every child of that one has process 0 as its parent.
  pub make_current_exited-IsValid :
      (s : PManager MP) (id : ProcId) (code : ℤ)
      → IsValid M s
      → s.current ≡ some id
      → id ≢ 0
      → (s' : PManager MP) × (make_current_exited M code s ≡ ok s')
        × IsValid M s'
        × (s'.current ≡ none)
        × (s'.rel_map id ≡ none)
        × ((c : ProcId) (r : ProcRel)
            → s.rel_map c ≡ some r
            → r.parent ≡ id
            → (r' : ProcRel) × (s'.rel_map c ≡ some r') × (r'.parent ≡ 0))
  unfolding make_current_exited
  make_current_exited-IsValid s id code v cur ne =
      let (r, here) = IsSome-value (s.rel_map id) (v.running id cur) in
      let (m, em, dom) = v.managed in
      let (run, tree) = adopt-after s.rel_map v.tree id r code here ne in
      let s' : PManager MP = record {
        rel_map = left id r.parent code r.children s.rel_map;
        manager = some (M.delete id m);
        current = none;
      } in
      (
        s',
        rw (cur, em, here, run, make_current_exited),
        record {
          tree = tree;
          managed = (
            M.delete id m,
            refl,
            λ j. ground (
              arith,
              L.get_mut-delete j id m,
              dom j,
              is_some-after s.rel_map v.tree id r code here ne j,
            ),
          );
          running = λ j h. cc;
        },
        refl,
        ground arith,
        λ c rc hc hp. orphan-after s.rel_map v.tree id r code here ne c rc hc hp,
      )
