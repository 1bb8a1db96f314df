-- ===== src/TaskManage/Process/Add.antt =====
-- `add` (proc_manage.rs): a new process under its parent.
use tg_rcore_tutorial.Prelude.{
  ℕ, ◌≡◌, ◌≢◌, refl, subst, inl, inr, Option-cases, ◌==◌, if◌then◌else◌, true, false, Option, none,
  some, [], ◌∷◌, ◌++◌, arith, count, count-append, is_some, ok, IsSome-value,
}
use tg_rcore_tutorial.Prelude.Map
use tg_rcore_tutorial.Prelude.Map.{Map}
use tg_rcore_tutorial.TaskManage.Manager.{Manager, IsManager}
use tg_rcore_tutorial.TaskManage.ProcRel
use tg_rcore_tutorial.TaskManage.ProcRel.{ProcId, ProcRel, usize_max, add_child}
use tg_rcore_tutorial.TaskManage.Process
use tg_rcore_tutorial.TaskManage.Process.{PManager, add, set_manager}
use tg_rcore_tutorial.TaskManage.Process.Tree.{
  IsTree, points_to, Rooted, at_root, below, moved-Rooted,
}
use tg_rcore_tutorial.TaskManage.Process.Valid.{IsValid}

-- The map once `id` is there, a child of `q` whose entry was `rq`.
abbrev pub grown : ProcId → ProcId → ProcRel → Map ProcRel → Map ProcRel
grown id q rq rel =
    Map.insert id (record { parent = q; children = []; dead_children = [] })
      (Map.insert q (record rq { children = rq.children ++ id ∷ [] }) rel)

module _ (rel : Map ProcRel) (t : IsTree rel) (id q : ProcId) (rq : ProcRel) (fresh : rel id ≡ none)
    (ne : id ≢ usize_max) (known : rel q ≡ some rq) where
  points_to-fresh : (c : ProcId) (o : Option ProcRel) → rel c ≡ o → points_to id o ≡ 0
  points_to-fresh c none e = refl
  points_to-fresh c (some r) e = ground (arith, fresh, t.parent_in c r e)

  grown-children_count :
      (p c : ProcId) (r : ProcRel)
      → grown id q rq rel p ≡ some r
      → count c r.children ≡ points_to p (grown id q rq rel c)
  grown-children_count p c r h = ground (
    arith,
    fresh,
    known,
    points_to-fresh c (rel c) refl,
    count-append c rq.children (id ∷ []),
    t.children_count p c r,
    t.children_count q c rq known,
  )

  grown-root : (r : ProcRel) × (grown id q rq rel 0 ≡ some r) × (r.parent ≡ usize_max)
  grown-root =
      let (root, e, orphan) = t.root in
      (
        record root { children = if q == 0 then root.children ++ id ∷ [] else root.children },
        ground (arith, fresh, known, e),
        orphan,
      )

  kept-Rooted : (c : ProcId) → Rooted rel c → Rooted (grown id q rq rel) c
  kept-Rooted c up =
      moved-Rooted rel (grown id q rq rel) (λ j. j ≡ j)
        (λ j r e k. (
          if q == j then record rq { children = rq.children ++ id ∷ [] } else r,
          ground (arith, fresh, known, e),
          inr (ground (arith, known, e), refl),
        ))
        c up refl

  grown-Rooted :
      (c : ProcId) (r : ProcRel) → grown id q rq rel c ≡ some r → Rooted (grown id q rq rel) c
  grown-Rooted c r h = elim (Option-cases (rel c)) [
    | inl e ↦
        let same : id ≡ c = ground (arith, known, e) in
        subst (Rooted (grown id q rq rel)) same (
          below id (record { parent = q; children = []; dead_children = [] }) (ground arith)
            (kept-Rooted q (t.rooted q rq known)))
    | inr (r0, e) ↦ kept-Rooted c (t.rooted c r0 e)
  ]

  pub grown-IsTree : IsTree (grown id q rq rel)
  grown-IsTree = record {
    root = grown-root;
    unused = ground (arith, t.unused);
    parent_in = λ c r h. ground (arith, t.parent_in c r, t.parent_in c rq);
    no_self = λ c r h. ground (arith, t.no_self c r, t.no_self c rq);
    children_count = grown-children_count;
    rooted = grown-Rooted;
  }

module _ {P MP : Type 0} (M : Manager P MP) (L : IsManager M) where
  -- From a valid state, `add` of a pid that is not in use, under a parent that is, does not panic
  -- and leaves a valid state, in which the new process is stored and has that parent.
  pub add-IsValid :
      (s : PManager MP) (id parent : ProcId) (task : P)
      → IsValid M s
      → s.rel_map id ≡ none
      → id ≢ usize_max
      → is_some (s.rel_map parent) ≡ true
      → (s' : PManager MP) × (add M id task parent s ≡ ok s')
        × IsValid M s'
        × (s'.current ≡ s.current)
        × (s'.rel_map id ≡ some (ProcRel.new parent))
  unfolding add add_child ProcRel.new
  add-IsValid s id parent task v fresh ne known =
      let (rq, here) = IsSome-value (s.rel_map parent) known in
      let (m, em, dom) = v.managed in
      let other : (parent == usize_max) ≡ false = ground (arith, v.tree.unused, here) in
      let s' : PManager MP = record s {
        rel_map = grown id parent rq s.rel_map;
        manager = some (M.add id (M.insert id task m));
      } in
      (
        s',
        rw (em, other, here, add),
        record {
          tree = grown-IsTree s.rel_map v.tree id parent rq fresh ne here;
          managed = (
            M.add id (M.insert id task m),
            refl,
            λ j. ground (
              arith,
              L.get_mut-add j id (M.insert id task m),
              L.get_mut-insert j id task m,
              dom j,
              here,
            ),
          );
          running = λ j h. ground (arith, v.running j h);
        },
        refl,
        ground arith,
      )

  -- Adding process 0 with no parent to a new `PManager` over an empty container does not panic
  -- and gives a valid state.
  pub boot-IsValid :
      (m : MP) (task : P)
      → ((j : ℕ) → M.get_mut j m ≡ none)
      → (s : PManager MP) × (add M 0 task usize_max (set_manager m Process.new) ≡ ok s)
        × IsValid M s
  unfolding add set_manager Process.new ProcRel.new
  boot-IsValid m task vacant = (
    record {
      rel_map = Map.insert 0 (ProcRel.new usize_max) Map.empty;
      manager = some (M.add 0 (M.insert 0 task m));
      current = none;
    },
    refl,
    record {
      tree = record {
        root = (ProcRel.new usize_max, refl, refl);
        unused = refl;
        parent_in = λ c r h. ground arith;
        no_self = λ c r h. ground arith;
        children_count = λ p c r h. ground arith;
        rooted = λ c r h. let same : 0 ≡ c = ground arith in subst (Rooted _) same at_root;
      };
      managed = (
        M.add 0 (M.insert 0 task m),
        refl,
        λ j.
            ground
              (arith, L.get_mut-add j 0 (M.insert 0 task m), L.get_mut-insert j 0 task m, vacant j),
      );
      running = λ j h. cc;
    },
  )
