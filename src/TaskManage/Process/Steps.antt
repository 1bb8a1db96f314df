-- ===== src/TaskManage/Process/Steps.antt =====
-- The other operations of `PManager` (proc_manage.rs), and its runs.
use tg_rcore_tutorial.Prelude.{
  ◌≡◌, refl, ap, ◌∙◌, ◌⊎◌, inl, inr, ◌==◌, if◌then◌else◌, Option, none, some, arith, is_some, ok,
  panic, IsSome-value, Option-cases, Outcome-cases,
}
use tg_rcore_tutorial.Prelude.Map
use tg_rcore_tutorial.Prelude.Map.{Map}
use tg_rcore_tutorial.Prelude.Int.{ℤ}
use tg_rcore_tutorial.TaskManage.Manager.{Manager, IsManager}
use tg_rcore_tutorial.TaskManage.ProcRel.{ProcId, ProcRel, usize_max, wait_child, wait_any_child}
use tg_rcore_tutorial.TaskManage.Process.{
  PManager, switch_to, find_next, make_current_suspend, wait,
}
use tg_rcore_tutorial.TaskManage.Process.Tree.{IsTree, Rooted, moved-Rooted}
use tg_rcore_tutorial.TaskManage.Process.Valid.{IsValid}

-- A wait changes the list of the dead at most.
pub wait_any_child-keeps :
    (r : ProcRel)
    → ((wait_any_child r).1.parent ≡ r.parent) × ((wait_any_child r).1.children ≡ r.children)
unfolding wait_any_child
wait_any_child-keeps r = (ground arith, ground arith)

pub wait_child-keeps :
    (c : ProcId) (r : ProcRel)
    → ((wait_child c r).1.parent ≡ r.parent) × ((wait_child c r).1.children ≡ r.children)
unfolding wait_child
wait_child-keeps c r = (ground arith, ground arith)

replace-Rooted :
    (rel : Map ProcRel) (id : ProcId) (r r' : ProcRel)
    → rel id ≡ some r
    → r'.parent ≡ r.parent
    → (c : ProcId) → Rooted rel c
    → Rooted (Map.insert id r' rel) c
replace-Rooted rel id r r' here p c up =
    moved-Rooted rel (Map.insert id r' rel) (λ j. j ≡ j)
      (λ j a e k. (
        if id == j then r' else a,
        ground (arith, here, e),
        inr (ground (arith, here, e, p), refl),
      ))
      c up refl

-- A new entry with the same parent and children keeps the tree.
pub replace-IsTree :
    (rel : Map ProcRel) (id : ProcId) (r r' : ProcRel)
    → IsTree rel
    → rel id ≡ some r
    → r'.parent ≡ r.parent
    → r'.children ≡ r.children
    → IsTree (Map.insert id r' rel)
replace-IsTree rel id r r' t here p c = record {
  root =
      let (root, e, orphan) = t.root in
      (if id == 0 then r' else root, ground (arith, here, e), ground (arith, here, e, orphan));
  unused = ground (arith, t.unused);
  parent_in = λ j a h. ground (arith, t.parent_in j a, t.parent_in j r);
  no_self = λ j a h. ground (arith, t.no_self j a, t.no_self j r);
  children_count = λ q j a h. ground (arith, t.children_count q j a, t.children_count q j r);
  rooted = λ j a h. elim (Option-cases (rel j)) [
    | inl e ↦ absurd (ground (arith, here, e))
    | inr (b, e) ↦ replace-Rooted rel id r r' here p j (t.rooted j b e)
  ];
}

module _ {P MP : Type 0} (M : Manager P MP) (L : IsManager M) where
  -- From a valid state with a current process, `wait` does not panic, and leaves a valid state
  -- with the same current process.
  pub wait-IsValid :
      (s : PManager MP) (id pid : ProcId)
      → IsValid M s
      → s.current ≡ some id
      → (o : Option (ProcId × ℤ)) × (s' : PManager MP) × (wait pid s ≡ ok (o, s'))
        × IsValid M s'
        × (s'.current ≡ s.current)
  unfolding wait
  wait-IsValid s id pid v cur =
      let (r, here) = IsSome-value (s.rel_map id) (v.running id cur) in
      let (m, em, dom) = v.managed in
      let answer = if pid == usize_max then wait_any_child r else wait_child pid r in
      let par : answer.1.parent ≡ r.parent =
        ground (arith, wait_any_child-keeps r, wait_child-keeps pid r) in
      let chi : answer.1.children ≡ r.children =
        ground (arith, wait_any_child-keeps r, wait_child-keeps pid r) in
      (
        answer.0,
        record s { rel_map = Map.insert id answer.1 s.rel_map },
        rw (cur, here, wait),
        record {
          tree = replace-IsTree s.rel_map id r answer.1 v.tree here par chi;
          managed = (m, em, λ j. ground (arith, dom j, here));
          running = λ j h. ground (arith, v.running j h);
        },
        refl,
      )

  -- From a valid state with a current process, `make_current_suspend` does not panic, and leaves
  -- a valid state with none, in which that process is in the ready queue.
  pub make_current_suspend-IsValid :
      (s : PManager MP) (id : ProcId)
      → IsValid M s
      → s.current ≡ some id
      → (s' : PManager MP) × (make_current_suspend M s ≡ ok s') × IsValid M s' × (s'.current ≡ none)
  unfolding make_current_suspend
  make_current_suspend-IsValid s id v cur =
      let (m, em, dom) = v.managed in
      (
        record s { manager = some (M.add id m); current = none },
        rw (cur, em, make_current_suspend),
        record {
          tree = v.tree;
          managed = (M.add id m, refl, λ j. ap is_some (L.get_mut-add j id m) ∙ dom j);
          running = λ j h. cc;
        },
        refl,
      )

  switch_to-IsValid :
      (next : Option ProcId) (s : PManager MP) (m' : MP)
      → IsValid M s
      → ((j : ProcId) → is_some (M.get_mut j m') ≡ is_some (s.rel_map j))
      → IsValid M (switch_to M next s m').1
  unfolding switch_to
  switch_to-IsValid none s m' v dom = record {
    tree = v.tree;
    managed = (m', refl, dom);
    running = v.running;
  }
  switch_to-IsValid (some id) s m' v dom = elim (Option-cases (M.get_mut id m')) [
    | inl e ↦
        rw (e, switch_to) (record { tree = v.tree; managed = (m', refl, dom); running = v.running })
    | inr (task, e) ↦
        rw (e, switch_to)
          (record {
            tree = v.tree;
            managed = (m', refl, dom);
            running = λ j h. ground (arith, dom id, e);
          })
  ]

  -- From a valid state, `find_next` panics only if the fetch from the container does. Else it
  -- leaves a valid state.
  pub find_next-IsValid :
      (s : PManager MP)
      → IsValid M s
      → (m : MP) × (s.manager ≡ some m)
        × (((M.fetch m ≡ panic) × (find_next M s ≡ panic))
            ⊎ ((o : Option P) × (s' : PManager MP) × (find_next M s ≡ ok (o, s')) × IsValid M s'))
  unfolding find_next
  find_next-IsValid s v =
      let (m, em, dom) = v.managed in
      (
        m,
        em,
        elim (Outcome-cases (M.fetch m)) [
          | inl e ↦ inl (e, rw (em, find_next) (rw e))
          | inr ((next, m'), e) ↦ inr (
            (switch_to M next s m').0,
            (switch_to M next s m').1,
            rw (em, find_next) (rw e),
            switch_to-IsValid next s m' v (λ j. L.get_mut-fetch j m m' next e ∙ dom j),
          )
        ],
      )
