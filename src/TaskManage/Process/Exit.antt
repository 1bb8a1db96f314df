-- ===== src/TaskManage/Process/Exit.antt =====
-- `make_current_exited` (proc_manage.rs): it removes a process and keeps the tree.
use tg_rcore_tutorial.Prelude.{
  ◌≡◌, ◌≢◌, refl, ap, fun_ext, ◌∙◌, ◌⊎◌, inl, inr, ◌==◌, Bool-cases, ltb, ◌+◌, ◌-◌, if◌then◌else◌,
  Bool, true, false, ◌&&◌, Option, none, some, List, [], ◌∷◌, ◌++◌, arith, count, count-append,
  is_some, ok,
}
use tg_rcore_tutorial.Prelude.Map
use tg_rcore_tutorial.Prelude.Map.{Map}
use tg_rcore_tutorial.Prelude.Int.{ℤ}
use tg_rcore_tutorial.TaskManage.ProcRel.{ProcId, ProcRel, del_child, usize_max}
use tg_rcore_tutorial.TaskManage.ProcRel.Waits.{parent-del_child, count-del_child}
use tg_rcore_tutorial.TaskManage.Process.{adopt, notify_parent}
use tg_rcore_tutorial.TaskManage.Process.Tree.{IsTree, points_to, Rooted, moved-Rooted}
use tg_rcore_tutorial.TaskManage.Process.Adopt.{adopted, adopt_lem}

abbrev notified : Bool → ProcId → ℤ → Option ProcRel → Option ProcRel
notified hit id code none = none
notified hit id code (some r) = some (if hit then del_child id code r else r)

notify_parent_lem :
    (q id : ProcId) (code : ℤ) (rel : Map ProcRel) (j : ProcId)
    → notify_parent q id code rel j ≡ notified (q == j) id code (rel j)
unfolding notify_parent
notify_parent_lem q id code rel j = ground arith

-- The entry under `j` once `id`, a child of `q` with children `cs`, has exited.
abbrev pub left : ProcId → ProcId → ℤ → List ProcId → Map ProcRel → Map ProcRel
left id q code cs rel j = adopted cs j (notified (q == j) id code (Map.remove id rel j))

-- Such an entry in terms of the one before.
record Left (id q : ProcId) (cs : List ProcId) (rel : Map ProcRel) (j : ProcId) (r' : ProcRel)
    : Type 0 where
  before : ProcRel
  found : rel j ≡ some before
  ne : j ≢ id
  parent : r'.parent ≡ (if ltb 0 (count j cs) then 0 else before.parent)
  children :
      (c : ProcId)
      → count c r'.children
        ≡ count c before.children
          - (if q == j then count c (id ∷ []) else 0)
          + (if j == 0 then count c cs else 0)

left-Left :
    (id q : ProcId) (code : ℤ) (cs : List ProcId) (rel : Map ProcRel) (j : ProcId) (r' : ProcRel)
    → (o : Option ProcRel) → rel j ≡ o
    → left id q code cs rel j ≡ some r'
    → Left id q cs rel j r'
left-Left id q code cs rel j r' none e h = ground arith
left-Left id q code cs rel j r' (some r) e h = record {
  before = r;
  found = e;
  ne = ground arith;
  parent = ground (arith, parent-del_child id code r);
  children = λ c. ground (
    arith,
    count-del_child c id code r,
    count-append c r.children cs,
    count-append c (del_child id code r).children cs,
  );
}

points_to-left :
    (p : ProcId) (cs : List ProcId) (c : ProcId) (hit : Bool) (id : ProcId) (code : ℤ)
    (o : Option ProcRel)
    → points_to p (adopted cs c (notified hit id code o))
      ≡ (if ltb 0 (count c cs) && is_some o then (if p == 0 then 1 else 0) else points_to p o)
points_to-left p cs c hit id code none = ground arith
points_to-left p cs c hit id code (some r) = ground (arith, parent-del_child id code r)

-- The exit of a process `id` other than the root keeps the tree.
module _ (rel : Map ProcRel) (t : IsTree rel) (id : ProcId) (r : ProcRel) (code : ℤ)
    (here : rel id ≡ some r) (ne : id ≢ 0) where
  abbrev after : Map ProcRel
  after = left id r.parent code r.children rel

  points_to-after :
      (p c : ProcId)
      → p ≢ id
      → points_to p (after c)
        ≡ points_to p (rel c)
          - (if r.parent == p then count c (id ∷ []) else 0)
          + (if p == 0 then count c r.children else 0)
  points_to-after p c h = ground (
    arith,
    here,
    points_to-left p r.children c (r.parent == c) id code (Map.remove id rel c),
    t.children_count id c r here,
    t.no_self id r here,
  )

  after-root : (r' : ProcRel) × (after 0 ≡ some r') × (r'.parent ≡ usize_max)
  after-root =
      let (root, e, orphan) = t.root in
      (
        record root {
          parent = (if r.parent == 0 then del_child id code root else root).parent;
          children =
              (if r.parent == 0 then del_child id code root else root).children ++ r.children;
          dead_children = (if r.parent == 0 then del_child id code root else root).dead_children;
        },
        ground (arith, e, t.children_count id 0 r here),
        ground (arith, parent-del_child id code root),
      )

  after-unused : after usize_max ≡ none
  after-unused = ground (arith, t.unused)

  after-parent_in :
      (c : ProcId) (r' : ProcRel)
      → after c ≡ some r'
      → (r'.parent ≡ usize_max) ⊎ (is_some (after r'.parent) ≡ true)
  after-parent_in c r' h =
      let l = left-Left id r.parent code r.children rel c r' (rel c) refl h in
      ground (
        arith,
        l.found,
        l.parent,
        l.ne,
        t.parent_in c l.before l.found,
        t.children_count id c r here,
        t.root,
      )

  after-no_self : (c : ProcId) (r' : ProcRel) → after c ≡ some r' → r'.parent ≢ c
  after-no_self c r' h =
      let l = left-Left id r.parent code r.children rel c r' (rel c) refl h in
      ground (
        arith,
        l.found,
        l.parent,
        l.ne,
        t.no_self c l.before l.found,
        t.children_count id c r here,
        t.root,
      )

  after-children_count :
      (p c : ProcId) (r' : ProcRel)
      → after p ≡ some r'
      → count c r'.children ≡ points_to p (after c)
  after-children_count p c r' h =
      let l = left-Left id r.parent code r.children rel p r' (rel p) refl h in
      l.children c ∙ rw (points_to-after p c l.ne) (rw (t.children_count p c l.before l.found))

  after-moves :
      (c : ProcId) (rc : ProcRel)
      → rel c ≡ some rc
      → c ≢ id
      → (r' : ProcRel) × (after c ≡ some r')
        × ((r'.parent ≡ 0) ⊎ ((r'.parent ≡ rc.parent) × (rc.parent ≢ id)))
  after-moves c rc e other =
      let kept = if r.parent == c then del_child id code rc else rc in
      let r' : ProcRel = record kept {
        parent = if ltb 0 (count c r.children) then 0 else kept.parent;
        children = if c == 0 then kept.children ++ r.children else kept.children;
      } in
      (
        r',
        ground (arith, e),
        elim (Bool-cases (rc.parent == id)) [
          | inl hit ↦ inl (ground (arith, e, t.children_count id c r here))
          | inr miss ↦ inr (
            ground (arith, e, parent-del_child id code rc, t.children_count id c r here),
            ground arith,
          )
        ],
      )

  after-Rooted : (c : ProcId) (r' : ProcRel) → after c ≡ some r' → Rooted after c
  after-Rooted c r' h =
      let l = left-Left id r.parent code r.children rel c r' (rel c) refl h in
      moved-Rooted rel after (λ j. j ≢ id) after-moves c (t.rooted c l.before l.found) l.ne

  after-IsTree : IsTree after
  after-IsTree = record {
    root = after-root;
    unused = after-unused;
    parent_in = after-parent_in;
    no_self = after-no_self;
    children_count = after-children_count;
    rooted = after-Rooted;
  }

  is_some-notify :
      (j : ProcId)
      → is_some (notify_parent r.parent id code (Map.remove id rel) j)
        ≡ (if id == j then false else is_some (rel j))
  is_some-notify j = ground (arith, notify_parent_lem r.parent id code (Map.remove id rel) j)

  pub adopt-after :
      (adopt r.children (notify_parent r.parent id code (Map.remove id rel))
        ≡ ok (left id r.parent code r.children rel))
      × IsTree (left id r.parent code r.children rel)
  adopt-after =
      let (rel', run, at) =
        adopt_lem r.children (notify_parent r.parent id code (Map.remove id rel))
          (λ c h.
            ground (arith, is_some-notify c, t.children_count id c r here, t.no_self id r here))
          (ground (arith, is_some-notify 0, t.root)) in
      let same : rel' ≡ after = fun_ext λ j.
        at j
        ∙ ap (adopted r.children j) (notify_parent_lem r.parent id code (Map.remove id rel) j) in
      (run ∙ ap ok same, after-IsTree)

  pub is_some-after :
      (j : ProcId)
      → is_some (left id r.parent code r.children rel j)
        ≡ (if id == j then false else is_some (rel j))
  is_some-after j = ground arith

  pub orphan-after :
      (c : ProcId) (rc : ProcRel)
      → rel c ≡ some rc
      → rc.parent ≡ id
      → (r' : ProcRel) × (left id r.parent code r.children rel c ≡ some r') × (r'.parent ≡ 0)
  orphan-after c rc hc hp =
      let kept = if r.parent == c then del_child id code rc else rc in
      (
        record kept {
          parent = 0;
          children = if c == 0 then kept.children ++ r.children else kept.children;
        },
        ground (arith, hc, t.no_self c rc hc, t.children_count id c r here),
        refl,
      )
