-- ===== src/TaskManage/Process/Tree.antt =====
-- The process tree that `PManager::rel_map` stands for (proc_manage.rs).
use tg_rcore_tutorial.Prelude.{
  ℕ, ◌≡◌, ◌≢◌, sym, subst, ◌⊎◌, inl, inr, ◌==◌, if◌then◌else◌, true, Option, none, some, count,
  is_some,
}
use tg_rcore_tutorial.Prelude.Map.{Map}
use tg_rcore_tutorial.TaskManage.ProcRel.{ProcId, ProcRel, usize_max}

-- 1 where the entry names `p` as its parent, else 0.
abbrev pub points_to : ProcId → Option ProcRel → ℕ
points_to p none = 0
points_to p (some r) = if r.parent == p then 1 else 0

-- The process is process 0, or has an entry whose parent is such a process.
pub data Rooted (rel : Map ProcRel) : ProcId → Type 0 where
  at_root : Rooted rel 0
  below : (c : ProcId) (r : ProcRel) → rel c ≡ some r → Rooted rel r.parent → Rooted rel c

-- Processes stay rooted when those that are kept keep their parents, or come to be children of
-- process 0.
pub moved-Rooted :
    (rel rel' : Map ProcRel) (keep : ProcId → Type 0)
    → ((c : ProcId) (r : ProcRel)
        → rel c ≡ some r
        → keep c
        → (r' : ProcRel) × (rel' c ≡ some r')
          × ((r'.parent ≡ 0) ⊎ ((r'.parent ≡ r.parent) × keep r.parent)))
    → (c : ProcId) → Rooted rel c
    → keep c
    → Rooted rel' c
moved-Rooted rel rel' keep moves c at_root k = at_root
moved-Rooted rel rel' keep moves c (below c1 r e up) k =
    let (r', e', how) = moves c r e k in
    below c r' e' (elim how [
      | inl top ↦ subst (Rooted rel') (sym top) at_root
      | inr (same, kp) ↦
          subst (Rooted rel') (sym same) (moved-Rooted rel rel' keep moves r.parent up kp)
    ])

-- Process 0 is the root, with no parent; every other process has a parent that is in the map;
-- a process lists as its children, each once, exactly those that name it as their parent; and
-- from each process the parents lead to process 0.
pub record IsTree (rel : Map ProcRel) : Type 0 where
  pub root : (r : ProcRel) × (rel 0 ≡ some r) × (r.parent ≡ usize_max)
  pub unused : rel usize_max ≡ none
  pub parent_in :
      (c : ProcId) (r : ProcRel)
      → rel c ≡ some r
      → (r.parent ≡ usize_max) ⊎ (is_some (rel r.parent) ≡ true)
  pub no_self : (c : ProcId) (r : ProcRel) → rel c ≡ some r → r.parent ≢ c
  pub children_count :
      (p c : ProcId) (r : ProcRel) → rel p ≡ some r → count c r.children ≡ points_to p (rel c)
  pub rooted : (c : ProcId) (r : ProcRel) → rel c ≡ some r → Rooted rel c
