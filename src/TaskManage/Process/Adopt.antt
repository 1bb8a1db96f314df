-- ===== src/TaskManage/Process/Adopt.antt =====
-- The loop of `make_current_exited` that hands orphans to process 0 (proc_manage.rs).
use tg_rcore_tutorial.Prelude.{
  ◌≡◌, refl, sym, ◌∙◌, inl, inr, Bool-cases, ◌==◌, ltb, ◌<◌, if◌then◌else◌, true, Option, none,
  some, List, [], ◌∷◌, ◌++◌, append-nil, append_assoc, arith, count, is_some, ok, IsSome-value,
}
use tg_rcore_tutorial.Prelude.Map
use tg_rcore_tutorial.Prelude.Map.{Map}
use tg_rcore_tutorial.TaskManage.ProcRel.{ProcId, ProcRel, add_child}
use tg_rcore_tutorial.TaskManage.Process.{adopt}

-- What the loop makes of the entry under `j`: an orphan gets parent 0, and the entry of process 0
-- gets all the orphans at the end of its children.
abbrev pub adopted : List ProcId → ProcId → Option ProcRel → Option ProcRel
adopted cs j none = none
adopted cs j (some r) = some (record r {
  parent = if ltb 0 (count j cs) then 0 else r.parent;
  children = if j == 0 then r.children ++ cs else r.children;
})

adopted-nil : (j : ProcId) (o : Option ProcRel) → adopted [] j o ≡ o
adopted-nil j none = refl
adopted-nil j (some r) = ground (arith, append-nil r.children)

-- One round of the loop.
abbrev round : ProcId → ProcRel → ProcRel → Map ProcRel → Map ProcRel
round i r root rel =
    Map.insert 0 (record root { children = root.children ++ i ∷ [] })
      (Map.insert i (record r { parent = 0 }) rel)

abbrev get_root : ProcId → ProcRel → ProcRel → ProcRel
get_root i r root = if i == 0 then record r { parent = 0 } else root

adopted-cons :
    (i : ProcId) (cs : List ProcId) (rel : Map ProcRel) (r root : ProcRel) (j : ProcId)
    → rel i ≡ some r
    → rel 0 ≡ some root
    → adopted cs j (round i r (get_root i r root) rel j) ≡ adopted (i ∷ cs) j (rel j)
adopted-cons i cs rel r root j hi h0 =
    ground (arith, append_assoc r.children (i ∷ []) cs, append_assoc root.children (i ∷ []) cs)

adopt-cons :
    (i : ProcId) (cs : List ProcId) (rel : Map ProcRel) (r root : ProcRel)
    → rel i ≡ some r
    → rel 0 ≡ some root
    → adopt (i ∷ cs) rel ≡ adopt cs (round i r (get_root i r root) rel)
unfolding adopt add_child
adopt-cons i cs rel r root hi h0 = elim (Bool-cases (i == 0)) [
  | inl e ↦ rw (hi, e, adopt)
  | inr e ↦ rw (hi, e, h0, adopt)
]

round-is_some :
    (i : ProcId) (r root : ProcRel) (rel : Map ProcRel) (c : ProcId)
    → is_some (rel c) ≡ true
    → is_some (round i r root rel c) ≡ true
round-is_some i r root rel c h = ground arith

-- The loop does not panic if the orphans and process 0 are in the map, and its result is known
-- at every key.
pub adopt_lem :
    (cs : List ProcId) (rel : Map ProcRel)
    → ((c : ProcId) → 0 < count c cs → is_some (rel c) ≡ true)
    → is_some (rel 0) ≡ true
    → (rel' : Map ProcRel) × (adopt cs rel ≡ ok rel')
      × ((j : ProcId) → rel' j ≡ adopted cs j (rel j))
unfolding adopt
adopt_lem [] rel known h0 = (rel, refl, λ j. sym (adopted-nil j (rel j)))
adopt_lem (i ∷ cs) rel known h0 =
    let (r, er) = IsSome-value (rel i) (known i (ground arith)) in
    let (root, e0) = IsSome-value (rel 0) h0 in
    let next = round i r (get_root i r root) rel in
    let (rel', run, at) =
      adopt_lem cs next (λ c h. round-is_some i r (get_root i r root) rel c (known c (omega arith)))
        (ground arith) in
    (rel', adopt-cons i cs rel r root er e0 ∙ run, λ j. at j ∙ adopted-cons i cs rel r root j er e0)
