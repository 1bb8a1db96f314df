-- ===== src/TaskManage/Threads/Families.antt =====
-- The tree of the processes with threads (thread_manager.rs), as that of processes without
-- (proc_manage.rs): the loop of `del_proc` is that of `make_current_exited` there.
use tg_rcore_tutorial.Prelude.{
  ◌≡◌, refl, ap, sym, ◌∙◌, fun_ext, inl, inr, Option, none, some, Option-cases, List, [], ◌∷◌, ok,
  panic, arith,
}
use tg_rcore_tutorial.Prelude.Map
use tg_rcore_tutorial.Prelude.Map.{Map}
use tg_rcore_tutorial.Prelude.Int.{ℤ}
use tg_rcore_tutorial.TaskManage.ProcRel
use tg_rcore_tutorial.TaskManage.ProcRel.{ProcId, ProcRel}
use tg_rcore_tutorial.TaskManage.ProcThreadRel.{
  ThreadId, ProcThreadRel, family, add_child, del_child, del_thread,
}
use tg_rcore_tutorial.TaskManage.Process
use tg_rcore_tutorial.TaskManage.Process.{notify_parent}
use tg_rcore_tutorial.TaskManage.Threads.{adopt, update}

abbrev pub family_of : Option ProcThreadRel → Option ProcRel
family_of none = none
family_of (some r) = some (family r)

abbrev pub families : Map ProcThreadRel → Map ProcRel
families rel j = family_of (rel j)

abbrev pub threads_of : Option ProcThreadRel → List ThreadId
threads_of none = []
threads_of (some r) = r.threads

abbrev pub dead_of : Option ProcThreadRel → List (ThreadId × ℤ)
dead_of none = []
dead_of (some r) = r.dead_threads

-- The threads of no process have changed.
abbrev pub SameThreads : Map ProcThreadRel → Map ProcThreadRel → Type 0
SameThreads rel rel' =
    (j : ProcId) → (threads_of (rel' j) ≡ threads_of (rel j)) × (dead_of (rel' j) ≡ dead_of (rel j))

pub families-remove :
    (id : ProcId) (rel : Map ProcThreadRel)
    → families (Map.remove id rel) ≡ Map.remove id (families rel)
families-remove id rel = fun_ext λ j. ground arith

pub families-insert :
    (id : ProcId) (r : ProcThreadRel) (rel : Map ProcThreadRel)
    → families (Map.insert id r rel) ≡ Map.insert id (family r) (families rel)
families-insert id r rel = fun_ext λ j. ground arith

pub families-notify :
    (q id : ProcId) (code : ℤ) (rel : Map ProcThreadRel)
    → families (update q (del_child id code) rel) ≡ notify_parent q id code (families rel)
unfolding update notify_parent del_child
families-notify q id code rel = fun_ext λ j. from (rel q) refl j
  where
    from :
        (o : Option ProcThreadRel)
        → rel q ≡ o
        → (j : ProcId)
        → families (update q (del_child id code) rel) j ≡ notify_parent q id code (families rel) j
    from none e j = ground (arith, e)
    from (some r) e j = ground (arith, e)

pub families-del_thread :
    (pid : ProcId) (t : ThreadId) (code : ℤ) (rel : Map ProcThreadRel)
    → families (update pid (del_thread t code) rel) ≡ families rel
unfolding update del_thread
families-del_thread pid t code rel = fun_ext λ j. ground arith

pm_adopt-panics :
    (i : ProcId) (cs : List ProcId) (m : Map ProcRel) (f : ProcRel)
    → m i ≡ some f
    → Map.insert i (record f { parent = 0 }) m 0 ≡ none
    → Process.adopt (i ∷ cs) m ≡ panic
unfolding Process.adopt
pm_adopt-panics i cs m f h h0 = rw (h, Process.adopt) (rw (h0, Process.adopt) refl)

pm_adopt-cons :
    (i : ProcId) (cs : List ProcId) (m : Map ProcRel) (f g : ProcRel)
    → m i ≡ some f
    → Map.insert i (record f { parent = 0 }) m 0 ≡ some g
    → Process.adopt (i ∷ cs) m
      ≡ Process.adopt cs
          (Map.insert 0 (ProcRel.add_child i g) (Map.insert i (record f { parent = 0 }) m))
unfolding Process.adopt
pm_adopt-cons i cs m f g h h0 = rw (h, Process.adopt) (rw (h0, Process.adopt) refl)

adopt-cons :
    (i : ProcId) (cs : List ProcId) (m : Map ProcThreadRel) (f g : ProcThreadRel)
    → m i ≡ some f
    → Map.insert i (record f { parent = 0 }) m 0 ≡ some g
    → adopt (i ∷ cs) m
      ≡ adopt cs (Map.insert 0 (add_child i g) (Map.insert i (record f { parent = 0 }) m))
unfolding adopt
adopt-cons i cs m f g h h0 = rw (h, adopt) (rw (h0, adopt) refl)

-- The two loops run alike.
pub adopt_lem :
    (cs : List ProcId) (rel : Map ProcThreadRel) (fam : Map ProcRel)
    → Process.adopt cs (families rel) ≡ ok fam
    → (rel' : Map ProcThreadRel) × (adopt cs rel ≡ ok rel')
      × (families rel' ≡ fam)
      × SameThreads rel rel'
unfolding adopt Process.adopt add_child
adopt_lem [] rel fam e = (rel, refl, ground (arith, e), λ j. (refl, refl))
adopt_lem (i ∷ cs) rel fam e = elim (Option-cases (rel i)) [
  | inl gone ↦ absurd (ground (arith, e, gone))
  | inr (r, er) ↦ elim (Option-cases (Map.insert i (record r { parent = 0 }) rel 0)) [
    | inl gone ↦ absurd (
        ground (
          arith,
          e,
          pm_adopt-panics i cs (families rel) (family r) (ap family_of er) (ground (arith, gone)),
        ))
    | inr (root, e0) ↦
        let rel1 = Map.insert i (record r { parent = 0 }) rel in
        let rel2 = Map.insert 0 (add_child i root) rel1 in
        let fams : families rel2
            ≡ Map.insert 0 (ProcRel.add_child i (family root))
                (Map.insert i (record (family r) { parent = 0 }) (families rel)) =
          families-insert 0 (add_child i root) rel1
          ∙ ap (Map.insert 0 (ProcRel.add_child i (family root)))
              (families-insert i (record r { parent = 0 }) rel) in
        let step =
          pm_adopt-cons i cs (families rel) (family r) (family root) (ap family_of er)
            (ground (arith, e0)) in
        let (rel', run, same, threads) =
          adopt_lem cs rel2 fam (ap (Process.adopt cs) fams ∙ sym step ∙ e) in
        (rel', adopt-cons i cs rel r root er e0 ∙ run, same, λ j. ground (arith, threads j, er, e0))
  ]
]
