-- ===== src/TaskManage/Process/History.antt =====
-- Whole runs of `PManager` (proc_manage.rs), from the first process on.
use tg_rcore_tutorial.Prelude.{
  ℕ, ◌≡◌, ◌≢◌, ◌∙◌, sym, subst, true, inl, inr, Option, none, some, is_some, Outcome, ok,
}
use tg_rcore_tutorial.Prelude.Int.{ℤ}
use tg_rcore_tutorial.TaskManage.Manager.{Manager, IsManager}
use tg_rcore_tutorial.TaskManage.ProcRel.{ProcId, usize_max}
use tg_rcore_tutorial.TaskManage.Process
use tg_rcore_tutorial.TaskManage.Process.{
  PManager, add, set_manager, find_next, make_current_suspend, make_current_exited, wait,
}
use tg_rcore_tutorial.TaskManage.Process.Valid.{IsValid, make_current_exited-IsValid}
use tg_rcore_tutorial.TaskManage.Process.Add.{add-IsValid, boot-IsValid}
use tg_rcore_tutorial.TaskManage.Process.Steps.{
  wait-IsValid, find_next-IsValid, make_current_suspend-IsValid,
}

ok-injective {ℓ} : {A : Type ℓ} {a b : A} → ok a ≡ ok b → a ≡ b
ok-injective h = cc

ok_second {ℓ κ} :
    {A : Type ℓ} {B : Type κ} {m : Outcome (A × B)} {a c : A} {b d : B}
    → m ≡ ok (a, b)
    → m ≡ ok (c, d)
    → b ≡ d
ok_second h k = cc

-- The calls that a kernel makes: it adds a process under a fresh pid and a living parent, and
-- suspends, ends or lets wait the current process; process 0 does not exit.
pub data Step {P MP : Type 0} (M : Manager P MP) (s : PManager MP) : PManager MP → Type 0 where
  adds :
      {s' : PManager MP} (id parent : ProcId) (task : P)
      → s.rel_map id ≡ none
      → id ≢ usize_max
      → is_some (s.rel_map parent) ≡ true
      → add M id task parent s ≡ ok s'
      → Step M s s'
  finds : {s' : PManager MP} (o : Option P) → find_next M s ≡ ok (o, s') → Step M s s'
  suspends :
      {s' : PManager MP} (id : ProcId)
      → s.current ≡ some id
      → make_current_suspend M s ≡ ok s'
      → Step M s s'
  exits :
      {s' : PManager MP} (id : ProcId) (code : ℤ)
      → s.current ≡ some id
      → id ≢ 0
      → make_current_exited M code s ≡ ok s'
      → Step M s s'
  waits :
      {s' : PManager MP} (id pid : ProcId) (o : Option (ProcId × ℤ))
      → s.current ≡ some id
      → wait pid s ≡ ok (o, s')
      → Step M s s'

pub data Reach {P MP : Type 0} (M : Manager P MP) (s : PManager MP) : PManager MP → Type 0 where
  here : Reach M s s
  next : {t u : PManager MP} → Reach M s t → Step M t u → Reach M s u

module _ {P MP : Type 0} (M : Manager P MP) (L : IsManager M) where
  Step-IsValid : {s s' : PManager MP} → Step M s s' → IsValid M s → IsValid M s'
  Step-IsValid {s} {s'} (adds id parent task fresh ne known e) v =
      let (t, run, w, _, _) = add-IsValid M L s id parent task v fresh ne known in
      subst (IsValid M) (ok-injective (sym run ∙ e)) w
  Step-IsValid {s} {s'} (finds o e) v =
      let (m, _, r) = find_next-IsValid M L s v in
      elim r [
        | inl (_, p) ↦ absurd (cc)
        | inr (_, t, run, w) ↦ subst (IsValid M) (ok_second run e) w
      ]
  Step-IsValid {s} {s'} (suspends id cur e) v =
      let (t, run, w, _) = make_current_suspend-IsValid M L s id v cur in
      subst (IsValid M) (ok-injective (sym run ∙ e)) w
  Step-IsValid {s} {s'} (exits id code cur ne e) v =
      let (t, run, w, _, _, _) = make_current_exited-IsValid M L s id code v cur ne in
      subst (IsValid M) (ok-injective (sym run ∙ e)) w
  Step-IsValid {s} {s'} (waits id pid o cur e) v =
      let (_, t, run, w, _) = wait-IsValid M L s id pid v cur in
      subst (IsValid M) (ok_second run e) w

  Reach-IsValid : {s s' : PManager MP} → IsValid M s → Reach M s s' → IsValid M s'
  Reach-IsValid v here = v
  Reach-IsValid v (next r st) = Step-IsValid st (Reach-IsValid v r)

  -- After process 0 is added to a new manager over an empty container, every history of adds
  -- (under a fresh pid, not `usize::MAX`, and a living parent), scheduling, suspensions, waits
  -- and exits (process 0 excepted) ends in a valid state: the entries form a tree, in which
  -- process 0 alone has no parent and every process reaches it through its parents, and parents
  -- and children agree; the container holds exactly the processes of the tree, and the current
  -- process is one of them.
  pub boot-Reach-IsValid :
      (m : MP) (task : P) (s s' : PManager MP)
      → ((j : ℕ) → M.get_mut j m ≡ none)
      → add M 0 task usize_max (set_manager m Process.new) ≡ ok s
      → Reach M s s'
      → IsValid M s'
  boot-Reach-IsValid m task s s' vacant e r =
      let (t, run, w) = boot-IsValid M L m task vacant in
      Reach-IsValid (subst (IsValid M) (ok-injective (sym run ∙ e)) w) r
