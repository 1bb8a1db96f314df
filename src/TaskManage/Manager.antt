-- ===== src/TaskManage/Manager.antt =====
-- tg-rcore-tutorial-task-manage/src/manager.rs and scheduler.rs: the traits `Manage` and
-- `Schedule` as one record of operations, with the laws that their clients rely on.
use tg_rcore_tutorial.Prelude.{
  ℕ, ◌≡◌, ◌==◌, if◌then◌else◌, Option, none, some, Outcome, ok, is_some,
}

-- `MP` is the container, `P` the entity that it stores under a number.
pub record Manager (P MP : Type 0) : Type 0 where
  pub insert : ℕ → P → MP → MP
  pub delete : ℕ → MP → MP
  pub get_mut : ℕ → MP → Option P
  pub add : ℕ → MP → MP
  pub fetch : MP → Outcome (Option ℕ × MP)

-- A container holds what was inserted and not deleted; scheduling never changes what is stored
-- under which number, and gives only numbers that were put in the ready queue.
pub record IsManager {P MP : Type 0} (M : Manager P MP) : Type 0 where
  pub get_mut-insert :
      (j id : ℕ) (t : P) (m : MP)
      → M.get_mut j (M.insert id t m) ≡ (if id == j then some t else M.get_mut j m)
  pub get_mut-delete :
      (j id : ℕ) (m : MP) → M.get_mut j (M.delete id m) ≡ (if id == j then none else M.get_mut j m)
  pub get_mut-add : (j id : ℕ) (m : MP) → M.get_mut j (M.add id m) ≡ M.get_mut j m
  pub get_mut-fetch :
      (j : ℕ) (m m' : MP) (o : Option ℕ)
      → M.fetch m ≡ ok (o, m')
      → is_some (M.get_mut j m') ≡ is_some (M.get_mut j m)

-- `Manage` alone, of a container that does not schedule.
pub record Store (P MP : Type 0) : Type 0 where
  pub insert : ℕ → P → MP → MP
  pub delete : ℕ → MP → MP
  pub get_mut : ℕ → MP → Option P

pub record IsStore {P MP : Type 0} (S : Store P MP) : Type 0 where
  pub get_mut-insert :
      (j id : ℕ) (t : P) (m : MP)
      → S.get_mut j (S.insert id t m) ≡ (if id == j then some t else S.get_mut j m)
  pub get_mut-delete :
      (j id : ℕ) (m : MP) → S.get_mut j (S.delete id m) ≡ (if id == j then none else S.get_mut j m)
