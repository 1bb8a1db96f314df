-- ===== src/Signal/Context.antt =====
-- tg-rcore-tutorial-kernel-context/src/lib.rs: the registers of a thread. What switches to them is
-- assembly.
use tg_rcore_tutorial.Prelude.{ℕ, ◌+◌, ◌-◌, ◌%◌, ◌^◌, ◌==◌, if◌then◌else◌, Bool, true, false}

-- `x` holds x1 to x31, from index 0 on.
pub record LocalContext : Type 0 where
  pub sctx : ℕ
  pub x : ℕ → ℕ
  pub sepc : ℕ
  pub supervisor : Bool
  pub interrupt : Bool

unfoldable pub empty : LocalContext
empty = record { sctx = 0; x = λ i. 0; sepc = 0; supervisor = false; interrupt = false }

unfoldable pub user : ℕ → LocalContext
user pc = record { sctx = 0; x = λ i. 0; sepc = pc; supervisor = false; interrupt = true }

unfoldable pub thread : ℕ → Bool → LocalContext
thread pc interrupt = record {
  sctx = 0;
  x = λ i. 0;
  sepc = pc;
  supervisor = true;
  interrupt = interrupt;
}

-- Registers from 1 on.
unfoldable pub get_x : ℕ → LocalContext → ℕ
get_x n c = c.x (n - 1)

unfoldable pub set_x : ℕ → ℕ → LocalContext → LocalContext
set_x n v c = record c { x = λ i. if n - 1 == i then v else c.x i }

unfoldable pub a : ℕ → LocalContext → ℕ
a n c = get_x (n + 10) c

unfoldable pub set_a : ℕ → ℕ → LocalContext → LocalContext
set_a n v c = set_x (n + 10) v c

unfoldable pub set_pc : ℕ → LocalContext → LocalContext
set_pc v c = record c { sepc = v }

unfoldable pub move_next : LocalContext → LocalContext
move_next c = record c { sepc = (c.sepc + 4) % 2 ^ 64 }
