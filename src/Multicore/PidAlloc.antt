-- ===== src/Multicore/PidAlloc.antt =====
-- multicore/kernel/src/task/pid.rs: the allocator of pids. Kernel stacks are raw memory and are
-- left out. A counter is a word and wraps.
pub mod Pids
use tg_rcore_tutorial.Prelude.{
  ℕ, ◌+◌, ◌%◌, ◌^◌, ltb, not, Option, none, some, List, [], ◌∷◌, ◌++◌, Outcome, ok, ◌>>◌, assert,
  contains, pop_back,
}

pub record PidAllocator : Type 0 where
  pub current : ℕ
  pub recycled : List ℕ

unfoldable pub alloc : PidAllocator → ℕ × PidAllocator
alloc a = elim (pop_back a.recycled) [
  | some (pid, rest) ↦ (pid, record a { recycled = rest })
  | none ↦ (a.current, record a { current = (a.current + 1) % 2 ^ 64 })
]

-- `drop` of a `PidHandle`.
unfoldable pub dealloc : ℕ → PidAllocator → Outcome PidAllocator
dealloc pid a = do
  assert (ltb pid a.current)
  assert (not (contains a.recycled pid))
  ok (record a { recycled = a.recycled ++ pid ∷ [] })
