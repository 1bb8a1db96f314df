-- ===== src/Sync/Masking/Nesting.antt =====
-- Nested critical sections (up.rs).
use tg_rcore_tutorial.Prelude.{◌+◌, ◌^◌, ◌<◌, ◌≡◌, refl, ◌⊎◌, false, arith, Outcome, ok}
use tg_rcore_tutorial.Sync.Masking.{
  Hart, enter, exit, Cell, exclusive_access, release, exclusive_session,
}

-- Inside a critical section interrupts are masked.
pub record IsMasked (h : Hart) : Type 0 where
  pub inside : 0 < h.nested_level
  pub small : h.nested_level < 2 ^ 64
  pub masked : h.sie ≡ false

abbrev pub IsValid : Hart → Type 0
IsValid h = (h.nested_level ≡ 0) ⊎ IsMasked h

-- Two states that interrupts and outer sections cannot tell apart.
pub record Same (g h : Hart) : Type 0 where
  pub sie : g.sie ≡ h.sie
  pub level : g.nested_level ≡ h.nested_level
  pub before : 0 < h.nested_level → g.sie_before_masking ≡ h.sie_before_masking

exit-enter-Same :
    (h h2 : Hart) → IsValid h → h.nested_level + 1 < 2 ^ 64 → Same h2 (enter h) → Same (exit h2) h
unfolding enter exit
exit-enter-Same h h2 v small same = ground arith

-- A session on a free cell, whose closure returns and leaves the state of the hart as it found
-- it, does not panic: the closure runs with interrupts masked, whatever the nesting; afterwards
-- SIE, the nesting level and, inside an outer section, what that section saved are as before the
-- session; and the cell is free, with the value of the closure.
pub exclusive_session_lem :
    {T V : Type 0} (f : Hart → T → Outcome (Hart × T × V)) (h : Hart) (c : Cell T)
    → IsValid h
    → h.nested_level + 1 < 2 ^ 64
    → c.borrowed ≡ false
    → (h2 : Hart) (v : T) (out : V) → f (enter h) c.value ≡ ok (h2, v, out)
    → Same h2 (enter h)
    → IsMasked (enter h)
      × (h3 : Hart) × (exclusive_session f h c
          ≡ ok (h3, record { value = v; borrowed = false }, out))
      × Same h3 h
unfolding exclusive_session exclusive_access release enter exit
exclusive_session_lem f h c v small free h2 t out ran same = (
  record { inside = omega arith; small = omega arith; masked = refl },
  exit h2,
  rw (free, exclusive_access) (rw ran),
  exit-enter-Same h h2 v small same,
)
