-- ===== src/EasyFs/Layout/Clears.antt =====
-- How many blocks the loops of `clear_size` return (layout.rs).
use tg_rcore_tutorial.Prelude.{
  ℕ, zero, suc, ◌+◌, ◌*◌, ◌/◌, ◌%◌, ◌<◌, ◌≡◌, ◌≢◌, ◌==◌, refl, ap, inl, inr, ltb, Bool-cases, true,
  false, if◌then◌else◌, List, [], ◌∷◌, ◌++◌, ok, length, length-append, arith,
}
use tg_rcore_tutorial.EasyFs.Layout.{
  Table, Device, put, entries, clear_direct, full_tables, last_table, table_blocks,
}

pub length-entries : (left at : ℕ) (table : Table) → length (entries left at table) ≡ left
unfolding entries
length-entries zero at table = refl
length-entries (suc left) at table = ap suc (length-entries left (at + 1) table)

pub length-clear_direct :
    (left at : ℕ) (direct : Table) → length (clear_direct left at direct).0 ≡ left
unfolding clear_direct
length-clear_direct zero at direct = refl
length-clear_direct (suc left) at direct =
    ap suc (length-clear_direct left (at + 1) (put at 0 direct))

-- The blocks of the full tables, and of all tables, where no lock is waited for for ever.
unfoldable pub full_blocks : ℕ → ℕ → Table → Device → List ℕ
full_blocks zero at indirect2 dev = []
full_blocks (suc left) at indirect2 dev =
    indirect2 at ∷ entries 128 0 (dev (indirect2 at)) ++ full_blocks left (at + 1) indirect2 dev

unfoldable pub held_blocks : ℕ → Table → Device → List ℕ
held_blocks blocks indirect2 dev =
    let a1 = blocks / 128 in
    let b1 = blocks % 128 in
    full_blocks a1 0 indirect2 dev
    ++ (if ltb 0 b1 then indirect2 a1 ∷ entries b1 0 (dev (indirect2 a1)) else [])

full_tables-ok :
    (left at indirect2 : ℕ) (dev : Device)
    → ((a : ℕ) → a < at + left → dev indirect2 a ≢ indirect2)
    → full_tables left at indirect2 dev ≡ ok (full_blocks left at (dev indirect2) dev)
unfolding full_tables full_blocks
full_tables-ok zero at indirect2 dev apart = refl
full_tables-ok (suc left) at indirect2 dev apart =
    let here : (dev indirect2 at == indirect2) ≡ false = ground (arith, apart at (omega arith)) in
    let rest = full_tables-ok left (at + 1) indirect2 dev (λ a lt. apart a (omega (arith, lt))) in
    rw (here, rest) refl

last_table-ok :
    (b a1 indirect2 : ℕ) (dev : Device)
    → (0 < b → dev indirect2 a1 ≢ indirect2)
    → last_table b a1 indirect2 dev
      ≡ ok (if ltb 0 b then dev indirect2 a1 ∷ entries b 0 (dev (dev indirect2 a1)) else [])
unfolding last_table
last_table-ok zero a1 indirect2 dev apart = refl
last_table-ok (suc b) a1 indirect2 dev apart =
    let here : (dev indirect2 a1 == indirect2) ≡ false = ground (arith, apart (omega arith)) in
    let some_left : ltb 0 (suc b) ≡ true = ground arith in rw (here, some_left) refl

pub table_blocks-ok :
    (blocks indirect2 : ℕ) (dev : Device)
    → ((a : ℕ) → a * 128 < blocks → dev indirect2 a ≢ indirect2)
    → table_blocks blocks indirect2 dev ≡ ok (held_blocks blocks (dev indirect2) dev)
unfolding table_blocks held_blocks
table_blocks-ok blocks indirect2 dev apart =
    let full =
      full_tables-ok (blocks / 128) 0 indirect2 dev (λ a lt. apart a (omega (arith, lt))) in
    let last =
      last_table-ok (blocks % 128) (blocks / 128) indirect2 dev
        (λ some. apart (blocks / 128) (omega (arith, some))) in
    rw (full, last) refl

pub length-full_blocks :
    (left at : ℕ) (indirect2 : Table) (dev : Device)
    → length (full_blocks left at indirect2 dev) ≡ left * 129
unfolding full_blocks
length-full_blocks zero at indirect2 dev = refl
length-full_blocks (suc left) at indirect2 dev = omega (
  arith,
  length-append (entries 128 0 (dev (indirect2 at))) (full_blocks left (at + 1) indirect2 dev),
  length-entries 128 0 (dev (indirect2 at)),
  length-full_blocks left (at + 1) indirect2 dev,
)

pub length-held_blocks :
    (blocks : ℕ) (indirect2 : Table) (dev : Device)
    → length (held_blocks blocks indirect2 dev) ≡ blocks + (blocks + 127) / 128
unfolding held_blocks
length-held_blocks blocks indirect2 dev =
    let full = full_blocks (blocks / 128) 0 indirect2 dev in
    let a1 = blocks / 128 in
    elim (Bool-cases (ltb 0 (blocks % 128))) [
      | inl part ↦
          let last = indirect2 a1 ∷ entries (blocks % 128) 0 (dev (indirect2 a1)) in
          let lt : 0 < blocks % 128 = ground (arith, part) in
          rw part (
            omega (
              arith,
              lt,
              length-append full last,
              length-full_blocks a1 0 indirect2 dev,
              length-entries (blocks % 128) 0 (dev (indirect2 a1)),
            ))
      | inr whole ↦
          let none_left : blocks % 128 ≡ 0 = ground (arith, whole) in
          rw whole
            (omega (arith, none_left, length-append full [], length-full_blocks a1 0 indirect2 dev))
    ]
