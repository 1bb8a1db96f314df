-- ===== src/EasyFs/Layout/Places.antt =====
-- Where `clear_size` puts the block of data that `get_block_id` finds (layout.rs).
use tg_rcore_tutorial.Prelude.{
  ℕ, zero, suc, ◌+◌, ◌*◌, ◌/◌, ◌%◌, ◌<◌, ◌≤◌, ◌≡◌, refl, ap, ap₂, sym, ◌∙◌, inl, inr, ltb,
  if◌then◌else◌, Bool-cases, true, some, List, [], ◌∷◌, ◌++◌, length, arith, get_elem?,
}
use tg_rcore_tutorial.EasyFs.Layout.{Table, Device, put, entries, clear_direct}
use tg_rcore_tutorial.EasyFs.Layout.Clears.{
  full_blocks, held_blocks, length-entries, length-full_blocks,
}

pub get-append_left :
    (xs ys : List ℕ) (i : ℕ) → i < length xs → get_elem? (xs ++ ys) i ≡ get_elem? xs i
get-append_left [] ys i h = absurd (omega arith)
get-append_left (x ∷ xs) ys zero h = refl
get-append_left (x ∷ xs) ys (suc i) h = get-append_left xs ys i (omega arith)

pub get-append_right :
    (xs ys : List ℕ) (i k : ℕ) → k ≡ length xs + i → get_elem? (xs ++ ys) k ≡ get_elem? ys i
get-append_right [] ys i k e = ap (get_elem? ys) (omega (arith, e))
get-append_right (x ∷ xs) ys i zero e = absurd (omega (arith, e))
get-append_right (x ∷ xs) ys i (suc k) e = get-append_right xs ys i k (omega (arith, e))

get-put : (at x i : ℕ) (table : Table) → at < i → put at x table i ≡ table i
unfolding put
get-put at x i table h = ground arith

pub get-entries :
    (left at i : ℕ) (table : Table)
    → i < left
    → get_elem? (entries left at table) i ≡ some (table (at + i))
unfolding entries
get-entries zero at i table h = absurd (omega arith)
get-entries (suc left) at zero table h = ap (λ k. some (table k)) (omega arith)
get-entries (suc left) at (suc i) table h =
    get-entries left (at + 1) i table (omega arith) ∙ ap (λ k. some (table k)) (omega arith)

pub get-clear_direct :
    (left at i : ℕ) (direct : Table)
    → i < left
    → get_elem? (clear_direct left at direct).0 i ≡ some (direct (at + i))
unfolding clear_direct
get-clear_direct zero at i direct h = absurd (omega arith)
get-clear_direct (suc left) at zero direct h = ap (λ k. some (direct k)) (omega arith)
get-clear_direct (suc left) at (suc i) direct h =
    get-clear_direct left (at + 1) i (put at 0 direct) (omega arith)
    ∙ ap some (get-put at 0 (at + 1 + i) direct (omega arith))
    ∙ ap (λ k. some (direct k)) (omega arith)

-- Each table stands before its 128 entries.
get-full_blocks :
    (left at a b : ℕ) (indirect2 : Table) (dev : Device)
    → a < left
    → b < 128
    → get_elem? (full_blocks left at indirect2 dev) (a * 129 + 1 + b)
      ≡ some (dev (indirect2 (at + a)) b)
unfolding full_blocks
get-full_blocks zero at a b indirect2 dev lt lt_b = absurd (omega arith)
get-full_blocks (suc left) at zero b indirect2 dev lt lt_b =
    let here = entries 128 0 (dev (indirect2 at)) in
    let rest = full_blocks left (at + 1) indirect2 dev in
    let first : 0 * 129 + 1 + b ≡ suc b = omega arith in
    ap (get_elem? (indirect2 at ∷ here ++ rest)) first
    ∙ get-append_left here rest b (omega (arith, lt_b, length-entries 128 0 (dev (indirect2 at))))
    ∙ get-entries 128 0 b (dev (indirect2 at)) lt_b
    ∙ ap₂ (λ p k. some (dev (indirect2 p) k)) (omega arith) (omega arith)
get-full_blocks (suc left) at (suc a) b indirect2 dev lt lt_b =
    let here = entries 128 0 (dev (indirect2 at)) in
    let rest = full_blocks left (at + 1) indirect2 dev in
    let later : suc a * 129 + 1 + b ≡ suc (128 + (a * 129 + 1 + b)) = omega arith in
    ap (get_elem? (indirect2 at ∷ here ++ rest)) later
    ∙ get-append_right here rest (a * 129 + 1 + b) (128 + (a * 129 + 1 + b))
        (omega (arith, length-entries 128 0 (dev (indirect2 at))))
    ∙ get-full_blocks left (at + 1) a b indirect2 dev (omega arith) lt_b
    ∙ ap (λ p. some (dev (indirect2 p) b)) (omega arith)

pub get-held_blocks :
    (blocks i : ℕ) (indirect2 : Table) (dev : Device)
    → i < blocks
    → get_elem? (held_blocks blocks indirect2 dev) (i / 128 * 129 + 1 + i % 128)
      ≡ some (dev (indirect2 (i / 128)) (i % 128))
unfolding held_blocks
get-held_blocks blocks i indirect2 dev lt =
    let a1 = blocks / 128 in
    let b1 = blocks % 128 in
    let full = full_blocks a1 0 indirect2 dev in
    let last = if ltb 0 b1 then indirect2 a1 ∷ entries b1 0 (dev (indirect2 a1)) else [] in
    let size = length-full_blocks a1 0 indirect2 dev in
    elim (Bool-cases (ltb (i / 128) a1)) [
      | inl inner ↦
          let lt_a : i / 128 < a1 = ground (arith, inner) in
          get-append_left full last (i / 128 * 129 + 1 + i % 128) (omega (arith, size, lt_a))
          ∙ get-full_blocks a1 0 (i / 128) (i % 128) indirect2 dev lt_a (omega arith)
          ∙ ap (λ p. some (dev (indirect2 p) (i % 128))) (omega arith)
      | inr outer ↦
          let ge : a1 ≤ i / 128 = ground (arith, outer) in
          let same : i / 128 ≡ a1 = omega (arith, lt, ge) in
          let lt_b : i % 128 < b1 = omega (arith, lt, same) in
          let next : 1 + i % 128 ≡ suc (i % 128) = omega arith in
          let part : ltb 0 b1 ≡ true = ground (arith, lt_b) in
          get-append_right full last (1 + i % 128) (i / 128 * 129 + 1 + i % 128)
            (omega (arith, size, same))
          ∙ ap
              (λ t.
                get_elem? (if t then indirect2 a1 ∷ entries b1 0 (dev (indirect2 a1)) else [])
                  (1 + i % 128))
              part
          ∙ ap (get_elem? (indirect2 a1 ∷ entries b1 0 (dev (indirect2 a1)))) next
          ∙ get-entries b1 0 (i % 128) (dev (indirect2 a1)) lt_b
          ∙ ap₂ (λ p k. some (dev (indirect2 p) k)) (sym same) (omega arith)
    ]
