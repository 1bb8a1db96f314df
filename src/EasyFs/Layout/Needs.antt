-- ===== src/EasyFs/Layout/Needs.antt =====
-- How many blocks the phases of `increase_size` use (layout.rs).
use tg_rcore_tutorial.Prelude.{
  ℕ, ◌+◌, ◌-◌, ◌/◌, ◌<◌, ◌≤◌, ◌≡◌, inl, inr, ◌==◌, ltb, if◌then◌else◌, Bool-cases, true, false,
  arith,
}
use Prim.Native.Nat.{min}
use tg_rcore_tutorial.EasyFs.Layout.Total.{total_of}
use tg_rcore_tutorial.EasyFs.Layout.Grows.{needs}

-- The blocks for the entries of the phases 2 and 3.
abbrev pub needs1 : ℕ → ℕ → ℕ
needs1 c t =
    let left = min t 128 - c in
    left
    + (if ltb 128 t
        then (if c + left == 128 then 1 else 0) + needs (c + left - 128) (t - 128)
        else 0)

-- The blocks for the entries of all phases.
abbrev pub needs0 : ℕ → ℕ → ℕ
needs0 c t =
    let left = min t 27 - c in
    left
    + (if ltb 27 t then (if c + left == 27 then 1 else 0) + needs1 (c + left - 27) (t - 27) else 0)

needs1-total :
    (c t : ℕ)
    → c ≤ t
    → needs1 c t
      ≡ t
        - c
        + ((if ltb 128 t then 1 + (t - 128 + 127) / 128 else 0)
            - (if ltb 128 c then 1 + (c - 128 + 127) / 128 else 0))
needs1-total c t up = elim (Bool-cases (ltb 128 t)) [
  | inr few ↦ ground (arith, up, few)
  | inl many ↦
      let lt : 128 < t = ground (arith, many) in
      elim (Bool-cases (ltb 128 c)) [
        | inl after ↦
            let gt_c : 128 < c = ground (arith, after) in
            let first : (c + (min t 128 - c) == 128) ≡ false = ground (arith, gt_c) in
            rw (many, after, first) (omega (arith, lt, gt_c, up))
        | inr before ↦
            let le_c : c ≤ 128 = ground (arith, before) in
            let first : (c + (min t 128 - c) == 128) ≡ true = ground (arith, lt, le_c) in
            rw (many, before, first) (omega (arith, lt, le_c, up))
      ]
]

pub needs0-total : (c t : ℕ) → c ≤ t → needs0 c t ≡ total_of t - total_of c
needs0-total c t up = elim (Bool-cases (ltb 27 t)) [
  | inr few ↦ ground (arith, up, few)
  | inl many ↦
      let lt : 27 < t = ground (arith, many) in
      elim (Bool-cases (ltb 27 c)) [
        | inl after ↦
            let gt_c : 27 < c = ground (arith, after) in
            let first : (c + (min t 27 - c) == 27) ≡ false = ground (arith, gt_c) in
            rw (many, after, first)
              (ground (arith, lt, gt_c, up, needs1-total (c + (min t 27 - c) - 27) (t - 27)))
        | inr before ↦
            let le_c : c ≤ 27 = ground (arith, before) in
            let first : (c + (min t 27 - c) == 27) ≡ true = ground (arith, lt, le_c) in
            rw (many, before, first)
              (ground (arith, lt, le_c, up, needs1-total (c + (min t 27 - c) - 27) (t - 27)))
      ]
]
