-- ===== src/Prelude/Assoc.antt =====
-- `BTreeMap` over numeric keys where the code walks through it: the entries in the order of keys.
use Prim.Native.Nat.{ℕ, ◌≤◌}
use mathlib.Core.Path.{◌≡◌, refl, ◌∙◌}
use mathlib.Core.Option.{Option, none, some}
use mathlib.Core.List.{List, [], ◌∷◌}
use mathlib.Core.Logic.{inl, inr}
use mathlib.Core.Bool.{false}
use native.Mathlib.Omega.{arith}
use tg_rcore_tutorial.Prelude.Tests.{◌==◌, ltb, if◌then◌else◌, is_some, Bool-cases}
use tg_rcore_tutorial.Prelude.Lists.{contains}

module _ {ℓ} {V : Type ℓ} where
  -- `get`
  abbrev pub lookup : ℕ → List (ℕ × V) → Option V
  lookup k [] = none
  lookup k (e ∷ es) = let rest = lookup k es in if e.0 == k then some e.1 else rest

  -- `insert`
  abbrev pub put : ℕ → V → List (ℕ × V) → List (ℕ × V)
  put k v [] = (k, v) ∷ []
  put k v (e ∷ es) =
      let rest = put k v es in
      if e.0 == k then (k, v) ∷ es else if ltb k e.0 then (k, v) ∷ e ∷ es else e ∷ rest

  -- `remove`
  abbrev pub del : ℕ → List (ℕ × V) → List (ℕ × V)
  del k [] = []
  del k (e ∷ es) = let rest = del k es in if e.0 == k then rest else e ∷ rest

  abbrev pub keys : List (ℕ × V) → List ℕ
  keys [] = []
  keys (e ∷ es) = e.0 ∷ keys es

  pub lookup-put :
      (k j : ℕ) (v : V) (es : List (ℕ × V))
      → lookup k (put j v es) ≡ (if j == k then some v else lookup k es)
  lookup-put k j v [] = ground arith
  lookup-put k j v (e ∷ es) = ground (arith, lookup-put k j v es)

  pub lookup-del :
      (k j : ℕ) (es : List (ℕ × V)) → lookup k (del j es) ≡ (if j == k then none else lookup k es)
  lookup-del k j [] = ground arith
  lookup-del k j (e ∷ es) = ground (arith, lookup-del k j es)

  pub contains-keys : (k : ℕ) (es : List (ℕ × V)) → contains (keys es) k ≡ is_some (lookup k es)
  contains-keys k [] = refl
  contains-keys k (e ∷ es) = ground (arith, contains-keys k es)

  -- The keys ascend.
  abbrev pub IsSorted : List (ℕ × V) → Type ℓ
  IsSorted [] = Unit
  IsSorted (e ∷ es) = ((k : ℕ) → k ≤ e.0 → lookup k es ≡ none) × IsSorted es

  pub put-IsSorted : (k : ℕ) (v : V) (es : List (ℕ × V)) → IsSorted es → IsSorted (put k v es)
  put-IsSorted k v [] h = (λ j le. refl, tt)
  put-IsSorted k v (e ∷ es) (above, h) = elim (Bool-cases (e.0 == k)) [
    | inl hit ↦ rw hit (λ j le. above j (ground arith), h)
    | inr miss ↦ elim (Bool-cases (ltb k e.0)) [
      | inl lt ↦
          rw (miss, lt)
            (
              λ j le.
                  let other : (e.0 == j) ≡ false = ground arith in
                  rw other (above j (ground arith)),
              (above, h),
            )
      | inr ge ↦
          rw (miss, ge)
            (
              λ j le.
                  let other : (k == j) ≡ false = ground arith in
                  lookup-put j k v es ∙ rw other (above j le),
              put-IsSorted k v es h,
            )
    ]
  ]
