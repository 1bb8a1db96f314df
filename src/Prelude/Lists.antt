-- ===== src/Prelude/Lists.antt =====
-- Lists measured by native numbers, and the `Vec` and `VecDeque` operations that the code uses.
use Prim.Native.Nat.{ℕ, zero, suc, ◌+◌, ◌-◌, ◌<◌}
use mathlib.Core.Path.{◌≡◌, refl, ap, sym, ◌∙◌}
use mathlib.Core.Logic.{◌⊎◌, inl, inr}
use mathlib.Core.Bool.{Bool, true, false, ◌||◌}
use mathlib.Core.List.{List, [], ◌∷◌, ◌++◌, append_assoc}
use mathlib.Core.Option.{Option, none, some}
use native.Mathlib.Omega.{arith}
use tg_rcore_tutorial.Prelude.Tests.{Option-cases, ltb, ◌==◌, if◌then◌else◌}

module _ {ℓ} {A : Type ℓ} where
  abbrev pub length : List A → ℕ
  length [] = 0
  length (x ∷ xs) = suc (length xs)

  pub length-append : (xs ys : List A) → length (xs ++ ys) ≡ length xs + length ys
  length-append [] ys = omega arith
  length-append (x ∷ xs) ys = omega (arith, length-append xs ys)

  abbrev pub is_empty : List A → Bool
  is_empty [] = true
  is_empty (x ∷ xs) = false

  -- `iter().enumerate().find(p)` followed by `remove(idx)`: the first element that passes the
  -- test, and the list without it.
  abbrev pub extract : (A → Bool) → List A → Option (A × List A)
  extract p [] = none
  extract p (x ∷ xs) =
      let rest = extract p xs in
      if p x then some (x, xs) else elim rest [ none ↦ none | some (a, ys) ↦ some (a, x ∷ ys) ]

  -- `pop_front`
  abbrev pub pop_front : List A → Option (A × List A)
  pop_front [] = none
  pop_front (x ∷ xs) = some (x, xs)

  -- `pop` and `pop_back`
  abbrev pub pop_back : List A → Option (A × List A)
  pop_back [] = none
  pop_back (x ∷ xs) = elim (pop_back xs) [ none ↦ some (x, []) | some (a, ys) ↦ some (a, x ∷ ys) ]

abbrev pub contains : List ℕ → ℕ → Bool
contains [] a = false
contains (x ∷ xs) a = x == a || contains xs a

-- How often a number stands in a list.
abbrev pub count : ℕ → List ℕ → ℕ
count c [] = 0
count c (x ∷ xs) = (if x == c then 1 else 0) + count c xs

pub count-append : (c : ℕ) (xs ys : List ℕ) → count c (xs ++ ys) ≡ count c xs + count c ys
count-append c [] ys = omega arith
count-append c (x ∷ xs) ys = omega (arith, count-append c xs ys)

abbrev pub erase : ℕ → List ℕ → List ℕ
erase a [] = []
erase a (x ∷ xs) = if x == a then xs else x ∷ erase a xs

pub extract-erase :
    (a : ℕ) (xs : List ℕ)
    → extract (λ id. id == a) xs ≡ (if contains xs a then some (a, erase a xs) else none)
extract-erase a [] = refl
extract-erase a (x ∷ xs) = ground (arith, extract-erase a xs)

pub count-erase : (c a : ℕ) (xs : List ℕ) → count c (erase a xs) ≡ count c xs - count c (a ∷ [])
count-erase c a [] = omega arith
count-erase c a (x ∷ xs) = ground (arith, count-erase c a xs)

pub contains-count : (xs : List ℕ) (a : ℕ) → contains xs a ≡ ltb 0 (count a xs)
contains-count [] a = refl
contains-count (x ∷ xs) a = ground (arith, contains-count xs a)

pub erase-count_zero : (a : ℕ) (xs : List ℕ) → count a xs ≡ 0 → erase a xs ≡ xs
erase-count_zero a [] h = refl
erase-count_zero a (x ∷ xs) h = ground (arith, erase-count_zero a xs)

pub length-erase : (a : ℕ) (xs : List ℕ) → 0 < count a xs → length (erase a xs) + 1 ≡ length xs
length-erase a [] h = absurd (omega arith)
length-erase a (x ∷ xs) h = ground (arith, length-erase a xs)

module _ {ℓ} {A : Type ℓ} where
  -- `pop` takes the element that was pushed last.
  pub pop_back-snoc : (xs : List A) (a : A) → pop_back (xs ++ a ∷ []) ≡ some (a, xs)
  pop_back-snoc [] a = refl
  pop_back-snoc (x ∷ xs) a = rw (pop_back-snoc xs a)

  pub is_empty-snoc : (xs : List A) (a : A) → is_empty (xs ++ a ∷ []) ≡ false
  is_empty-snoc [] a = refl
  is_empty-snoc (x ∷ xs) a = refl

  -- Where no earlier element passes the test, the one that was pushed last is taken.
  pub extract-snoc :
      (p : A → Bool) (xs : List A) (a : A)
      → extract p xs ≡ none
      → p a ≡ true
      → extract p (xs ++ a ∷ []) ≡ some (a, xs)
  extract-snoc p [] a h hit = rw hit
  extract-snoc p (x ∷ xs) a h hit = ground (arith, extract-snoc p xs a)

pub List-cases {ℓ} :
    {A : Type ℓ} (xs : List A) → (xs ≡ []) ⊎ ((x : A) × (rest : List A) × (xs ≡ x ∷ rest))
List-cases [] = inl refl
List-cases (x ∷ rest) = inr (x, rest, refl)

-- How a queue and the requests to come make up the grants and the queue that is left.
module _ {ℓ} {A : Type ℓ} where
  pub releases_move :
      (q rs now q' gs t : List A) → q ≡ now ++ q' → q' ++ rs ≡ gs ++ t → q ++ rs ≡ (now ++ gs) ++ t
  releases_move q rs now q' gs t moved order =
      rw (moved, append_assoc) (rw (append_assoc now gs t) (ap (◌++◌ now) order))

  pub requests_move :
      (q : List A) (x : A) (rs now q' gs t : List A)
      → q ++ x ∷ [] ≡ now ++ q'
      → q' ++ rs ≡ gs ++ t
      → q ++ x ∷ rs ≡ (now ++ gs) ++ t
  requests_move q x rs now q' gs t moved order =
      sym (append_assoc q (x ∷ []) rs) ∙ releases_move (q ++ x ∷ []) rs now q' gs t moved order

module _ {ℓ} {A : Type ℓ} where
  abbrev pub get_elem? : List A → ℕ → Option A
  get_elem? [] i = none
  get_elem? (x ∷ xs) zero = some x
  get_elem? (x ∷ xs) (suc i) = get_elem? xs i

  -- `Vec::remove` and `VecDeque::remove`: the element at an index, and the list without it.
  abbrev pub remove_at : ℕ → List A → Option (A × List A)
  remove_at i [] = none
  remove_at zero (x ∷ xs) = some (x, xs)
  remove_at (suc i) (x ∷ xs) = elim (remove_at i xs) [
    | none ↦ none
    | some (a, ys) ↦ some (a, x ∷ ys)
  ]

pub remove_at_lem :
    (i : ℕ) (xs : List ℕ) (a : ℕ)
    → get_elem? xs i ≡ some a
    → (ys : List ℕ) × (remove_at i xs ≡ some (a, ys)) × ((c : ℕ) → count c xs ≡ count c (a ∷ ys))
remove_at_lem i [] a h = cc
remove_at_lem zero (x ∷ xs) a h = (xs, ground arith, λ c. ground arith)
remove_at_lem (suc i) (x ∷ xs) a h =
    let (ys, e, same) = remove_at_lem i xs a h in (x ∷ ys, rw e, λ c. omega (arith, same c))

module _ {ℓ} {A : Type ℓ} where
  pub pop_back-none : (q : List A) → pop_back q ≡ none → q ≡ []
  pop_back-none [] h = refl
  pop_back-none (x ∷ xs) h = elim (Option-cases (pop_back xs)) [
    | inl e ↦ absurd (ground (arith, h, e))
    | inr ((a, ys), e) ↦ absurd (ground (arith, h, e))
  ]

  -- What is popped stood at the end.
  pub pop_back-eq : (q rest : List A) (t : A) → pop_back q ≡ some (t, rest) → q ≡ rest ++ t ∷ []
  pop_back-eq [] rest t h = cc
  pop_back-eq (x ∷ xs) rest t h = elim (Option-cases (pop_back xs)) [
    | inl e ↦ ground (arith, h, e, pop_back-none xs e)
    | inr ((a, ys), e) ↦ ground (arith, h, e, pop_back-eq xs ys a e)
  ]
