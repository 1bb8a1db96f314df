-- ===== src/Ch8/SyncCalls/Tables.antt =====
-- The tables of a process under the updates of the system calls (tg-rcore-tutorial-ch8/src/main.rs):
-- what each thread holds and waits for.
use tg_rcore_tutorial.Prelude.{
  ℕ, zero, suc, ◌+◌, ◌-◌, ◌<◌, ◌≤◌, ◌≡◌, ◌≢◌, refl, ap, inl, inr, ltb, ◌==◌, if◌then◌else◌, ◌&&◌,
  none, some, Option-cases, List, [], ◌∷◌, ◌++◌, length, count, count-append, contains-count, erase,
  count-erase, get_elem?, arith,
}
use tg_rcore_tutorial.Prelude.Assoc.{
  lookup, put, del, lookup-put, lookup-del, IsSorted, put-IsSorted,
}
use tg_rcore_tutorial.Ch8.Deadlock.{ids_of}
use tg_rcore_tutorial.Ch8.Deadlock.Rows.{asks, is_held}
use tg_rcore_tutorial.Ch8.SyncCalls.{set_at, allocate, deallocate}

-- How often the thread holds the id.
abbrev pub holds : ℕ → ℕ → List (ℕ × List ℕ) → ℕ
holds t i table = count i (ids_of (lookup t table))

pub holds-allocate :
    (t i u k : ℕ) (table : List (ℕ × List ℕ))
    → holds t i (allocate u k table) ≡ holds t i table + (if u == t && k == i then 1 else 0)
unfolding allocate
holds-allocate t i u k table = ground (
  arith,
  lookup-put t u (ids_of (lookup u table) ++ k ∷ []) table,
  count-append i (ids_of (lookup u table)) (k ∷ []),
)

pub holds-deallocate :
    (t i u k : ℕ) (table : List (ℕ × List ℕ))
    → holds t i (deallocate u k table) ≡ holds t i table - (if u == t && k == i then 1 else 0)
unfolding deallocate
holds-deallocate t i u k table = elim (Option-cases (lookup u table)) [
  | inl e ↦ ground (arith, e)
  | inr (ids, e) ↦ ground (arith, e, lookup-put t u (erase k ids) table, count-erase i k ids)
]

-- How often the id is held in all.
abbrev pub holders : ℕ → List (ℕ × List ℕ) → ℕ
holders i [] = 0
holders i (e ∷ es) = count i e.1 + holders i es

pub is_held-holders :
    (i : ℕ) (table : List (ℕ × List ℕ)) → is_held i table ≡ ltb 0 (holders i table)
is_held-holders i [] = refl
is_held-holders i (e ∷ es) = ground (arith, is_held-holders i es, contains-count e.1 i)

pub holds-le-holders : (t i : ℕ) (table : List (ℕ × List ℕ)) → holds t i table ≤ holders i table
holds-le-holders t i [] = omega arith
holds-le-holders t i (e ∷ es) = ground (arith, holds-le-holders t i es)

holders-put :
    (i k : ℕ) (ids : List ℕ) (table : List (ℕ × List ℕ))
    → IsSorted table
    → holders i (put k ids table) + holds k i table ≡ holders i table + count i ids
holders-put i k ids [] h = omega arith
holders-put i k ids (e ∷ es) (above, h) = ground (arith, holders-put i k ids es h, above k)

pub holders-allocate :
    (i u k : ℕ) (table : List (ℕ × List ℕ))
    → IsSorted table
    → IsSorted (allocate u k table)
      × (holders i (allocate u k table) ≡ holders i table + (if k == i then 1 else 0))
unfolding allocate
holders-allocate i u k table h =
    let ids = ids_of (lookup u table) ++ k ∷ [] in
    (
      put-IsSorted u ids table h,
      ground (
        arith,
        holders-put i u ids table h,
        count-append i (ids_of (lookup u table)) (k ∷ []),
        holds-le-holders u i table,
      ),
    )

pub holders-deallocate :
    (i u k : ℕ) (table : List (ℕ × List ℕ))
    → IsSorted table
    → 0 < holds u k table
    → IsSorted (deallocate u k table)
      × (holders i (deallocate u k table) ≡ holders i table - (if k == i then 1 else 0))
unfolding deallocate
holders-deallocate i u k table h held = elim (Option-cases (lookup u table)) [
  | inl e ↦ absurd (ground (arith, e))
  | inr (ids, e) ↦
      rw (e, deallocate)
        (
          put-IsSorted u (erase k ids) table h,
          ground (
            arith,
            e,
            holders-put i u (erase k ids) table h,
            count-erase i k ids,
            holds-le-holders u i table,
          ),
        )
]

-- The threads in the queue of an id are those whose request is for it.
abbrev pub Queued : (ℕ → List ℕ) → List (ℕ × ℕ) → Type 0
Queued queue requests = (i t : ℕ) → count t (queue i) ≡ asks i (lookup t requests)

pub Queued-wait :
    (queue queue' : ℕ → List ℕ) (requests : List (ℕ × ℕ)) (tid k : ℕ)
    → Queued queue requests
    → lookup tid requests ≡ none
    → ((i : ℕ) → queue' i ≡ (if i == k then queue i ++ tid ∷ [] else queue i))
    → Queued queue' (put tid k requests)
Queued-wait queue queue' requests tid k h idle moved i t =
    ground (
      arith,
      h i t,
      moved i,
      idle,
      lookup-put t tid k requests,
      count-append t (queue i) (tid ∷ []),
    )

pub Queued-wake :
    (queue queue' : ℕ → List ℕ) (requests : List (ℕ × ℕ)) (w k : ℕ)
    → Queued queue requests
    → queue k ≡ w ∷ queue' k
    → ((i : ℕ) → i ≢ k → queue' i ≡ queue i)
    → (lookup w requests ≡ some k) × Queued queue' (del w requests)
Queued-wake queue queue' requests w k h first others =
    let asked : lookup w requests ≡ some k = ground (arith, h k w, first) in
    (asked, λ i t. ground (arith, asked, h i t, h k t, first, others i, lookup-del t w requests))

module _ {ℓ} {A : Type ℓ} where
  pub get_elem?-set_at :
      (i j : ℕ) (x y : A) (xs : List A)
      → get_elem? xs i ≡ some y
      → get_elem? (set_at i x xs) j ≡ (if i == j then some x else get_elem? xs j)
  get_elem?-set_at i j x y [] e = cc
  get_elem?-set_at zero zero x y (z ∷ zs) e = ground arith
  get_elem?-set_at zero (suc j) x y (z ∷ zs) e = ground arith
  get_elem?-set_at (suc i) zero x y (z ∷ zs) e = ground arith
  get_elem?-set_at (suc i) (suc j) x y (z ∷ zs) e = ground (arith, get_elem?-set_at i j x y zs e)

  pub length-set_at : (i : ℕ) (x : A) (xs : List A) → length (set_at i x xs) ≡ length xs
  length-set_at i x [] = refl
  length-set_at zero x (y ∷ ys) = refl
  length-set_at (suc i) x (y ∷ ys) = ap suc (length-set_at i x ys)

  pub get_elem?-lt : (i : ℕ) (xs : List A) (x : A) → get_elem? xs i ≡ some x → i < length xs
  get_elem?-lt i [] x e = cc
  get_elem?-lt zero (y ∷ ys) x e = omega arith
  get_elem?-lt (suc i) (y ∷ ys) x e = omega (arith, get_elem?-lt i ys x e)

  pub get_elem?-none : (i : ℕ) (xs : List A) → length xs ≤ i → get_elem? xs i ≡ none
  get_elem?-none i [] h = refl
  get_elem?-none zero (y ∷ ys) h = absurd (omega arith)
  get_elem?-none (suc i) (y ∷ ys) h = get_elem?-none i ys (omega arith)
