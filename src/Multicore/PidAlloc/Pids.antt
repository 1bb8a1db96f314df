-- ===== src/Multicore/PidAlloc/Pids.antt =====
-- Which pids are in use (pid.rs).
use tg_rcore_tutorial.Prelude.{
  ℕ, ◌+◌, ◌%◌, ◌^◌, ◌<◌, ◌≡◌, ap, ltb, if◌then◌else◌, List, [], ◌∷◌, ◌++◌, ok, panic, contains,
  contains-count, pop_back, pop_back-eq, count, count-append, count-erase, erase, arith,
  Option-cases, Bool-cases, ◌⊎◌, inl, inr,
}
use tg_rcore_tutorial.Multicore.PidAlloc.{PidAllocator, alloc, dealloc}

-- Each pid below the mark is in use or recycled, once, and no other is. `used` lists those in
-- use.
record Uses (a : PidAllocator) (used : List ℕ) : Type 0 where
  pub once : (x : ℕ) → count x used + count x a.recycled ≡ (if ltb x a.current then 1 else 0)

-- `alloc` gives a pid that is not in use and takes it down as used.
alloc-Uses :
    (a : PidAllocator) (used : List ℕ)
    → Uses a used
    → a.current + 1 < 2 ^ 64
    → (count (alloc a).0 used ≡ 0) × Uses (alloc a).1 ((alloc a).0 ∷ used)
unfolding alloc
alloc-Uses a used u lt = elim (Option-cases (pop_back a.recycled)) [
  | inl e ↦
      let word : (a.current + 1) % 2 ^ 64 ≡ a.current + 1 = omega arith in
      rw (e, alloc)
        (
          ground (arith, u.once a.current),
          record { once = λ y. rw word (ground (arith, u.once y)) },
        )
  | inr ((x, rest), e) ↦
      let split = pop_back-eq a.recycled rest x e in
      rw (e, alloc)
        (
          ground (arith, u.once x, ap (count x) split, count-append x rest (x ∷ [])),
          record {
            once = λ y. omega (arith, u.once y, ap (count y) split, count-append y rest (x ∷ []));
          },
        )
]

-- The drop of a handle frees its pid if that is in use. On any other pid it panics: one that was
-- never given, or that was freed before.
dealloc-Uses :
    (a : PidAllocator) (used : List ℕ) (x : ℕ)
    → Uses a used
    → ((count x used ≡ 0) × (dealloc x a ≡ panic))
      ⊎ ((count x used ≡ 1) × (a' : PidAllocator) × (dealloc x a ≡ ok a') × Uses a' (erase x used))
unfolding dealloc
dealloc-Uses a used x u = elim (Bool-cases (ltb x a.current)) [
  | inr out ↦ inl (ground (arith, u.once x), rw out)
  | inl below ↦ elim (Bool-cases (contains a.recycled x)) [
    | inl free ↦ inl (ground (arith, u.once x, contains-count a.recycled x), rw (below, free))
    | inr busy ↦
        let one : count x used ≡ 1 = ground (arith, u.once x, contains-count a.recycled x) in
        inr (
          one,
          record a { recycled = a.recycled ++ x ∷ [] },
          rw (below, busy),
          record {
            once = λ y.
                ground
                  (arith, u.once y, count-append y a.recycled (x ∷ []), count-erase y x used, one);
          },
        )
  ]
]
