-- ===== src/Multicore/FrameAlloc/Frames.antt =====
-- Who owns a frame (frame_alloc.rs).
use tg_rcore_tutorial.Prelude.{
  ℕ, ◌+◌, ◌-◌, ◌^◌, ◌%◌, ◌<◌, ◌≤◌, ◌≡◌, ◌==◌, ltb, leb, ◌&&◌, if◌then◌else◌, none, some, List, [],
  ◌∷◌, ◌++◌, ok, panic, contains, contains-count, pop_back, count, count-append, count-erase, erase,
  length-erase, ◌||◌, length, length-append, arith, Option-cases, pop_back-none, pop_back-eq, ap,
  Bool-cases, ◌⊎◌, inl, inr,
}
use tg_rcore_tutorial.Multicore.FrameAlloc.{StackFrameAllocator, alloc, dealloc, to_ppn}

-- The frames from `l` up to the mark are out or recycled, each once, and no others are; page
-- numbers have 44 bits. `out` lists the frames that are out.
pub record Owns (l : ℕ) (a : StackFrameAllocator) (out : List ℕ) : Type 0 where
  pub low : l ≤ a.current
  pub high : a.current ≤ a.end
  pub small : a.end ≤ 2 ^ 44
  pub once :
      (x : ℕ) → count x out + count x a.recycled ≡ (if leb l x && ltb x a.current then 1 else 0)
  pub sum : length out + length a.recycled ≡ a.current - l

alloc_recycled :
    (l : ℕ) (a : StackFrameAllocator) (out rest : List ℕ) (x : ℕ)
    → Owns l a out
    → a.recycled ≡ rest ++ x ∷ []
    → (count x out ≡ 0)
      × (l ≤ x)
      × (x < a.current)
      × Owns l (record a { recycled = rest }) (x ∷ out)
alloc_recycled l a out rest x o e =
    let here : count x a.recycled ≡ count x rest + 1 =
      ground (arith, ap (count x) e, count-append x rest (x ∷ [])) in
    (
      ground (arith, here, o.once x),
      ground (arith, here, o.once x),
      ground (arith, here, o.once x),
      record {
        low = o.low;
        high = o.high;
        small = o.small;
        once = λ y. omega (arith, o.once y, ap (count y) e, count-append y rest (x ∷ []));
        sum = omega (arith, o.sum, ap length e, length-append rest (x ∷ []));
      },
    )

-- `alloc` gives a frame of the range that nobody has, and takes it down as out; or it gives none,
-- changes nothing, and then every frame of the range is out.
pub alloc-Owns :
    (l : ℕ) (a : StackFrameAllocator) (out : List ℕ)
    → Owns l a out
    → ((alloc a ≡ (none, a)) × (length out ≡ a.end - l))
      ⊎ ((x : ℕ) × (a' : StackFrameAllocator) × (alloc a ≡ (some x, a'))
          × (count x out ≡ 0)
          × (l ≤ x)
          × (x < a.end)
          × Owns l a' (x ∷ out))
unfolding alloc
alloc-Owns l a out o = elim (Option-cases (pop_back a.recycled)) [
  | inl e ↦ elim (Bool-cases (a.current == a.end)) [
    | inl full ↦
        inl (rw (e, alloc) (rw full), ground (arith, o.sum, pop_back-none a.recycled e, full))
    | inr free ↦
        let word : to_ppn a.current ≡ a.current = ground (arith, o.high, o.small, free) in
        let next : (a.current + 1) % 2 ^ 64 ≡ a.current + 1 =
          ground (arith, o.high, o.small, free) in
        inr (
          a.current,
          record a { current = a.current + 1 },
          rw (e, alloc) (rw (free, word, next)),
          ground (arith, o.once a.current),
          o.low,
          ground (arith, o.high, free),
          record {
            low = omega (arith, o.low);
            high = ground (arith, o.high, free);
            small = o.small;
            once = λ y. ground (arith, o.once y, o.low);
            sum = omega (arith, o.sum, o.low);
          },
        )
  ]
  | inr ((x, rest), e) ↦
      let (fresh, low, lt, owns) =
        alloc_recycled l a out rest x o (pop_back-eq a.recycled rest x e) in
      let word : to_ppn x ≡ x = omega (arith, o.high, o.small) in
      inr (
        x,
        record a { recycled = rest },
        rw (e, alloc) (rw word),
        fresh,
        low,
        omega (arith, o.high),
        owns,
      )
]

-- `dealloc` takes back a frame that is out, and panics on any other of the range: one that was
-- never given, or that was given back before.
pub dealloc-Owns :
    (l : ℕ) (a : StackFrameAllocator) (out : List ℕ) (x : ℕ)
    → Owns l a out
    → ((count x out ≡ 0) × (l ≤ x) × (dealloc x a ≡ panic))
      ⊎ (x < l)
      ⊎ ((count x out ≡ 1)
          × (a' : StackFrameAllocator) × (dealloc x a ≡ ok a')
          × Owns l a' (erase x out))
unfolding dealloc
dealloc-Owns l a out x o = elim (Bool-cases (leb a.current x || contains a.recycled x)) [
  | inl bad ↦ elim (Bool-cases (ltb x l)) [
    | inl below ↦ inr (inl (ground arith))
    | inr within ↦ inl (ground (arith, o.once x, contains-count a.recycled x), ground arith, rw bad)
  ]
  | inr good ↦ elim (Bool-cases (ltb x l)) [
    | inl below ↦ inr (inl (ground arith))
    | inr within ↦
        let out_once : count x out ≡ 1 = ground (arith, o.once x, contains-count a.recycled x) in
        inr (
          inr (
            out_once,
            record a { recycled = a.recycled ++ x ∷ [] },
            rw good,
            record {
              low = o.low;
              high = o.high;
              small = o.small;
              once = λ y. ground (
                arith,
                o.once y,
                count-append y a.recycled (x ∷ []),
                count-erase y x out,
                out_once,
              );
              sum = omega (
                arith,
                o.sum,
                length-append a.recycled (x ∷ []),
                length-erase x out (omega (arith, out_once)),
              );
            },
          ))
  ]
]
