-- ===== src/Multicore/FrameAlloc/Refcount.antt =====
-- The life of a frame that several address spaces share (frame_alloc.rs).
use tg_rcore_tutorial.Prelude.{
  ℕ, zero, suc, ◌+◌, ◌-◌, ◌%◌, ◌^◌, ◌<◌, ◌≤◌, ◌≡◌, refl, ◌∙◌, ap, ◌==◌, false, some, List, Outcome,
  ok, ◌>>=◌, count, erase, arith, inl, inr,
}
use tg_rcore_tutorial.Prelude.Map
use tg_rcore_tutorial.Multicore.FrameAlloc.{
  StackFrameAllocator, dealloc, Tables, or_one, frame_refcount_inc, frame_refcount_dec,
}
use tg_rcore_tutorial.Multicore.FrameAlloc.Frames.{Owns, dealloc-Owns}

-- `n` more address spaces map a frame.
unfoldable pub share : ℕ → ℕ → Tables → Tables
share zero x t = t
share (suc n) x t = share n x (frame_refcount_inc x t).1

-- `n` address spaces drop it, one after another.
unfoldable pub drop : ℕ → ℕ → Tables → Outcome Tables
drop zero x t = ok t
drop (suc n) x t = frame_refcount_dec x t >>= λ r. drop n x r.1

share_lem :
    (n c x : ℕ) (t : Tables)
    → t.refcount x ≡ some c
    → c + n < 2 ^ 64
    → ((share n x t).refcount x ≡ some (c + n)) × ((share n x t).frames ≡ t.frames)
unfolding share frame_refcount_inc
share_lem zero c x t e lt = (ground (arith, e), refl)
share_lem (suc n) c x t e lt =
    let word : (or_one (t.refcount x) + 1) % 2 ^ 64 ≡ c + 1 = rw e (omega arith) in
    let inserted : (frame_refcount_inc x t).1.refcount x ≡ some (c + 1) = ground (arith, word) in
    let (counted, same) = share_lem n (c + 1) x (frame_refcount_inc x t).1 inserted (omega arith) in
    (counted ∙ ap some (omega arith), same)

-- One of `c` drops that is not the last.
dec_lem :
    (c x : ℕ) (t : Tables)
    → t.refcount x ≡ some c
    → c < 2 ^ 64
    → 1 < c
    → frame_refcount_dec x t ≡ ok (c - 1, record t { refcount = Map.insert x (c - 1) t.refcount })
unfolding frame_refcount_dec
dec_lem c x t e top lt =
    let word : (c + (2 ^ 64 - 1)) % 2 ^ 64 ≡ c - 1 = omega arith in
    let more : (c - 1 == 0) ≡ false = ground arith in rw (e, frame_refcount_dec) (rw word (rw more))

drop_lem :
    (n c x : ℕ) (t : Tables)
    → t.refcount x ≡ some c
    → c < 2 ^ 64
    → n < c
    → (t' : Tables) × (drop n x t ≡ ok t') × (t'.refcount x ≡ some (c - n)) × (t'.frames ≡ t.frames)
unfolding drop
drop_lem zero c x t e top lt = (t, refl, e ∙ ap some (omega arith), refl)
drop_lem (suc n) c x t e top lt =
    let t1 : Tables = record t { refcount = Map.insert x (c - 1) t.refcount } in
    let inserted : t1.refcount x ≡ some (c - 1) = ground arith in
    let (t', run, left, same) = drop_lem n (c - 1) x t1 inserted (omega arith) (omega arith) in
    (t', rw (dec_lem c x t e top (omega arith)) run, left ∙ ap some (omega arith), same)

last_lem :
    (x : ℕ) (t : Tables) (a : StackFrameAllocator)
    → t.refcount x ≡ some 1
    → dealloc x t.frames ≡ ok a
    → frame_refcount_dec x t ≡ ok (0, record { refcount = Map.remove x t.refcount; frames = a })
unfolding frame_refcount_dec
last_lem x t a e freed = rw (e, frame_refcount_dec) (rw freed)

-- A frame is out with one reference, and `n` more address spaces come to share it, `n` + 1 below
-- 2^64. The first `n` drops do not panic and leave the allocator as it is, and the next one gives
-- the frame back, once, and forgets its count.
pub share-drop :
    (l n x : ℕ) (t : Tables) (out : List ℕ)
    → Owns l t.frames out
    → l ≤ x
    → count x out ≡ 1
    → t.refcount x ≡ some 1
    → n + 1 < 2 ^ 64
    → (t' : Tables) × (a : StackFrameAllocator) × (drop n x (share n x t) ≡ ok t')
      × (t'.refcount x ≡ some 1)
      × (t'.frames ≡ t.frames)
      × (frame_refcount_dec x t'
          ≡ ok (0, record { refcount = Map.remove x t'.refcount; frames = a }))
      × Owns l a (erase x out)
share-drop l n x t out o low once one lt =
    let (shared, same) = share_lem n 1 x t one (omega arith) in
    let (t', run, left, kept) =
      drop_lem n (1 + n) x (share n x t) shared (omega arith) (omega arith) in
    let first : t'.refcount x ≡ some 1 = left ∙ ap some (omega arith) in
    elim (dealloc-Owns l t.frames out x o) [
      | inl (none_out, _, _) ↦ absurd (omega (arith, none_out))
      | inr (inl below) ↦ absurd (omega arith)
      | inr (inr (_, a, freed, owns)) ↦
          (t', a, run, first, kept ∙ same, last_lem x t' a first (rw (kept ∙ same) freed), owns)
    ]
