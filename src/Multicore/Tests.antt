-- ===== src/Multicore/Tests.antt =====
-- Runs of the allocators of multicore/kernel on concrete states.
use tg_rcore_tutorial.Prelude.{
  ℕ, ◌-◌, ◌<◌, ◌≤◌, ◌≡◌, refl, arith, none, some, [], ◌∷◌, ok, panic, count, ◌⊎◌,
}
use tg_rcore_tutorial.Prelude.Map
use tg_rcore_tutorial.Multicore.FrameAlloc
use tg_rcore_tutorial.Multicore.FrameAlloc.Refcount.{share, drop, share-drop}
use tg_rcore_tutorial.Multicore.FrameAlloc.{StackFrameAllocator, Tables, frame_refcount_dec}
use tg_rcore_tutorial.Multicore.FrameAlloc.Frames.{Owns, alloc-Owns, dealloc-Owns}

-- Frames from 16 to 24: 16 and 18 are out, 17 came back.
abbrev frames : StackFrameAllocator
frames = record { current = 19; end = 24; recycled = 17 ∷ [] }

frames-Owns : Owns 16 frames (16 ∷ 18 ∷ [])
frames-Owns = record {
  low = omega arith;
  high = omega arith;
  small = omega arith;
  once = λ x. ground arith;
  sum = refl;
}

alloc-Owns_example :
    ((FrameAlloc.alloc frames ≡ (none, frames)) × (2 ≡ 24 - 16))
    ⊎ ((x : ℕ) × (a' : StackFrameAllocator) × (FrameAlloc.alloc frames ≡ (some x, a'))
        × (count x (16 ∷ 18 ∷ []) ≡ 0)
        × (16 ≤ x)
        × (x < 24)
        × Owns 16 a' (x ∷ 16 ∷ 18 ∷ []))
alloc-Owns_example = alloc-Owns 16 frames (16 ∷ 18 ∷ []) frames-Owns

dealloc-Owns_example :
    ((count 18 (16 ∷ 18 ∷ []) ≡ 0) × (16 ≤ 18) × (FrameAlloc.dealloc 18 frames ≡ panic))
    ⊎ (18 < 16)
    ⊎ ((count 18 (16 ∷ 18 ∷ []) ≡ 1)
        × (a' : StackFrameAllocator) × (FrameAlloc.dealloc 18 frames ≡ ok a')
        × Owns 16 a' (16 ∷ []))
dealloc-Owns_example = dealloc-Owns 16 frames (16 ∷ 18 ∷ []) 18 frames-Owns

-- Pids 0 and 2 are in use.

-- Two more address spaces come to share frame 18.
abbrev tables : Tables
tables = record { refcount = Map.insert 18 1 Map.empty; frames = frames }

share-drop_example :
    (t' : Tables) × (a : StackFrameAllocator) × (drop 2 18 (share 2 18 tables) ≡ ok t')
    × (t'.refcount 18 ≡ some 1)
    × (t'.frames ≡ frames)
    × (frame_refcount_dec 18 t'
        ≡ ok (0, record { refcount = Map.remove 18 t'.refcount; frames = a }))
    × Owns 16 a (16 ∷ [])
share-drop_example =
    share-drop 16 2 18 tables (16 ∷ 18 ∷ []) frames-Owns (omega arith) refl refl (omega arith)
