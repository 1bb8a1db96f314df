-- ===== src/Multicore/FrameAlloc.antt =====
-- multicore/kernel/src/mm/frame_alloc.rs: the frame allocator, and the reference counts of frames
-- that are shared by copy-on-write. The zeroing of a frame writes raw memory and is left out. Words wrap.
pub mod Frames
pub mod Refcount
use tg_rcore_tutorial.Prelude.{
  ℕ, ◌+◌, ◌-◌, ◌%◌, ◌^◌, ◌==◌, leb, ◌||◌, if◌then◌else◌, Bool, true, false, Option, none, some,
  List, [], ◌∷◌, ◌++◌, Outcome, ok, panic, ◌>>=◌, contains, pop_back, is_some,
}
use tg_rcore_tutorial.Prelude.Map
use tg_rcore_tutorial.Prelude.Map.{Map}

pub record StackFrameAllocator : Type 0 where
  pub current : ℕ
  pub end : ℕ
  pub recycled : List ℕ

-- `PhysPageNum::from(usize)` keeps the low 44 bits.
abbrev pub to_ppn : ℕ → ℕ
to_ppn v = v % 2 ^ 44

pub new : StackFrameAllocator
new = record { current = 0; end = 0; recycled = [] }

unfoldable pub init : ℕ → ℕ → StackFrameAllocator → StackFrameAllocator
init l r a = record a { current = l; end = r }

unfoldable pub alloc : StackFrameAllocator → Option ℕ × StackFrameAllocator
alloc a = elim (pop_back a.recycled) [
  | some (ppn, rest) ↦ (some (to_ppn ppn), record a { recycled = rest })
  | none ↦
      if a.current == a.end
      then (none, a)
      else (some (to_ppn a.current), record a { current = (a.current + 1) % 2 ^ 64 })
]

unfoldable pub dealloc : ℕ → StackFrameAllocator → Outcome StackFrameAllocator
dealloc ppn a =
    if leb a.current ppn || contains a.recycled ppn
    then panic
    else ok (record a { recycled = a.recycled ++ ppn ∷ [] })

-- The counts and the allocator, the two global tables.
pub record Tables : Type 0 where
  pub refcount : Map ℕ
  pub frames : StackFrameAllocator

-- `map.entry(ppn).or_insert(1)`
abbrev pub or_one : Option ℕ → ℕ
or_one none = 1
or_one (some n) = n

unfoldable pub frame_refcount_inc : ℕ → Tables → ℕ × Tables
frame_refcount_inc ppn t =
    let count = (or_one (t.refcount ppn) + 1) % 2 ^ 64 in
    (count, record t { refcount = Map.insert ppn count t.refcount })

unfoldable pub frame_refcount_dec : ℕ → Tables → Outcome (ℕ × Tables)
frame_refcount_dec ppn t = elim (t.refcount ppn) [
  | none ↦ ok (0, t)
  | some count ↦
      let less = (count + (2 ^ 64 - 1)) % 2 ^ 64 in
      if less == 0
      then (dealloc ppn t.frames >>= λ frames.
          ok (0, record { refcount = Map.remove ppn t.refcount; frames = frames }))
      else ok (less, record t { refcount = Map.insert ppn less t.refcount })
]

abbrev pub or_zero : Option ℕ → ℕ
or_zero none = 0
or_zero (some n) = n

unfoldable pub frame_refcount_get : ℕ → Tables → ℕ
frame_refcount_get ppn t = or_zero (t.refcount ppn)

unfoldable pub frame_refcount_register : ℕ → Tables → Tables
frame_refcount_register ppn t = record t {
  refcount = Map.insert ppn (or_one (t.refcount ppn)) t.refcount;
}

unfoldable pub frame_refcount_take : ℕ → Tables → Bool × Tables
frame_refcount_take ppn t =
    (is_some (t.refcount ppn), record t { refcount = Map.remove ppn t.refcount })
