-- ===== src/EasyFs/Bitmap.antt =====
-- tg-rcore-tutorial-easy-fs/src/bitmap.rs: the allocation of inodes and data blocks. A block of the
-- bitmap is the list of its 64 words, and the device a function from block ids, which the block
-- cache stands for.
pub mod Words
pub mod Alloc
use tg_rcore_tutorial.Prelude.{
  ℕ, zero, suc, ◌+◌, ◌-◌, ◌*◌, ◌/◌, ◌%◌, ◌^◌, ◌==◌, ltb, if◌then◌else◌, Bool, true, false, Option,
  none, some, List, [], ◌∷◌, Outcome, ok, ◌>>=◌, ◌>>◌, assert,
}
use Prim.Native.Nat.{bit_and, bit_or}
use tg_rcore_tutorial.Prelude.Bits.{trailing_ones}

-- `BLOCK_SZ * 8`
abbrev pub block_bits : ℕ
block_bits = 4096

abbrev pub u64_max : ℕ
u64_max = 2 ^ 64 - 1

abbrev pub BitmapBlock : Type 0
BitmapBlock = List ℕ

abbrev pub Device : Type 0
Device = ℕ → BitmapBlock

pub record Bitmap : Type 0 where
  pub start_block_id : ℕ
  pub blocks : ℕ

unfoldable pub decomposition : ℕ → ℕ × ℕ × ℕ
decomposition bit = (bit / block_bits, bit % block_bits / 64, bit % block_bits % 64)

-- `modify` on the words of the block `id`.
unfoldable pub write : ℕ → BitmapBlock → Device → Device
write id block dev j = if id == j then block else dev j

-- `find` of a word that is not full, with its index and its lowest free bit.
unfoldable pub find_free : BitmapBlock → Option (ℕ × ℕ)
find_free [] = none
find_free (bits64 ∷ rest) =
    let later = find_free rest in
    if bits64 == u64_max
    then elim later [ none ↦ none | some (pos, inner) ↦ some (suc pos, inner) ]
    else some (0, trailing_ones 64 bits64)

-- `block[pos]`, where the index is in range.
unfoldable pub word : ℕ → BitmapBlock → ℕ
word pos [] = 0
word zero (w ∷ ws) = w
word (suc pos) (w ∷ ws) = word pos ws

unfoldable pub set_word : ℕ → ℕ → BitmapBlock → BitmapBlock
set_word pos x [] = []
set_word zero x (w ∷ ws) = x ∷ ws
set_word (suc pos) x (w ∷ ws) = w ∷ set_word pos x ws

unfoldable pub alloc_block : BitmapBlock → Option ((ℕ × ℕ) × BitmapBlock)
alloc_block block = elim (find_free block) [
  | none ↦ none
  | some (pos, inner) ↦
      some ((pos, inner), set_word pos (bit_or (word pos block) (2 ^ inner)) block)
]

-- `for block_id in 0..self.blocks`, from `block_id` on, with the blocks that are left.
unfoldable pub alloc_from : ℕ → ℕ → ℕ → Device → Option ℕ × Device
alloc_from zero block_id start dev = (none, dev)
alloc_from (suc left) block_id start dev =
    let later = alloc_from left (block_id + 1) start dev in
    elim (alloc_block (dev (block_id + start))) [
      | none ↦ later
      | some ((pos, inner), block) ↦
          (some (block_id * block_bits + pos * 64 + inner), write (block_id + start) block dev)
    ]

unfoldable pub alloc : Bitmap → Device → Option ℕ × Device
alloc b dev = alloc_from b.blocks 0 b.start_block_id dev

unfoldable pub dealloc : Bitmap → ℕ → Device → Outcome Device
dealloc b bit dev =
    let (block_pos, bits64_pos, inner_pos) = decomposition bit in
    let block = dev (block_pos + b.start_block_id) in
    let bits64 = word bits64_pos block in
    assert (ltb 0 (bit_and bits64 (2 ^ inner_pos)))
    >> ok (
        write (block_pos + b.start_block_id) (set_word bits64_pos (bits64 - 2 ^ inner_pos) block)
          dev)

unfoldable pub maximum : Bitmap → ℕ
maximum b = b.blocks * block_bits
