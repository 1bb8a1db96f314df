-- ===== src/EasyFs/Content.antt =====
-- tg-rcore-tutorial-easy-fs/src/layout.rs: reading and writing the bytes of an inode. The blocks
-- are a function from their ids to tables of bytes; the blocks of ids among them are looked at
-- through `ids_of`.
pub mod Bytes
pub mod Reads
pub mod Writes
pub mod Stores
use tg_rcore_tutorial.Prelude.{
  ℕ, zero, suc, ◌+◌, ◌-◌, ◌*◌, ◌/◌, ◌%◌, ◌^◌, ◌==◌, leb, if◌then◌else◌, Bool, true, false, List, [],
  ◌∷◌, ◌++◌, length, Outcome, ok, panic, ◌>>=◌, ◌>>◌, assert,
}
use Prim.Native.Nat.{min}
use tg_rcore_tutorial.EasyFs.Layout.{Table, Device, DiskInode, get_block_id, entries, fill, write}

-- Where the part of a block that is read or written ends.
unfoldable pub end_current_block : ℕ → ℕ → ℕ
end_current_block start end = min ((start / 512 + 1) * 512) end

-- The blocks as tables of ids, `IndirectBlock`: the words of four bytes each, the lowest first.
unfoldable pub ids_of : Device → Device
ids_of blocks id i =
    blocks id (4 * i)
    + 256 * blocks id (4 * i + 1)
    + 65536 * blocks id (4 * i + 2)
    + 16777216 * blocks id (4 * i + 3)

-- The loop of `read_at`, which copies to the buffer what is returned here: `dev` are the blocks as
-- tables of ids. Out of fuel it would panic.
unfoldable pub read_from : ℕ → ℕ → ℕ → ℕ → DiskInode → Device → Device → Outcome (List ℕ)
read_from zero start start_block end inode dev blocks = panic
read_from (suc fuel) start start_block end inode dev blocks = do
  let next = end_current_block start end
  id ← get_block_id (start_block % 2 ^ 32) inode dev
  let piece = entries (next - start) (start % 512) (blocks id)
  elim (next == end) [
    | true ↦ ok piece
    | false ↦
        read_from fuel next (start_block + 1) end inode dev blocks >>= λ rest. ok (piece ++ rest)
  ]

-- For a buffer of `len` bytes: the bytes that are read.
unfoldable pub read_at : ℕ → ℕ → DiskInode → Device → Device → Outcome (List ℕ)
read_at offset len inode dev blocks =
    let end = min (offset + len) inode.size in
    elim (leb end offset) [
      | true ↦ ok []
      | false ↦ read_from (suc (end - offset)) offset (offset / 512) end inode dev blocks
    ]

-- The loop of `write_at`, with what is left of the buffer: how many bytes it writes. The ids are
-- those of the blocks as they are then. Out of fuel it would panic.
unfoldable pub write_from : ℕ → ℕ → ℕ → ℕ → List ℕ → DiskInode → Device → Outcome (ℕ × Device)
write_from zero start start_block end buf inode blocks = panic
write_from (suc fuel) start start_block end buf inode blocks = do
  let next = end_current_block start end
  id ← get_block_id (start_block % 2 ^ 32) inode (ids_of blocks)
  (block, rest) ← fill (next - start) (start % 512) buf (blocks id)
  elim (next == end) [
    | true ↦ ok (next - start, write id block blocks)
    | false ↦
        write_from fuel next (start_block + 1) end rest inode (write id block blocks)
        >>= λ (size, blocks'). ok (next - start + size, blocks')
  ]

unfoldable pub write_at : ℕ → List ℕ → DiskInode → Device → Outcome (ℕ × Device)
write_at offset buf inode blocks =
    let end = min (offset + length buf) inode.size in
    assert (leb offset end)
    >> write_from (suc (end - offset)) offset (offset / 512) end buf inode blocks
