-- ===== src/EasyFs/Runs.antt =====
-- Runs of the block cache, of a new file system, of the bytes of a file and of names.
use tg_rcore_tutorial.Prelude.{
  ℕ, ◌+◌, ◌-◌, ◌*◌, ◌==◌, ◌<◌, ◌≤◌, ◌≡◌, refl, arith, if◌then◌else◌, Bool-cases, inl, inr, true,
  List, [], ◌∷◌, ◌⊎◌, ok, panic,
}
use Prim.Native.Nat.{min}
use tg_rcore_tutorial.EasyFs.BlockCache.{Queue, BlockDevice, block_cache_sync_all}
use tg_rcore_tutorial.EasyFs.BlockCache.Keeps.{contents, IsValid}
use tg_rcore_tutorial.EasyFs.BlockCache.Sync.{block_cache_sync_all_lem}
use tg_rcore_tutorial.EasyFs.BlockCache.Keeps.{empty-IsValid}
use tg_rcore_tutorial.EasyFs.BlockCache.Transparent.{
  Call, get, look, alter, give_back, sync_all, run, run_direct, Agree, run_lem,
}
use tg_rcore_tutorial.EasyFs.Bitmap.{maximum}
use tg_rcore_tutorial.EasyFs.Bitmap.Alloc.{IsDevice, taken}
use tg_rcore_tutorial.EasyFs.Layout.{DiskInode, file, data_blocks, data_blocks_of, entries}
use tg_rcore_tutorial.EasyFs.Efs.{
  EasyFileSystem, Disk, zeros, zero_inode, zero_super_block, create, open_device,
  get_disk_inode_pos, get_disk_inode_id, alloc_data, dealloc_data,
}
use tg_rcore_tutorial.EasyFs.Efs.Zeroed.{zeros-AllWords}
use tg_rcore_tutorial.EasyFs.Efs.Regions.{create_lem}
use tg_rcore_tutorial.EasyFs.Efs.Inodes.{
  get_disk_inode_id-get_disk_inode_pos, alloc_data-dealloc_data,
}
use tg_rcore_tutorial.EasyFs.DirEntry
use tg_rcore_tutorial.EasyFs.DirEntry.{DirEntry, name_of-new}
use tg_rcore_tutorial.EasyFs.Content.{ids_of, read_at, write_at}
use tg_rcore_tutorial.EasyFs.Content.Bytes.{block_of, byte}
use tg_rcore_tutorial.EasyFs.Content.Reads.{read_at_lem}
use tg_rcore_tutorial.EasyFs.Content.Writes.{IsInjective, IsApart, IsWritten}
use tg_rcore_tutorial.EasyFs.Content.Stores.{write_at_lem, read_at-write_at}

abbrev numbers : BlockDevice ℕ
numbers id = id + 100

-- Block 3 is read, set to 9 and read again.
abbrev accesses : List (Call ℕ ℕ)
accesses = get 3 ∷ alter 3 0 8 (λ x. (x, 9)) ∷ look 3 0 8 (λ x. x) ∷ give_back 3 ∷ sync_all ∷ []

run_lem_example : Agree (run_direct accesses numbers) (run accesses [] numbers)
run_lem_example =
    run_lem accesses [] [] numbers (empty-IsValid numbers) (omega arith, (refl, (refl, (refl, tt))))

-- Block 3 is cached, and not yet written back.
abbrev dirty : Queue ℕ
dirty = (3, record { cache = 9; block_id = 3; modified = true; strong_count = 1 }) ∷ []

dirty-IsValid : IsValid [] dirty numbers
dirty-IsValid = record {
  distinct = (refl, tt);
  few = omega arith;
  clean = λ id. elim (Bool-cases (3 == id)) [
    | inl hit ↦ rw hit (ground (arith, hit), λ same. cc)
    | inr miss ↦ rw miss tt
  ];
  counted = λ id. elim (Bool-cases (3 == id)) [ inl hit ↦ rw hit refl | inr miss ↦ rw miss refl ];
}

block_cache_sync_all_lem_example :
    IsValid [] (block_cache_sync_all dirty numbers).0 (block_cache_sync_all dirty numbers).1
    × ((block_cache_sync_all dirty numbers).1 ≡ contents dirty numbers)
    × (contents (block_cache_sync_all dirty numbers).0 (block_cache_sync_all dirty numbers).1
        ≡ contents dirty numbers)
block_cache_sync_all_lem_example = block_cache_sync_all_lem [] dirty numbers dirty-IsValid

abbrev blank : Disk
blank = record {
  super_block = zero_super_block;
  words = λ id. zeros 64;
  inodes = λ id offset. zero_inode;
}

blank-IsDevice : IsDevice blank.words
blank-IsDevice id = (refl, zeros-AllWords 64)

create_lem_example :
    (efs : EasyFileSystem) × (disk' : Disk) × (create 4000 1 blank ≡ ok (efs, disk'))
    × (open_device disk' ≡ ok efs)
    × (efs.inode_bitmap.start_block_id ≡ 1)
    × (efs.inode_area_start_block ≡ 1 + efs.inode_bitmap.blocks)
    × (efs.data_bitmap.start_block_id
        ≡ efs.inode_area_start_block + disk'.super_block.inode_area_blocks)
    × (efs.data_area_start_block ≡ efs.data_bitmap.start_block_id + efs.data_bitmap.blocks)
    × (efs.data_area_start_block + disk'.super_block.data_area_blocks ≡ 4000)
    × (maximum efs.inode_bitmap ≡ 4 * disk'.super_block.inode_area_blocks)
    × (disk'.super_block.data_area_blocks ≤ maximum efs.data_bitmap)
    × ((j : ℕ) → j < maximum efs.inode_bitmap → taken 1 disk'.words j ≡ (if j == 0 then 1 else 0))
    × ((j : ℕ)
        → j < maximum efs.data_bitmap
        → taken efs.data_bitmap.start_block_id disk'.words j ≡ 0)
create_lem_example =
    create_lem 4000 1 blank blank-IsDevice (omega arith) (omega arith) (omega arith)

-- The regions of a device of 4000 blocks.
abbrev small : EasyFileSystem
small = record {
  inode_bitmap = record { start_block_id = 1; blocks = 1 };
  data_bitmap = record { start_block_id = 1026; blocks = 1 };
  inode_area_start_block = 2;
  data_area_start_block = 1027;
}

get_disk_inode_id-get_disk_inode_pos_example :
    (2 ≤ (get_disk_inode_pos small 701).0)
    × ((get_disk_inode_pos small 701).0 < 2 + 1024)
    × ((get_disk_inode_pos small 701).1 + 128 ≤ 512)
    × (get_disk_inode_id small (get_disk_inode_pos small 701).0 (get_disk_inode_pos small 701).1
        ≡ 701)
get_disk_inode_id-get_disk_inode_pos_example =
    get_disk_inode_id-get_disk_inode_pos small 1024 701 (omega arith) (omega arith)

alloc_data-dealloc_data_example :
    ((alloc_data small blank ≡ panic)
      × ((j : ℕ) → j < maximum small.data_bitmap → taken 1026 blank.words j ≡ 1))
    ⊎ ((k : ℕ) × (disk' : Disk) × (disk'' : Disk) × (k < maximum small.data_bitmap)
        × (taken 1026 blank.words k ≡ 0)
        × (alloc_data small blank ≡ ok (1027 + k, disk'))
        × (taken 1026 disk'.words k ≡ 1)
        × (dealloc_data small (1027 + k) disk' ≡ ok disk'')
        × ((j : ℕ)
            → j < maximum small.data_bitmap
            → taken 1026 disk''.words j ≡ taken 1026 blank.words j))
unfolding maximum
alloc_data-dealloc_data_example =
    alloc_data-dealloc_data small blank blank-IsDevice (omega arith) (omega arith)

-- A file of 1000 bytes in the blocks 10 and 11.
abbrev two_blocks : DiskInode
two_blocks = record zero_inode { size = 1000; direct = λ i. i + 10; type_of = file; nlink = 1 }

abbrev no_tables : ℕ → ℕ → ℕ
no_tables id i = 0

abbrev letters : List ℕ
letters = 97 ∷ 98 ∷ 99 ∷ 100 ∷ []

two_blocks-IsInjective : IsInjective two_blocks (ids_of no_tables)
unfolding data_blocks data_blocks_of
two_blocks-IsInjective i j lt_i lt_j same = ground (arith, lt_i, lt_j, same)

two_blocks-IsApart : IsApart two_blocks (ids_of no_tables)
unfolding data_blocks data_blocks_of
two_blocks-IsApart i j lt_i lt_j = ground (arith, lt_j)

read_at_lem_example :
    read_at 510 4 two_blocks no_tables no_tables
    ≡ ok (entries (min (510 + 4) 1000 - 510) 510 (byte two_blocks no_tables no_tables))
read_at_lem_example = read_at_lem 510 4 two_blocks no_tables no_tables (omega arith)

-- The write ends in the second block.
write_at_lem_example :
    (blocks' : ℕ → ℕ → ℕ) × (write_at 510 letters two_blocks no_tables
      ≡ ok (min (510 + 4) 1000 - 510, blocks'))
    × IsWritten 510 (min (510 + 4) 1000) letters two_blocks (ids_of no_tables) no_tables blocks'
    × ((j : ℕ)
        → j < data_blocks two_blocks
        → block_of j two_blocks (ids_of blocks') ≡ block_of j two_blocks (ids_of no_tables))
write_at_lem_example =
    write_at_lem two_blocks 510 letters no_tables two_blocks-IsInjective two_blocks-IsApart
      (omega arith) (omega arith) (omega arith)

read_at-write_at_example :
    (blocks' : ℕ → ℕ → ℕ) × (write_at 510 letters two_blocks no_tables ≡ ok (4, blocks'))
    × (read_at 510 4 two_blocks (ids_of blocks') blocks' ≡ ok letters)
read_at-write_at_example =
    read_at-write_at two_blocks 510 letters no_tables two_blocks-IsInjective two_blocks-IsApart
      (omega arith) (omega arith) (omega arith)

name_of-new_example :
    ((4 < 28)
      × (e : DirEntry) × (DirEntry.new letters 7 ≡ ok e)
      × (DirEntry.name_of e ≡ ok letters)
      × (e.inode_number ≡ 7))
    ⊎ (◌≡◌ {A = ℕ} 4 28
        × (e : DirEntry) × (DirEntry.new letters 7 ≡ ok e)
        × (DirEntry.name_of e ≡ panic))
    ⊎ ((28 < 4) × (DirEntry.new letters 7 ≡ panic))
name_of-new_example = name_of-new letters 7 refl
