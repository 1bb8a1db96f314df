-- ===== src/EasyFs/Efs.antt =====
-- tg-rcore-tutorial-easy-fs/src/efs.rs: where the parts of a file system lie on its device. A block
-- is seen through one of three views: block 0 as the super block, others as 64 words or as inodes
-- at their offsets. The block cache is transparent. Numbers of blocks are `u32`.
pub mod Zeroed
pub mod Regions
pub mod Inodes
use tg_rcore_tutorial.Prelude.{
  ℕ, zero, suc, ◌+◌, ◌-◌, ◌*◌, ◌/◌, ◌%◌, ◌^◌, ◌==◌, if◌then◌else◌, Bool, true, false, Option, none,
  some, List, [], ◌∷◌, Outcome, ok, panic, ◌>>=◌, ◌>>◌, assert, unwrap,
}
use tg_rcore_tutorial.EasyFs.Bitmap
use tg_rcore_tutorial.EasyFs.Bitmap.{Bitmap, Device, BitmapBlock, maximum}
use tg_rcore_tutorial.EasyFs.Layout
use tg_rcore_tutorial.EasyFs.Layout.{DiskInode, file, directory, div_ceil}

-- `initialize` and `is_valid` of `SuperBlock` are in layout.rs.
pub record SuperBlock : Type 0 where
  pub magic : ℕ
  pub total_blocks : ℕ
  pub inode_bitmap_blocks : ℕ
  pub inode_area_blocks : ℕ
  pub data_bitmap_blocks : ℕ
  pub data_area_blocks : ℕ

abbrev pub efs_magic : ℕ
efs_magic = 998244353

unfoldable pub is_valid : SuperBlock → Bool
is_valid s = s.magic == efs_magic

pub record EasyFileSystem : Type 0 where
  pub inode_bitmap : Bitmap
  pub data_bitmap : Bitmap
  pub inode_area_start_block : ℕ
  pub data_area_start_block : ℕ

pub record Disk : Type 0 where
  pub super_block : SuperBlock
  pub words : Device
  pub inodes : ℕ → ℕ → DiskInode

-- `u32` sums and differences.
abbrev pub add32 : ℕ → ℕ → ℕ
add32 a b = (a + b) % 2 ^ 32

abbrev pub sub32 : ℕ → ℕ → ℕ
sub32 a b = (a + 2 ^ 32 - b) % 2 ^ 32

-- `size_of::<DiskInode>()`
abbrev pub inode_size : ℕ
inode_size = 128

abbrev pub inodes_per_block : ℕ
inodes_per_block = 512 / inode_size

unfoldable pub get_disk_inode_pos : EasyFileSystem → ℕ → ℕ × ℕ
get_disk_inode_pos efs inode_id = (
  add32 efs.inode_area_start_block (inode_id / inodes_per_block),
  inode_id % inodes_per_block * inode_size,
)

unfoldable pub get_disk_inode_id : EasyFileSystem → ℕ → ℕ → ℕ
get_disk_inode_id efs block_id block_offset =
    add32 (sub32 block_id efs.inode_area_start_block * inodes_per_block % 2 ^ 32)
      (block_offset / inode_size)

unfoldable pub get_data_block_id : EasyFileSystem → ℕ → ℕ
get_data_block_id efs data_block_id = add32 efs.data_area_start_block data_block_id

unfoldable pub alloc_inode : EasyFileSystem → Disk → Outcome (ℕ × Disk)
alloc_inode efs disk = do
  let (bit, words) = Bitmap.alloc efs.inode_bitmap disk.words
  id ← unwrap bit
  ok (id % 2 ^ 32, record disk { words = words })

unfoldable pub alloc_data : EasyFileSystem → Disk → Outcome (ℕ × Disk)
alloc_data efs disk = do
  let (bit, words) = Bitmap.alloc efs.data_bitmap disk.words
  id ← unwrap bit
  ok (add32 (id % 2 ^ 32) efs.data_area_start_block, record disk { words = words })

abbrev pub zeros : ℕ → BitmapBlock
zeros zero = []
zeros (suc n) = 0 ∷ zeros n

abbrev pub zero_inode : DiskInode
zero_inode = record {
  size = 0;
  direct = λ i. 0;
  indirect1 = 0;
  indirect2 = 0;
  type_of = file;
  nlink = 0;
}

abbrev pub zero_super_block : SuperBlock
zero_super_block = record {
  magic = 0;
  total_blocks = 0;
  inode_bitmap_blocks = 0;
  inode_area_blocks = 0;
  data_bitmap_blocks = 0;
  data_area_blocks = 0;
}

-- The bytes of a block are set to 0, in each view.
unfoldable pub zero_block : ℕ → Disk → Disk
zero_block id disk = record {
  super_block = if id == 0 then zero_super_block else disk.super_block;
  words = Bitmap.write id (zeros 64) disk.words;
  inodes = λ j. if id == j then (λ offset. zero_inode) else disk.inodes j;
}

-- `for i in 0..total_blocks`, from `i` on.
unfoldable pub zero_from : ℕ → ℕ → Disk → Disk
zero_from zero i disk = disk
zero_from (suc left) i disk = zero_from left (i + 1) (zero_block i disk)

unfoldable pub dealloc_data : EasyFileSystem → ℕ → Disk → Outcome Disk
dealloc_data efs block_id disk = do
  let cleared = zero_block block_id disk
  words ← Bitmap.dealloc efs.data_bitmap (sub32 block_id efs.data_area_start_block) cleared.words
  ok (record cleared { words = words })

unfoldable pub dealloc_inode : EasyFileSystem → ℕ → Disk → Outcome Disk
dealloc_inode efs inode_id disk = do
  words ← Bitmap.dealloc efs.inode_bitmap inode_id disk.words
  ok (record disk { words = words })

-- A change of the inode at a place.
unfoldable pub modify_inode : ℕ → ℕ → (DiskInode → DiskInode) → Disk → Disk
modify_inode block_id offset f disk = record disk {
  inodes = λ j o.
      if block_id == j
      then (if offset == o then f (disk.inodes j o) else disk.inodes j o)
      else disk.inodes j o;
}

-- The file system of `create`, and the super block.
unfoldable pub plan : ℕ → ℕ → EasyFileSystem × SuperBlock
plan total_blocks inode_bitmap_blocks =
    let inode_bitmap : Bitmap = record { start_block_id = 1; blocks = inode_bitmap_blocks } in
    let inode_area_blocks = div_ceil (maximum inode_bitmap * inode_size) 512 % 2 ^ 32 in
    let inode_total_blocks = add32 inode_bitmap_blocks inode_area_blocks in
    let data_total_blocks = sub32 (sub32 total_blocks 1) inode_total_blocks in
    let data_bitmap_blocks = div_ceil data_total_blocks 4097 in
    (
      record {
        inode_bitmap = inode_bitmap;
        data_bitmap = record {
          start_block_id = add32 (add32 1 inode_bitmap_blocks) inode_area_blocks;
          blocks = data_bitmap_blocks;
        };
        inode_area_start_block = add32 1 inode_bitmap_blocks;
        data_area_start_block = add32 (add32 1 inode_total_blocks) data_bitmap_blocks;
      },
      record {
        magic = efs_magic;
        total_blocks = total_blocks;
        inode_bitmap_blocks = inode_bitmap_blocks;
        inode_area_blocks = inode_area_blocks;
        data_bitmap_blocks = data_bitmap_blocks;
        data_area_blocks = sub32 data_total_blocks data_bitmap_blocks;
      },
    )

unfoldable pub create : ℕ → ℕ → Disk → Outcome (EasyFileSystem × Disk)
create total_blocks inode_bitmap_blocks disk = do
  let (efs, super_block) = plan total_blocks inode_bitmap_blocks
  let cleared = zero_from total_blocks 0 disk
  (root, disk1) ← alloc_inode efs (record cleared { super_block = super_block })
  assert (root == 0)
  let (block_id, offset) = get_disk_inode_pos efs 0
  ok (efs, modify_inode block_id offset (Layout.initialize directory) disk1)

-- `open`
unfoldable pub open_device : Disk → Outcome EasyFileSystem
open_device disk =
    let s = disk.super_block in
    let inode_total_blocks = add32 s.inode_bitmap_blocks s.inode_area_blocks in
    assert (is_valid s)
    >> ok (record {
      inode_bitmap = record { start_block_id = 1; blocks = s.inode_bitmap_blocks };
      data_bitmap = record {
        start_block_id = add32 1 inode_total_blocks;
        blocks = s.data_bitmap_blocks;
      };
      inode_area_start_block = add32 1 s.inode_bitmap_blocks;
      data_area_start_block = add32 (add32 1 inode_total_blocks) s.data_bitmap_blocks;
    })
