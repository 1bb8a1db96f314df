-- ===== src/EasyFs/Efs/Regions.antt =====
-- The regions of a new file system, and its opening (efs.rs).
use tg_rcore_tutorial.Prelude.{
  ℕ, ◌+◌, ◌-◌, ◌*◌, ◌/◌, ◌%◌, ◌^◌, ◌<◌, ◌≤◌, ◌≡◌, refl, ap, ap₂, ◌∙◌, ◌==◌, if◌then◌else◌, false,
  some, arith, ok,
}
use tg_rcore_tutorial.EasyFs.Bitmap
use tg_rcore_tutorial.EasyFs.Bitmap.{Bitmap, Device, maximum}
use tg_rcore_tutorial.EasyFs.Bitmap.Alloc.{IsDevice, taken}
use tg_rcore_tutorial.EasyFs.Bitmap.Words.{taken_in}
use tg_rcore_tutorial.EasyFs.Layout
use tg_rcore_tutorial.EasyFs.Layout.{div_ceil, directory}
use tg_rcore_tutorial.EasyFs.Efs.Zeroed.{zero_from-IsDevice, zero_from-taken, alloc_first}
use tg_rcore_tutorial.EasyFs.Efs.{
  SuperBlock, EasyFileSystem, Disk, efs_magic, is_valid, add32, sub32, zero_from, plan, create,
  open_device, modify_inode, get_disk_inode_pos, alloc_inode,
}

-- The regions without the wrap-around of `u32`: one block, `b` blocks and 1024 for each of them, and
-- the bitmap and the area of the data in what is left.
abbrev pub rest_of : ℕ → ℕ → ℕ
rest_of total b = total - (1 + 1025 * b)

abbrev pub data_bitmap_of : ℕ → ℕ → ℕ
data_bitmap_of total b = (rest_of total b + 4096) / 4097

abbrev pub regions : ℕ → ℕ → EasyFileSystem × SuperBlock
regions total b = (
  record {
    inode_bitmap = record { start_block_id = 1; blocks = b };
    data_bitmap = record { start_block_id = 1 + 1025 * b; blocks = data_bitmap_of total b };
    inode_area_start_block = 1 + b;
    data_area_start_block = 1 + 1025 * b + data_bitmap_of total b;
  },
  record {
    magic = efs_magic;
    total_blocks = total;
    inode_bitmap_blocks = b;
    inode_area_blocks = 1024 * b;
    data_bitmap_blocks = data_bitmap_of total b;
    data_area_blocks = rest_of total b - data_bitmap_of total b;
  },
)

plan-regions :
    (total b : ℕ) → total < 2 ^ 32 → 1 + 1025 * b ≤ total → plan total b ≡ regions total b
unfolding plan maximum
plan-regions total b word fits =
    let area : div_ceil (b * 4096 * 128) 512 % 2 ^ 32 ≡ 1024 * b = omega (arith, word, fits) in
    let inodes : add32 b (1024 * b) ≡ 1025 * b = omega (arith, word, fits) in
    let rest : sub32 (sub32 total 1) (1025 * b) ≡ rest_of total b = omega (arith, word, fits) in
    let start : add32 1 b ≡ 1 + b = omega (arith, word, fits) in
    let bitmap : add32 (1 + b) (1024 * b) ≡ 1 + 1025 * b = omega (arith, word, fits) in
    let after : add32 1 (1025 * b) ≡ 1 + 1025 * b = omega (arith, word, fits) in
    let area_start : add32 (1 + 1025 * b) (data_bitmap_of total b)
        ≡ 1 + 1025 * b + data_bitmap_of total b =
      omega (arith, word, fits) in
    let area_blocks : sub32 (rest_of total b) (data_bitmap_of total b)
        ≡ rest_of total b - data_bitmap_of total b =
      omega (arith, word, fits) in
    rw (area, inodes, rest, start, bitmap, after, area_start, area_blocks) refl

-- What `create` leaves.
abbrev created : ℕ → ℕ → Disk → Device → Disk
created total b cleared words =
    modify_inode (get_disk_inode_pos (regions total b).0 0).0
      (get_disk_inode_pos (regions total b).0 0).1 (Layout.initialize directory)
      (record cleared { super_block = (regions total b).1; words = words })

create-run :
    (total b : ℕ) (disk : Disk) (words : Device)
    → total < 2 ^ 32
    → 1 + 1025 * b ≤ total
    → Bitmap.alloc (record { start_block_id = 1; blocks = b }) (zero_from total 0 disk).words
      ≡ (some 0, words)
    → create total b disk ≡ ok ((regions total b).0, created total b (zero_from total 0 disk) words)
unfolding create alloc_inode
create-run total b disk words word fits run = rw (plan-regions total b word fits, run, create) refl

open-created :
    (total b : ℕ) (cleared : Disk) (words : Device)
    → total < 2 ^ 32
    → 1 + 1025 * b ≤ total
    → open_device (created total b cleared words) ≡ ok (regions total b).0
unfolding open_device modify_inode is_valid
open-created total b cleared words word fits =
    let inodes : add32 b (1024 * b) ≡ 1025 * b = omega (arith, word, fits) in
    let start : add32 1 b ≡ 1 + b = omega (arith, word, fits) in
    let after : add32 1 (1025 * b) ≡ 1 + 1025 * b = omega (arith, word, fits) in
    let area_start : add32 (1 + 1025 * b) (data_bitmap_of total b)
        ≡ 1 + 1025 * b + data_bitmap_of total b =
      omega (arith, word, fits) in
    rw (inodes, start, after, area_start) refl

-- The device has blocks of 64 words, the number of blocks is a word of 32 bits, there is at least
-- one block of inode bitmap, and the super block and the inodes fit the device. Then `create`
-- does not panic, and `open` of the device gives the same file system. The regions follow each
-- other and end at the last block; the inode area has room for each bit of its bitmap, and the
-- data bitmap a bit for each block of the data area. Inode 0 alone is in use, and no block of
-- data.
pub create_lem :
    (total b : ℕ) (disk : Disk)
    → IsDevice disk.words
    → total < 2 ^ 32
    → 0 < b
    → 1 + 1025 * b ≤ total
    → (efs : EasyFileSystem) × (disk' : Disk) × (create total b disk ≡ ok (efs, disk'))
      × (open_device disk' ≡ ok efs)
      × (efs.inode_bitmap.start_block_id ≡ 1)
      × (efs.inode_area_start_block ≡ 1 + efs.inode_bitmap.blocks)
      × (efs.data_bitmap.start_block_id
          ≡ efs.inode_area_start_block + disk'.super_block.inode_area_blocks)
      × (efs.data_area_start_block ≡ efs.data_bitmap.start_block_id + efs.data_bitmap.blocks)
      × (efs.data_area_start_block + disk'.super_block.data_area_blocks ≡ total)
      × (maximum efs.inode_bitmap ≡ 4 * disk'.super_block.inode_area_blocks)
      × (disk'.super_block.data_area_blocks ≤ maximum efs.data_bitmap)
      × ((j : ℕ) → j < maximum efs.inode_bitmap → taken 1 disk'.words j ≡ (if j == 0 then 1 else 0))
      × ((j : ℕ)
          → j < maximum efs.data_bitmap
          → taken efs.data_bitmap.start_block_id disk'.words j ≡ 0)
unfolding maximum modify_inode
create_lem total b disk h word some_b fits =
    let cleared = zero_from total 0 disk in
    let free : taken 1 cleared.words 0 ≡ 0 =
      zero_from-taken total 1 0 disk (omega (arith, fits, some_b)) in
    let (words, run, after, fine) =
      alloc_first 1 b cleared.words (zero_from-IsDevice total 0 disk h) some_b free in
    let disk' = created total b cleared words in
    (
      (regions total b).0,
      disk',
      create-run total b disk words word fits run,
      open-created total b cleared words word fits,
      refl,
      refl,
      omega arith,
      refl,
      omega (arith, fits),
      omega arith,
      omega (arith, fits),
      λ j lt.
          after j
          ∙ ap (λ x. if j == 0 then 1 else x)
              (zero_from-taken total 1 j disk (omega (arith, lt, fits))),
      λ j lt.
          let k = j + 1025 * b * 4096 in
          let block : j / 4096 + (1 + 1025 * b) ≡ k / 4096 + 1 = omega arith in
          let inner : j % 4096 ≡ k % 4096 = omega arith in
          let later : (k == 0) ≡ false = ground (arith, some_b) in
          ap₂ (λ i n. taken_in (words i) n) block inner
          ∙ after k
          ∙ rw later (zero_from-taken total 1 k disk (omega (arith, lt, fits))),
    )
