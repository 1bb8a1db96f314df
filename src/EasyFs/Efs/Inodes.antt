-- ===== src/EasyFs/Efs/Inodes.antt =====
-- Places of inodes, and blocks of data that are given out and taken back (efs.rs).
use tg_rcore_tutorial.Prelude.{
  ℕ, ◌+◌, ◌*◌, ◌/◌, ◌%◌, ◌^◌, ◌<◌, ◌≤◌, ◌≡◌, refl, ap, sym, ◌∙◌, ◌⊎◌, inl, inr, ◌==◌, Bool-cases,
  false, some, arith, ok, panic,
}
use tg_rcore_tutorial.EasyFs.Bitmap
use tg_rcore_tutorial.EasyFs.Bitmap.{Bitmap, Device, maximum}
use tg_rcore_tutorial.EasyFs.Bitmap.Words.{taken_in}
use tg_rcore_tutorial.EasyFs.Bitmap.Alloc.{IsDevice, taken, alloc_lem, dealloc_lem}
use tg_rcore_tutorial.EasyFs.Efs.{
  EasyFileSystem, Disk, add32, sub32, zeros, zero_block, get_disk_inode_pos, get_disk_inode_id,
  alloc_data, dealloc_data,
}
use tg_rcore_tutorial.EasyFs.Efs.Zeroed.{write-zeros-IsDevice}

-- The inode area ends below block 2^30. Of the inodes that it has room for, each lies in a block
-- of the area and does not reach past the end of the block. `get_disk_inode_id` of its place
-- gives the inode back.
pub get_disk_inode_id-get_disk_inode_pos :
    (efs : EasyFileSystem) (area id : ℕ)
    → efs.inode_area_start_block + area < 2 ^ 30
    → id < 4 * area
    → (efs.inode_area_start_block ≤ (get_disk_inode_pos efs id).0)
      × ((get_disk_inode_pos efs id).0 < efs.inode_area_start_block + area)
      × ((get_disk_inode_pos efs id).1 + 128 ≤ 512)
      × (get_disk_inode_id efs (get_disk_inode_pos efs id).0 (get_disk_inode_pos efs id).1 ≡ id)
unfolding get_disk_inode_pos get_disk_inode_id
get_disk_inode_id-get_disk_inode_pos efs area id word lt =
    let start = efs.inode_area_start_block in
    let block : add32 start (id / 4) ≡ start + id / 4 = omega (arith, word, lt) in
    let back : sub32 (start + id / 4) start ≡ id / 4 = omega (arith, word, lt) in
    (
      omega (arith, block),
      omega (arith, block, lt),
      omega arith,
      rw (block, back) (omega (arith, word, lt)),
    )

kept :
    (efs : EasyFileSystem) (dev : Device) (id j : ℕ)
    → efs.data_bitmap.start_block_id + efs.data_bitmap.blocks ≤ id
    → j < maximum efs.data_bitmap
    → taken efs.data_bitmap.start_block_id (Bitmap.write id (zeros 64) dev) j
      ≡ taken efs.data_bitmap.start_block_id dev j
unfolding Bitmap.write maximum
kept efs dev id j above lt =
    let other : (id == j / 4096 + efs.data_bitmap.start_block_id) ≡ false =
      ground (arith, above, lt) in
    ap (λ w. taken_in w (j % 4096)) (rw other refl)

alloc_data-run :
    (efs : EasyFileSystem) (disk : Disk) (k : ℕ) (dev : Device)
    → efs.data_area_start_block + k < 2 ^ 32
    → Bitmap.alloc efs.data_bitmap disk.words ≡ (some k, dev)
    → alloc_data efs disk ≡ ok (efs.data_area_start_block + k, record disk { words = dev })
unfolding alloc_data
alloc_data-run efs disk k dev word run =
    let sum : add32 (k % 2 ^ 32) efs.data_area_start_block ≡ efs.data_area_start_block + k =
      omega (arith, word) in
    rw (run, sum) refl

dealloc_data-run :
    (efs : EasyFileSystem) (disk : Disk) (k : ℕ) (dev : Device)
    → efs.data_area_start_block + k < 2 ^ 32
    → Bitmap.dealloc efs.data_bitmap k
        (Bitmap.write (efs.data_area_start_block + k) (zeros 64) disk.words)
      ≡ ok dev
    → dealloc_data efs (efs.data_area_start_block + k) disk
      ≡ ok (record (zero_block (efs.data_area_start_block + k) disk) { words = dev })
unfolding dealloc_data zero_block
dealloc_data-run efs disk k dev word run =
    let bit : sub32 (efs.data_area_start_block + k) efs.data_area_start_block ≡ k =
      omega (arith, word) in
    rw (bit, run) refl

-- The device has blocks of 64 words, and the data area stands after its bitmap, with all blocks that
-- the bitmap counts below 2^32. Then `alloc_data` panics if all bits are set. Else it gives a block
-- whose bit is free, and `dealloc_data` of this block does not panic and leaves the bits as they
-- were before.
pub alloc_data-dealloc_data :
    (efs : EasyFileSystem) (disk : Disk)
    → IsDevice disk.words
    → efs.data_bitmap.start_block_id + efs.data_bitmap.blocks ≤ efs.data_area_start_block
    → efs.data_area_start_block + maximum efs.data_bitmap < 2 ^ 32
    → ((alloc_data efs disk ≡ panic)
        × ((j : ℕ)
            → j < maximum efs.data_bitmap
            → taken efs.data_bitmap.start_block_id disk.words j ≡ 1))
      ⊎ ((k : ℕ) × (disk' : Disk) × (disk'' : Disk) × (k < maximum efs.data_bitmap)
          × (taken efs.data_bitmap.start_block_id disk.words k ≡ 0)
          × (alloc_data efs disk ≡ ok (efs.data_area_start_block + k, disk'))
          × (taken efs.data_bitmap.start_block_id disk'.words k ≡ 1)
          × (dealloc_data efs (efs.data_area_start_block + k) disk' ≡ ok disk'')
          × ((j : ℕ)
              → j < maximum efs.data_bitmap
              → taken efs.data_bitmap.start_block_id disk''.words j
                ≡ taken efs.data_bitmap.start_block_id disk.words j))
unfolding alloc_data
alloc_data-dealloc_data efs disk h after word =
    let start = efs.data_bitmap.start_block_id in
    elim (alloc_lem efs.data_bitmap disk.words h) [
      | inl (run, all) ↦ inl (rw run refl, all)
      | inr (k, dev, run, lt, (free, below, set, fine)) ↦
          let id = efs.data_area_start_block + k in
          let cleared = Bitmap.write id (zeros 64) dev in
          let same = λ (j : ℕ) (lt_j : j < maximum efs.data_bitmap).
            kept efs dev id j (omega (arith, after)) lt_j in
          let used : taken start dev k ≡ 1 = set k ∙ ground arith in
          elim (dealloc_lem efs.data_bitmap cleared k (write-zeros-IsDevice id dev fine)) [
            | inl (clear, _) ↦ absurd (omega (arith, clear, same k lt, used))
            | inr (dev', bit_set, run', fine', cleared_bit) ↦ inr (
              k,
              record disk { words = dev },
              record (zero_block id (record disk { words = dev })) { words = dev' },
              lt,
              free,
              alloc_data-run efs disk k dev (omega (arith, word, lt)) run,
              used,
              dealloc_data-run efs (record disk { words = dev }) k dev' (omega (arith, word, lt))
                  run',
              λ j lt_j. elim (Bool-cases (j == k)) [
                | inl hit ↦
                    let at : k ≡ j = ground (arith, hit) in
                    cleared_bit j ∙ rw hit (sym free ∙ ap (taken start disk.words) at)
                | inr miss ↦ cleared_bit j ∙ rw miss (same j lt_j ∙ set j ∙ rw miss refl)
              ],
            )
          ]
    ]
