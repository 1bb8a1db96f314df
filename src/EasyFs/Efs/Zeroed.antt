-- ===== src/EasyFs/Efs/Zeroed.antt =====
-- The device after `create` has cleared it (efs.rs).
use tg_rcore_tutorial.Prelude.{
  ℕ, zero, suc, ◌+◌, ◌/◌, ◌%◌, ◌<◌, ◌≡◌, refl, ap, ◌∙◌, inl, inr, ◌==◌, ltb, leb, if◌then◌else◌,
  Bool-cases, ◌&&◌, some, arith,
}
use tg_rcore_tutorial.Prelude.Bits.{bit, bit-zero}
use tg_rcore_tutorial.EasyFs.Bitmap
use tg_rcore_tutorial.EasyFs.Bitmap.{Bitmap, Device, word, alloc}
use tg_rcore_tutorial.EasyFs.Bitmap.Words.{AllWords}
use tg_rcore_tutorial.EasyFs.Bitmap.Alloc.{IsDevice, taken, alloc_lem}
use tg_rcore_tutorial.EasyFs.Efs.{Disk, zeros, zero_block, zero_from}

pub zeros-AllWords : (n : ℕ) → AllWords (zeros n)
zeros-AllWords zero = tt
zeros-AllWords (suc n) = (omega arith, zeros-AllWords n)

zeros-word : (n p : ℕ) → word p (zeros n) ≡ 0
unfolding word
zeros-word zero p = refl
zeros-word (suc n) zero = refl
zeros-word (suc n) (suc p) = zeros-word n p

pub write-zeros-IsDevice :
    (id : ℕ) (dev : Device) → IsDevice dev → IsDevice (Bitmap.write id (zeros 64) dev)
unfolding Bitmap.write
write-zeros-IsDevice id dev h j = elim (Bool-cases (id == j)) [
  | inl hit ↦ rw hit (refl, zeros-AllWords 64)
  | inr miss ↦ rw miss (h j)
]

pub zero_from-IsDevice :
    (left i : ℕ) (disk : Disk) → IsDevice disk.words → IsDevice (zero_from left i disk).words
unfolding zero_from zero_block
zero_from-IsDevice zero i disk h = h
zero_from-IsDevice (suc left) i disk h =
    zero_from-IsDevice left (i + 1) (zero_block i disk) (write-zeros-IsDevice i disk.words h)

zero_from-words :
    (left i j : ℕ) (disk : Disk)
    → (zero_from left i disk).words j
      ≡ (if leb i j && ltb j (i + left) then zeros 64 else disk.words j)
unfolding zero_from zero_block Bitmap.write
zero_from-words zero i j disk = ground arith
zero_from-words (suc left) i j disk =
    ground (arith, zero_from-words left (i + 1) j (zero_block i disk))

-- All bits of a block that was cleared are free.
pub zero_from-taken :
    (total start k : ℕ) (disk : Disk)
    → k / 4096 + start < total
    → taken start (zero_from total 0 disk).words k ≡ 0
zero_from-taken total start k disk lt =
    let block : (zero_from total 0 disk).words (k / 4096 + start) ≡ zeros 64 =
      zero_from-words total 0 (k / 4096 + start) disk ∙ ground (arith, lt) in
    ap (λ w. bit (k % 4096 % 64) (word (k % 4096 / 64) w)) block
    ∙ ap (bit (k % 4096 % 64)) (zeros-word 64 (k % 4096 / 64))
    ∙ bit-zero (k % 4096 % 64)

-- The first of a bitmap whose first bit is free.
pub alloc_first :
    (start blocks : ℕ) (dev : Device)
    → IsDevice dev
    → 0 < blocks
    → taken start dev 0 ≡ 0
    → (dev' : Device) × (alloc (record { start_block_id = start; blocks = blocks }) dev
        ≡ (some 0, dev'))
      × ((j : ℕ) → taken start dev' j ≡ (if j == 0 then 1 else taken start dev j))
      × IsDevice dev'
unfolding Bitmap.maximum
alloc_first start blocks dev h lt free =
    elim (alloc_lem (record { start_block_id = start; blocks = blocks }) dev h) [
      | inl (run, all) ↦ absurd (omega (arith, free, all 0 (omega (arith, lt))))
      | inr (zero, dev', run, lt_k, (free_k, below, after, fine)) ↦ (dev', run, after, fine)
      | inr (suc k, dev', run, lt_k, (free_k, below, after, fine)) ↦
          absurd (omega (arith, free, below 0 (omega arith) (omega arith)))
    ]
