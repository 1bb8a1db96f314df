-- ===== src/EasyFs/Tests.antt =====
-- Runs of a pipe, of a bitmap and of the blocks of an inode.
use tg_rcore_tutorial.Prelude.{
  get_elem?, ℕ, zero, suc, ◌-◌, ◌==◌, ◌<◌, ◌≡◌, refl, arith, count, ◌≤◌, Bool-cases, inl, inr,
  if◌then◌else◌, false, List, [], ◌∷◌, ◌++◌, length, ◌⊎◌, none, some, ok, panic,
}
use Prim.Native.Nat.{min}
use tg_rcore_tutorial.Prelude.Int.{pos, negsuc}
use tg_rcore_tutorial.EasyFs.Bitmap
use tg_rcore_tutorial.EasyFs.Bitmap.{Bitmap, Device, alloc, dealloc, maximum}
use tg_rcore_tutorial.EasyFs.Bitmap.Words.{AllWords}
use tg_rcore_tutorial.EasyFs.Bitmap.Alloc.{IsDevice, taken, Takes, alloc_lem, dealloc_lem}
use tg_rcore_tutorial.EasyFs.Layout
use tg_rcore_tutorial.EasyFs.Layout.{
  DiskInode, file, initialize, data_blocks, data_blocks_of, total_blocks, increase_size, clear_size,
}
use tg_rcore_tutorial.EasyFs.Layout.Increase.{increase_size_lem}
use tg_rcore_tutorial.EasyFs.Layout.Indirect.{place}
use tg_rcore_tutorial.EasyFs.Layout.Returns.{clear_size_lem}
use tg_rcore_tutorial.EasyFs.Pipe.{PipeRingBuffer, normal, read, write}
use tg_rcore_tutorial.EasyFs.Pipe.Ring.{Holds}
use tg_rcore_tutorial.EasyFs.Pipe.Queue.{read_lem, write_lem}

-- Three bytes that go around the end of the array.
abbrev wrapped : PipeRingBuffer
wrapped = record { arr = λ i. i; head = 30; tail = 1; status = normal }

abbrev held : List ℕ
held = 30 ∷ 31 ∷ 0 ∷ []

abbrev more : List ℕ
more = 7 ∷ 8 ∷ []

wrapped-Holds : Holds held wrapped
wrapped-Holds = record {
  few = omega arith;
  head_in = omega arith;
  tail_at = refl;
  status_is = refl;
  bytes = (refl, (refl, (refl, tt)));
}

read_lem_example :
    ((held ≡ []) × (read false 2 wrapped ≡ (if false then pos 0 else negsuc 1, [], wrapped)))
    ⊎ ((bytes : List ℕ) × (rest : List ℕ) × (b' : PipeRingBuffer) × (read false 2 wrapped
          ≡ (pos (min 3 2), bytes, b'))
        × (held ≡ bytes ++ rest)
        × (length bytes ≡ min 3 2)
        × Holds rest b')
read_lem_example = read_lem false 2 held wrapped wrapped-Holds

write_lem_example :
    ((length held ≡ 32) × (write more wrapped ≡ (negsuc 1, wrapped)))
    ⊎ ((bytes : List ℕ) × (rest : List ℕ) × (b' : PipeRingBuffer) × (write more wrapped
          ≡ (pos (length bytes), b'))
        × (more ≡ bytes ++ rest)
        × (length bytes ≡ min (32 - 3) 2)
        × Holds (held ++ bytes) b')
write_lem_example = write_lem more held wrapped wrapped-Holds

abbrev zeros : ℕ → List ℕ
zeros zero = []
zeros (suc n) = 0 ∷ zeros n

zeros-AllWords : (n : ℕ) → AllWords (zeros n)
zeros-AllWords zero = tt
zeros-AllWords (suc n) = (omega arith, zeros-AllWords n)

-- A bitmap of two blocks from block 1 on; in each block the bits 0, 1 and 2 are set.
abbrev device : Device
device id = 7 ∷ zeros 63

abbrev bitmap : Bitmap
bitmap = record { start_block_id = 1; blocks = 2 }

device-IsDevice : IsDevice device
device-IsDevice id = (refl, (omega arith, zeros-AllWords 63))

allocates : (alloc bitmap device).0 ≡ some 3
unfolding alloc Bitmap.alloc_from Bitmap.alloc_block Bitmap.find_free Bitmap.word Bitmap.set_word
allocates = refl

alloc_lem_example :
    ((alloc bitmap device ≡ (none, device)) × ((j : ℕ) → j < maximum bitmap → taken 1 device j ≡ 1))
    ⊎ ((k : ℕ) × (dev' : Device) × (alloc bitmap device ≡ (some k, dev'))
        × (k < maximum bitmap)
        × Takes 1 device 0 k dev')
alloc_lem_example = alloc_lem bitmap device device-IsDevice

dealloc_lem_example :
    ((taken 1 device 2 ≡ 0) × (dealloc bitmap 2 device ≡ panic))
    ⊎ ((dev' : Device) × (taken 1 device 2 ≡ 1)
        × (dealloc bitmap 2 device ≡ ok dev')
        × IsDevice dev'
        × ((j : ℕ) → taken 1 dev' j ≡ (if j == 2 then 0 else taken 1 device j)))
dealloc_lem_example = dealloc_lem bitmap device 2 device-IsDevice

-- The ids `n`, `n` less one, and so on to 1.
abbrev ids : ℕ → List ℕ
ids zero = []
ids (suc n) = suc n ∷ ids n

abbrev no_tables : ℕ → ℕ → ℕ
no_tables id i = 0

abbrev empty_file : DiskInode
empty_file = record {
  size = 0;
  direct = λ i. 0;
  indirect1 = 0;
  indirect2 = 0;
  type_of = file;
  nlink = 1;
}

-- A file of 160 blocks, whose second block of ids is 5.
abbrev long_file : DiskInode
long_file = record empty_file { size = 81920; indirect2 = 5 }

ids-once : (n x : ℕ) → (count x (ids n) ≤ 1) × (n < x → count x (ids n) ≡ 0)
ids-once zero x = (omega arith, λ lt. refl)
ids-once (suc n) x = elim (Bool-cases (suc n == x)) [
  | inl hit ↦
      let same : suc n ≡ x = ground (arith, hit) in
      let gone = (ids-once n x).1 (omega (arith, same)) in
      (rw hit (omega (arith, gone)), λ lt. absurd (omega (arith, same, lt)))
  | inr miss ↦ (
    rw miss (omega (arith, (ids-once n x).0)),
    λ lt. let gone = (ids-once n x).1 (omega (arith, lt)) in rw miss (omega (arith, gone)),
  )
]

no_blocks : data_blocks empty_file ≡ 0
unfolding data_blocks data_blocks_of
no_blocks = refl

-- 160 blocks of data need three blocks of ids.
increase_size_lem_example :
    (inode : DiskInode) × (dev : ℕ → ℕ → ℕ) × (increase_size 81920 (ids 163) empty_file no_tables
      ≡ ok (inode, dev, []))
    × (inode.size ≡ 81920)
unfolding Layout.blocks_num_needed total_blocks data_blocks_of
increase_size_lem_example =
    increase_size_lem 81920 (ids 163) empty_file no_tables (omega arith) (omega arith) refl
      (λ x. (ids-once 163 x).0) (λ lt. absurd (omega (arith, lt, no_blocks)))
      (λ a lt. absurd (omega (arith, lt, no_blocks)))

clear_size_lem_example :
    (v : List ℕ) × (inode : DiskInode) × (clear_size long_file no_tables ≡ ok (v, inode))
    × (length v ≡ total_blocks 81920)
    × (inode.size ≡ 0)
    × ((i : ℕ)
        → i < data_blocks long_file
        → (id : ℕ) × (Layout.get_block_id i long_file no_tables ≡ ok id)
          × (get_elem? v (place i) ≡ some id))
clear_size_lem_example = clear_size_lem long_file no_tables (omega arith) (λ a lt. omega arith)
