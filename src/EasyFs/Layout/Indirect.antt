-- ===== src/EasyFs/Layout/Indirect.antt =====
-- The blocks that `clear_size` returns from `indirect1` on (layout.rs).
use tg_rcore_tutorial.Prelude.{
  ℕ, suc, ◌+◌, ◌-◌, ◌*◌, ◌/◌, ◌%◌, ◌<◌, ◌≤◌, ◌≡◌, ◌≢◌, refl, ap, sym, ◌∙◌, inl, inr, ltb, leb,
  if◌then◌else◌, Bool-cases, true, false, some, List, [], ◌∷◌, ◌++◌, length, length-append,
  append-nil, arith, get_elem?, ok,
}
use Prim.Native.Nat.{min}
use tg_rcore_tutorial.EasyFs.Layout.{Device, DiskInode, get_block_id, entries, clear_indirect1}
use tg_rcore_tutorial.EasyFs.Layout.Clears.{
  held_blocks, table_blocks-ok, length-entries, length-held_blocks,
}
use tg_rcore_tutorial.EasyFs.Layout.Places.{
  get-append_left, get-append_right, get-entries, get-held_blocks,
}

-- The blocks from `indirect1` on, of which it and `indirect2` with its tables are not data.
abbrev pub indirect_total : ℕ → ℕ
indirect_total d = 1 + d + (if ltb 128 d then 1 + (d - 128 + 127) / 128 else 0)

-- The block of data `i`, counted from the first that `indirect1` holds, and its place among the
-- blocks that are returned from `indirect1` on.
abbrev pub indirect_block : ℕ → DiskInode → Device → ℕ
indirect_block i inode dev =
    if ltb i 128
    then dev inode.indirect1 i
    else dev (dev inode.indirect2 ((i - 128) / 128)) ((i - 128) % 128)

abbrev pub indirect_place : ℕ → ℕ
indirect_place i = if ltb i 128 then 1 + i else 130 + ((i - 128) / 128 * 129 + 1 + (i - 128) % 128)

-- The place of the block of data `i` among all blocks of the file: those of `indirect1` and of
-- `indirect2` stand before the blocks that they hold.
abbrev pub place : ℕ → ℕ
place i = if ltb i 27 then i else 27 + indirect_place (i - 27)

pub get_block_id-lt :
    (i : ℕ) (inode : DiskInode) (dev : Device)
    → i < 27
    → get_block_id i inode dev ≡ ok (inode.direct i)
unfolding get_block_id
get_block_id-lt i inode dev lt =
    let direct : ltb i 27 ≡ true = ground (arith, lt) in rw (direct, get_block_id) refl

pub get_block_id-le :
    (i : ℕ) (inode : DiskInode) (dev : Device)
    → 27 ≤ i
    → i < 27 + 128 + 128 * 128
    → get_block_id i inode dev ≡ ok (indirect_block (i - 27) inode dev)
unfolding get_block_id
get_block_id-le i inode dev le lt =
    let direct : ltb i 27 ≡ false = ground (arith, le) in
    let bound : ltb (i - 27) 128 ≡ ltb i 155 = ground (arith, le) in
    elim (Bool-cases (ltb i 155)) [
      | inl near ↦ rw (direct, near, bound ∙ near, get_block_id) refl
      | inr far ↦
          let in_range : ltb ((i - 155) / 128) 128 ≡ true = ground (arith, lt) in
          let same : i - 27 - 128 ≡ i - 155 = omega arith in
          rw (direct, far, bound ∙ far, in_range, same, get_block_id) refl
    ]

abbrev pub Returned : ℕ → DiskInode → Device → List ℕ → Type 0
Returned blocks inode dev v =
    (i : ℕ) → i < blocks → get_elem? v (indirect_place i) ≡ some (indirect_block i inode dev)

few-Returned :
    (blocks : ℕ) (inode : DiskInode) (dev : Device) (rest : List ℕ)
    → (i : ℕ) → i < blocks
    → i < 128
    → get_elem?
        ((inode.indirect1 ∷ entries (min blocks 128) 0 (dev inode.indirect1)) ++ rest)
        (indirect_place i)
      ≡ some (indirect_block i inode dev)
few-Returned blocks inode dev rest i lt lt_i =
    let held = entries (min blocks 128) 0 (dev inode.indirect1) in
    let near : ltb i 128 ≡ true = ground (arith, lt_i) in
    let at : 1 + i ≡ suc i = omega arith in
    rw near (
      ap (get_elem? ((inode.indirect1 ∷ held) ++ rest)) at
      ∙ get-append_left held rest i
          (omega (arith, lt, lt_i, length-entries (min blocks 128) 0 (dev inode.indirect1)))
      ∙ get-entries (min blocks 128) 0 i (dev inode.indirect1) (omega (arith, lt, lt_i))
      ∙ ap (λ k. some (dev inode.indirect1 k)) (omega arith))

many-Returned :
    (blocks : ℕ) (inode : DiskInode) (dev : Device)
    → 128 < blocks
    → (i : ℕ) → i < blocks
    → 128 ≤ i
    → get_elem?
        ((inode.indirect1 ∷ entries (min blocks 128) 0 (dev inode.indirect1))
          ++ inode.indirect2 ∷ held_blocks (blocks - 128) (dev inode.indirect2) dev)
        (indirect_place i)
      ≡ some (indirect_block i inode dev)
many-Returned blocks inode dev many i lt le_i =
    let v = inode.indirect1 ∷ entries (min blocks 128) 0 (dev inode.indirect1) in
    let rest = held_blocks (blocks - 128) (dev inode.indirect2) dev in
    let k = (i - 128) / 128 * 129 + 1 + (i - 128) % 128 in
    let far : ltb i 128 ≡ false = ground (arith, le_i) in
    rw far (
      get-append_right v (inode.indirect2 ∷ rest) (suc k) (130 + k)
        (omega (arith, many, length-entries (min blocks 128) 0 (dev inode.indirect1)))
      ∙ get-held_blocks (blocks - 128) (i - 128) (dev inode.indirect2) dev
          (omega (arith, lt, le_i)))

pub clear_indirect1_lem :
    (blocks : ℕ) (inode : DiskInode) (dev : Device)
    → blocks ≤ 128 + 128 * 128
    → ((a : ℕ) → 128 + a * 128 < blocks → dev inode.indirect2 a ≢ inode.indirect2)
    → (v : List ℕ) × (inode' : DiskInode) × (clear_indirect1 blocks inode dev ≡ ok (v, inode'))
      × (length v ≡ indirect_total blocks)
      × (inode'.size ≡ inode.size)
      × Returned blocks inode dev v
unfolding clear_indirect1
clear_indirect1_lem blocks inode dev small apart =
    let v = inode.indirect1 ∷ entries (min blocks 128) 0 (dev inode.indirect1) in
    let count = length-entries (min blocks 128) 0 (dev inode.indirect1) in
    elim (Bool-cases (ltb 128 blocks)) [
      | inr few ↦
          let le : blocks ≤ 128 = ground (arith, few) in
          (
            v,
            record inode { indirect1 = 0 },
            rw (few, clear_indirect1) refl,
            ground (arith, few, count),
            refl,
            λ i lt.
                sym (ap (λ w. get_elem? w (indirect_place i)) (append-nil v))
                ∙ few-Returned blocks inode dev [] i lt (omega (arith, lt, le)),
          )
      | inl many ↦
          let rest = held_blocks (blocks - 128) (dev inode.indirect2) dev in
          let fits : leb (blocks - 128) (128 * 128) ≡ true = ground (arith, small) in
          let lt_128 : 128 < blocks = ground (arith, many) in
          let tables =
            table_blocks-ok (blocks - 128) inode.indirect2 dev
              (λ a lt. apart a (omega (arith, lt, lt_128))) in
          (
            v ++ inode.indirect2 ∷ rest,
            record inode { indirect1 = 0; indirect2 = 0 },
            rw (many, fits, tables, clear_indirect1) refl,
            ground (
              arith,
              many,
              count,
              length-append v (inode.indirect2 ∷ rest),
              length-held_blocks (blocks - 128) (dev inode.indirect2) dev,
            ),
            refl,
            λ i lt. elim (Bool-cases (ltb i 128)) [
              | inl near ↦
                  few-Returned blocks inode dev (inode.indirect2 ∷ rest) i lt (ground (arith, near))
              | inr far ↦ many-Returned blocks inode dev lt_128 i lt (ground (arith, far))
            ],
          )
    ]
