-- ===== src/EasyFs/Content/Writes.antt =====
-- What a write leaves in the blocks of a file (layout.rs).
use tg_rcore_tutorial.Prelude.{
  ℕ, ◌+◌, ◌-◌, ◌*◌, ◌/◌, ◌%◌, ◌<◌, ◌≤◌, ◌≡◌, ◌≢◌, refl, ap, sym, ◌∙◌, inl, inr, ◌⊎◌, ◌==◌, ltb,
  Bool-cases, false, if◌then◌else◌, count, subst, [], ◌∷◌, some, List, get_elem?, ==_iff, arith,
}
use tg_rcore_tutorial.EasyFs.Layout.{Table, Device, DiskInode, data_blocks, write}
use tg_rcore_tutorial.EasyFs.Content.{ids_of}
use tg_rcore_tutorial.EasyFs.Content.Bytes.{block_of, byte, piece_lem}

-- No two indices of the file lead to one block.
abbrev pub IsInjective : DiskInode → Device → Type 0
IsInjective inode dev =
    (i j : ℕ)
    → i < data_blocks inode
    → j < data_blocks inode
    → block_of i inode dev ≡ block_of j inode dev
    → i ≡ j

write-same : (id j : ℕ) (table : Table) (blocks : Device) → j ≡ id → write id table blocks j ≡ table
unfolding write
write-same id j table blocks e = ground (arith, e)

write-other :
    (id j : ℕ) (table : Table) (blocks : Device)
    → (j == id) ≡ false
    → write id table blocks j ≡ blocks j
unfolding write
write-other id j table blocks e = rw e refl

-- The blocks of ids through which `get_block_id` comes to the block of data with an index.
abbrev pub tables_of : ℕ → DiskInode → Device → List ℕ
tables_of i inode dev =
    if ltb i 27
    then []
    else if ltb (i - 27) 128
    then inode.indirect1 ∷ []
    else inode.indirect2 ∷ dev inode.indirect2 ((i - 27 - 128) / 128) ∷ []

-- No block of data of the file is one of its blocks of ids.
abbrev pub IsApart : DiskInode → Device → Type 0
IsApart inode dev =
    (i j : ℕ)
    → i < data_blocks inode
    → j < data_blocks inode
    → count (block_of i inode dev) (tables_of j inode dev) ≡ 0

-- The blocks of ids of the file are as in `blocks`.
abbrev pub KeepsTables : DiskInode → Device → Device → Type 0
KeepsTables inode blocks blocks' =
    (j id : ℕ)
    → j < data_blocks inode
    → 0 < count id (tables_of j inode (ids_of blocks))
    → blocks' id ≡ blocks id

ids-same :
    (id : ℕ) (blocks blocks' : Device)
    → blocks' id ≡ blocks id
    → ids_of blocks' id ≡ ids_of blocks id
unfolding ids_of
ids-same id blocks blocks' e =
    ap (λ t i. t (4 * i) + 256 * t (4 * i + 1) + 65536 * t (4 * i + 2) + 16777216 * t (4 * i + 3)) e

-- Then each index leads to the same block.
pub block_of-KeepsTables :
    (inode : DiskInode) (blocks blocks' : Device)
    → KeepsTables inode blocks blocks'
    → (j : ℕ) → j < data_blocks inode
    → block_of j inode (ids_of blocks') ≡ block_of j inode (ids_of blocks)
block_of-KeepsTables inode blocks blocks' kept j lt = elim (Bool-cases (ltb j 27)) [
  | inl near ↦ rw near refl
  | inr far ↦ elim (Bool-cases (ltb (j - 27) 128)) [
    | inl one ↦
        let same =
          ids-same inode.indirect1 blocks blocks'
            (kept j inode.indirect1 lt (rw (far, one) (ground arith))) in
        rw (far, one) (ap (λ t. t (j - 27)) same)
    | inr two ↦
        let a = (j - 27 - 128) / 128 in
        let b = (j - 27 - 128) % 128 in
        let table = ids_of blocks inode.indirect2 a in
        let first =
          ids-same inode.indirect2 blocks blocks'
            (kept j inode.indirect2 lt (rw (far, two) (ground arith))) in
        let second =
          ids-same table blocks blocks' (kept j table lt (rw (far, two) (ground arith))) in
        rw (far, two) (ap (λ t. ids_of blocks' (t a) b) first ∙ ap (λ t. t b) second)
  ]
]

-- A write to a block of data keeps them.
pub write-KeepsTables :
    (inode : DiskInode) (blocks blocks' : Device) (i : ℕ) (table : Table)
    → IsApart inode (ids_of blocks)
    → i < data_blocks inode
    → KeepsTables inode blocks blocks'
    → KeepsTables inode blocks (write (block_of i inode (ids_of blocks)) table blocks')
write-KeepsTables inode blocks blocks' i table apart lt kept j id lt_j uses =
    let at = block_of i inode (ids_of blocks) in
    elim (Bool-cases (id == at)) [
      | inl hit ↦
          let same : id ≡ at = (==_iff id at).0 hit in
          let none_here = apart i j lt lt_j in
          let some_here : 0 < count at (tables_of j inode (ids_of blocks)) =
            subst (λ x. 0 < count x (tables_of j inode (ids_of blocks))) same uses in
          absurd (omega (arith, none_here, some_here))
      | inr miss ↦ write-other at id table blocks' miss ∙ kept j id lt_j uses
    ]

-- The bytes from `start` to `end` are those of the buffer, the others of the file are as before, and
-- so are the blocks of data that are not of the file.
pub record IsWritten (start end : ℕ) (buf : List ℕ) (inode : DiskInode)
    (dev blocks blocks' : Device) : Type 0 where
  pub inside :
      (p : ℕ) → start ≤ p → p < end → get_elem? buf (p - start) ≡ some (byte inode dev blocks' p)
  pub outside :
      (p : ℕ)
      → p / 512 < data_blocks inode
      → (p < start) ⊎ (end ≤ p)
      → byte inode dev blocks' p ≡ byte inode dev blocks p
  pub elsewhere :
      (id : ℕ)
      → ((i : ℕ) → i < data_blocks inode → block_of i inode dev ≢ id)
      → blocks' id ≡ blocks id

module _ (inode : DiskInode) (dev : Device) where
  -- One part of the buffer is copied to the block of `start`.
  pub write_piece :
      (start size : ℕ) (buf : List ℕ) (blocks : Device) (table : Table)
      → IsInjective inode dev
      → start / 512 < data_blocks inode
      → start % 512 + size ≤ 512
      → ((i : ℕ) → i < size → get_elem? buf i ≡ some (table (start % 512 + i)))
      → ((j : ℕ)
          → (j < start % 512) ⊎ (start % 512 + size ≤ j)
          → table j ≡ blocks (block_of (start / 512) inode dev) j)
      → IsWritten start
          (start + size)
          buf
          inode
          dev
          blocks
          (write (block_of (start / 512) inode dev) table blocks)
  unfolding write
  write_piece start size buf blocks table inj lt fits copied kept = record {
    inside = λ p ge lt_p.
        let (block, inner) = piece_lem start (p - start) (omega (arith, fits, ge, lt_p)) in
        let at : start + (p - start) ≡ p = omega (arith, ge) in
        let same = ap (λ b. block_of b inode dev) (ap (λ q. q / 512) (sym at) ∙ block) in
        copied (p - start) (omega (arith, ge, lt_p))
        ∙ ap (λ i. some (table i)) (sym inner ∙ ap (λ q. q % 512) at)
        ∙ ap (λ t. some (t (p % 512)))
            (sym (
              write-same (block_of (start / 512) inode dev) (block_of (p / 512) inode dev) table
                blocks same));
    outside = λ p lt_p out.
        let id = block_of (start / 512) inode dev in
        let at = block_of (p / 512) inode dev in
        elim (Bool-cases (at == id)) [
          | inl hit ↦
              let same : at ≡ id = (==_iff at id).0 hit in
              let index : p / 512 ≡ start / 512 = inj (p / 512) (start / 512) lt_p lt same in
              ap (λ t. t (p % 512)) (write-same id at table blocks same)
              ∙ kept (p % 512) (moved p out index)
              ∙ ap (λ b. blocks b (p % 512)) (sym same)
          | inr miss ↦ ap (λ t. t (p % 512)) (write-other id at table blocks miss)
        ];
    elsewhere = λ id other.
        let at = block_of (start / 512) inode dev in
        elim (Bool-cases (id == at)) [
          | inl hit ↦ absurd (other (start / 512) lt (sym ((==_iff id at).0 hit)))
          | inr miss ↦ write-other at id table blocks miss
        ];
  }
    where
      moved :
          (p : ℕ)
          → (p < start) ⊎ (start + size ≤ p)
          → p / 512 ≡ start / 512
          → (p % 512 < start % 512) ⊎ (start % 512 + size ≤ p % 512)
      moved p (inl before) index = inl (omega (arith, before, index))
      moved p (inr after) index = inr (omega (arith, after, index))

  pub IsWritten-append :
      (start next end : ℕ) (buf rest : List ℕ) (blocks blocks1 blocks2 : Device)
      → start ≤ next
      → next ≤ end
      → ((i : ℕ) → get_elem? rest i ≡ get_elem? buf (next - start + i))
      → IsWritten start next buf inode dev blocks blocks1
      → IsWritten next end rest inode dev blocks1 blocks2
      → next / 512 * 512 ≡ next
      → next / 512 ≤ data_blocks inode
      → IsWritten start end buf inode dev blocks blocks2
  IsWritten-append start next end buf rest blocks blocks1 blocks2 up up' shifted first second whole
        in_file =
      record {
        inside = λ p ge lt. elim (Bool-cases (ltb p next)) [
          | inl early ↦
              let lt_next : p < next = ground (arith, early) in
              first.inside p ge lt_next
              ∙ ap some
                  (sym (second.outside p (omega (arith, lt_next, whole, in_file)) (inl lt_next)))
          | inr late ↦
              let ge_next : next ≤ p = ground (arith, late) in
              let at : p - start ≡ next - start + (p - next) = omega (arith, up, ge_next) in
              ap (get_elem? buf) at ∙ sym (shifted (p - next)) ∙ second.inside p ge_next lt
        ];
        outside = λ p in_p out. elim out [
          | inl before ↦
              second.outside p in_p (inl (omega (arith, before, up)))
              ∙ first.outside p in_p (inl before)
          | inr after ↦
              second.outside p in_p (inr after)
              ∙ first.outside p in_p (inr (omega (arith, after, up')))
        ];
        elsewhere = λ id other. second.elsewhere id other ∙ first.elsewhere id other;
      }
