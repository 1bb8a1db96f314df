-- ===== src/EasyFs/Layout.antt =====
-- tg-rcore-tutorial-easy-fs/src/layout.rs: the blocks of an inode. An array is a function of its
-- index; where an index may be out of range, the code asserts that it is not. The device is a
-- function from block ids to the tables of 128 block ids, which the block cache stands for.
pub mod Grows
pub mod Increase
pub mod Total
pub mod Needs
pub mod Places
pub mod Returns
pub mod Indirect
pub mod Clears
use tg_rcore_tutorial.Prelude.{
  not, ℕ, zero, suc, ◌+◌, ◌-◌, ◌*◌, ◌/◌, ◌%◌, ◌^◌, ◌==◌, ltb, leb, if◌then◌else◌, Bool, true, false,
  ◌&&◌, ◌||◌, List, [], ◌∷◌, ◌++◌, Outcome, ok, panic, ◌>>=◌, ◌>>◌, assert,
}
use Prim.Native.Nat.{min}

abbrev pub Table : Type 0
Table = ℕ → ℕ

abbrev pub Device : Type 0
Device = ℕ → Table

pub data DiskInodeType : Type 0 where
  file : DiskInodeType
  directory : DiskInodeType

pub record DiskInode : Type 0 where
  pub size : ℕ
  pub direct : Table
  pub indirect1 : ℕ
  pub indirect2 : ℕ
  pub type_of : DiskInodeType
  pub nlink : ℕ

abbrev pub inode_direct_count : ℕ
inode_direct_count = 27

-- `BLOCK_SZ / 4`
abbrev pub inode_indirect1_count : ℕ
inode_indirect1_count = 128

abbrev pub inode_indirect2_count : ℕ
inode_indirect2_count = inode_indirect1_count * inode_indirect1_count

abbrev pub indirect1_bound : ℕ
indirect1_bound = inode_direct_count + inode_indirect1_count

unfoldable pub initialize : DiskInodeType → DiskInode → DiskInode
initialize type_of inode = record {
  size = 0;
  direct = λ i. 0;
  indirect1 = 0;
  indirect2 = 0;
  type_of = type_of;
  nlink = 1;
}

-- `usize::div_ceil`
abbrev pub div_ceil : ℕ → ℕ → ℕ
div_ceil a b = (a + (b - 1)) / b

-- `_data_blocks`
unfoldable pub data_blocks_of : ℕ → ℕ
data_blocks_of size = div_ceil size 512

unfoldable pub data_blocks : DiskInode → ℕ
data_blocks inode = data_blocks_of inode.size

unfoldable pub total_blocks : ℕ → ℕ
total_blocks size =
    let blocks = data_blocks_of size in
    (blocks
      + (if ltb inode_direct_count blocks then 1 else 0)
      + (if ltb indirect1_bound blocks
          then 1 + div_ceil (blocks - indirect1_bound) inode_indirect1_count
          else 0))
    % 2 ^ 32

unfoldable pub blocks_num_needed : ℕ → DiskInode → Outcome ℕ
blocks_num_needed new_size inode =
    assert (leb inode.size new_size) >> ok (total_blocks new_size - total_blocks inode.size)

unfoldable pub get_block_id : ℕ → DiskInode → Device → Outcome ℕ
get_block_id inner_id inode dev =
    if ltb inner_id inode_direct_count
    then ok (inode.direct inner_id)
    else if ltb inner_id indirect1_bound
    then ok (dev inode.indirect1 (inner_id - inode_direct_count))
    else let last = inner_id - indirect1_bound in
      assert (ltb (last / inode_indirect1_count) inode_indirect1_count)
      >> ok
          (dev (dev inode.indirect2 (last / inode_indirect1_count)) (last % inode_indirect1_count))

-- `new_blocks.next().unwrap()`
unfoldable pub next : List ℕ → Outcome (ℕ × List ℕ)
next [] = panic
next (x ∷ rest) = ok (x, rest)

unfoldable pub put : ℕ → ℕ → Table → Table
put at x table i = if i == at then x else table i

unfoldable pub write : ℕ → Table → Device → Device
write id table dev j = if j == id then table else dev j

-- The loops that fill a table from `at` on, with the entries that are left.
unfoldable pub fill : ℕ → ℕ → List ℕ → Table → Outcome (Table × List ℕ)
fill zero at new_blocks table = ok (table, new_blocks)
fill (suc left) at [] table = panic
fill (suc left) at (x ∷ rest) table = fill left (at + 1) rest (put at x table)

-- A new table of `indirect2`, for its first entry.
unfoldable pub table_for : ℕ → Bool → ℕ → Device → List ℕ → Outcome (Device × List ℕ)
table_for indirect2 true a0 dev new_blocks =
    next new_blocks >>= λ (x, rest). ok (write indirect2 (put a0 x (dev indirect2)) dev, rest)
table_for indirect2 false a0 dev new_blocks = ok (dev, new_blocks)

-- One step of the loop over the tables of `indirect2`, which holds the lock of that block. Where a
-- table is the block itself, its lock would be waited for for ever.
unfoldable pub fill_entry : ℕ → ℕ → ℕ → Device → List ℕ → Outcome (Device × List ℕ)
fill_entry indirect2 a0 b0 dev new_blocks = do
  assert (ltb a0 inode_indirect1_count)
  (dev1, rest1) ← table_for indirect2 (b0 == 0) a0 dev new_blocks
  let indirect1 = dev1 indirect2 a0
  assert (not (indirect1 == indirect2))
  (y, rest2) ← next rest1
  ok (write indirect1 (put b0 y (dev1 indirect1)) dev1, rest2)

-- The loop over the tables of `indirect2`. Out of fuel it would panic.
unfoldable pub fill_tables : ℕ → ℕ → ℕ → ℕ → ℕ → ℕ → Device → List ℕ → Outcome (Device × List ℕ)
fill_tables zero indirect2 a0 b0 a1 b1 dev new_blocks = panic
fill_tables (suc fuel) indirect2 a0 b0 a1 b1 dev new_blocks =
    elim (ltb a0 a1 || (a0 == a1 && ltb b0 b1)) [
      | false ↦ ok (dev, new_blocks)
      | true ↦ fill_entry indirect2 a0 b0 dev new_blocks >>= λ (dev', rest).
          let wrap = b0 + 1 == inode_indirect1_count in
          let a = if wrap then a0 + 1 else a0 in
          let b = if wrap then 0 else b0 + 1 in fill_tables fuel indirect2 a b a1 b1 dev' rest
    ]

-- A new table if the blocks before it are all in use.
unfoldable pub new_table : Bool → ℕ → List ℕ → Outcome (ℕ × List ℕ)
new_table first old new_blocks = if first then next new_blocks else ok (old, new_blocks)

-- Phase 3, from `current_blocks` on to `total_blocks`, both counted from the first block that a
-- table of `indirect2` holds.
unfoldable pub fill_indirect2 :
    ℕ → ℕ → DiskInode → Device → List ℕ → Outcome (DiskInode × Device × List ℕ)
fill_indirect2 current total inode dev new_blocks =
    let a0 = current / inode_indirect1_count in
    let b0 = current % inode_indirect1_count in
    let a1 = total / inode_indirect1_count in
    let b1 = total % inode_indirect1_count in
    fill_tables (suc (total - current)) inode.indirect2 a0 b0 a1 b1 dev new_blocks
    >>= λ (dev', rest). ok (inode, dev', rest)

-- Phase 2, and the start of phase 3, counted from the first block that `indirect1` holds.
unfoldable pub fill_indirect1 :
    ℕ → ℕ → DiskInode → Device → List ℕ → Outcome (DiskInode × Device × List ℕ)
fill_indirect1 current total inode dev new_blocks =
    let left = min total inode_indirect1_count - current in
    let current1 = current + left in
    fill left current new_blocks (dev inode.indirect1) >>= λ (table, rest).
    let dev1 = write inode.indirect1 table dev in
    elim (ltb inode_indirect1_count total) [
      | false ↦ ok (inode, dev1, rest)
      | true ↦
          new_table (current1 == inode_indirect1_count) inode.indirect2 rest
          >>= λ (indirect2, rest').
              fill_indirect2 (current1 - inode_indirect1_count) (total - inode_indirect1_count)
                (record inode { indirect2 = indirect2 }) dev1 rest'
    ]

-- The result has the blocks that are left over, too.
unfoldable pub increase_size :
    ℕ → List ℕ → DiskInode → Device → Outcome (DiskInode × Device × List ℕ)
increase_size new_size new_blocks inode dev =
    let current = data_blocks inode in
    let total = data_blocks_of new_size in
    let left = min total inode_direct_count - current in
    let current1 = current + left in
    fill left current new_blocks inode.direct >>= λ (direct, rest).
    let inode1 = record inode { size = new_size; direct = direct } in
    elim (ltb inode_direct_count total) [
      | false ↦ ok (inode1, dev, rest)
      | true ↦
          new_table (current1 == inode_direct_count) inode1.indirect1 rest >>= λ (indirect1, rest').
          fill_indirect1 (current1 - inode_direct_count) (total - inode_direct_count)
            (record inode1 { indirect1 = indirect1 }) dev rest'
    ]

-- The entries of a table from `at` on.
unfoldable pub entries : ℕ → ℕ → Table → List ℕ
entries zero at table = []
entries (suc left) at table = table at ∷ entries left (at + 1) table

-- The loop over `direct`, which sets what it returns to 0.
unfoldable pub clear_direct : ℕ → ℕ → Table → List ℕ × Table
clear_direct zero at direct = ([], direct)
clear_direct (suc left) at direct =
    let (v, direct') = clear_direct left (at + 1) (put at 0 direct) in (direct at ∷ v, direct')

-- The full tables of the block `indirect2`, whose lock is held: where one is that block itself, its
-- lock would be waited for for ever.
unfoldable pub full_tables : ℕ → ℕ → ℕ → Device → Outcome (List ℕ)
full_tables zero at indirect2 dev = ok []
full_tables (suc left) at indirect2 dev = do
  let entry = dev indirect2 at
  assert (not (entry == indirect2))
  rest ← full_tables left (at + 1) indirect2 dev
  ok (entry ∷ entries inode_indirect1_count 0 (dev entry) ++ rest)

-- The last table, which has that many entries.
unfoldable pub last_table : ℕ → ℕ → ℕ → Device → Outcome (List ℕ)
last_table zero a1 indirect2 dev = ok []
last_table (suc b) a1 indirect2 dev = do
  let entry = dev indirect2 a1
  assert (not (entry == indirect2))
  ok (entry ∷ entries (suc b) 0 (dev entry))

-- The blocks of the tables of `indirect2`, which hold that many blocks of data.
unfoldable pub table_blocks : ℕ → ℕ → Device → Outcome (List ℕ)
table_blocks blocks indirect2 dev = do
  full ← full_tables (blocks / inode_indirect1_count) 0 indirect2 dev
  last ← last_table (blocks % inode_indirect1_count) (blocks / inode_indirect1_count) indirect2 dev
  ok (full ++ last)

-- What `clear_size` pushes and changes after the blocks of `direct`.
unfoldable pub clear_indirect1 : ℕ → DiskInode → Device → Outcome (List ℕ × DiskInode)
clear_indirect1 blocks inode dev =
    let v = inode.indirect1 ∷ entries (min blocks inode_indirect1_count) 0 (dev inode.indirect1) in
    let rest = blocks - inode_indirect1_count in
    elim (ltb inode_indirect1_count blocks) [
      | false ↦ ok (v, record inode { indirect1 = 0 })
      | true ↦
          assert (leb rest inode_indirect2_count)
          >> (table_blocks rest inode.indirect2 dev >>= λ tables.
              ok (v ++ inode.indirect2 ∷ tables, record inode { indirect1 = 0; indirect2 = 0 }))
    ]

unfoldable pub clear_size : DiskInode → Device → Outcome (List ℕ × DiskInode)
clear_size inode dev =
    let blocks = data_blocks inode in
    let (v, direct) = clear_direct (min blocks inode_direct_count) 0 inode.direct in
    let inode1 = record inode { size = 0; direct = direct } in
    elim (ltb inode_direct_count blocks) [
      | false ↦ ok (v, inode1)
      | true ↦ clear_indirect1 (blocks - inode_direct_count) inode1 dev >>= λ (v1, inode2).
          ok (v ++ v1, inode2)
    ]
