-- ===== src/EasyFs/Layout/Returns.antt =====
-- The blocks that `clear_size` returns (layout.rs).
use tg_rcore_tutorial.Prelude.{
  ℕ, ◌+◌, ◌-◌, ◌*◌, ◌<◌, ◌≤◌, ◌≡◌, ◌≢◌, refl, ap, sym, ◌∙◌, inl, inr, ltb, Bool-cases, true, false,
  some, List, [], ◌++◌, length, length-append, append-nil, arith, get_elem?, ok,
}
use Prim.Native.Nat.{min}
use tg_rcore_tutorial.EasyFs.Layout.{
  Device, DiskInode, data_blocks_of, data_blocks, total_blocks, get_block_id, clear_direct,
  clear_size,
}
use tg_rcore_tutorial.EasyFs.Layout.Total.{max_size, total_blocks-of}
use tg_rcore_tutorial.EasyFs.Layout.Clears.{length-clear_direct}
use tg_rcore_tutorial.EasyFs.Layout.Places.{get-append_left, get-append_right, get-clear_direct}
use tg_rcore_tutorial.EasyFs.Layout.Indirect.{
  indirect_block, indirect_place, place, get_block_id-lt, get_block_id-le, clear_indirect1_lem,
}

get-place :
    (v v1 : List ℕ) (i : ℕ)
    → 27 ≤ i
    → length v ≡ 27
    → get_elem? (v ++ v1) (place i) ≡ get_elem? v1 (indirect_place (i - 27))
get-place v v1 i le size =
    let far : ltb i 27 ≡ false = ground (arith, le) in
    rw far (
      get-append_right v v1 (indirect_place (i - 27)) (27 + indirect_place (i - 27))
        (omega (arith, size)))

-- The inode is not larger than a file whose tables are all full. No entry of `indirect2` that is
-- in use is the block `indirect2` itself, whose lock is held while those of the entries are
-- taken. Then `clear_size` does not panic and leaves an inode of size 0. It returns as many
-- blocks as `total_blocks` says for the size, and each block of data that `get_block_id` finds is
-- among them: at its index, later by one for each block of ids before it.
pub clear_size_lem :
    (inode : DiskInode) (dev : Device)
    → inode.size ≤ max_size
    → ((a : ℕ) → 155 + a * 128 < data_blocks inode → dev inode.indirect2 a ≢ inode.indirect2)
    → (v : List ℕ) × (inode' : DiskInode) × (clear_size inode dev ≡ ok (v, inode'))
      × (length v ≡ total_blocks inode.size)
      × (inode'.size ≡ 0)
      × ((i : ℕ)
          → i < data_blocks inode
          → (id : ℕ) × (get_block_id i inode dev ≡ ok id) × (get_elem? v (place i) ≡ some id))
unfolding clear_size data_blocks data_blocks_of
clear_size_lem inode dev small apart =
    let d = data_blocks inode in
    let v = (clear_direct (min d 27) 0 inode.direct).0 in
    let direct = (clear_direct (min d 27) 0 inode.direct).1 in
    let count = length-clear_direct (min d 27) 0 inode.direct in
    let inode1 = record inode { size = 0; direct = direct } in
    let at_direct : (ws : List ℕ) (i : ℕ)
        → i < d
        → i < 27
        → get_elem? (v ++ ws) (place i) ≡ some (inode.direct i) =
      λ ws i lt lt_i.
        let near : ltb i 27 ≡ true = ground (arith, lt_i) in
        rw near (
          get-append_left v ws i (omega (arith, count, lt, lt_i))
          ∙ get-clear_direct (min d 27) 0 i inode.direct (omega (arith, lt, lt_i))
          ∙ ap (λ k. some (inode.direct k)) (omega arith)) in
    elim (Bool-cases (ltb 27 d)) [
      | inr few ↦
          let le : d ≤ 27 = ground (arith, few) in
          (
            v,
            inode1,
            rw (few, clear_size) refl,
            ground (arith, few, count, total_blocks-of inode.size small),
            refl,
            λ i lt. (
              inode.direct i,
              get_block_id-lt i inode dev (omega (arith, lt, le)),
              sym (ap (λ w. get_elem? w (place i)) (append-nil v))
                  ∙ at_direct [] i lt (omega (arith, lt, le)),
            ),
          )
      | inl many ↦
          let (v1, inode2, run, count1, size, returned) =
            clear_indirect1_lem (d - 27) inode1 dev (omega (arith, small))
              (λ a lt. apart a (omega (arith, lt))) in
          (
            v ++ v1,
            inode2,
            rw (many, run, clear_size) refl,
            ground
                (arith, many, count, count1, length-append v v1, total_blocks-of inode.size small),
            size,
            λ i lt. elim (Bool-cases (ltb i 27)) [
              | inl near ↦
                  let lt_i : i < 27 = ground (arith, near) in
                  (inode.direct i, get_block_id-lt i inode dev lt_i, at_direct v1 i lt lt_i)
              | inr far ↦
                  let le : 27 ≤ i = ground (arith, far) in
                  let full : length v ≡ 27 = ground (arith, many, count) in
                  (
                    indirect_block (i - 27) inode dev,
                    get_block_id-le i inode dev le (omega (arith, lt, small)),
                    get-place v v1 i le full ∙ returned (i - 27) (omega (arith, le, lt)),
                  )
            ],
          )
    ]
