-- ===== src/EasyFs/Content/Stores.antt =====
-- `write_at` (layout.rs), and `read_at` after it.
use tg_rcore_tutorial.Prelude.{
  ℕ, zero, suc, ◌+◌, ◌-◌, ◌/◌, ◌%◌, ◌^◌, ◌<◌, ◌≤◌, ◌≡◌, refl, ap, ap₂, sym, ◌∙◌, subst, inl, inr,
  ◌==◌, leb, true, false, some, List, [], ◌∷◌, length, get_elem?, some-injective, arith, ok, ◌>>=◌,
}
use Prim.Native.Nat.{min}
use tg_rcore_tutorial.EasyFs.Layout.{
  Table, Device, DiskInode, get_block_id, data_blocks, data_blocks_of, fill, write,
}
use tg_rcore_tutorial.EasyFs.Layout.Total.{max_size}
use tg_rcore_tutorial.EasyFs.Content.{ids_of, end_current_block, write_from, write_at}
use tg_rcore_tutorial.EasyFs.Content.Bytes.{block_of, byte, fill_lem}
use tg_rcore_tutorial.EasyFs.Content.Reads.{get_block_id-word, end_current_block_lem}
use tg_rcore_tutorial.EasyFs.Layout.{entries}
use tg_rcore_tutorial.EasyFs.Content.{read_at}
use tg_rcore_tutorial.EasyFs.Content.Reads.{read_at_lem}
use tg_rcore_tutorial.EasyFs.Content.Writes.{
  IsInjective, IsApart, KeepsTables, block_of-KeepsTables, write-KeepsTables, IsWritten,
  write_piece, IsWritten-append,
}

entries-buf :
    (buf : List ℕ) (at : ℕ) (t : Table)
    → ((i : ℕ) → i < length buf → get_elem? buf i ≡ some (t (at + i)))
    → entries (length buf) at t ≡ buf
unfolding entries
entries-buf [] at t h = refl
entries-buf (x ∷ buf) at t h =
    let here : at + 0 ≡ at = omega arith in
    ap₂ ◌∷◌ (ap t (sym here) ∙ sym (some-injective (h 0 (omega arith)))) (
      entries-buf buf (at + 1) t (λ i lt.
        let next : at + suc i ≡ at + 1 + i = omega arith in
        h (suc i) (omega (arith, lt)) ∙ ap (λ k. some (t k)) next))

module _ (inode : DiskInode) where
  write_from-last :
      (fuel start end : ℕ) (buf : List ℕ) (blocks : Device) (id : ℕ) (table : Table) (rest : List ℕ)
      → get_block_id (start / 512 % 2 ^ 32) inode (ids_of blocks) ≡ ok id
      → fill (end_current_block start end - start) (start % 512) buf (blocks id) ≡ ok (table, rest)
      → (end_current_block start end == end) ≡ true
      → write_from (suc fuel) start (start / 512) end buf inode blocks
        ≡ ok (end_current_block start end - start, write id table blocks)
  unfolding write_from
  write_from-last fuel start end buf blocks id table rest found filled last = rw found (
      ap
        (λ r. r >>= λ (block, rest'). elim (end_current_block start end == end) [
          | true ↦ ok (end_current_block start end - start, write id block blocks)
          | false ↦
              write_from fuel (end_current_block start end) (start / 512 + 1) end rest' inode
                (write id block blocks)
              >>= λ (size, blocks'). ok (end_current_block start end - start + size, blocks')
        ])
        filled
      ∙ rw last refl)

  write_from-more :
      (fuel start end : ℕ) (buf : List ℕ) (blocks : Device) (id : ℕ) (table : Table) (rest : List ℕ)
      (size : ℕ) (blocks' : Device)
      → get_block_id (start / 512 % 2 ^ 32) inode (ids_of blocks) ≡ ok id
      → fill (end_current_block start end - start) (start % 512) buf (blocks id) ≡ ok (table, rest)
      → (end_current_block start end == end) ≡ false
      → write_from fuel
          (end_current_block start end)
          (start / 512 + 1)
          end
          rest
          inode
          (write id table blocks)
        ≡ ok (size, blocks')
      → write_from (suc fuel) start (start / 512) end buf inode blocks
        ≡ ok (end_current_block start end - start + size, blocks')
  unfolding write_from
  write_from-more fuel start end buf blocks id table rest size blocks' found filled more run =
      rw found (
        ap
          (λ r. r >>= λ (block, rest'). elim (end_current_block start end == end) [
            | true ↦ ok (end_current_block start end - start, write id block blocks)
            | false ↦
                write_from fuel (end_current_block start end) (start / 512 + 1) end rest' inode
                  (write id block blocks)
                >>= λ (size, blocks'). ok (end_current_block start end - start + size, blocks')
          ])
          filled
        ∙ rw more (
            ap
              (λ r.
                r >>= λ (size, blocks'). ok (end_current_block start end - start + size, blocks'))
              run))

module _ (inode : DiskInode) (original : Device) where
  write_from_lem :
      (fuel start end : ℕ) (buf : List ℕ) (blocks : Device)
      → IsInjective inode (ids_of original)
      → IsApart inode (ids_of original)
      → KeepsTables inode original blocks
      → inode.size ≤ max_size
      → start < end
      → end ≤ inode.size
      → end < fuel + start
      → end - start ≤ length buf
      → (blocks' : Device) × (write_from fuel start (start / 512) end buf inode blocks
          ≡ ok (end - start, blocks'))
        × IsWritten start end buf inode (ids_of original) blocks blocks'
        × KeepsTables inode original blocks'
  unfolding data_blocks data_blocks_of
  write_from_lem zero start end buf blocks inj apart kept_tables small lt in_file enough long =
      absurd (omega (arith, lt, enough))
  write_from_lem (suc fuel) start end buf blocks inj apart kept_tables small lt in_file enough
        long =
      let dev = ids_of original in
      let id = block_of (start / 512) inode dev in
      let next = end_current_block start end in
      let index : start / 512 < data_blocks inode = omega (arith, lt, in_file) in
      let found =
        get_block_id-word start inode (ids_of blocks) (omega (arith, lt, in_file, small))
        ∙ ap ok (block_of-KeepsTables inode original blocks kept_tables (start / 512) index) in
      let (up, le, fits, split) = end_current_block_lem start end lt in
      let (table, rest, filled, copied, kept, left, shifted) =
        fill_lem (next - start) (start % 512) buf (blocks id) (omega (arith, le, long)) in
      let at : start + (next - start) ≡ next = omega (arith, up) in
      let first : IsWritten start next buf inode dev blocks (write id table blocks) =
        subst (λ e. IsWritten start e buf inode dev blocks (write id table blocks)) at
          (write_piece inode dev start (next - start) buf blocks table inj index fits copied
            kept) in
      let still =
        write-KeepsTables inode original blocks (start / 512) table apart index kept_tables in
      elim split [
        | inl last ↦ (
          write id table blocks,
          write_from-last inode fuel start end buf blocks id table rest found filled
                (ground (arith, last))
              ∙ ap (λ e. ok (e - start, write id table blocks)) last,
          subst (λ e. IsWritten start e buf inode dev blocks (write id table blocks)) last first,
          still,
        )
        | inr (more, whole) ↦
            let blocks1 = write id table blocks in
            let block : next / 512 ≡ start / 512 + 1 = omega (arith, whole) in
            let (blocks2, run, second, end_kept) =
              write_from_lem fuel next end rest blocks1 inj apart still small more in_file
                (omega (arith, enough, up)) (omega (arith, long, left, up, more)) in
            let run' : write_from fuel next (start / 512 + 1) end rest inode blocks1
                ≡ ok (end - next, blocks2) =
              ap (λ b. write_from fuel next b end rest inode blocks1) (sym block) ∙ run in
            let all : next - start + (end - next) ≡ end - start = omega (arith, up, more) in
            (
              blocks2,
              write_from-more inode fuel start end buf blocks id table rest (end - next) blocks2
                    found filled (ground (arith, more)) run'
                  ∙ ap (λ n. ok (n, blocks2)) all,
              IsWritten-append inode dev start next end buf rest blocks blocks1 blocks2
                  (omega (arith, up)) (omega (arith, more)) shifted first second
                  (omega (arith, whole)) (omega (arith, block, index)),
              end_kept,
            )
      ]

module _ (inode : DiskInode) where
  -- The file is not larger than one whose tables are all full, no block of data is twice in it,
  -- and none is one of its blocks of ids. The buffer is not empty and the offset is in the file.
  -- Then `write_at` ends without a panic. It writes as many bytes as fit before the end of the
  -- file; these are those of the buffer, and the other bytes of the file and all blocks that are
  -- not blocks of data of it are as before. Each index still leads to the same block.
  pub write_at_lem :
      (offset : ℕ) (buf : List ℕ) (blocks : Device)
      → IsInjective inode (ids_of blocks)
      → IsApart inode (ids_of blocks)
      → inode.size ≤ max_size
      → offset < inode.size
      → 0 < length buf
      → (blocks' : Device) × (write_at offset buf inode blocks
          ≡ ok (min (offset + length buf) inode.size - offset, blocks'))
        × IsWritten offset
            (min (offset + length buf) inode.size)
            buf
            inode
            (ids_of blocks)
            blocks
            blocks'
        × ((j : ℕ)
            → j < data_blocks inode
            → block_of j inode (ids_of blocks') ≡ block_of j inode (ids_of blocks))
  unfolding write_at
  write_at_lem offset buf blocks inj apart small lt some_buf =
      let end = min (offset + length buf) inode.size in
      let ahead : offset < end = omega (arith, lt, some_buf) in
      let fits : leb offset end ≡ true = ground (arith, ahead) in
      let (blocks', run, written, kept) =
        write_from_lem inode blocks (suc (end - offset)) offset end buf blocks inj apart
          (λ j id lt_j uses. refl) small ahead (omega arith) (omega (arith, ahead)) (omega arith) in
      (blocks', rw (fits, write_at) run, written, block_of-KeepsTables inode blocks blocks' kept)

  -- The file is not larger than one whose tables are all full, no block of data is twice in it,
  -- and none is one of its blocks of ids. The buffer is not empty and all of it fits the file at
  -- the offset. Then `write_at` ends without a panic, and a read of as many bytes at the same
  -- offset gives the buffer.
  pub read_at-write_at :
      (offset : ℕ) (buf : List ℕ) (blocks : Device)
      → IsInjective inode (ids_of blocks)
      → IsApart inode (ids_of blocks)
      → inode.size ≤ max_size
      → offset + length buf ≤ inode.size
      → 0 < length buf
      → (blocks' : Device) × (write_at offset buf inode blocks ≡ ok (length buf, blocks'))
        × (read_at offset (length buf) inode (ids_of blocks') blocks' ≡ ok buf)
  unfolding data_blocks data_blocks_of
  read_at-write_at offset buf blocks inj apart small fits some_buf =
      let end : min (offset + length buf) inode.size ≡ offset + length buf = omega (arith, fits) in
      let size : min (offset + length buf) inode.size - offset ≡ length buf = omega (arith, fits) in
      let (blocks', run, written, same) =
        write_at_lem offset buf blocks inj apart small (omega (arith, fits, some_buf)) some_buf in
      (
        blocks',
        run ∙ ap (λ n. ok (n, blocks')) size,
        read_at_lem offset (length buf) inode (ids_of blocks') blocks' small
            ∙ ap ok (
                ap (λ n. entries n offset (byte inode (ids_of blocks') blocks')) size
                ∙ entries-buf buf offset (byte inode (ids_of blocks') blocks') (λ i lt.
                  let at : offset + i - offset ≡ i = omega arith in
                  sym (ap (get_elem? buf) at)
                  ∙ written.inside (offset + i) (omega arith) (omega (arith, lt, end))
                  ∙ ap (λ b. some (blocks' b ((offset + i) % 512)))
                      (sym (same ((offset + i) / 512) (omega (arith, lt, fits)))))),
      )
