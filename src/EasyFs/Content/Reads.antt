-- ===== src/EasyFs/Content/Reads.antt =====
-- `read_at` (layout.rs) against the bytes of the file.
use tg_rcore_tutorial.Prelude.{
  ℕ, zero, suc, ◌+◌, ◌-◌, ◌*◌, ◌/◌, ◌%◌, ◌^◌, ◌<◌, ◌≤◌, ◌≡◌, refl, ap, ap₂, sym, ◌∙◌, inl, inr, ◌⊎◌,
  ◌==◌, leb, Bool-cases, true, false, List, ◌++◌, arith, ok, ◌>>=◌,
}
use Prim.Native.Nat.{min}
use tg_rcore_tutorial.EasyFs.Layout.{Device, DiskInode, get_block_id, entries}
use tg_rcore_tutorial.EasyFs.Layout.Total.{max_size}
use tg_rcore_tutorial.EasyFs.Content.{end_current_block, read_from, read_at}
use tg_rcore_tutorial.EasyFs.Content.Bytes.{
  block_of, get_block_id-block_of, byte, entries-ext, entries-append, piece_lem,
}

-- The index of a block of data fits a word, and leads to the block.
pub get_block_id-word :
    (start : ℕ) (inode : DiskInode) (dev : Device)
    → start < max_size
    → get_block_id (start / 512 % 2 ^ 32) inode dev ≡ ok (block_of (start / 512) inode dev)
get_block_id-word start inode dev lt =
    let word : start / 512 % 2 ^ 32 ≡ start / 512 = omega (arith, lt) in
    rw word (get_block_id-block_of (start / 512) inode dev (omega (arith, lt)))

pub end_current_block_lem :
    (start end : ℕ)
    → start < end
    → (start < end_current_block start end)
      × (end_current_block start end ≤ end)
      × (start % 512 + (end_current_block start end - start) ≤ 512)
      × ((end_current_block start end ≡ end)
          ⊎ ((end_current_block start end < end)
              × (end_current_block start end ≡ (start / 512 + 1) * 512)))
unfolding end_current_block
end_current_block_lem start end lt = elim (Bool-cases (leb end ((start / 512 + 1) * 512))) [
  | inl last ↦
      let le : end ≤ (start / 512 + 1) * 512 = ground (arith, last) in
      (omega (arith, lt, le), omega (arith, lt, le), omega (arith, lt, le), inl (omega (arith, le)))
  | inr more ↦
      let gt : (start / 512 + 1) * 512 < end = ground (arith, more) in
      (
        omega (arith, lt, gt),
        omega (arith, lt, gt),
        omega (arith, lt, gt),
        inr (omega (arith, gt), omega (arith, gt)),
      )
]

piece-byte :
    (start size : ℕ) (inode : DiskInode) (dev blocks : Device)
    → start % 512 + size ≤ 512
    → entries size (start % 512) (blocks (block_of (start / 512) inode dev))
      ≡ entries size start (byte inode dev blocks)
piece-byte start size inode dev blocks fits =
    entries-ext size (start % 512) start (blocks (block_of (start / 512) inode dev))
      (byte inode dev blocks)
      (λ k lt.
        let (block, inner) = piece_lem start k (omega (arith, fits, lt)) in
        sym (ap₂ (λ b i. blocks (block_of b inode dev) i) block inner))

read_from-last :
    (fuel start end : ℕ) (inode : DiskInode) (dev blocks : Device) (id : ℕ)
    → get_block_id (start / 512 % 2 ^ 32) inode dev ≡ ok id
    → (end_current_block start end == end) ≡ true
    → read_from (suc fuel) start (start / 512) end inode dev blocks
      ≡ ok (entries (end_current_block start end - start) (start % 512) (blocks id))
unfolding read_from
read_from-last fuel start end inode dev blocks id found last = rw (found, last) refl

read_from-more :
    (fuel start end : ℕ) (inode : DiskInode) (dev blocks : Device) (id : ℕ) (bytes : List ℕ)
    → get_block_id (start / 512 % 2 ^ 32) inode dev ≡ ok id
    → (end_current_block start end == end) ≡ false
    → read_from fuel (end_current_block start end) (start / 512 + 1) end inode dev blocks ≡ ok bytes
    → read_from (suc fuel) start (start / 512) end inode dev blocks
      ≡ ok (entries (end_current_block start end - start) (start % 512) (blocks id) ++ bytes)
unfolding read_from
read_from-more fuel start end inode dev blocks id bytes found more rest =
    rw (found, more)
      (ap
        (λ r. r >>= λ rest'.
          ok (entries (end_current_block start end - start) (start % 512) (blocks id) ++ rest'))
        rest)

read_from_lem :
    (fuel start end : ℕ) (inode : DiskInode) (dev blocks : Device)
    → start < end
    → end ≤ max_size
    → end < fuel + start
    → read_from fuel start (start / 512) end inode dev blocks
      ≡ ok (entries (end - start) start (byte inode dev blocks))
read_from_lem zero start end inode dev blocks lt small enough = absurd (omega (arith, lt, enough))
read_from_lem (suc fuel) start end inode dev blocks lt small enough =
    let id = block_of (start / 512) inode dev in
    let next = end_current_block start end in
    let bytes = byte inode dev blocks in
    let found = get_block_id-word start inode dev (omega (arith, lt, small)) in
    let (up, le, fits, split) = end_current_block_lem start end lt in
    elim split [
      | inl last ↦
          read_from-last fuel start end inode dev blocks id found (ground (arith, last))
          ∙ ap ok (
              piece-byte start (next - start) inode dev blocks fits
              ∙ ap (λ e. entries (e - start) start bytes) last)
      | inr (more, at) ↦
          let block : start / 512 + 1 ≡ next / 512 = omega (arith, at) in
          let rest =
            ap (λ b. read_from fuel next b end inode dev blocks) block
            ∙ read_from_lem fuel next end inode dev blocks more small (omega (arith, enough, up)) in
          let all : next - start + (end - next) ≡ end - start = omega (arith, up, more) in
          let then_at : start + (next - start) ≡ next = omega (arith, up) in
          read_from-more fuel start end inode dev blocks id (entries (end - next) next bytes) found
            (ground (arith, more)) rest
          ∙ ap ok (
              ap₂ ◌++◌ (piece-byte start (next - start) inode dev blocks (omega (arith, fits)))
                (sym (ap (λ k. entries (end - next) k bytes) then_at))
              ∙ sym (entries-append (next - start) (end - next) start bytes)
              ∙ ap (λ n. entries n start bytes) all)
    ]

-- The file is not larger than one whose tables are all full. Then `read_at` does not panic, and reads
-- the bytes from the offset on, up to the length of the buffer or the end of the file.
pub read_at_lem :
    (offset len : ℕ) (inode : DiskInode) (dev blocks : Device)
    → inode.size ≤ max_size
    → read_at offset len inode dev blocks
      ≡ ok (entries (min (offset + len) inode.size - offset) offset (byte inode dev blocks))
unfolding read_at entries
read_at_lem offset len inode dev blocks small =
    let end = min (offset + len) inode.size in
    elim (Bool-cases (leb end offset)) [
      | inl past ↦
          let none_left : end - offset ≡ 0 = ground (arith, past) in
          rw (past, none_left, read_at) refl
      | inr inside ↦
          let lt : offset < end = ground (arith, inside) in
          rw (inside, read_at)
            (read_from_lem (suc (end - offset)) offset end inode dev blocks lt
              (omega (arith, small)) (omega (arith, lt)))
    ]
