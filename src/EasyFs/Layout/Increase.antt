-- ===== src/EasyFs/Layout/Increase.antt =====
-- `increase_size` with the blocks that `blocks_num_needed` asks for (layout.rs).
use tg_rcore_tutorial.Prelude.{
  ℕ, suc, ◌+◌, ◌-◌, ◌*◌, ◌/◌, ◌%◌, ◌<◌, ◌≤◌, ◌≡◌, ◌≢◌, refl, ap, sym, subst, count, false, ==_iff,
  ◌∙◌, inl, inr, ◌==◌, ltb, leb, if◌then◌else◌, Bool-cases, true, List, [], ◌∷◌, length, arith, ok,
  ok-injective, Outcome,
}
use Prim.Native.Nat.{min}
use tg_rcore_tutorial.EasyFs.Layout.{
  Table, Device, DiskInode, data_blocks_of, data_blocks, total_blocks, blocks_num_needed, write,
  fill, new_table, fill_indirect2, fill_indirect1, increase_size,
}
use tg_rcore_tutorial.EasyFs.Layout.Needs.{needs1, needs0, needs0-total}
use tg_rcore_tutorial.EasyFs.Layout.Total.{max_size, total_blocks-of}
use tg_rcore_tutorial.EasyFs.Layout.Grows.{
  needs, fill-Uses, fill-none, new_table-Uses, write-same, write-other, fill_tables-Uses,
}

-- The run does not panic, uses `k` of the blocks and leaves an inode of the size.
abbrev pub Grows : ℕ → ℕ → List ℕ → Outcome (DiskInode × Device × List ℕ) → Type 0
Grows size k new_blocks run =
    (inode : DiskInode) × (dev : Device) × (rest : List ℕ) × (run ≡ ok (inode, dev, rest))
    × (length rest + k ≡ length new_blocks)
    × (inode.size ≡ size)

-- A block is written back as it is.
write-none :
    (id j : ℕ) (table : Table) (dev : Device) → table ≡ dev id → write id table dev j ≡ dev j
write-none id j table dev e = elim (Bool-cases (j == id)) [
  | inl hit ↦
      let same : j ≡ id = (==_iff j id).0 hit in
      subst (λ i. write id table dev i ≡ dev i) (sym same) (write-same id table dev ∙ e)
  | inr miss ↦ write-other id j table dev miss
]

fill_indirect2-Grows :
    (c t : ℕ) (inode : DiskInode) (dev : Device) (new_blocks : List ℕ)
    → c ≤ t
    → t ≤ 128 * 128
    → needs c t ≤ length new_blocks
    → count inode.indirect2 new_blocks ≡ 0
    → ((c % 128 == 0) ≡ false → dev inode.indirect2 (c / 128) ≢ inode.indirect2)
    → Grows inode.size (needs c t) new_blocks (fill_indirect2 c t inode dev new_blocks)
unfolding fill_indirect2
fill_indirect2-Grows c t inode dev new_blocks up small h absent apart =
    let (dev', rest, run, used, less) =
      fill_tables-Uses (suc (t - c)) inode.indirect2 (c / 128) (c % 128) (t / 128) (t % 128) dev
        new_blocks (omega (arith, up)) (omega arith) (omega arith) (omega (arith, up))
        (omega (arith, small)) (omega (arith, h)) absent apart in
    (inode, dev', rest, rw (run, fill_indirect2) refl, omega (arith, used), refl)

fill_indirect1-on :
    (c t : ℕ) (inode : DiskInode) (dev : Device) (new_blocks rest : List ℕ) (table : Table)
    (indirect2 : ℕ) (rest1 : List ℕ)
    → fill (min t 128 - c) c new_blocks (dev inode.indirect1) ≡ ok (table, rest)
    → ltb 128 t ≡ true
    → new_table (c + (min t 128 - c) == 128) inode.indirect2 rest ≡ ok (indirect2, rest1)
    → fill_indirect1 c t inode dev new_blocks
      ≡ fill_indirect2
          (c + (min t 128 - c) - 128)
          (t - 128)
          (record inode { indirect2 = indirect2 })
          (write inode.indirect1 table dev)
          rest1
unfolding fill_indirect1
fill_indirect1-on c t inode dev new_blocks rest table indirect2 rest1 run many run1 =
    rw (run, many, run1, fill_indirect1) refl

-- The second block of ids has no entry that is in use and is that block: it is new, or it is not, and
-- then `indirect1` is as before.
second_table :
    (c t : ℕ) (inode : DiskInode) (dev : Device) (new_blocks rest : List ℕ) (table : Table)
    (indirect2 : ℕ)
    → 128 < t
    → fill (min t 128 - c) c new_blocks (dev inode.indirect1) ≡ ok (table, rest)
    → ((c + (min t 128 - c) == 128) ≡ false → indirect2 ≡ inode.indirect2)
    → ((a : ℕ) → 128 + a * 128 < c → dev inode.indirect2 a ≢ inode.indirect2)
    → ((c + (min t 128 - c) - 128) % 128 == 0) ≡ false
    → write inode.indirect1 table dev indirect2 ((c + (min t 128 - c) - 128) / 128) ≢ indirect2
second_table c t inode dev new_blocks rest table indirect2 many run old apart inner =
    let far : 128 < c = ground (arith, many, inner) in
    let nothing : min t 128 - c ≡ 0 = omega (arith, far) in
    let inner' : (c - 128) % 128 ≢ 0 = ground (arith, inner, far) in
    let same = old (ground (arith, far)) in
    let kept =
      fill-none (min t 128 - c) c new_blocks (dev inode.indirect1) table rest nothing run in
    let a = (c + (min t 128 - c) - 128) / 128 in
    let used : 128 + a * 128 < c = omega (arith, far, inner') in
    let there : dev indirect2 a ≢ indirect2 = subst (λ x. dev x a ≢ x) (sym same) (apart a used) in
    subst (λ t'. t' a ≢ indirect2) (sym (write-none inode.indirect1 indirect2 table dev kept)) there

fill_indirect1-Grows :
    (c t : ℕ) (inode : DiskInode) (dev : Device) (new_blocks : List ℕ)
    → c ≤ t
    → t ≤ 128 + 128 * 128
    → needs1 c t ≤ length new_blocks
    → ((x : ℕ) → count x new_blocks ≤ 1)
    → (128 < c → count inode.indirect2 new_blocks ≡ 0)
    → ((a : ℕ) → 128 + a * 128 < c → dev inode.indirect2 a ≢ inode.indirect2)
    → Grows inode.size (needs1 c t) new_blocks (fill_indirect1 c t inode dev new_blocks)
unfolding fill_indirect1
fill_indirect1-Grows c t inode dev new_blocks up small h once absent apart =
    let left = min t 128 - c in
    let (table, rest, run, used, less) =
      fill-Uses left c new_blocks (dev inode.indirect1) (omega (arith, h)) in
    elim (Bool-cases (ltb 128 t)) [
      | inr few ↦
          let need : needs1 c t ≡ left = rw few (omega arith) in
          (
            inode,
            write inode.indirect1 table dev,
            rest,
            rw (run, few, fill_indirect1) refl,
            omega (arith, used, need),
            refl,
          )
      | inl many ↦
          let first = c + left == 128 in
          let need : needs1 c t
              ≡ left + (if first then 1 else 0) + needs (c + left - 128) (t - 128) =
            rw many (omega arith) in
          let lt : 128 < t = ground (arith, many) in
          let (indirect2, rest1, run1, used1, less1, fresh, old) =
            new_table-Uses first inode.indirect2 rest (omega (arith, h, used, need)) in
          let absent2 : count indirect2 rest1 ≡ 0 = elim (Bool-cases first) [
            | inl new ↦ fresh new (omega (arith, less indirect2, once indirect2))
            | inr kept ↦
                let far : 128 < c = ground (arith, lt, kept) in
                let before : count indirect2 new_blocks ≡ 0 =
                  subst (λ x. count x new_blocks ≡ 0) (sym (old kept)) (absent far) in
                omega (arith, before, less indirect2, less1 indirect2)
          ] in
          let (inode', dev', rest2, run2, used2, size) =
            fill_indirect2-Grows (c + left - 128) (t - 128) (record inode { indirect2 = indirect2 })
              (write inode.indirect1 table dev) rest1 (omega (arith, up)) (omega (arith, small))
              (omega (arith, h, used, used1, need)) absent2
              (second_table c t inode dev new_blocks rest table indirect2 lt run old apart) in
          (
            inode',
            dev',
            rest2,
            fill_indirect1-on c t inode dev new_blocks rest table indirect2 rest1 run many run1
                ∙ run2,
            omega (arith, used, used1, used2, need),
            size,
          )
    ]

increase_size-on :
    (new_size : ℕ) (new_blocks : List ℕ) (inode : DiskInode) (dev : Device) (direct : Table)
    (rest : List ℕ) (indirect1 : ℕ) (rest1 : List ℕ)
    → fill
        (min (data_blocks_of new_size) 27 - data_blocks inode)
        (data_blocks inode)
        new_blocks
        inode.direct
      ≡ ok (direct, rest)
    → ltb 27 (data_blocks_of new_size) ≡ true
    → new_table
        (data_blocks inode + (min (data_blocks_of new_size) 27 - data_blocks inode) == 27)
        inode.indirect1
        rest
      ≡ ok (indirect1, rest1)
    → increase_size new_size new_blocks inode dev
      ≡ fill_indirect1
          (data_blocks inode + (min (data_blocks_of new_size) 27 - data_blocks inode) - 27)
          (data_blocks_of new_size - 27)
          (record inode { size = new_size; direct = direct; indirect1 = indirect1 })
          dev
          rest1
unfolding increase_size
increase_size-on new_size new_blocks inode dev direct rest indirect1 rest1 run many run1 =
    rw (run, many, run1, increase_size) refl

increase_size-Grows :
    (new_size : ℕ) (new_blocks : List ℕ) (inode : DiskInode) (dev : Device)
    → data_blocks inode ≤ data_blocks_of new_size
    → data_blocks_of new_size ≤ 27 + 128 + 128 * 128
    → needs0 (data_blocks inode) (data_blocks_of new_size) ≤ length new_blocks
    → ((x : ℕ) → count x new_blocks ≤ 1)
    → (155 < data_blocks inode → count inode.indirect2 new_blocks ≡ 0)
    → ((a : ℕ) → 155 + a * 128 < data_blocks inode → dev inode.indirect2 a ≢ inode.indirect2)
    → Grows new_size
        (needs0 (data_blocks inode) (data_blocks_of new_size))
        new_blocks
        (increase_size new_size new_blocks inode dev)
unfolding increase_size
increase_size-Grows new_size new_blocks inode dev up small h once absent apart =
    let c = data_blocks inode in
    let t = data_blocks_of new_size in
    let left = min t 27 - c in
    let (direct, rest, run, used, less) =
      fill-Uses left c new_blocks inode.direct (omega (arith, h)) in
    elim (Bool-cases (ltb 27 t)) [
      | inr few ↦
          let need : needs0 c t ≡ left = rw few (omega arith) in
          (
            record inode { size = new_size; direct = direct },
            dev,
            rest,
            rw (run, few, increase_size) refl,
            omega (arith, used, need),
            refl,
          )
      | inl many ↦
          let first = c + left == 27 in
          let need : needs0 c t
              ≡ left + (if first then 1 else 0) + needs1 (c + left - 27) (t - 27) =
            rw many (omega arith) in
          let lt : 27 < t = ground (arith, many) in
          let (indirect1, rest1, run1, used1, less1, fresh, old) =
            new_table-Uses first inode.indirect1 rest (omega (arith, h, used, need)) in
          let (inode', dev', rest2, run2, used2, size) =
            fill_indirect1-Grows (c + left - 27) (t - 27)
              (record inode { size = new_size; direct = direct; indirect1 = indirect1 }) dev rest1
              (omega (arith, up)) (omega (arith, small)) (omega (arith, h, used, used1, need))
              (λ x. omega (arith, less x, less1 x, once x))
              (λ far.
                let gone = absent (omega (arith, far, lt)) in
                omega (arith, gone, less inode.indirect2, less1 inode.indirect2))
              (λ a far. apart a (omega (arith, far, lt))) in
          (
            inode',
            dev',
            rest2,
            increase_size-on new_size new_blocks inode dev direct rest indirect1 rest1 run many run1
                ∙ run2,
            omega (arith, used, used1, used2, need),
            size,
          )
    ]

blocks_num_needed-ok :
    (new_size : ℕ) (inode : DiskInode)
    → inode.size ≤ new_size
    → blocks_num_needed new_size inode ≡ ok (total_blocks new_size - total_blocks inode.size)
unfolding blocks_num_needed
blocks_num_needed-ok new_size inode up =
    let asked : leb inode.size new_size ≡ true = ground (arith, up) in
    rw (asked, blocks_num_needed) refl

no_length : (xs : List ℕ) → length xs ≡ 0 → xs ≡ []
no_length [] h = refl
no_length (x ∷ xs) h = absurd (omega arith)

-- The new size is not below the old one, and at most that of a file whose tables are all full;
-- there are as many new blocks as `blocks_num_needed` says, all different, and `indirect2` is not
-- one of them if it is in use. No entry of `indirect2` that is in use is the block `indirect2`
-- itself, whose lock is held while those of the entries are taken. Then `increase_size` ends
-- without a panic, and uses all of the blocks. The inode has the new size.
pub increase_size_lem :
    (new_size : ℕ) (new_blocks : List ℕ) (inode : DiskInode) (dev : Device)
    → inode.size ≤ new_size
    → new_size ≤ max_size
    → blocks_num_needed new_size inode ≡ ok (length new_blocks)
    → ((x : ℕ) → count x new_blocks ≤ 1)
    → (155 < data_blocks inode → count inode.indirect2 new_blocks ≡ 0)
    → ((a : ℕ) → 155 + a * 128 < data_blocks inode → dev inode.indirect2 a ≢ inode.indirect2)
    → (inode' : DiskInode) × (dev' : Device) × (increase_size new_size new_blocks inode dev
        ≡ ok (inode', dev', []))
      × (inode'.size ≡ new_size)
unfolding data_blocks data_blocks_of
increase_size_lem new_size new_blocks inode dev up small asked once absent apart =
    let c = data_blocks inode in
    let t = data_blocks_of new_size in
    let enough : total_blocks new_size - total_blocks inode.size ≡ length new_blocks =
      ok-injective (sym (blocks_num_needed-ok new_size inode up) ∙ asked) in
    let le : c ≤ t = omega (arith, up) in
    let need : needs0 c t ≡ length new_blocks = omega (
      arith,
      needs0-total c t le,
      enough,
      total_blocks-of new_size small,
      total_blocks-of inode.size (omega (arith, up, small)),
    ) in
    let (inode', dev', rest, run, used, size) =
      increase_size-Grows new_size new_blocks inode dev le (omega (arith, small))
        (omega (arith, need)) once absent apart in
    (
      inode',
      dev',
      run ∙ ap (λ r. ok (inode', dev', r)) (no_length rest (omega (arith, used, need))),
      size,
    )
