-- ===== src/EasyFs/Content/Bytes.antt =====
-- The bytes of a file by their positions (layout.rs).
use tg_rcore_tutorial.Prelude.{
  ℕ, zero, suc, ◌+◌, ◌-◌, ◌*◌, ◌/◌, ◌%◌, ◌<◌, ◌≤◌, ◌≡◌, refl, ap, ap₂, sym, ◌∙◌, inl, inr, ◌⊎◌, ltb,
  if◌then◌else◌, Bool-cases, some, List, [], ◌∷◌, ◌++◌, length, get_elem?, arith, ok,
}
use tg_rcore_tutorial.EasyFs.Layout.{Table, Device, DiskInode, get_block_id, entries, fill, put}
use tg_rcore_tutorial.EasyFs.Layout.Indirect.{indirect_block, get_block_id-lt, get_block_id-le}

-- The block of data with an index.
abbrev pub block_of : ℕ → DiskInode → Device → ℕ
block_of i inode dev = if ltb i 27 then inode.direct i else indirect_block (i - 27) inode dev

pub get_block_id-block_of :
    (i : ℕ) (inode : DiskInode) (dev : Device)
    → i < 27 + 128 + 128 * 128
    → get_block_id i inode dev ≡ ok (block_of i inode dev)
get_block_id-block_of i inode dev lt = elim (Bool-cases (ltb i 27)) [
  | inl near ↦ rw near (get_block_id-lt i inode dev (ground (arith, near)))
  | inr far ↦ rw far (get_block_id-le i inode dev (ground (arith, far)) lt)
]

abbrev pub byte : DiskInode → Device → Device → Table
byte inode dev blocks p = blocks (block_of (p / 512) inode dev) (p % 512)

pub entries-ext :
    (left at at' : ℕ) (t u : Table)
    → ((k : ℕ) → k < left → t (at + k) ≡ u (at' + k))
    → entries left at t ≡ entries left at' u
unfolding entries
entries-ext zero at at' t u h = refl
entries-ext (suc left) at at' t u h =
    let first : at + 0 ≡ at = omega arith in
    let first' : at' + 0 ≡ at' = omega arith in
    ap₂ ◌∷◌ (sym (ap t first) ∙ h 0 (omega arith) ∙ ap u first') (
      entries-ext left (at + 1) (at' + 1) t u (λ k lt.
        let next : at + 1 + k ≡ at + suc k = omega arith in
        let next' : at' + suc k ≡ at' + 1 + k = omega arith in
        ap t next ∙ h (suc k) (omega (arith, lt)) ∙ ap u next'))

pub entries-append :
    (a b at : ℕ) (t : Table) → entries (a + b) at t ≡ entries a at t ++ entries b (at + a) t
unfolding entries
entries-append zero b at t =
    let all : 0 + b ≡ b = omega arith in
    let here : at ≡ at + 0 = omega arith in ap₂ (λ n k. entries n k t) all here
entries-append (suc a) b at t =
    let later : at + 1 + a ≡ at + suc a = omega arith in
    let all : suc a + b ≡ suc (a + b) = omega arith in
    ap (λ n. entries n at t) all
    ∙ ap (λ r. t at ∷ r)
        (entries-append a b (at + 1) t ∙ ap (λ k. entries a (at + 1) t ++ entries b k t) later)

-- The end of the current block.
pub piece_lem :
    (start k : ℕ)
    → start % 512 + k < 512
    → ((start + k) / 512 ≡ start / 512) × ((start + k) % 512 ≡ start % 512 + k)
piece_lem start k lt = (omega (arith, lt), omega (arith, lt))

zero_more : (buf : List ℕ) (i : ℕ) → get_elem? buf i ≡ get_elem? buf (0 + i)
zero_more buf i = let same : i ≡ 0 + i = omega arith in ap (get_elem? buf) same

later_by : (i j x : ℕ) (buf : List ℕ) → j ≡ suc i → get_elem? buf i ≡ get_elem? (x ∷ buf) j
later_by i j x buf e = ap (get_elem? (x ∷ buf)) (sym e)

copied_first :
    (at left x : ℕ) (buf : List ℕ) (table : Table)
    → table at ≡ x
    → ((i : ℕ) → i < left → get_elem? buf i ≡ some (table (at + 1 + i)))
    → (i : ℕ) → i < suc left
    → get_elem? (x ∷ buf) i ≡ some (table (at + i))
copied_first at left x buf table first copied zero lt =
    let here : at ≡ at + 0 = omega arith in ap some (sym first ∙ ap table here)
copied_first at left x buf table first copied (suc i) lt =
    let next : at + 1 + i ≡ at + suc i = omega arith in
    copied i (omega (arith, lt)) ∙ ap (λ k. some (table k)) next

-- What a copy into a table leaves.
pub fill_lem :
    (left at : ℕ) (buf : List ℕ) (table : Table)
    → left ≤ length buf
    → (table' : Table) × (rest : List ℕ) × (fill left at buf table ≡ ok (table', rest))
      × ((i : ℕ) → i < left → get_elem? buf i ≡ some (table' (at + i)))
      × ((j : ℕ) → (j < at) ⊎ (at + left ≤ j) → table' j ≡ table j)
      × (length rest + left ≡ length buf)
      × ((i : ℕ) → get_elem? rest i ≡ get_elem? buf (left + i))
unfolding fill put
fill_lem zero at buf table h = (
  table,
  buf,
  refl,
  λ i lt. absurd (omega arith),
  λ j out. refl,
  omega arith,
  λ i. zero_more buf i,
)
fill_lem (suc left) at [] table h = absurd (omega arith)
fill_lem (suc left) at (x ∷ buf) table h =
    let (table', rest, run, copied, kept, size, others) =
      fill_lem left (at + 1) buf (put at x table) (omega (arith, h)) in
    (
      table',
      rest,
      run,
      copied_first at left x buf table' (kept at (inl (omega arith)) ∙ ground arith) copied,
      λ j out. elim out [
        | inl below ↦ kept j (inl (omega (arith, below))) ∙ ground (arith, below)
        | inr above ↦ kept j (inr (omega (arith, above))) ∙ ground (arith, above)
      ],
      omega (arith, size),
      λ i. others i ∙ later_by (left + i) (suc left + i) x buf (omega arith),
    )
