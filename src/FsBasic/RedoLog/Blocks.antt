-- ===== src/FsBasic/RedoLog/Blocks.antt =====
-- What the redo log keeps where (log.rs).
use tg_rcore_tutorial.Prelude.{
  ℕ, zero, suc, ◌+◌, ◌^◌, ◌<◌, ◌≤◌, ◌≡◌, ◌≢◌, refl, sym, ◌∙◌, ap, ◌==◌, ltb, leb, ◌||◌,
  if◌then◌else◌, Bool, true, false, Option, none, some, List, [], ◌∷◌, length, arith, ◌⊎◌, inl, inr,
}
use tg_rcore_tutorial.FsBasic.Disk.{
  Block, FileDisk, done, crashed, put_block, read_block, write_block,
}
use tg_rcore_tutorial.FsBasic.RedoLog.{data_block, write_data}

-- Whether a block lies outside the log of `m` blocks at `s`.
abbrev pub outside : ℕ → ℕ → ℕ → Bool
outside s m x = ltb x s || leb (s + m) x

-- The log lies on the disk, and block numbers are words.
pub record IsLaid (s m size : ℕ) : Type 0 where
  pub some_blocks : 0 < m
  pub on_disk : s + m ≤ size
  pub words : size ≤ 2 ^ 32

-- The blocks that are written lie on the disk, outside the log.
abbrev pub Fits : ℕ → ℕ → ℕ → List (ℕ × Block) → Type 0
Fits s m size [] = Unit {0}
Fits s m size ((b, _) ∷ ws) = (outside s m b ≡ true) × (b < size) × Fits s m size ws

-- The log holds the entries from number `i` on.
abbrev pub DataAt : ℕ → ℕ → List (ℕ × Block) → (ℕ → Block) → Type 0
DataAt s i [] f = Unit {0}
DataAt s i ((_, buf) ∷ ws) f = (f (data_block s i) ≡ buf) × DataAt s (i + 1) ws f

abbrev pub merge : Option Block → Option Block → Option Block
merge (some later) first = some later
merge none first = first

-- The last entry for a block.
abbrev pub written : List (ℕ × Block) → ℕ → Option Block
written [] x = none
written ((b, buf) ∷ ws) x = merge (written ws x) (if x == b then some buf else none)

abbrev pub or_else : Option Block → Block → Block
or_else none old = old
or_else (some buf) old = buf

-- The blocks after all entries are written.
abbrev pub after : List (ℕ × Block) → (ℕ → Block) → ℕ → Block
after ws f x = or_else (written ws x) (f x)

pub data_block-inside : (s m size i : ℕ) → IsLaid s m size → i + 1 < m → data_block s i ≡ s + 1 + i
unfolding data_block
data_block-inside s m size i l lt = omega (arith, l.on_disk, l.words)

pub write-cases :
    (b n : ℕ) (buf : Block) (d : FileDisk)
    → b < d.nblocks
    → ((n ≡ 0) × (write_block b buf n d ≡ crashed d))
      ⊎ ((k : ℕ) × (n ≡ suc k) × (write_block b buf n d ≡ done tt k (put_block b buf d)))
unfolding write_block
write-cases b zero buf d lt =
    let inside : ltb b d.nblocks ≡ true = ground arith in inl (refl, rw inside)
write-cases b (suc n) buf d lt =
    let inside : ltb b d.nblocks ≡ true = ground arith in inr (n, refl, rw inside)

pub read-inside :
    (b n : ℕ) (d : FileDisk) → b < d.nblocks → read_block b n d ≡ done (d.blocks b) n d
unfolding read_block
read-inside b n d lt = let inside : ltb b d.nblocks ≡ true = ground arith in rw inside

-- Entries stay where nothing in the log changes.
pub DataAt-kept :
    (s m size i : ℕ) (ws : List (ℕ × Block)) (f g : ℕ → Block)
    → IsLaid s m size
    → i + length ws < m
    → ((j : ℕ) → i ≤ j → j + 1 < m → g (s + 1 + j) ≡ f (s + 1 + j))
    → DataAt s i ws f
    → DataAt s i ws g
DataAt-kept s m size i [] f g l lt same at = tt
DataAt-kept s m size i ((b, buf) ∷ ws) f g l lt same (here, rest) =
    let place = data_block-inside s m size i l (omega arith) in
    (
      ap g place ∙ same i (omega arith) (omega arith) ∙ ap f (sym place) ∙ here,
      DataAt-kept s m size (i + 1) ws f g l (omega arith) (λ j le. same j (omega arith)) rest,
    )

-- What phase 1 may change, from entry `i` on.
pub record Kept (s m i : ℕ) (d d' : FileDisk) : Type 0 where
  pub size : d'.nblocks ≡ d.nblocks
  pub low : (x : ℕ) → x < s + 1 + i → d'.blocks x ≡ d.blocks x
  pub high : (x : ℕ) → s + m ≤ x → d'.blocks x ≡ d.blocks x

pub put-elsewhere :
    (x b : ℕ) (buf : Block) (d : FileDisk) → x ≢ b → (put_block b buf d).blocks x ≡ d.blocks x
put-elsewhere x b buf d ne = let other : (x == b) ≡ false = ground (arith, ne) in rw other

pub put-here : (b : ℕ) (buf : Block) (d : FileDisk) → (put_block b buf d).blocks b ≡ buf
put-here b buf d = let same : (b == b) ≡ true = ground arith in rw same

first-Kept :
    (s m i : ℕ) (buf : Block) (d d' : FileDisk)
    → IsLaid s m d.nblocks
    → i + 1 < m
    → Kept s m (i + 1) (put_block (data_block s i) buf d) d'
    → Kept s m i d d'
first-Kept s m i buf d d' l lt kept =
    let b = data_block s i in
    let place = data_block-inside s m d.nblocks i l lt in
    record {
      size = kept.size;
      low =
          λ x h. kept.low x (omega arith) ∙ put-elsewhere x b buf d (λ e. omega (arith, e, place));
      high = λ x h. kept.high x h ∙ put-elsewhere x b buf d (λ e. omega (arith, e, place));
    }

pub write_data_lem :
    (s m i : ℕ) (ws : List (ℕ × Block)) (n : ℕ) (d : FileDisk)
    → IsLaid s m d.nblocks
    → i + length ws < m
    → ((d' : FileDisk) × (write_data s i ws n d ≡ crashed d') × Kept s m i d d')
      ⊎ ((k : ℕ) × (d' : FileDisk) × (write_data s i ws n d ≡ done tt k d')
          × Kept s m i d d'
          × DataAt s i ws d'.blocks)
unfolding write_data
write_data_lem s m i [] n d l lt =
    inr (n, d, refl, record { size = refl; low = λ x h. refl; high = λ x h. refl }, tt)
write_data_lem s m i ((b, buf) ∷ ws) n d l lt =
    let place = data_block-inside s m d.nblocks i l (omega arith) in
    let inside : data_block s i < d.nblocks = omega (arith, place, l.on_disk) in
    elim (write-cases (data_block s i) n buf d inside) [
      | inl (_, e) ↦ inl (d, rw e, record { size = refl; low = λ x h. refl; high = λ x h. refl })
      | inr (k, _, e) ↦
          let d1 = put_block (data_block s i) buf d in
          elim (write_data_lem s m (i + 1) ws k d1 l (omega arith)) [
            | inl (d', r, kept) ↦ inl (d', rw e r, first-Kept s m i buf d d' l (omega arith) kept)
            | inr (k', d', r, kept, at) ↦ inr (
              k',
              d',
              rw e r,
              first-Kept s m i buf d d' l (omega arith) kept,
              (
                kept.low (data_block s i) (omega (arith, place)) ∙ put-here (data_block s i) buf d,
                at,
              ),
            )
          ]
    ]
