-- ===== src/FsBasic/Disk.antt =====
-- exp-design/fs/fs-basic/src/disk.rs: the disk. The file behind it does not fail; a crash may come
-- before any write of a block, and a write of a block is done or not done.
use tg_rcore_tutorial.Prelude.{ℕ, zero, suc, ◌==◌, ltb, if◌then◌else◌}

-- The byte at an offset.
abbrev pub Block : Type 0
Block = ℕ → ℕ

pub record FileDisk : Type 0 where
  pub blocks : ℕ → Block
  pub nblocks : ℕ

-- A run ends with a result, crashes or panics. A number says how many writes are left until the
-- crash.
pub data Ran {ℓ} (A : Type ℓ) : Type ℓ where
  done : A → ℕ → FileDisk → Ran A
  crashed : FileDisk → Ran A
  panicked : Ran A

infixl 5 ◌>=>◌
abbrev pub ◌>=>◌ {ℓ κ} : {A : Type ℓ} {B : Type κ} → Ran A → (A → ℕ → FileDisk → Ran B) → Ran B
done a n d >=> f = f a n d
crashed d >=> f = crashed d
panicked >=> f = panicked

abbrev pub put_block : ℕ → Block → FileDisk → FileDisk
put_block b buf d = record d { blocks = λ x. if x == b then buf else d.blocks x }

unfoldable pub read_block : ℕ → ℕ → FileDisk → Ran Block
read_block block_no n d = if ltb block_no d.nblocks then done (d.blocks block_no) n d else panicked

abbrev pub persist : ℕ → Block → ℕ → FileDisk → Ran (Unit {0})
persist block_no buf zero d = crashed d
persist block_no buf (suc n) d = done tt n (put_block block_no buf d)

unfoldable pub write_block : ℕ → Block → ℕ → FileDisk → Ran (Unit {0})
write_block block_no buf n d = if ltb block_no d.nblocks then persist block_no buf n d else panicked
