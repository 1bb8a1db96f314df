-- ===== src/FsBasic/Cache.antt =====
-- exp-design/fs/fs-basic/src/block_cache.rs: what a commit writes to the cache.
use tg_rcore_tutorial.Prelude.{ℕ, Bool, true, false, none, some}
use tg_rcore_tutorial.Prelude.Map
use tg_rcore_tutorial.Prelude.Map.{Map}
use tg_rcore_tutorial.FsBasic.Disk.{Block, FileDisk, Ran, done, ◌>=>◌, read_block}

pub record CachedBlock : Type 0 where
  pub bytes : Block
  pub dirty : Bool
  pub pinned : Bool

abbrev pub BlockCache : Type 0
BlockCache = Map CachedBlock

unfoldable pub write : ℕ → Block → BlockCache → ℕ → FileDisk → Ran (Block × BlockCache)
write block_no buf c n d = elim (c block_no) [
  | some entry ↦
      done (entry.bytes, Map.insert block_no (record entry { bytes = buf; dirty = true }) c) n d
  | none ↦ read_block block_no n d >=> λ old n d.
      done (old, Map.insert block_no (record { bytes = buf; dirty = true; pinned = false }) c) n d
]
