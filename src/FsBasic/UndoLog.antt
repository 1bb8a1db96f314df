-- ===== src/FsBasic/UndoLog.antt =====
-- exp-design/fs/fs-basic/src/log.rs: the undo log. Its recovery is word for word that of the redo
-- log, so it is the same function.
pub mod Rollback
pub mod Commit
mod Tests
use tg_rcore_tutorial.Prelude.{
  ℕ, zero, suc, ◌+◌, ◌==◌, ltb, leb, ◌||◌, if◌then◌else◌, Bool, true, false, Option, none, some,
  List, [], ◌∷◌, ◌++◌, length, is_empty, Outcome, ok, ◌>>=◌, ◌>>◌, assert,
}
use tg_rcore_tutorial.FsBasic.Disk.{
  Block, FileDisk, Ran, done, panicked, ◌>=>◌, read_block, write_block,
}
use tg_rcore_tutorial.FsBasic.Cache.{BlockCache}
use tg_rcore_tutorial.FsBasic.Header
use tg_rcore_tutorial.FsBasic.Header.{max_log_blocks}
use tg_rcore_tutorial.FsBasic.RedoLog.{
  write_header, write_data, commit_point, update_cache, update_entry,
}

pub record UndoLog : Type 0 where
  pub log_start : ℕ
  pub log_blocks : ℕ
  pub in_tx : Bool
  pub original_blocks : List (ℕ × Block)
  pub new_blocks : List (ℕ × Block)

unfoldable pub new : ℕ → ℕ → UndoLog
new log_start nlogblocks = record {
  log_start = log_start;
  log_blocks = nlogblocks;
  in_tx = false;
  original_blocks = [];
  new_blocks = [];
}

unfoldable pub begin_tx : UndoLog → Outcome UndoLog
begin_tx u = do
  assert (if u.in_tx then false else true)
  ok (record u { in_tx = true; original_blocks = []; new_blocks = [] })

-- `iter().any(|(b, _)| b == block_no)`
abbrev pub any_entry : ℕ → List (ℕ × Block) → Bool
any_entry block_no [] = false
any_entry block_no (e ∷ rest) = e.0 == block_no || any_entry block_no rest

abbrev pub placeholder : Block
placeholder i = 0

unfoldable pub log_write : ℕ → Block → UndoLog → Outcome UndoLog
log_write block_no buf u = assert u.in_tx >> elim (update_entry block_no buf u.new_blocks) [
  | some new_blocks ↦ ok (record u { new_blocks = new_blocks })
  | none ↦
      assert (ltb (length u.new_blocks) max_log_blocks)
      >> ok (record u {
        original_blocks =
            if any_entry block_no u.original_blocks
            then u.original_blocks
            else u.original_blocks ++ (block_no, placeholder) ∷ [];
        new_blocks = u.new_blocks ++ (block_no, buf) ∷ [];
      })
]

-- Phase 1: the originals of the blocks, each once. `origins` are those found so far.
unfoldable pub unique_origins :
    List (ℕ × Block) → List (ℕ × Block) → ℕ → FileDisk → Ran (List (ℕ × Block))
unique_origins origins [] n d = done origins n d
unique_origins origins ((block_no, _) ∷ rest) n d =
    if any_entry block_no origins
    then unique_origins origins rest n d
    else read_block block_no n d >=> λ orig n d.
        unique_origins (origins ++ (block_no, orig) ∷ []) rest n d

-- Phase 3.
unfoldable pub write_new : List (ℕ × Block) → ℕ → FileDisk → Ran (Unit {0})
write_new [] n d = done tt n d
write_new ((block_no, buf) ∷ rest) n d =
    write_block block_no buf n d >=> λ _ n d. write_new rest n d

-- Phases 3 and 4, and the cache.
unfoldable pub finish : UndoLog → BlockCache → ℕ → FileDisk → Ran (UndoLog × BlockCache)
finish u c n d = write_new u.new_blocks n d >=> λ _ n d.
    write_header u.log_start Header.new n d >=> λ _ n d.
    update_cache u.new_blocks c n d >=> λ c n d.
    done (record u { in_tx = false; original_blocks = []; new_blocks = [] }, c) n d

unfoldable pub commit_rest :
    List (ℕ × Block) → UndoLog → BlockCache → ℕ → FileDisk → Ran (UndoLog × BlockCache)
commit_rest origins u c n d = commit_point u.log_start origins n d >=> λ _ n d. finish u c n d

-- What follows on the reads of phase 1.
unfoldable pub commit_origins :
    List (ℕ × Block) → UndoLog → BlockCache → ℕ → FileDisk → Ran (UndoLog × BlockCache)
commit_origins origins u c n d =
    write_data u.log_start 0 origins n d >=> λ _ n d. commit_rest origins u c n d

unfoldable pub commit_logged : UndoLog → BlockCache → ℕ → FileDisk → Ran (UndoLog × BlockCache)
commit_logged u c n d =
    unique_origins [] u.new_blocks n d >=> λ origins n d. commit_origins origins u c n d

unfoldable pub commit : UndoLog → BlockCache → ℕ → FileDisk → Ran (UndoLog × BlockCache)
commit u c n d =
    if u.in_tx
    then if is_empty u.new_blocks
      then done (record u { in_tx = false }, c) n d
      else commit_logged u c n d
    else panicked

unfoldable pub cleanup : UndoLog → ℕ → FileDisk → Ran UndoLog
cleanup u n d = write_header u.log_start Header.new n d >=> λ _ n d.
    done (if u.in_tx then record u { in_tx = false; original_blocks = []; new_blocks = [] } else u)
      n d
