-- ===== src/FsBasic/RedoLog.antt =====
-- exp-design/fs/fs-basic/src/log.rs: the redo log. Word arithmetic is that of `u32`.
pub mod Blocks
pub mod Replay
pub mod Recovery
pub mod Commit
pub mod Write
use tg_rcore_tutorial.Prelude.{
  ℕ, zero, suc, ◌+◌, ◌-◌, ◌%◌, ◌^◌, ◌==◌, ltb, leb, ◌||◌, if◌then◌else◌, Bool, true, false, Option,
  none, some, List, [], ◌∷◌, ◌++◌, length, is_empty, Outcome, ok, ◌>>=◌, ◌>>◌, assert,
}
use tg_rcore_tutorial.FsBasic.Disk.{
  Block, FileDisk, Ran, done, panicked, ◌>=>◌, read_block, write_block,
}
use tg_rcore_tutorial.FsBasic.Cache
use tg_rcore_tutorial.FsBasic.Cache.{BlockCache}
use tg_rcore_tutorial.FsBasic.Header
use tg_rcore_tutorial.FsBasic.Header.{LogHeader, max_log_blocks, to_bytes, from_bytes}

pub record RedoLog : Type 0 where
  pub log_start : ℕ
  pub log_blocks : ℕ
  pub in_tx : Bool
  pub logged_blocks : List (ℕ × Block)

unfoldable pub new : ℕ → ℕ → RedoLog
new log_start nlogblocks = record {
  log_start = log_start;
  log_blocks = nlogblocks;
  in_tx = false;
  logged_blocks = [];
}

unfoldable pub data_block : ℕ → ℕ → ℕ
data_block log_start i = (log_start + 1 + i % 2 ^ 32) % 2 ^ 32

unfoldable pub read_header : ℕ → ℕ → FileDisk → Ran LogHeader
read_header log_start n d = read_block log_start n d >=> λ buf n d. done (from_bytes buf) n d

unfoldable pub write_header : ℕ → LogHeader → ℕ → FileDisk → Ran (Unit {0})
write_header log_start hdr n d = write_block log_start (to_bytes hdr) n d

unfoldable pub begin_tx : RedoLog → Outcome RedoLog
begin_tx r = do
  assert (if r.in_tx then false else true)
  ok (record r { in_tx = true; logged_blocks = [] })

-- `iter_mut().find(..)` and the update of the entry.
unfoldable pub update_entry : ℕ → Block → List (ℕ × Block) → Option (List (ℕ × Block))
update_entry block_no buf [] = none
update_entry block_no buf (e ∷ rest) =
    let later = update_entry block_no buf rest in
    if e.0 == block_no
    then some ((e.0, buf) ∷ rest)
    else elim later [ none ↦ none | some rest' ↦ some (e ∷ rest') ]

-- The entry is updated, or a new one is pushed.
unfoldable pub put_entry : Option (List (ℕ × Block)) → ℕ → Block → RedoLog → Outcome RedoLog
put_entry (some logged_blocks) block_no buf r = ok (record r { logged_blocks = logged_blocks })
put_entry none block_no buf r =
    assert (ltb (length r.logged_blocks) max_log_blocks)
    >> assert (ltb (length r.logged_blocks % 2 ^ 32) ((r.log_blocks + (2 ^ 32 - 1)) % 2 ^ 32))
    >> ok (record r { logged_blocks = r.logged_blocks ++ (block_no, buf) ∷ [] })

unfoldable pub log_write : ℕ → Block → RedoLog → Outcome RedoLog
log_write block_no buf r =
    assert r.in_tx >> put_entry (update_entry block_no buf r.logged_blocks) block_no buf r

-- Phase 1, from entry `i` on.
unfoldable pub write_data : ℕ → ℕ → List (ℕ × Block) → ℕ → FileDisk → Ran (Unit {0})
write_data log_start i [] n d = done tt n d
write_data log_start i ((_, buf) ∷ rest) n d =
    write_block (data_block log_start i) buf n d >=> λ _ n d. write_data log_start (i + 1) rest n d

-- `hdr.blocks` of phase 2.
abbrev pub block_numbers : List (ℕ × Block) → ℕ → ℕ
block_numbers [] i = 0
block_numbers ((block_no, _) ∷ rest) zero = block_no
block_numbers ((block_no, _) ∷ rest) (suc i) = block_numbers rest i

abbrev pub commit_header : List (ℕ × Block) → LogHeader
commit_header logged = record {
  count = length logged % 2 ^ 32;
  committed = 1;
  blocks = block_numbers logged;
}

-- Block `i` of the log goes to its final place.
unfoldable pub copy_block : ℕ → ℕ → ℕ → ℕ → FileDisk → Ran (Unit {0})
copy_block log_start i block_no n d =
    read_block (data_block log_start i) n d >=> λ buf n d. write_block block_no buf n d

-- Phase 3, from entry `i` on.
unfoldable pub install : ℕ → ℕ → List (ℕ × Block) → ℕ → FileDisk → Ran (Unit {0})
install log_start i [] n d = done tt n d
install log_start i ((block_no, _) ∷ rest) n d =
    copy_block log_start i block_no n d >=> λ _ n d. install log_start (i + 1) rest n d

unfoldable pub update_cache : List (ℕ × Block) → BlockCache → ℕ → FileDisk → Ran BlockCache
update_cache [] c n d = done c n d
update_cache ((block_no, buf) ∷ rest) c n d =
    Cache.write block_no buf c n d >=> λ r n d. update_cache rest r.1 n d

-- Phase 2. An index of `hdr.blocks` out of range panics.
unfoldable pub commit_point : ℕ → List (ℕ × Block) → ℕ → FileDisk → Ran (Unit {0})
commit_point log_start logged n d =
    if leb (length logged) max_log_blocks
    then write_header log_start (commit_header logged) n d
    else panicked

-- Phases 3 and 4, and the cache.
unfoldable pub finish : RedoLog → BlockCache → ℕ → FileDisk → Ran (RedoLog × BlockCache)
finish r c n d = install r.log_start 0 r.logged_blocks n d >=> λ _ n d.
    write_header r.log_start Header.new n d >=> λ _ n d.
    update_cache r.logged_blocks c n d >=> λ c n d.
    done (record r { in_tx = false; logged_blocks = [] }, c) n d

unfoldable pub commit_rest : RedoLog → BlockCache → ℕ → FileDisk → Ran (RedoLog × BlockCache)
commit_rest r c n d = commit_point r.log_start r.logged_blocks n d >=> λ _ n d. finish r c n d

unfoldable pub commit_logged : RedoLog → BlockCache → ℕ → FileDisk → Ran (RedoLog × BlockCache)
commit_logged r c n d =
    write_data r.log_start 0 r.logged_blocks n d >=> λ _ n d. commit_rest r c n d

-- The log and the cache after the commit, which returns `Ok(())`.
unfoldable pub commit : RedoLog → BlockCache → ℕ → FileDisk → Ran (RedoLog × BlockCache)
commit r c n d =
    if r.in_tx
    then if is_empty r.logged_blocks
      then done (record r { in_tx = false }, c) n d
      else commit_logged r c n d
    else panicked

-- The loop of the recovery: `k` blocks to go, from block `i` on.
unfoldable pub replay : ℕ → ℕ → ℕ → LogHeader → ℕ → FileDisk → Ran (Unit {0})
replay log_start i zero hdr n d = done tt n d
replay log_start i (suc k) hdr n d =
    (if ltb i max_log_blocks then copy_block log_start i (hdr.blocks i) n d else panicked)
    >=> λ _ n d. replay log_start (i + 1) k hdr n d

unfoldable pub recover_from : ℕ → LogHeader → ℕ → FileDisk → Ran (Unit {0})
recover_from log_start hdr n d =
    if hdr.count == 0 || hdr.committed == 0
    then write_header log_start Header.new n d
    else replay log_start 0 hdr.count hdr n d >=> λ _ n d. write_header log_start Header.new n d

unfoldable pub recover : RedoLog → ℕ → FileDisk → Ran (Unit {0})
recover r n d = read_header r.log_start n d >=> λ hdr n d. recover_from r.log_start hdr n d

unfoldable pub cleanup : RedoLog → ℕ → FileDisk → Ran RedoLog
cleanup r n d = write_header r.log_start Header.new n d >=> λ _ n d.
    done (if r.in_tx then record r { in_tx = false; logged_blocks = [] } else r) n d
