-- ===== src/FsBasic/UndoLog/Tests.antt =====
-- A transaction of the undo log on a small disk.
use tg_rcore_tutorial.Prelude.{ℕ, refl, arith, true, [], ◌∷◌}
use tg_rcore_tutorial.Prelude.Map
use tg_rcore_tutorial.FsBasic.Disk.{Block, FileDisk}
use tg_rcore_tutorial.FsBasic.Header.{from_bytes}
use tg_rcore_tutorial.FsBasic.UndoLog.{UndoLog, commit}
use tg_rcore_tutorial.FsBasic.UndoLog.Commit.{IsReady, Ends, commit_rolls_back}

abbrev filled : ℕ → Block
filled byte off = byte

-- Blocks 2 to 5 are the log.
abbrev disk : FileDisk
disk = record { blocks = λ x. filled 0; nblocks = 16 }

-- Blocks 8 and 9 are to be written.
abbrev log : UndoLog
log = record {
  log_start = 2;
  log_blocks = 4;
  in_tx = true;
  original_blocks = (8, filled 0) ∷ (9, filled 0) ∷ [];
  new_blocks = (8, filled 1) ∷ (9, filled 2) ∷ [];
}

log-IsReady : IsReady log (λ x. filled 0) disk
unfolding from_bytes
log-IsReady = record {
  in_tx = refl;
  some_entries = omega arith;
  few = omega arith;
  room = omega arith;
  fits = (refl, omega arith, (refl, omega arith, tt));
  clean = record {
    laid = record { some_blocks = omega arith; on_disk = omega arith; words = omega arith };
    no_transaction = refl;
    same = λ x out. refl;
  };
}

-- The machine crashes at the fifth write, and again after one write of the recovery.
commit_rolls_back_example : Ends log (λ x. filled 0) (1 ∷ []) 3 (commit log Map.empty 4 disk)
commit_rolls_back_example =
    commit_rolls_back log Map.empty (λ x. filled 0) 4 disk (1 ∷ []) 3 log-IsReady (omega arith)
