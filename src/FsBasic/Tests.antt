-- ===== src/FsBasic/Tests.antt =====
-- A transaction on a small disk.
use tg_rcore_tutorial.Prelude.{
  ℕ, ◌+◌, ◌<◌, ◌≡◌, ◌==◌, ◌⊎◌, if◌then◌else◌, refl, arith, true, length, ok, panic, [], ◌∷◌,
}
use tg_rcore_tutorial.Prelude.Map
use tg_rcore_tutorial.FsBasic.Disk.{Block, FileDisk}
use tg_rcore_tutorial.FsBasic.Header.{LogHeader, max_log_blocks, to_bytes, from_bytes}
use tg_rcore_tutorial.FsBasic.Header.Bytes.{from_bytes-to_bytes}
use tg_rcore_tutorial.FsBasic.RedoLog.{RedoLog, commit, log_write}
use tg_rcore_tutorial.FsBasic.RedoLog.Blocks.{after}
use tg_rcore_tutorial.FsBasic.RedoLog.Write.{IsOpen, entries, log_write_lem}
use tg_rcore_tutorial.FsBasic.RedoLog.Commit.{IsReady, Ends, commit_atomic}

abbrev filled : ℕ → Block
filled byte off = byte

-- Blocks 2 to 5 are the log.
abbrev disk : FileDisk
disk = record { blocks = λ x. filled 0; nblocks = 16 }

-- Blocks 8 and 9 are to be written.
abbrev log : RedoLog
log = record {
  log_start = 2;
  log_blocks = 4;
  in_tx = true;
  logged_blocks = (8, filled 1) ∷ (9, filled 2) ∷ [];
}

log-IsReady : IsReady log (λ x. filled 0) disk
unfolding from_bytes
log-IsReady = record {
  in_tx = refl;
  some_entries = omega arith;
  few = omega arith;
  room = omega arith;
  fits = (refl, omega arith, (refl, omega arith, tt));
  clean = record {
    laid = record { some_blocks = omega arith; on_disk = omega arith; words = omega arith };
    no_transaction = refl;
    same = λ x out. refl;
  };
}

-- The machine crashes at the fourth write, and again after one write of the recovery.
commit_atomic_example : Ends log (λ x. filled 0) (1 ∷ []) 3 (commit log Map.empty 3 disk)
commit_atomic_example =
    commit_atomic log Map.empty (λ x. filled 0) 3 disk (1 ∷ []) 3 log-IsReady (omega arith)

abbrev header : LogHeader
header = record { count = 2; committed = 1; blocks = λ i. i + 8 }

from_bytes-to_bytes_example :
    ((from_bytes (to_bytes header)).count ≡ 2)
    × ((from_bytes (to_bytes header)).committed ≡ 1)
    × ((i : ℕ) → i < max_log_blocks → (from_bytes (to_bytes header)).blocks i ≡ i + 8)
from_bytes-to_bytes_example =
    from_bytes-to_bytes header (omega arith) (omega arith) (λ i lt. omega arith)

log-IsOpen : IsOpen 16 log
log-IsOpen = record {
  in_tx = refl;
  few = omega arith;
  room = omega arith;
  word = omega arith;
  fits = (refl, omega arith, (refl, omega arith, tt));
  once = λ b. ground arith;
}

-- Block 10 is written, too.
log_write_lem_example :
    ((log_write 10 (filled 3) log ≡ panic)
      × (entries 10 log.logged_blocks ≡ 0)
      × ((length log.logged_blocks ≡ max_log_blocks) ⊎ ◌≡◌ {A = ℕ} 3 4))
    ⊎ ((r' : RedoLog) × (log_write 10 (filled 3) log ≡ ok r')
        × IsOpen 16 r'
        × ((f : ℕ → Block) (x : ℕ)
            → after r'.logged_blocks f x
              ≡ (if x == 10 then filled 3 else after log.logged_blocks f x)))
log_write_lem_example = log_write_lem 16 10 (filled 3) log log-IsOpen refl (omega arith)
