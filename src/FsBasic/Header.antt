-- ===== src/FsBasic/Header.antt =====
-- exp-design/fs/fs-basic/src/log.rs: the header of the log, and its bytes.
pub mod Bytes
use tg_rcore_tutorial.Prelude.{ℕ, ◌+◌, ◌-◌, ◌*◌, ◌/◌, ◌%◌, ◌^◌, ltb, if◌then◌else◌}
use tg_rcore_tutorial.FsBasic.Disk.{Block}

abbrev pub max_log_blocks : ℕ
max_log_blocks = 30

-- `blocks` has `max_log_blocks` entries.
pub record LogHeader : Type 0 where
  pub count : ℕ
  pub committed : ℕ
  pub blocks : ℕ → ℕ

unfoldable pub new : LogHeader
new = record { count = 0; committed = 0; blocks = λ i. 0 }

-- Byte `j` of `u32::to_le_bytes`.
abbrev pub le_byte : ℕ → ℕ → ℕ
le_byte j v = v / 256 ^ j % 256

-- `u32::from_le_bytes` of the four bytes at an offset.
abbrev pub from_le_bytes : Block → ℕ → ℕ
from_le_bytes buf off =
    buf off + 256 * buf (off + 1) + 65536 * buf (off + 2) + 16777216 * buf (off + 3)

unfoldable pub to_bytes : LogHeader → Block
to_bytes h off =
    if ltb off 4
    then le_byte off h.count
    else if ltb off 8
    then le_byte (off - 4) h.committed
    else if ltb off (8 + max_log_blocks * 4)
    then le_byte ((off - 8) % 4) (h.blocks ((off - 8) / 4))
    else 0

unfoldable pub from_bytes : Block → LogHeader
from_bytes buf = record {
  count = from_le_bytes buf 0;
  committed = from_le_bytes buf 4;
  blocks = λ i. from_le_bytes buf (8 + i * 4);
}
