-- ===== src/EasyFs/Layout/Total.antt =====
-- `total_blocks` (layout.rs) without the cut to a word.
use tg_rcore_tutorial.Prelude.{ℕ, ◌+◌, ◌-◌, ◌*◌, ◌/◌, ◌≤◌, ◌≡◌, ltb, if◌then◌else◌, arith}
use tg_rcore_tutorial.EasyFs.Layout.{data_blocks_of, total_blocks}

-- The size of a file whose tables are all full.
abbrev pub max_size : ℕ
max_size = (27 + 128 + 128 * 128) * 512

-- The blocks of a file that has `d` blocks of data.
abbrev pub total_of : ℕ → ℕ
total_of d = d + (if ltb 27 d then 1 else 0) + (if ltb 155 d then 1 + (d - 155 + 127) / 128 else 0)

pub total_blocks-of :
    (size : ℕ) → size ≤ max_size → total_blocks size ≡ total_of (data_blocks_of size)
unfolding total_blocks data_blocks_of
total_blocks-of size small = ground (arith, small)
