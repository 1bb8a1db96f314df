-- ===== src/FsBasic/Header/Bytes.antt =====
-- The header of the log as bytes and back (log.rs).
use tg_rcore_tutorial.Prelude.{
  ℕ, ◌+◌, ◌-◌, ◌*◌, ◌/◌, ◌%◌, ◌^◌, ◌<◌, ◌≡◌, ◌∙◌, ap, true, false, ltb, arith,
}
use tg_rcore_tutorial.FsBasic.Header.{
  LogHeader, max_log_blocks, le_byte, from_le_bytes, to_bytes, from_bytes,
}

-- Four bytes make up the word that they were taken from.
word_bytes :
    (v : ℕ)
    → v < 2 ^ 32
    → le_byte 0 v + 256 * le_byte 1 v + 65536 * le_byte 2 v + 16777216 * le_byte 3 v ≡ v
word_bytes v h = omega arith

block_byte :
    (h : LogHeader) (i j : ℕ)
    → i < max_log_blocks
    → j < 4
    → to_bytes h (8 + i * 4 + j) ≡ le_byte j (h.blocks i)
unfolding to_bytes
block_byte h i j hi hj =
    let off = 8 + i * 4 + j in
    let a : ltb off 4 ≡ false = ground arith in
    let b : ltb off 8 ≡ false = ground arith in
    let c : ltb off (8 + max_log_blocks * 4) ≡ true = ground arith in
    let r : (off - 8) % 4 ≡ j = omega arith in
    let q : (off - 8) / 4 ≡ i = omega arith in
    rw (a, to_bytes) (rw (b, c) (rw r (ap (λ x. le_byte j (h.blocks x)) q)))

first_byte :
    (h : LogHeader) (i : ℕ) → i < max_log_blocks → to_bytes h (8 + i * 4) ≡ le_byte 0 (h.blocks i)
first_byte h i lt =
    let same : 8 + i * 4 ≡ 8 + i * 4 + 0 = omega arith in
    ap (to_bytes h) same ∙ block_byte h i 0 lt (omega arith)

four_bytes :
    (h : LogHeader) (i : ℕ)
    → i < max_log_blocks
    → from_le_bytes (to_bytes h) (8 + i * 4)
      ≡ le_byte 0 (h.blocks i)
        + 256 * le_byte 1 (h.blocks i)
        + 65536 * le_byte 2 (h.blocks i)
        + 16777216 * le_byte 3 (h.blocks i)
four_bytes h i lt = omega (
  arith,
  first_byte h i lt,
  block_byte h i 1 lt (omega arith),
  block_byte h i 2 lt (omega arith),
  block_byte h i 3 lt (omega arith),
)

-- A header whose fields are words is read back as it was written.
pub from_bytes-to_bytes :
    (h : LogHeader)
    → h.count < 2 ^ 32
    → h.committed < 2 ^ 32
    → ((i : ℕ) → i < max_log_blocks → h.blocks i < 2 ^ 32)
    → ((from_bytes (to_bytes h)).count ≡ h.count)
      × ((from_bytes (to_bytes h)).committed ≡ h.committed)
      × ((i : ℕ) → i < max_log_blocks → (from_bytes (to_bytes h)).blocks i ≡ h.blocks i)
unfolding from_bytes to_bytes
from_bytes-to_bytes h hc hk hb = (
  word_bytes h.count hc,
  word_bytes h.committed hk,
  λ i lt. four_bytes h i lt ∙ word_bytes (h.blocks i) (hb i lt),
)
