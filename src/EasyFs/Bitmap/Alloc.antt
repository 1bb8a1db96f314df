-- ===== src/EasyFs/Bitmap/Alloc.antt =====
-- `alloc` and `dealloc` of a bitmap (bitmap.rs) on all of its blocks.
use tg_rcore_tutorial.Prelude.{
  ℕ, zero, suc, ◌+◌, ◌-◌, ◌*◌, ◌/◌, ◌%◌, ◌^◌, ◌<◌, ◌≤◌, ◌≡◌, refl, ap, ap₂, ◌∙◌, ◌⊎◌, inl, inr,
  ◌==◌, ltb, if◌then◌else◌, Bool-cases, false, none, some, length, arith, ok, panic,
}
use Prim.Native.Nat.{bit_and}
use tg_rcore_tutorial.Prelude.Bits.{bit, bit_and-pow, bit-sub_pow, bit-le_one}
use native.Mathlib.Nat.{one-le-pow}
use tg_rcore_tutorial.EasyFs.Bitmap.{
  Bitmap, BitmapBlock, Device, write, word, set_word, alloc_from, alloc, dealloc, decomposition,
  maximum,
}
use tg_rcore_tutorial.EasyFs.Bitmap.Words.{
  taken_in, AllWords, word-set_word, length-set_word, set_word-AllWords, word-lt, alloc_block_lem,
}

-- Bit `k` of the bitmap, whose blocks start at `start`.
abbrev pub taken : ℕ → Device → ℕ → ℕ
taken start dev k = taken_in (dev (k / 4096 + start)) (k % 4096)

-- Every block has its 64 words.
abbrev pub IsDevice : Device → Type 0
IsDevice dev = (id : ℕ) → (length (dev id) ≡ 64) × AllWords (dev id)

-- `k` is free and the bits from `from` on below it are not. Afterwards it is set, no other bit has
-- changed, and the blocks still have their words.
abbrev pub Takes : ℕ → Device → ℕ → ℕ → Device → Type 0
Takes start dev from k dev' =
    (taken start dev k ≡ 0)
    × ((j : ℕ) → from ≤ j → j < k → taken start dev j ≡ 1)
    × ((j : ℕ) → taken start dev' j ≡ (if j == k then 1 else taken start dev j))
    × IsDevice dev'

write-IsDevice :
    (id : ℕ) (block : BitmapBlock) (dev : Device)
    → IsDevice dev
    → length block ≡ 64
    → AllWords block
    → IsDevice (write id block dev)
unfolding write
write-IsDevice id block dev h len words j = elim (Bool-cases (id == j)) [
  | inl hit ↦ rw (hit, write) (len, words)
  | inr miss ↦ rw (miss, write) (h j)
]

-- A write to one block that changes one of its bits.
taken-write :
    (v block_id start n : ℕ) (dev : Device) (block' : BitmapBlock)
    → n < 4096
    → ((k : ℕ) → taken_in block' k ≡ (if k == n then v else taken_in (dev (block_id + start)) k))
    → (j : ℕ)
    → taken start (write (block_id + start) block' dev) j
      ≡ (if j == block_id * 4096 + n then v else taken start dev j)
unfolding write
taken-write v block_id start n dev block' lt after j =
    elim (Bool-cases (block_id + start == j / 4096 + start)) [
      | inl hit ↦
          let put : write (block_id + start) block' dev (j / 4096 + start) ≡ block' =
            rw (hit, write) refl in
          let here : block_id ≡ j / 4096 = ground arith in
          let same : (j % 4096 == n) ≡ (j == block_id * 4096 + n) = ground arith in
          ap (λ b. taken_in b (j % 4096)) put
          ∙ after (j % 4096)
          ∙ ap₂ (λ c b. if c then v else taken_in (dev (b + start)) (j % 4096)) same here
      | inr miss ↦
          let kept : write (block_id + start) block' dev (j / 4096 + start)
              ≡ dev (j / 4096 + start) =
            rw (miss, write) refl in
          let other : (j == block_id * 4096 + n) ≡ false = ground arith in
          rw other (ap (λ b. taken_in b (j % 4096)) kept)
    ]

alloc_from_lem :
    (left block_id start : ℕ) (dev : Device)
    → IsDevice dev
    → ((alloc_from left block_id start dev ≡ (none, dev))
        × ((j : ℕ) → block_id * 4096 ≤ j → j < (block_id + left) * 4096 → taken start dev j ≡ 1))
      ⊎ ((k : ℕ) × (dev' : Device) × (alloc_from left block_id start dev ≡ (some k, dev'))
          × (block_id * 4096 ≤ k)
          × (k < (block_id + left) * 4096)
          × Takes start dev (block_id * 4096) k dev')
unfolding alloc_from write
alloc_from_lem zero block_id start dev h = inl (refl, λ j lo hi. absurd (omega arith))
alloc_from_lem (suc left) block_id start dev h =
    let (len, words) = h (block_id + start) in
    elim (alloc_block_lem (dev (block_id + start)) len words) [
      | inl (e, all) ↦
          let here : (j : ℕ)
              → block_id * 4096 ≤ j
              → j < (block_id + 1) * 4096
              → taken start dev j ≡ 1 =
            λ j lo hi.
              let same : j / 4096 ≡ block_id = omega (arith, lo, hi) in
              ap (λ b. taken_in (dev (b + start)) (j % 4096)) same ∙ all (j % 4096) (omega arith) in
          rw (e, alloc_from)
            (elim (alloc_from_lem left (block_id + 1) start dev h) [
              | inl (run, rest) ↦ inl (run, λ j lo hi. ground (arith, here j, rest j))
              | inr (k, dev', run, lo, hi, (free, below, after, fine)) ↦ inr (
                k,
                dev',
                run,
                omega (arith, lo),
                omega (arith, hi),
                (free, λ j lo' lt. ground (arith, here j, below j), after, fine),
              )
            ])
      | inr (p, i, block', e, lt, len', words', free, below, after) ↦
          let k = block_id * 4096 + (p * 64 + i) in
          let block_of : k / 4096 ≡ block_id = omega (arith, lt) in
          let bit_of : k % 4096 ≡ p * 64 + i = omega (arith, lt) in
          let sum : block_id * 4096 + p * 64 + i ≡ k = omega arith in
          inr (
            k,
            write (block_id + start) block' dev,
            rw (e, alloc_from) (ap (λ n. (some n, write (block_id + start) block' dev)) sum),
            omega arith,
            omega (arith, lt),
            (
              ap₂ (λ b n. taken_in (dev (b + start)) n) block_of bit_of ∙ free,
              λ j lo hi.
                  let same : j / 4096 ≡ block_id = omega (arith, lo, hi, lt) in
                  ap (λ b. taken_in (dev (b + start)) (j % 4096)) same
                  ∙ below (j % 4096) (omega (arith, lo, hi, lt)),
              taken-write 1 block_id start (p * 64 + i) dev block' lt after,
              write-IsDevice (block_id + start) block' dev h len' words',
            ),
          )
    ]

-- On blocks of 64 words, `alloc` gives the lowest bit that is free, which is below `maximum`, sets it
-- and changes no other bit. It gives none only if all bits are set, and then changes nothing.
pub alloc_lem :
    (b : Bitmap) (dev : Device)
    → IsDevice dev
    → ((alloc b dev ≡ (none, dev)) × ((j : ℕ) → j < maximum b → taken b.start_block_id dev j ≡ 1))
      ⊎ ((k : ℕ) × (dev' : Device) × (alloc b dev ≡ (some k, dev'))
          × (k < maximum b)
          × Takes b.start_block_id dev 0 k dev')
unfolding alloc maximum
alloc_lem b dev h = elim (alloc_from_lem b.blocks 0 b.start_block_id dev h) [
  | inl (run, all) ↦ inl (run, λ j lt. all j (omega arith) (omega (arith, lt)))
  | inr (k, dev', run, lo, hi, takes) ↦ inr (k, dev', run, omega (arith, hi), takes)
]

cleared :
    (k : ℕ) (block : BitmapBlock)
    → k % 4096 / 64 < length block
    → taken_in block (k % 4096) ≡ 1
    → (m : ℕ)
    → taken_in (set_word (k % 4096 / 64) (word (k % 4096 / 64) block - 2 ^ (k % 4096 % 64)) block) m
      ≡ (if m == k % 4096 then 0 else taken_in block m)
cleared k block lt set m = ground (
  arith,
  ap (bit (m % 64)) (
      word-set_word (k % 4096 / 64) (m / 64) (word (k % 4096 / 64) block - 2 ^ (k % 4096 % 64))
        block lt),
  bit-sub_pow (m % 64) (k % 4096 % 64) (word (k % 4096 / 64) block) set,
)

-- On blocks of 64 words, `dealloc` of a bit that is set frees it and changes no other bit. Of a free
-- bit it panics.
pub dealloc_lem :
    (b : Bitmap) (dev : Device) (k : ℕ)
    → IsDevice dev
    → ((taken b.start_block_id dev k ≡ 0) × (dealloc b k dev ≡ panic))
      ⊎ ((dev' : Device) × (taken b.start_block_id dev k ≡ 1)
          × (dealloc b k dev ≡ ok dev')
          × IsDevice dev'
          × ((j : ℕ)
              → taken b.start_block_id dev' j
                ≡ (if j == k then 0 else taken b.start_block_id dev j)))
unfolding dealloc decomposition
dealloc_lem b dev k h =
    let p = k % 4096 / 64 in
    let i = k % 4096 % 64 in
    let id = k / 4096 + b.start_block_id in
    let (len, words) = h id in
    let w = word p (dev id) in
    let test : ltb 0 (bit_and w (2 ^ i)) ≡ (bit i w == 1) =
      ground (arith, bit_and-pow i w, one-le-pow i 2 (omega arith)) in
    elim (Bool-cases (bit i w == 1)) [
      | inl set ↦
          let block' = set_word p (w - 2 ^ i) (dev id) in
          let lt : p < length (dev id) = omega (arith, len) in
          inr (
            write id block' dev,
            ground (arith, set),
            rw (test ∙ set, dealloc) refl,
            write-IsDevice id block' dev h (length-set_word p (w - 2 ^ i) (dev id) ∙ len) (
                set_word-AllWords p (w - 2 ^ i) (dev id) (omega (arith, word-lt p (dev id) words))
                  words),
            λ j.
                let same : k / 4096 * 4096 + k % 4096 ≡ k = omega arith in
                taken-write 0 (k / 4096) b.start_block_id (k % 4096) dev block' (omega arith)
                  (cleared k (dev id) lt (ground (arith, set))) j
                ∙ ap (λ n. if j == n then 0 else taken b.start_block_id dev j) same,
          )
      | inr clear ↦ inl (ground (arith, clear, bit-le_one i w), rw (test ∙ clear, dealloc) refl)
    ]
