-- ===== src/FsBasic/RedoLog/Replay.antt =====
-- The copies from the log to the final places (log.rs).
use tg_rcore_tutorial.Prelude.{
  ℕ, suc, ◌+◌, ◌<◌, ◌≤◌, ◌≡◌, refl, ◌∙◌, ap, fun_ext, ◌==◌, ltb, if◌then◌else◌, Bool, true, false,
  Option, Option-cases, none, some, List, [], ◌∷◌, length, arith, ◌⊎◌, inl, inr,
}
use tg_rcore_tutorial.FsBasic.Disk.{Block, FileDisk, done, crashed, ◌>=>◌, put_block}
use tg_rcore_tutorial.FsBasic.Header.{LogHeader, max_log_blocks}
use tg_rcore_tutorial.FsBasic.RedoLog.{data_block, copy_block, install, replay, block_numbers}
use tg_rcore_tutorial.FsBasic.RedoLog.Blocks.{
  outside, IsLaid, Fits, DataAt, merge, written, or_else, after, data_block-inside, write-cases,
  read-inside, DataAt-kept, put-elsewhere,
}

-- The log is as it was.
pub record LogKept (s m : ℕ) (d d' : FileDisk) : Type 0 where
  pub size : d'.nblocks ≡ d.nblocks
  pub log : (x : ℕ) → outside s m x ≡ false → d'.blocks x ≡ d.blocks x

pub after-cons :
    (ws : List (ℕ × Block)) (b x : ℕ) (buf : Block) (d : FileDisk)
    → after ws (put_block b buf d).blocks x ≡ after ((b, buf) ∷ ws) d.blocks x
after-cons ws b x buf d = elim (Option-cases (written ws x)) [
  | inl e ↦ rw e (once (x == b))
  | inr (later, e) ↦ rw e
]
  where
    once :
        (t : Bool)
        → (if t then buf else d.blocks x) ≡ or_else (if t then some buf else none) (d.blocks x)
    once true = refl
    once false = refl

-- A crash on the way: writing all entries again gives what it would have given.
after-crashed :
    (ws : List (ℕ × Block)) (b x : ℕ) (buf : Block) (d d' : FileDisk)
    → after ws d'.blocks x ≡ after ws (put_block b buf d).blocks x
    → after ((b, buf) ∷ ws) d'.blocks x ≡ after ((b, buf) ∷ ws) d.blocks x
after-crashed ws b x buf d d' e = again (written ws x) (x == b) buf (d'.blocks x) (d.blocks x) e
  where
    again :
        (w : Option Block) (t : Bool) (buf p q : Block)
        → or_else w p ≡ or_else w (if t then buf else q)
        → let merged = merge w (if t then some buf else none) in or_else merged p ≡ or_else merged q
    again (some later) t buf p q e = refl
    again none true buf p q e = refl
    again none false buf p q e = e

copy-cases :
    (s m i b n : ℕ) (buf : Block) (d : FileDisk)
    → IsLaid s m d.nblocks
    → i + 1 < m
    → b < d.nblocks
    → d.blocks (data_block s i) ≡ buf
    → ((n ≡ 0) × (copy_block s i b n d ≡ crashed d))
      ⊎ ((k : ℕ) × (n ≡ suc k) × (copy_block s i b n d ≡ done tt k (put_block b buf d)))
unfolding copy_block
copy-cases s m i b n buf d l lt hb at =
    let place = data_block-inside s m d.nblocks i l lt in
    let got = read-inside (data_block s i) n d (omega (arith, place, l.on_disk)) in
    elim (write-cases b n buf d hb) [
      | inl (none_left, e) ↦ inl (none_left, rw got (rw at e))
      | inr (k, left, e) ↦ inr (k, left, rw got (rw at e))
    ]

pub put-LogKept :
    (s m b : ℕ) (buf : Block) (d d' : FileDisk)
    → outside s m b ≡ true
    → LogKept s m (put_block b buf d) d'
    → LogKept s m d d'
put-LogKept s m b buf d d' out kept = record {
  size = kept.size;
  log = λ x h. kept.log x h ∙ put-elsewhere x b buf d (λ e. apart (ap (outside s m) e ∙ out) h);
}
  where
    apart : {t : Bool} → t ≡ true → t ≡ false → ⊥
    apart h k = cc

-- Phase 3 writes all entries, or crashes on the way, and leaves the log alone.
pub install_lem :
    (s m i : ℕ) (ws : List (ℕ × Block)) (n : ℕ) (d : FileDisk)
    → IsLaid s m d.nblocks
    → Fits s m d.nblocks ws
    → DataAt s i ws d.blocks
    → i + length ws < m
    → ((d' : FileDisk) × (install s i ws n d ≡ crashed d')
        × (n < length ws)
        × LogKept s m d d'
        × ((x : ℕ) → after ws d'.blocks x ≡ after ws d.blocks x))
      ⊎ ((k : ℕ) × (d' : FileDisk) × (install s i ws n d ≡ done tt k d')
          × (k + length ws ≡ n)
          × LogKept s m d d'
          × ((x : ℕ) → d'.blocks x ≡ after ws d.blocks x))
unfolding install
install_lem s m i [] n d l fits at lt =
    inr (n, d, refl, omega arith, record { size = refl; log = λ x h. refl }, λ x. refl)
install_lem s m i ((b, buf) ∷ ws) n d l (out, hb, fits) (here, at) lt =
    elim (copy-cases s m i b n buf d l (omega arith) hb here) [
      | inl (none_left, e) ↦
          inl (
            d,
            rw e,
            omega (arith, none_left),
            record { size = refl; log = λ x h. refl },
            λ x. refl,
          )
      | inr (k, left, e) ↦
          let d1 = put_block b buf d in
          let at1 =
            DataAt-kept s m d.nblocks (i + 1) ws d.blocks d1.blocks l (omega arith)
              (λ j le lt1.
                put-elsewhere (s + 1 + j) b buf d (λ same. inside_out s m j b lt1 same out))
              at in
          elim (install_lem s m (i + 1) ws k d1 l fits at1 (omega arith)) [
            | inl (d', r, few, kept, same) ↦ inl (
              d',
              rw e r,
              omega (arith, left, few),
              put-LogKept s m b buf d d' out kept,
              λ x. after-crashed ws b x buf d d' (same x),
            )
            | inr (k', d', r, used, kept, same) ↦ inr (
              k',
              d',
              rw e r,
              omega (arith, left, used),
              put-LogKept s m b buf d d' out kept,
              λ x. same x ∙ after-cons ws b x buf d,
            )
          ]
    ]
  where
    inside_out : (s m j b : ℕ) → j + 1 < m → s + 1 + j ≡ b → outside s m b ≡ true → ⊥
    inside_out s m j b lt same out = ground arith

-- The replay of a header that names the entries is phase 3.
pub replay-install :
    (s i : ℕ) (ws : List (ℕ × Block)) (hdr : LogHeader) (n : ℕ) (d : FileDisk)
    → i + length ws ≤ max_log_blocks
    → ((j : ℕ) → j < length ws → hdr.blocks (i + j) ≡ block_numbers ws j)
    → replay s i (length ws) hdr n d ≡ install s i ws n d
unfolding replay install
replay-install s i [] hdr n d le same = refl
replay-install s i ((b, buf) ∷ ws) hdr n d le same =
    let inside : ltb i max_log_blocks ≡ true = ground arith in
    let now : hdr.blocks i ≡ b = ap hdr.blocks (omega arith) ∙ same 0 (omega arith) in
    let rest : (j : ℕ) → j < length ws → hdr.blocks (i + 1 + j) ≡ block_numbers ws j =
      λ j lt. ap hdr.blocks (omega arith) ∙ same (suc j) (omega arith) in
    rw inside (
      rw now (
        ap (λ f. copy_block s i b n d >=> λ _. f)
          (fun_ext
            (λ n'. fun_ext (λ d'. replay-install s (i + 1) ws hdr n' d' (omega arith) rest)))))
