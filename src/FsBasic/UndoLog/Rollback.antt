-- ===== src/FsBasic/UndoLog/Rollback.antt =====
-- The originals that a transaction of the undo log saves (log.rs).
use tg_rcore_tutorial.Prelude.{
  ℕ, ◌+◌, ◌≤◌, ◌≡◌, refl, sym, ◌∙◌, ap, ◌==◌, if◌then◌else◌, Bool, Bool-cases, true, false, Option,
  Option-cases, some, is_some, IsSome-value, List, [], ◌∷◌, ◌++◌, length, length-append, arith, ◌⊎◌,
  inl, inr,
}
use native.Mathlib.Decide.{ℕ_discrete}
use tg_rcore_tutorial.FsBasic.Disk.{Block, FileDisk, done, crashed, put_block}
use tg_rcore_tutorial.FsBasic.RedoLog.Blocks.{
  Fits, written, or_else, after, write-cases, read-inside, put-elsewhere,
}
use tg_rcore_tutorial.FsBasic.RedoLog.Replay.{LogKept, after-cons, put-LogKept}
use tg_rcore_tutorial.FsBasic.RedoLog.Write.{written-append, Fits-append}
use tg_rcore_tutorial.FsBasic.UndoLog.{any_entry, unique_origins, write_new}

-- Entries that hold what the blocks hold.
abbrev pub Saves : List (ℕ × Block) → (ℕ → Block) → Type 0
Saves os g = (x : ℕ) → after os g x ≡ g x

-- Every block of `ws` has an entry.
abbrev pub Covers : List (ℕ × Block) → List (ℕ × Block) → Type 0
Covers os [] = Unit {0}
Covers os ((b, _) ∷ ws) = (is_some (written os b) ≡ true) × Covers os ws

any_entry-written :
    (b : ℕ) (os : List (ℕ × Block)) → any_entry b os ≡ true → is_some (written os b) ≡ true
any_entry-written b [] h = cc
any_entry-written b ((c, buf) ∷ os) h = elim (Option-cases (written os b)) [
  | inr (later, e) ↦ rw e
  | inl e ↦ elim (Bool-cases (any_entry b os)) [
    | inl found ↦ absurd (ground (arith, any_entry-written b os found, e))
    | inr other ↦ let same : (b == c) ≡ true = ground (arith, h, other) in rw e (rw same)
  ]
]

Saves-append :
    (b : ℕ) (os : List (ℕ × Block)) (g : ℕ → Block) → Saves os g → Saves (os ++ (b, g b) ∷ []) g
Saves-append b os g saves x =
    let pushed = ap (λ w. or_else w (g x)) (written-append b x (g b) os) in
    elim (ℕ_discrete x b) [
      | yes e ↦ let hit : (x == b) ≡ true = ground (arith, e) in pushed ∙ rw hit (ap g (sym e))
      | no ne ↦ let miss : (x == b) ≡ false = ground (arith, ne) in pushed ∙ rw miss (saves x)
    ]

-- What phase 1 finds.
pub record Found (s m : ℕ) (acc ws os : List (ℕ × Block)) (d : FileDisk) : Type 0 where
  pub saves : Saves os d.blocks
  pub covers : Covers os ws
  pub older : (x : ℕ) → is_some (written acc x) ≡ true → is_some (written os x) ≡ true
  pub fits : Fits s m d.nblocks os
  pub most : length os ≤ length acc + length ws
  pub least : length acc ≤ length os

pub unique_origins_lem :
    (s m n : ℕ) (acc ws : List (ℕ × Block)) (d : FileDisk)
    → Fits s m d.nblocks ws
    → Fits s m d.nblocks acc
    → Saves acc d.blocks
    → (os : List (ℕ × Block)) × (unique_origins acc ws n d ≡ done os n d) × Found s m acc ws os d
unfolding unique_origins
unique_origins_lem s m n acc [] d fits fa saves = (
  acc,
  refl,
  record {
    saves = saves;
    covers = tt;
    older = λ x h. h;
    fits = fa;
    most = omega arith;
    least = omega arith;
  },
)
unique_origins_lem s m n acc ((b, buf) ∷ ws) d (out, lt, fits) fa saves =
    elim (Bool-cases (any_entry b acc)) [
      | inl known ↦
          let (os, e, found) = unique_origins_lem s m n acc ws d fits fa saves in
          (
            os,
            rw known e,
            record {
              saves = found.saves;
              covers = (found.older b (any_entry-written b acc known), found.covers);
              older = found.older;
              fits = found.fits;
              most = omega (arith, found.most);
              least = found.least;
            },
          )
      | inr fresh ↦
          let acc' = acc ++ (b, d.blocks b) ∷ [] in
          let (os, e, found) =
            unique_origins_lem s m n acc' ws d fits
              (Fits-append s m d.nblocks b (d.blocks b) acc out lt fa)
              (Saves-append b acc d.blocks saves) in
          (
            os,
            rw fresh (rw (read-inside b n d lt) e),
            record {
              saves = found.saves;
              covers = (
                found.older b (rw (written-append b b (d.blocks b) acc) (ground arith)),
                found.covers,
              );
              older = λ x h. found.older x (
                  rw (written-append b x (d.blocks b) acc)
                    (either (x == b) (d.blocks b) (written acc x) h));
              fits = found.fits;
              most = omega (arith, found.most, length-append acc ((b, d.blocks b) ∷ []));
              least = omega (arith, found.least, length-append acc ((b, d.blocks b) ∷ []));
            },
          )
    ]
  where
    either :
        (t : Bool) (buf : Block) (w : Option Block)
        → is_some w ≡ true
        → is_some (if t then some buf else w) ≡ true
    either true buf w h = refl
    either false buf w h = h

-- Phase 3 touches only blocks whose originals are saved.
pub write_new_lem :
    (s m : ℕ) (os ws : List (ℕ × Block)) (n : ℕ) (d : FileDisk)
    → Fits s m d.nblocks ws
    → Covers os ws
    → ((d' : FileDisk) × (write_new ws n d ≡ crashed d')
        × LogKept s m d d'
        × ((x : ℕ) → after os d'.blocks x ≡ after os d.blocks x))
      ⊎ ((k : ℕ) × (d' : FileDisk) × (write_new ws n d ≡ done tt k d')
          × LogKept s m d d'
          × ((x : ℕ) → after os d'.blocks x ≡ after os d.blocks x)
          × ((x : ℕ) → d'.blocks x ≡ after ws d.blocks x))
unfolding write_new
write_new_lem s m os [] n d fits covers =
    inr (n, d, refl, record { size = refl; log = λ x h. refl }, λ x. refl, λ x. refl)
write_new_lem s m os ((b, buf) ∷ ws) n d (out, lt, fits) (here, covers) =
    elim (write-cases b n buf d lt) [
      | inl (_, e) ↦ inl (d, rw e, record { size = refl; log = λ x h. refl }, λ x. refl)
      | inr (k, _, e) ↦
          let d1 = put_block b buf d in
          elim (write_new_lem s m os ws k d1 fits covers) [
            | inl (d', r, kept, same) ↦ inl (
              d',
              rw e r,
              put-LogKept s m b buf d d' out kept,
              λ x. same x ∙ saved x b buf os d here,
            )
            | inr (k', d', r, kept, same, now) ↦ inr (
              k',
              d',
              rw e r,
              put-LogKept s m b buf d d' out kept,
              λ x. same x ∙ saved x b buf os d here,
              λ x. now x ∙ after-cons ws b x buf d,
            )
          ]
    ]
  where
    saved :
        (x b : ℕ) (buf : Block) (os : List (ℕ × Block)) (d : FileDisk)
        → is_some (written os b) ≡ true
        → after os (put_block b buf d).blocks x ≡ after os d.blocks x
    saved x b buf os d here = elim (ℕ_discrete x b) [
      | yes e ↦ let (v, p) = IsSome-value (written os x) (rw e here) in rw p
      | no ne ↦ ap (or_else (written os x)) (put-elsewhere x b buf d ne)
    ]
