-- ===== src/FsBasic/UndoLog/Commit.antt =====
-- The commit of the undo log, with a crash at any write (log.rs).
use tg_rcore_tutorial.Prelude.{
  ℕ, ◌<◌, ◌≤◌, ◌≡◌, refl, sym, ◌∙◌, ap, leb, if◌then◌else◌, true, false, List, [], ◌∷◌, length,
  is_empty, arith, ◌⊎◌, inl, inr,
}
use tg_rcore_tutorial.FsBasic.Disk.{Block, FileDisk, Ran, done, crashed, panicked, put_block}
use tg_rcore_tutorial.FsBasic.Cache.{BlockCache}
use tg_rcore_tutorial.FsBasic.Header
use tg_rcore_tutorial.FsBasic.Header.{max_log_blocks, to_bytes}
use tg_rcore_tutorial.FsBasic.RedoLog.{RedoLog, commit_point, commit_header, write_header}
use tg_rcore_tutorial.FsBasic.RedoLog.Blocks.{
  outside, IsLaid, Fits, DataAt, written, or_else, after, write-cases, put-elsewhere,
  write_data_lem,
}
use tg_rcore_tutorial.FsBasic.RedoLog.Recovery.{
  Clean, Logged, Recovers, clear-Clean, LogKept-Logged, reboot-Clean, reboot-Logged,
}
use tg_rcore_tutorial.FsBasic.RedoLog.Commit.{update_cache_lem, Kept-Clean, commit_point-Logged}
use tg_rcore_tutorial.FsBasic.UndoLog.{
  UndoLog, finish, commit_rest, commit_origins, commit_logged, commit,
}
use tg_rcore_tutorial.FsBasic.UndoLog.Rollback.{Covers, unique_origins_lem, write_new_lem}

-- The same transaction, for blocks that agree outside the log.
Logged-target :
    (s m : ℕ) (ws : List (ℕ × Block)) (f g : ℕ → Block) (d : FileDisk)
    → Logged s m ws g d
    → ((x : ℕ) → outside s m x ≡ true → g x ≡ f x)
    → Logged s m ws f d
Logged-target s m ws f g d l agree = record {
  laid = l.laid;
  fits = l.fits;
  some_entries = l.some_entries;
  room = l.room;
  few = l.few;
  count = l.count;
  committed = l.committed;
  numbers = l.numbers;
  entries = l.entries;
  same = λ x out. l.same x out ∙ agree x out;
}

-- A transaction that may be committed.
pub record IsReady (u : UndoLog) (f : ℕ → Block) (d : FileDisk) : Type 0 where
  pub in_tx : u.in_tx ≡ true
  pub some_entries : 0 < length u.new_blocks
  pub few : length u.new_blocks ≤ max_log_blocks
  pub room : length u.new_blocks < u.log_blocks
  pub fits : Fits u.log_start u.log_blocks d.nblocks u.new_blocks
  pub clean : Clean u.log_start u.log_blocks f d

-- The recovery, which is that of the redo log.
abbrev pub recovery : UndoLog → RedoLog
recovery u = record {
  log_start = u.log_start;
  log_blocks = u.log_blocks;
  in_tx = false;
  logged_blocks = [];
}

-- How a run of the commit ends: after a crash, with recoveries that may crash too, `k` writes being
-- left for the last one; or with the transaction done.
abbrev pub Ends : UndoLog → (ℕ → Block) → List ℕ → ℕ → Ran (UndoLog × BlockCache) → Type 0
Ends u f ns k run =
    ((d' : FileDisk) × (run ≡ crashed d') × Recovers (recovery u) ns k f d')
    ⊎ ((c' : BlockCache) × (n' : ℕ) × (d' : FileDisk) × (run
          ≡ done (record u { in_tx = false; original_blocks = []; new_blocks = [] }, c') n' d')
        × Clean u.log_start u.log_blocks (after u.new_blocks f) d')

finish-Ends :
    (u : UndoLog) (os : List (ℕ × Block)) (c : BlockCache) (f : ℕ → Block) (n : ℕ) (d : FileDisk)
    (ns : List ℕ) (k : ℕ)
    → length os < k
    → Logged u.log_start u.log_blocks os f d
    → Fits u.log_start u.log_blocks d.nblocks u.new_blocks
    → Covers os u.new_blocks
    → ((x : ℕ) → outside u.log_start u.log_blocks x ≡ true → d.blocks x ≡ f x)
    → Ends u f ns k (finish u c n d)
unfolding finish write_header
finish-Ends u os c f n d ns k lt g fits covers now =
    let s = u.log_start in
    let m = u.log_blocks in
    let ws = u.new_blocks in
    let later = reboot-Logged (recovery u) ns k os f in
    elim (write_new_lem s m os ws n d fits covers) [
      | inl (d1, e, kept, same) ↦
          inl (d1, rw e, later d1 lt (LogKept-Logged s m os f d d1 g kept same))
      | inr (n1, d1, e, kept, same, made) ↦
          let laid1 : IsLaid s m d1.nblocks = rw (kept.size) (g.laid) in
          elim (write-cases s n1 (to_bytes Header.new) d1
            (omega (arith, laid1.on_disk, laid1.some_blocks))) [
              | inl (_, w) ↦
                  inl (d1, rw e (rw w), later d1 lt (LogKept-Logged s m os f d d1 g kept same))
              | inr (n2, _, w) ↦
                  let d2 = put_block s (to_bytes Header.new) d1 in
                  let (c', cached) = update_cache_lem s m ws c n2 d2 (rw (kept.size) fits) in
                  inr (
                    c',
                    n2,
                    d2,
                    rw e (rw w (rw cached)),
                    clear-Clean s m (after ws f) d1 laid1
                        (λ x out. made x ∙ ap (or_else (written ws x)) (now x out)),
                  )
            ]
    ]

commit_rest-Ends :
    (u : UndoLog) (os : List (ℕ × Block)) (c : BlockCache) (f : ℕ → Block) (n : ℕ) (d : FileDisk)
    (ns : List ℕ) (k : ℕ)
    → length os < k
    → 0 < length os
    → length os < u.log_blocks
    → length os ≤ max_log_blocks
    → Clean u.log_start u.log_blocks f d
    → Fits u.log_start u.log_blocks d.nblocks os
    → Fits u.log_start u.log_blocks d.nblocks u.new_blocks
    → Covers os u.new_blocks
    → ((x : ℕ) → outside u.log_start u.log_blocks x ≡ true → after os f x ≡ f x)
    → DataAt u.log_start 0 os d.blocks
    → Ends u f ns k (commit_rest os u c n d)
unfolding commit_rest commit_point write_header
commit_rest-Ends u os c f n d ns k lt some_entries room few clean fits fits' covers saved at =
    let s = u.log_start in
    let m = u.log_blocks in
    let buf = to_bytes (commit_header os) in
    let small : leb (length os) max_log_blocks ≡ true = ground (arith, few) in
    elim (write-cases s n buf d (omega (arith, clean.laid.on_disk, clean.laid.some_blocks))) [
      | inl (_, w) ↦
          inl (d, rw small (rw w), reboot-Clean (recovery u) ns k f d (omega (arith, lt)) clean)
      | inr (n1, _, w) ↦
          let g = commit_point-Logged s m os f d some_entries room few clean fits at in
          let g' = Logged-target s m os f (after os f) (put_block s buf d) g saved in
          rw small (
            rw w (
              finish-Ends u os c f n1 (put_block s buf d) ns k lt g' fits' covers (λ x out.
                put-elsewhere x s buf d (λ e. ground (arith, e, out, clean.laid.some_blocks))
                ∙ clean.same x out)))
    ]

commit-opens :
    (u : UndoLog) (c : BlockCache) (n : ℕ) (d : FileDisk)
    → u.in_tx ≡ true
    → 0 < length u.new_blocks
    → commit u c n d ≡ commit_logged u c n d
unfolding commit
commit-opens u c n d tx some_entries =
    let quick = done (record u { in_tx = false }, c) n d in
    let logged = commit_logged u c n d in
    ap (λ t. if t then if is_empty u.new_blocks then quick else logged else panicked) tx
    ∙ ap (λ t. if t then quick else logged) (not_empty u.new_blocks some_entries)
  where
    not_empty : (ws : List (ℕ × Block)) → 0 < length ws → is_empty ws ≡ false
    not_empty [] h = absurd (omega arith)
    not_empty (w ∷ ws) h = refl

-- The log lies on a disk of at most 2^32 blocks and holds no transaction. A transaction is open
-- with at least one block and at most `MAX_LOG_BLOCKS`, fewer than the log has blocks; they are
-- blocks of the disk outside the log. Wherever a commit crashes, and however often its recovery
-- does before it is given enough writes to finish: the blocks outside the log are those of before
-- the transaction. A commit that does not crash does not panic, ends the transaction, and leaves
-- all of its blocks written, with no transaction in the log.
pub commit_rolls_back :
    (u : UndoLog) (c : BlockCache) (f : ℕ → Block) (n : ℕ) (d : FileDisk) (ns : List ℕ) (k : ℕ)
    → IsReady u f d
    → length u.new_blocks < k
    → Ends u f ns k (commit u c n d)
unfolding commit_logged commit_origins
commit_rolls_back u c f n d ns k ready lt =
    let s = u.log_start in
    let m = u.log_blocks in
    let ws = u.new_blocks in
    let clean = ready.clean in
    let opened = commit-opens u c n d (ready.in_tx) (ready.some_entries) in
    let (os, e, found) = unique_origins_lem s m n [] ws d (ready.fits) tt (λ x. refl) in
    let some_origins = covers_some os ws (found.covers) (ready.some_entries) in
    let saved : (x : ℕ) → outside s m x ≡ true → after os f x ≡ f x = λ x out.
      ap (or_else (written os x)) (sym (clean.same x out)) ∙ found.saves x ∙ clean.same x out in
    let short : length os ≤ length ws = omega (arith, found.most) in
    elim (write_data_lem s m 0 os n d (clean.laid) (omega (arith, short, ready.room))) [
      | inl (d1, w, kept) ↦ inl (
        d1,
        opened ∙ rw e (rw w),
        reboot-Clean (recovery u) ns k f d1 (omega (arith, lt)) (Kept-Clean s m f d d1 clean kept),
      )
      | inr (n1, d1, w, kept, at) ↦ rw opened (
          rw e (
            rw w (
              commit_rest-Ends u os c f n1 d1 ns k (omega (arith, short, lt)) some_origins
                (omega (arith, short, ready.room)) (omega (arith, short, ready.few))
                (Kept-Clean s m f d d1 clean kept) (rw (kept.size) (found.fits))
                (rw (kept.size) (ready.fits)) (found.covers) saved at)))
    ]
  where
    covers_some : (os ws : List (ℕ × Block)) → Covers os ws → 0 < length ws → 0 < length os
    covers_some (o ∷ os) ws covers h = omega arith
    covers_some [] [] covers h = absurd (omega arith)
    covers_some [] ((b, buf) ∷ ws) (none_there, _) h = cc
