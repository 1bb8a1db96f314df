-- ===== src/FsBasic/RedoLog/Commit.antt =====
-- The commit of the redo log, with a crash at any write (log.rs).
use tg_rcore_tutorial.Prelude.{
  ℕ, zero, suc, ◌+◌, ◌%◌, ◌^◌, ◌<◌, ◌≤◌, ◌≡◌, refl, ◌∙◌, ap, ltb, leb, if◌then◌else◌, Bool-cases,
  true, false, Option-cases, List, [], ◌∷◌, length, is_empty, arith, ◌⊎◌, inl, inr,
}
use tg_rcore_tutorial.Prelude.Map
use tg_rcore_tutorial.Prelude.Map.{Map}
use tg_rcore_tutorial.FsBasic.Disk.{Block, FileDisk, Ran, done, crashed, panicked, put_block}
use tg_rcore_tutorial.FsBasic.Cache
use tg_rcore_tutorial.FsBasic.Cache.{BlockCache}
use tg_rcore_tutorial.FsBasic.Header
use tg_rcore_tutorial.FsBasic.Header.{LogHeader, max_log_blocks, to_bytes, from_bytes}
use tg_rcore_tutorial.FsBasic.Header.Bytes.{from_bytes-to_bytes}
use tg_rcore_tutorial.FsBasic.RedoLog.{
  RedoLog, commit_point, commit_header, block_numbers, update_cache, commit, commit_logged,
  commit_rest, finish, write_header,
}
use tg_rcore_tutorial.FsBasic.RedoLog.Blocks.{
  outside, IsLaid, Fits, DataAt, written, or_else, after, Kept, write-cases, read-inside,
  DataAt-kept, put-elsewhere, put-here, write_data_lem,
}
use tg_rcore_tutorial.FsBasic.RedoLog.Replay.{install_lem}
use tg_rcore_tutorial.FsBasic.RedoLog.Recovery.{
  Clean, Logged, Recovers, clear-Clean, after-again, LogKept-Logged, reboot-Clean, reboot-Logged,
}

pub block_numbers-lt :
    (s m size : ℕ) (ws : List (ℕ × Block)) (i : ℕ)
    → size ≤ 2 ^ 32
    → Fits s m size ws
    → block_numbers ws i < 2 ^ 32
block_numbers-lt s m size [] i le fits = omega arith
block_numbers-lt s m size ((b, buf) ∷ ws) zero le (_, lt, fits) = omega arith
block_numbers-lt s m size ((b, buf) ∷ ws) (suc i) le (_, lt, fits) =
    block_numbers-lt s m size ws i le fits

cache_write-total :
    (b n : ℕ) (buf : Block) (c : BlockCache) (d : FileDisk)
    → b < d.nblocks
    → (old : Block) × (c' : BlockCache) × (Cache.write b buf c n d ≡ done (old, c') n d)
unfolding Cache.write
cache_write-total b n buf c d lt = elim (Option-cases (c b)) [
  | inl e ↦ (
    d.blocks b,
    Map.insert b (record { bytes = buf; dirty = true; pinned = false }) c,
    rw (e, Cache.write) (rw (read-inside b n d lt)),
  )
  | inr (entry, e) ↦ (
    entry.bytes,
    Map.insert b (record entry { bytes = buf; dirty = true }) c,
    rw (e, Cache.write),
  )
]

pub update_cache_lem :
    (s m : ℕ) (ws : List (ℕ × Block)) (c : BlockCache) (n : ℕ) (d : FileDisk)
    → Fits s m d.nblocks ws
    → (c' : BlockCache) × (update_cache ws c n d ≡ done c' n d)
unfolding update_cache
update_cache_lem s m [] c n d fits = (c, refl)
update_cache_lem s m ((b, buf) ∷ ws) c n d (_, lt, fits) =
    let (old, c1, wrote) = cache_write-total b n buf c d lt in
    let (c', ran) = update_cache_lem s m ws c1 n d fits in (c', rw wrote ran)

-- A transaction that may be committed.
pub record IsReady (r : RedoLog) (f : ℕ → Block) (d : FileDisk) : Type 0 where
  pub in_tx : r.in_tx ≡ true
  pub some_entries : 0 < length r.logged_blocks
  pub few : length r.logged_blocks ≤ max_log_blocks
  pub room : length r.logged_blocks < r.log_blocks
  pub fits : Fits r.log_start r.log_blocks d.nblocks r.logged_blocks
  pub clean : Clean r.log_start r.log_blocks f d

-- Nothing outside the log has changed, nor has its header.
pub Kept-Clean :
    (s m : ℕ) (f : ℕ → Block) (d d1 : FileDisk) → Clean s m f d → Kept s m 0 d d1 → Clean s m f d1
Kept-Clean s m f d d1 c kept =
    let header : d1.blocks s ≡ d.blocks s = kept.low s (omega arith) in
    record {
      laid = rw (kept.size) (c.laid);
      no_transaction = rw header (c.no_transaction);
      same = λ x out. kept_outside x out ∙ c.same x out;
    }
  where
    kept_outside : (x : ℕ) → outside s m x ≡ true → d1.blocks x ≡ d.blocks x
    kept_outside x out = elim (Bool-cases (ltb x s)) [
      | inl low ↦ kept.low x (ground (arith, low))
      | inr other ↦ kept.high x (ground (arith, out, other))
    ]

pub commit_point-Logged :
    (s m : ℕ) (ws : List (ℕ × Block)) (f : ℕ → Block) (d1 : FileDisk)
    → 0 < length ws
    → length ws < m
    → length ws ≤ max_log_blocks
    → Clean s m f d1
    → Fits s m d1.nblocks ws
    → DataAt s 0 ws d1.blocks
    → Logged s m ws (after ws f) (put_block s (to_bytes (commit_header ws)) d1)
commit_point-Logged s m ws f d1 some_entries room few c fits at =
    let buf = to_bytes (commit_header ws) in
    let d2 = put_block s buf d1 in
    let word : length ws % 2 ^ 32 ≡ length ws = omega arith in
    let (count, committed, numbers) =
      from_bytes-to_bytes (commit_header ws) (omega arith) (omega arith)
        (λ i lt. block_numbers-lt s m d1.nblocks ws i (c.laid.words) fits) in
    let header : d2.blocks s ≡ buf = put-here s buf d1 in
    record {
      laid = c.laid;
      fits = fits;
      some_entries = some_entries;
      room = room;
      few = few;
      count = rw header (count ∙ word);
      committed = rw header committed;
      numbers = λ j lt. rw header (numbers j (omega arith));
      entries =
          DataAt-kept s m d1.nblocks 0 ws d1.blocks d2.blocks (c.laid) (omega arith)
            (λ j le lt. put-elsewhere (s + 1 + j) s buf d1 (λ e. omega (arith, e))) at;
      same = λ x out. ap (or_else (written ws x)) (
          put-elsewhere x s buf d1 (λ e. ground (arith, e, out, c.laid.some_blocks))
          ∙ c.same x out);
    }

-- How a run of the commit ends: after a crash, with recoveries that may crash too, `k` writes being
-- left for the last one; or with the transaction done.
abbrev pub Ends : RedoLog → (ℕ → Block) → List ℕ → ℕ → Ran (RedoLog × BlockCache) → Type 0
Ends r f ns k run =
    ((d' : FileDisk) × (run ≡ crashed d')
      × (Recovers r ns k f d' ⊎ Recovers r ns k (after r.logged_blocks f) d'))
    ⊎ ((c' : BlockCache) × (n' : ℕ) × (d' : FileDisk) × (run
          ≡ done (record r { in_tx = false; logged_blocks = [] }, c') n' d')
        × Clean r.log_start r.log_blocks (after r.logged_blocks f) d')

finish-Ends :
    (r : RedoLog) (c : BlockCache) (f : ℕ → Block) (n : ℕ) (d : FileDisk) (ns : List ℕ) (k : ℕ)
    → length r.logged_blocks < k
    → Logged r.log_start r.log_blocks r.logged_blocks (after r.logged_blocks f) d
    → Ends r f ns k (finish r c n d)
unfolding finish write_header
finish-Ends r c f n d ns k lt g =
    let s = r.log_start in
    let m = r.log_blocks in
    let ws = r.logged_blocks in
    let later = reboot-Logged r ns k ws (after ws f) in
    elim (install_lem s m 0 ws n d (g.laid) (g.fits) (g.entries) (omega (arith, g.room))) [
      | inl (d1, e, _, kept, same) ↦
          inl (d1, rw e, inr (later d1 lt (LogKept-Logged s m ws (after ws f) d d1 g kept same)))
      | inr (n1, d1, e, _, kept, same) ↦
          let laid1 : IsLaid s m d1.nblocks = rw (kept.size) (g.laid) in
          elim (write-cases s n1 (to_bytes Header.new) d1
            (omega (arith, laid1.on_disk, laid1.some_blocks))) [
              | inl (_, w) ↦ inl (
                d1,
                rw e (rw w),
                inr (
                    later d1 lt (
                      LogKept-Logged s m ws (after ws f) d d1 g kept
                        (λ x. after-again ws x d.blocks d1.blocks (same x)))),
              )
              | inr (n2, _, w) ↦
                  let d2 = put_block s (to_bytes Header.new) d1 in
                  let (c', cached) = update_cache_lem s m ws c n2 d2 (rw (kept.size) (g.fits)) in
                  inr (
                    c',
                    n2,
                    d2,
                    rw e (rw w (rw cached)),
                    clear-Clean s m (after ws f) d1 laid1 (λ x out. same x ∙ g.same x out),
                  )
            ]
    ]

commit_rest-Ends :
    (r : RedoLog) (c : BlockCache) (f : ℕ → Block) (n : ℕ) (d : FileDisk) (ns : List ℕ) (k : ℕ)
    → length r.logged_blocks < k
    → 0 < length r.logged_blocks
    → length r.logged_blocks < r.log_blocks
    → length r.logged_blocks ≤ max_log_blocks
    → Clean r.log_start r.log_blocks f d
    → Fits r.log_start r.log_blocks d.nblocks r.logged_blocks
    → DataAt r.log_start 0 r.logged_blocks d.blocks
    → Ends r f ns k (commit_rest r c n d)
unfolding commit_rest commit_point write_header
commit_rest-Ends r c f n d ns k lt some_entries room few clean fits at =
    let s = r.log_start in
    let ws = r.logged_blocks in
    let buf = to_bytes (commit_header ws) in
    let small : leb (length ws) max_log_blocks ≡ true = ground (arith, few) in
    elim (write-cases s n buf d (omega (arith, clean.laid.on_disk, clean.laid.some_blocks))) [
      | inl (_, w) ↦
          inl (d, rw small (rw w), inl (reboot-Clean r ns k f d (omega (arith, lt)) clean))
      | inr (n1, _, w) ↦
          let g = commit_point-Logged s r.log_blocks ws f d some_entries room few clean fits at in
          rw small (rw w (finish-Ends r c f n1 (put_block s buf d) ns k lt g))
    ]

commit-opens :
    (r : RedoLog) (c : BlockCache) (n : ℕ) (d : FileDisk)
    → r.in_tx ≡ true
    → is_empty r.logged_blocks ≡ false
    → commit r c n d ≡ commit_logged r c n d
unfolding commit
commit-opens r c n d tx busy =
    let quick = done (record r { in_tx = false }, c) n d in
    let logged = commit_logged r c n d in
    ap (λ t. if t then if is_empty r.logged_blocks then quick else logged else panicked) tx
    ∙ ap (λ t. if t then quick else logged) busy

-- The log lies on a disk of at most 2^32 blocks and holds no transaction. A transaction is open
-- with at least one block and at most `MAX_LOG_BLOCKS`, fewer than the log has blocks; they are
-- blocks of the disk outside the log. Wherever a commit crashes, and however often its recovery
-- does before it is given enough writes to finish: the blocks outside the log are those of before
-- the transaction, or those of after it, all of them. A commit that does not crash does not
-- panic, ends the transaction, and leaves the blocks of after it, with no transaction in the log.
pub commit_atomic :
    (r : RedoLog) (c : BlockCache) (f : ℕ → Block) (n : ℕ) (d : FileDisk) (ns : List ℕ) (k : ℕ)
    → IsReady r f d
    → length r.logged_blocks < k
    → Ends r f ns k (commit r c n d)
unfolding commit_logged
commit_atomic r c f n d ns k ready lt =
    let s = r.log_start in
    let m = r.log_blocks in
    let ws = r.logged_blocks in
    let clean = ready.clean in
    let busy : is_empty ws ≡ false = not_empty ws (ready.some_entries) in
    let opened = commit-opens r c n d (ready.in_tx) busy in
    elim (write_data_lem s m 0 ws n d (clean.laid) (omega (arith, ready.room))) [
      | inl (d1, e, kept) ↦ inl (
        d1,
        opened ∙ rw e,
        inl (reboot-Clean r ns k f d1 (omega (arith, lt)) (Kept-Clean s m f d d1 clean kept)),
      )
      | inr (n1, d1, e, kept, at) ↦ rw opened (
          rw e (
            commit_rest-Ends r c f n1 d1 ns k lt (ready.some_entries) (ready.room) (ready.few)
              (Kept-Clean s m f d d1 clean kept) (rw (kept.size) (ready.fits)) at))
    ]
  where
    not_empty : (ws : List (ℕ × Block)) → 0 < length ws → is_empty ws ≡ false
    not_empty [] h = absurd (omega arith)
    not_empty (w ∷ ws) h = refl
