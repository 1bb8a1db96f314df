-- ===== src/FsBasic/RedoLog/Recovery.antt =====
-- The recovery, with crashes on the way (log.rs).
use tg_rcore_tutorial.Prelude.{
  ℕ, ◌+◌, ◌<◌, ◌≤◌, ◌≡◌, refl, ◌∙◌, ap, ◌==◌, ◌||◌, Bool, true, false, Option, none, some, List, [],
  ◌∷◌, length, arith, ◌⊎◌, inl, inr,
}
use tg_rcore_tutorial.FsBasic.Disk.{Block, FileDisk, Ran, done, crashed, panicked, put_block}
use tg_rcore_tutorial.FsBasic.Header
use tg_rcore_tutorial.FsBasic.Header.{LogHeader, max_log_blocks, to_bytes, from_bytes}
use tg_rcore_tutorial.FsBasic.Header.Bytes.{from_bytes-to_bytes}
use tg_rcore_tutorial.FsBasic.RedoLog.{
  RedoLog, block_numbers, install, replay, recover, recover_from, read_header, write_header,
}
use tg_rcore_tutorial.FsBasic.RedoLog.Blocks.{
  outside, IsLaid, Fits, DataAt, written, or_else, after, write-cases, read-inside, DataAt-kept,
  put-elsewhere, put-here,
}
use tg_rcore_tutorial.FsBasic.RedoLog.Replay.{LogKept, install_lem, replay-install}

abbrev pub idle : LogHeader → Bool
idle hdr = hdr.count == 0 || hdr.committed == 0

-- No transaction in the log, and `f` in the other blocks.
pub record Clean (s m : ℕ) (f : ℕ → Block) (d : FileDisk) : Type 0 where
  pub laid : IsLaid s m d.nblocks
  pub no_transaction : idle (from_bytes (d.blocks s)) ≡ true
  pub same : (x : ℕ) → outside s m x ≡ true → d.blocks x ≡ f x

-- A committed transaction in the log, with which the other blocks become `f`.
pub record Logged (s m : ℕ) (ws : List (ℕ × Block)) (f : ℕ → Block) (d : FileDisk) : Type 0 where
  pub laid : IsLaid s m d.nblocks
  pub fits : Fits s m d.nblocks ws
  pub some_entries : 0 < length ws
  pub room : length ws < m
  pub few : length ws ≤ max_log_blocks
  pub count : (from_bytes (d.blocks s)).count ≡ length ws
  pub committed : (from_bytes (d.blocks s)).committed ≡ 1
  pub numbers : (j : ℕ) → j < length ws → (from_bytes (d.blocks s)).blocks j ≡ block_numbers ws j
  pub entries : DataAt s 0 ws d.blocks
  pub same : (x : ℕ) → outside s m x ≡ true → after ws d.blocks x ≡ f x

pub new-idle : idle (from_bytes (to_bytes Header.new)) ≡ true
unfolding Header.new
new-idle =
    let (count, _, _) =
      from_bytes-to_bytes Header.new (omega arith) (omega arith) (λ i lt. omega arith) in
    ground (arith, count)

-- Clearing the header.
pub clear-Clean :
    (s m : ℕ) (f : ℕ → Block) (d : FileDisk)
    → IsLaid s m d.nblocks
    → ((x : ℕ) → outside s m x ≡ true → d.blocks x ≡ f x)
    → Clean s m f (put_block s (to_bytes Header.new) d)
clear-Clean s m f d l same = record {
  laid = l;
  no_transaction = ap (λ b. idle (from_bytes b)) (put-here s (to_bytes Header.new) d) ∙ new-idle;
  same = λ x out.
      put-elsewhere x s (to_bytes Header.new) d (λ e. ground (arith, e, l.some_blocks))
      ∙ same x out;
}

recover-Clean :
    (r : RedoLog) (f : ℕ → Block) (n : ℕ) (d : FileDisk)
    → Clean r.log_start r.log_blocks f d
    → ((n ≡ 0) × (recover r n d ≡ crashed d))
      ⊎ ((k : ℕ) × (d' : FileDisk) × (recover r n d ≡ done tt k d')
          × Clean r.log_start r.log_blocks f d')
unfolding recover recover_from read_header write_header
recover-Clean r f n d c =
    let s = r.log_start in
    let inside : s < d.nblocks = omega (arith, c.laid.on_disk, c.laid.some_blocks) in
    let got = read-inside s n d inside in
    elim (write-cases s n (to_bytes Header.new) d inside) [
      | inl (none_left, e) ↦ inl (none_left, rw got (rw (c.no_transaction) e))
      | inr (k, _, e) ↦ inr (
        k,
        put_block s (to_bytes Header.new) d,
        rw got (rw (c.no_transaction) e),
        clear-Clean s r.log_blocks f d (c.laid) (c.same),
      )
    ]

pub after-again :
    (ws : List (ℕ × Block)) (x : ℕ) (f g : ℕ → Block)
    → g x ≡ after ws f x
    → after ws g x ≡ after ws f x
after-again ws x f g e = again (written ws x) (f x) (g x) e
  where
    again : (w : Option Block) (p q : Block) → q ≡ or_else w p → or_else w q ≡ or_else w p
    again none p q e = e
    again (some later) p q e = refl

pub LogKept-Logged :
    (s m : ℕ) (ws : List (ℕ × Block)) (f : ℕ → Block) (d d' : FileDisk)
    → Logged s m ws f d
    → LogKept s m d d'
    → ((x : ℕ) → after ws d'.blocks x ≡ after ws d.blocks x)
    → Logged s m ws f d'
LogKept-Logged s m ws f d d' g kept same =
    let header : d'.blocks s ≡ d.blocks s = kept.log s (ground (arith, g.laid.some_blocks)) in
    record {
      laid = rw (kept.size) (g.laid);
      fits = rw (kept.size) (g.fits);
      some_entries = g.some_entries;
      room = g.room;
      few = g.few;
      count = rw header (g.count);
      committed = rw header (g.committed);
      numbers = rw header (g.numbers);
      entries =
          DataAt-kept s m d.nblocks 0 ws d.blocks d'.blocks (g.laid) (omega (arith, g.room))
            (λ j le lt. kept.log (s + 1 + j) (ground arith)) (g.entries);
      same = λ x out. same x ∙ g.same x out;
    }

recover-Logged :
    (r : RedoLog) (ws : List (ℕ × Block)) (f : ℕ → Block) (n : ℕ) (d : FileDisk)
    → Logged r.log_start r.log_blocks ws f d
    → ((d' : FileDisk) × (n ≤ length ws)
        × (recover r n d ≡ crashed d')
        × Logged r.log_start r.log_blocks ws f d')
      ⊎ ((k : ℕ) × (d' : FileDisk) × (recover r n d ≡ done tt k d')
          × Clean r.log_start r.log_blocks f d')
unfolding recover recover_from read_header write_header
recover-Logged r ws f n d g =
    let s = r.log_start in
    let hdr = from_bytes (d.blocks s) in
    let inside : s < d.nblocks = omega (arith, g.laid.on_disk, g.laid.some_blocks) in
    let got = read-inside s n d inside in
    let busy : idle hdr ≡ false = ground (arith, g.count, g.some_entries, g.committed) in
    let replayed : replay s 0 hdr.count hdr n d ≡ install s 0 ws n d =
      ap (λ c. replay s 0 c hdr n d) (g.count)
      ∙ replay-install s 0 ws hdr n d (omega (arith, g.few))
          (λ j lt. ap hdr.blocks (omega arith) ∙ g.numbers j lt) in
    elim (install_lem s r.log_blocks 0 ws n d (g.laid) (g.fits) (g.entries)
      (omega (arith, g.room))) [
        | inl (d1, e, few, kept, same) ↦ inl (
          d1,
          omega (arith, few),
          rw got (rw busy (rw (replayed ∙ e))),
          LogKept-Logged s r.log_blocks ws f d d1 g kept same,
        )
        | inr (k, d1, e, used, kept, same) ↦
            let inside1 : s < d1.nblocks = omega (arith, kept.size, inside) in
            elim (write-cases s k (to_bytes Header.new) d1 inside1) [
              | inl (none_left, w) ↦ inl (
                d1,
                omega (arith, used, none_left),
                rw got (rw busy (rw (replayed ∙ e) w)),
                LogKept-Logged s r.log_blocks ws f d d1 g kept
                    (λ x. after-again ws x d.blocks d1.blocks (same x)),
              )
              | inr (k', _, w) ↦ inr (
                k',
                put_block s (to_bytes Header.new) d1,
                rw got (rw busy (rw (replayed ∙ e) w)),
                clear-Clean s r.log_blocks f d1 (rw (kept.size) (g.laid))
                    (λ x out. same x ∙ g.same x out),
              )
            ]
      ]

-- A recovery after each crash: `ns` are the numbers of writes until the next one, `n` that of the
-- last attempt.
unfoldable pub reboot : RedoLog → List ℕ → ℕ → FileDisk → Ran (Unit {0})
reboot r [] n d = recover r n d
reboot r (m ∷ ns) n d = elim (recover r m d) [
  | done _ k d' ↦ done tt k d'
  | crashed d' ↦ reboot r ns n d'
  | panicked ↦ panicked
]

-- The recovery ends with these blocks outside the log.
abbrev pub Recovers : RedoLog → List ℕ → ℕ → (ℕ → Block) → FileDisk → Type 0
Recovers r ns n f d =
    (k : ℕ) × (d' : FileDisk) × (reboot r ns n d ≡ done tt k d')
    × Clean r.log_start r.log_blocks f d'

pub reboot-Clean :
    (r : RedoLog) (ns : List ℕ) (n : ℕ) (f : ℕ → Block) (d : FileDisk)
    → 0 < n
    → Clean r.log_start r.log_blocks f d
    → Recovers r ns n f d
unfolding reboot
reboot-Clean r [] n f d lt c = elim (recover-Clean r f n d c) [
  | inl (none_left, _) ↦ absurd (omega (arith, none_left))
  | inr done_now ↦ done_now
]
reboot-Clean r (m ∷ ns) n f d lt c = elim (recover-Clean r f m d c) [
  | inl (_, e) ↦
      let (k, d', ran, end) = reboot-Clean r ns n f d lt c in (k, d', rw (e, reboot) ran, end)
  | inr (k, d', e, end) ↦ (k, d', rw (e, reboot), end)
]

pub reboot-Logged :
    (r : RedoLog) (ns : List ℕ) (n : ℕ) (ws : List (ℕ × Block)) (f : ℕ → Block) (d : FileDisk)
    → length ws < n
    → Logged r.log_start r.log_blocks ws f d
    → Recovers r ns n f d
unfolding reboot
reboot-Logged r [] n ws f d lt g = elim (recover-Logged r ws f n d g) [
  | inl (_, few, _, _) ↦ absurd (omega (arith, few))
  | inr done_now ↦ done_now
]
reboot-Logged r (m ∷ ns) n ws f d lt g = elim (recover-Logged r ws f m d g) [
  | inl (d1, _, e, g1) ↦
      let (k, d', ran, end) = reboot-Logged r ns n ws f d1 lt g1 in (k, d', rw (e, reboot) ran, end)
  | inr (k, d', e, end) ↦ (k, d', rw (e, reboot), end)
]
