-- ===== src/FsBasic/RedoLog/Write.antt =====
-- What a transaction gathers before its commit (log.rs).
use tg_rcore_tutorial.Prelude.{
  ℕ, ◌+◌, ◌-◌, ◌%◌, ◌^◌, ◌<◌, ◌≤◌, ◌≡◌, refl, ◌∙◌, ap, ◌==◌, ltb, if◌then◌else◌, Bool, Bool-cases,
  true, false, Option, none, some, List, [], ◌∷◌, ◌++◌, length, length-append, ok, panic, ◌>>◌,
  assert, ltb→lt, arith, ◌⊎◌, inl, inr,
}
use native.Mathlib.Decide.{ℕ_discrete}
use tg_rcore_tutorial.FsBasic.Disk.{Block}
use tg_rcore_tutorial.FsBasic.Header.{max_log_blocks}
use tg_rcore_tutorial.FsBasic.RedoLog.{RedoLog, update_entry, put_entry, log_write}
use tg_rcore_tutorial.FsBasic.RedoLog.Blocks.{outside, Fits, merge, written, or_else, after}

-- How many entries a block has.
abbrev pub entries : ℕ → List (ℕ × Block) → ℕ
entries b [] = 0
entries b ((c, _) ∷ ws) = (if b == c then 1 else 0) + entries b ws

-- An open transaction that the log has room for; each block stands in it once.
pub record IsOpen (size : ℕ) (r : RedoLog) : Type 0 where
  pub in_tx : r.in_tx ≡ true
  pub few : length r.logged_blocks ≤ max_log_blocks
  pub room : length r.logged_blocks < r.log_blocks
  pub word : r.log_blocks < 2 ^ 32
  pub fits : Fits r.log_start r.log_blocks size r.logged_blocks
  pub once : (b : ℕ) → entries b r.logged_blocks ≤ 1

unwritten : (b : ℕ) (ws : List (ℕ × Block)) → entries b ws ≡ 0 → written ws b ≡ none
unwritten b [] h = refl
unwritten b ((c, buf) ∷ ws) h =
    let other : (b == c) ≡ false = ground arith in rw (unwritten b ws (omega (arith, h))) (rw other)

merge-if :
    (t : Bool) (buf : Block) (w first : Option Block)
    → merge (if t then some buf else w) first ≡ (if t then some buf else merge w first)
merge-if true buf w first = refl
merge-if false buf w first = refl

replaced :
    (b c x : ℕ) (buf old : Block) (ws : List (ℕ × Block))
    → c ≡ b
    → written ws b ≡ none
    → written ((c, buf) ∷ ws) x ≡ (if x == b then some buf else written ((c, old) ∷ ws) x)
replaced b c x buf old ws same absent = elim (ℕ_discrete x b) [
  | yes e ↦
      let hit : (x == b) ≡ true = ground (arith, e) in
      let hit' : (x == c) ≡ true = ground (arith, e, same) in
      let gone : written ws x ≡ none = ap (written ws) e ∙ absent in rw gone (rw (hit, hit'))
  | no ne ↦
      let miss : (x == b) ≡ false = ground (arith, ne) in
      let miss' : (x == c) ≡ false = ground (arith, ne, same) in
      let skip : (if x == c then some buf else none) ≡ (if x == c then some old else none) =
        rw miss' in
      rw miss (ap (merge (written ws x)) skip)
]

-- An update of the one entry of a block, and nothing else.
record Updated (s m size b : ℕ) (buf : Block) (ws ws' : List (ℕ × Block)) : Type 0 where
  length_kept : length ws' ≡ length ws
  entries_kept : (x : ℕ) → entries x ws' ≡ entries x ws
  fits_kept : Fits s m size ws → Fits s m size ws'
  now : (x : ℕ) → written ws' x ≡ (if x == b then some buf else written ws x)

update_entry_lem :
    (s m size b : ℕ) (buf : Block) (ws : List (ℕ × Block))
    → entries b ws ≤ 1
    → ((update_entry b buf ws ≡ none) × (entries b ws ≡ 0))
      ⊎ ((ws' : List (ℕ × Block)) × (update_entry b buf ws ≡ some ws')
          × Updated s m size b buf ws ws')
unfolding update_entry
update_entry_lem s m size b buf [] h = inl (refl, refl)
update_entry_lem s m size b buf ((c, old) ∷ ws) h = elim (ℕ_discrete c b) [
  | yes same ↦
      let hit : (c == b) ≡ true = ground (arith, same) in
      let none_later : written ws b ≡ none = unwritten b ws (ground (arith, same)) in
      inr (
        (c, buf) ∷ ws,
        rw hit,
        record {
          length_kept = refl;
          entries_kept = λ x. refl;
          fits_kept = λ fits. fits;
          now = λ x. replaced b c x buf old ws same none_later;
        },
      )
  | no ne ↦
      let miss : (c == b) ≡ false = ground (arith, ne) in
      elim (update_entry_lem s m size b buf ws (omega arith)) [
        | inl (e, absent) ↦ inl (rw miss (rw e), ground (arith, ne, absent))
        | inr (ws', e, u) ↦ inr (
          (c, old) ∷ ws',
          rw miss (rw e),
          record {
            length_kept = omega (arith, u.length_kept);
            entries_kept = λ x. omega (arith, u.entries_kept x);
            fits_kept = λ (out, lt, fits). (out, lt, u.fits_kept fits);
            now = λ x.
                ap (λ w. merge w (if x == c then some old else none)) (u.now x)
                ∙ merge-if (x == b) buf (written ws x) (if x == c then some old else none);
          },
        )
      ]
]

pub written-append :
    (b x : ℕ) (buf : Block) (ws : List (ℕ × Block))
    → written (ws ++ (b, buf) ∷ []) x ≡ (if x == b then some buf else written ws x)
written-append b x buf [] = refl
written-append b x buf ((c, old) ∷ ws) =
    ap (λ w. merge w (if x == c then some old else none)) (written-append b x buf ws)
    ∙ merge-if (x == b) buf (written ws x) (if x == c then some old else none)

or_else-if :
    (t : Bool) (buf : Block) (w : Option Block) (old : Block)
    → or_else (if t then some buf else w) old ≡ (if t then buf else or_else w old)
or_else-if true buf w old = refl
or_else-if false buf w old = refl

no_room :
    (n m : ℕ)
    → n < m
    → m < 2 ^ 32
    → ltb (n % 2 ^ 32) ((m + (2 ^ 32 - 1)) % 2 ^ 32) ≡ false
    → n + 1 ≡ m
no_room n m lt word full =
    let small : n % 2 ^ 32 ≡ n = omega arith in
    let less : (m + (2 ^ 32 - 1)) % 2 ^ 32 ≡ m - 1 = omega arith in
    ground (arith, full, small, less)

pub Fits-append :
    (s m size b : ℕ) (buf : Block) (ws : List (ℕ × Block))
    → outside s m b ≡ true
    → b < size
    → Fits s m size ws
    → Fits s m size (ws ++ (b, buf) ∷ [])
Fits-append s m size b buf [] out lt fits = (out, lt, tt)
Fits-append s m size b buf (w ∷ ws) out lt (out', lt', fits) =
    (out', lt', Fits-append s m size b buf ws out lt fits)

entries-append :
    (x b : ℕ) (buf : Block) (ws : List (ℕ × Block))
    → entries x (ws ++ (b, buf) ∷ []) ≡ entries x ws + (if x == b then 1 else 0)
entries-append x b buf [] = omega arith
entries-append x b buf (w ∷ ws) = omega (arith, entries-append x b buf ws)

-- A transaction is open, its blocks are on the disk outside the log, none twice, and fit the log,
-- which has fewer than 2^32 blocks. A write of a block of the disk outside the log panics only
-- where the log is full and the block is new to it. Else the transaction stays open and such, and
-- it will write the given bytes to that block and to the others what it would have written
-- before.
pub log_write_lem :
    (size b : ℕ) (buf : Block) (r : RedoLog)
    → IsOpen size r
    → outside r.log_start r.log_blocks b ≡ true
    → b < size
    → ((log_write b buf r ≡ panic)
        × (entries b r.logged_blocks ≡ 0)
        × ((length r.logged_blocks ≡ max_log_blocks) ⊎ (length r.logged_blocks + 1 ≡ r.log_blocks)))
      ⊎ ((r' : RedoLog) × (log_write b buf r ≡ ok r')
          × IsOpen size r'
          × ((f : ℕ → Block) (x : ℕ)
              → after r'.logged_blocks f x ≡ (if x == b then buf else after r.logged_blocks f x)))
unfolding log_write put_entry
log_write_lem size b buf r o out lt =
    let ws = r.logged_blocks in
    let opened : log_write b buf r ≡ put_entry (update_entry b buf ws) b buf r =
      ap (λ t. assert t >> put_entry (update_entry b buf ws) b buf r) (o.in_tx) in
    elim (update_entry_lem r.log_start r.log_blocks size b buf ws (o.once b)) [
      | inr (ws', e, u) ↦ inr (
        record r { logged_blocks = ws' },
        opened ∙ ap (λ w. put_entry w b buf r) e,
        record {
          in_tx = o.in_tx;
          few = omega (arith, u.length_kept, o.few);
          room = omega (arith, u.length_kept, o.room);
          word = o.word;
          fits = u.fits_kept (o.fits);
          once = λ x. omega (arith, u.entries_kept x, o.once x);
        },
        λ f x. ap (λ w. or_else w (f x)) (u.now x) ∙ or_else-if (x == b) buf (written ws x) (f x),
      )
      | inl (e, absent) ↦
          let pushed = opened ∙ ap (λ w. put_entry w b buf r) e in
          elim (Bool-cases (ltb (length ws) max_log_blocks)) [
            | inr full ↦ inl (pushed ∙ rw full, absent, inl (ground (arith, full, o.few)))
            | inl below ↦
                elim (Bool-cases
                  (ltb (length ws % 2 ^ 32) ((r.log_blocks + (2 ^ 32 - 1)) % 2 ^ 32))) [
                    | inr full ↦ inl (
                      pushed ∙ rw (below, full),
                      absent,
                      inr (no_room (length ws) r.log_blocks (o.room) (o.word) full),
                    )
                    | inl free ↦ inr (
                      record r { logged_blocks = ws ++ (b, buf) ∷ [] },
                      pushed ∙ rw (below, free),
                      record {
                        in_tx = o.in_tx;
                        few = omega (
                          arith,
                          length-append ws ((b, buf) ∷ []),
                          ltb→lt (length ws) max_log_blocks below,
                        );
                        room = omega (
                          arith,
                          length-append ws ((b, buf) ∷ []),
                          ltb→lt _ _ free,
                          o.room,
                          o.word,
                        );
                        word = o.word;
                        fits = Fits-append r.log_start r.log_blocks size b buf ws out lt (o.fits);
                        once = λ x. ground (arith, entries-append x b buf ws, o.once x, absent);
                      },
                      λ f x.
                          ap (λ w. or_else w (f x)) (written-append b x buf ws)
                          ∙ or_else-if (x == b) buf (written ws x) (f x),
                    )
                  ]
          ]
    ]
