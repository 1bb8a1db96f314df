-- ===== src/Signal/SignalImpl/Fetch.antt =====
-- Which signal is taken next (tg-rcore-tutorial-signal-impl/src/lib.rs).
use tg_rcore_tutorial.Prelude.{
  ℕ, ◌<◌, ◌≡◌, ◌==◌, Bool, true, false, none, some, arith, ◌⊎◌, inl, inr, not, ◌&&◌,
}
use tg_rcore_tutorial.Signal.Defs.{signal_from}
use tg_rcore_tutorial.Signal.SignalSet.{SignalSet, remove_bit}
use tg_rcore_tutorial.Signal.SignalSet.Members.{
  has, IsWord, remove_bit-has, remove_bit-IsWord, find_first_one_lem,
}
use tg_rcore_tutorial.Signal.SignalImpl.{SignalImpl, fetch_signal}

-- Pending, and not masked.
abbrev pub ready : ℕ → SignalImpl → Bool
ready k s = has k s.received && not (has k s.mask)

pub record IsValid (s : SignalImpl) : Type 0 where
  pub received_word : IsWord s.received
  pub mask_word : IsWord s.mask

-- The signal with the least number of those that are ready is taken, and it alone is pending no
-- more; or none is ready and nothing changes.
pub fetch_signal_lem :
    (s : SignalImpl)
    → IsValid s
    → ((fetch_signal s ≡ (none, s)) × ((k : ℕ) → k < 64 → ready k s ≡ false))
      ⊎ ((k : ℕ) × (r : SignalSet) × (fetch_signal s ≡ (some k, record s { received = r }))
          × (k < 64)
          × (ready k s ≡ true)
          × ((j : ℕ) → j < k → ready j s ≡ false)
          × ((j : ℕ) → j < 64 → has j r ≡ not (j == k) && has j s.received)
          × IsWord r)
unfolding fetch_signal signal_from
fetch_signal_lem s v = elim (find_first_one_lem s.mask s.received (v.mask_word)) [
  | inl (e, masked) ↦ inl (rw (e, fetch_signal), masked)
  | inr (k, e, lt, mine, free, lower) ↦
      let number : signal_from k ≡ k = ground arith in
      inr (
        k,
        remove_bit k s.received,
        rw (e, fetch_signal) (rw number),
        lt,
        rw (mine, free),
        lower,
        λ j h. remove_bit-has j k s.received h lt,
        remove_bit-IsWord k s.received (v.received_word),
      )
]
