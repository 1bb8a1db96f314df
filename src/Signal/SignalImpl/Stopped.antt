-- ===== src/Signal/SignalImpl/Stopped.antt =====
-- A process that is stopped, and signals that are masked (tg-rcore-tutorial-signal-impl/src/lib.rs).
use tg_rcore_tutorial.Prelude.{
  ℕ, ◌<◌, ◌≡◌, refl, ◌∙◌, ap, ◌==◌, Bool, true, false, none, some, List, [], ◌∷◌, contains, ok,
  arith, inl, inr, not, ◌&&◌, ◌||◌,
}
use native.Mathlib.Decide.{ℕ_discrete}
use tg_rcore_tutorial.Signal.Defs.{
  SignalNo, sigkill, sigcont, handled, process_suspended, no_signal,
}
use tg_rcore_tutorial.Signal.Context.{LocalContext}
use tg_rcore_tutorial.Signal.SignalSet.{contain_bit, add_bit, remove_bit}
use tg_rcore_tutorial.Signal.SignalSet.Members.{
  has, contain_bit_lem, add_bit-has, add_bit-IsWord, remove_bit-has,
}
use tg_rcore_tutorial.Signal.SignalImpl.{
  SignalImpl, frozen, fetch_and_remove, handle_signals, handle_from, after_fetch, while_handling,
  add_signal,
}
use tg_rcore_tutorial.Signal.SignalImpl.Fetch.{ready, IsValid, fetch_signal_lem}
use tg_rcore_tutorial.Signal.SignalImpl.Deliver.{add_all}

pub data AllNumbers : List SignalNo → Type 0 where
  none_left : AllNumbers []
  number : (k : SignalNo) (ks : List SignalNo) → k < 64 → AllNumbers ks → AllNumbers (k ∷ ks)

-- Arrivals change the pending signals only, by those that arrive.
record Arrived (ks : List SignalNo) (s s' : SignalImpl) : Type 0 where
  handling_kept : s'.handling ≡ s.handling
  mask_kept : s'.mask ≡ s.mask
  members : (j : ℕ) → has j s'.received ≡ contains ks j || has j s.received

add_all_lem : (ks : List SignalNo) (s : SignalImpl) → AllNumbers ks → Arrived ks s (add_all ks s)
unfolding add_all add_signal
add_all_lem [] s _ = record { handling_kept = refl; mask_kept = refl; members = λ j. refl }
add_all_lem (k ∷ ks) s (number _ _ lt rest) =
    let more = add_all_lem ks (add_signal k s) rest in
    record {
      handling_kept = more.handling_kept;
      mask_kept = more.mask_kept;
      members = λ j. ground (arith, more.members j, add_bit-has j k s.received lt);
    }

frozen-waits :
    (s : SignalImpl) (ctx : LocalContext)
    → s.handling ≡ some frozen
    → ready sigcont s ≡ false
    → handle_signals s ctx ≡ ok (process_suspended, s, ctx)
unfolding handle_signals handle_from while_handling fetch_and_remove
frozen-waits s ctx h quiet =
    let closed : contain_bit s.received sigcont && not (contain_bit s.mask sigcont) ≡ false =
      rw
        (
          contain_bit_lem sigcont s.received (omega arith),
          contain_bit_lem sigcont s.mask (omega arith),
        )
        quiet in
    ap (λ o. handle_from o s ctx) h ∙ rw closed

frozen-goes_on :
    (s : SignalImpl) (ctx : LocalContext)
    → s.handling ≡ some frozen
    → ready sigcont s ≡ true
    → handle_signals s ctx
      ≡ ok (handled, record s { received = remove_bit sigcont s.received; handling = none }, ctx)
unfolding handle_signals handle_from while_handling fetch_and_remove
frozen-goes_on s ctx h here =
    let opened : contain_bit s.received sigcont && not (contain_bit s.mask sigcont) ≡ true =
      rw
        (
          contain_bit_lem sigcont s.received (omega arith),
          contain_bit_lem sigcont s.mask (omega arith),
        )
        here in
    ap (λ o. handle_from o s ctx) h ∙ rw opened

Arrived-ready :
    (j : ℕ) (ks : List SignalNo) (s s' : SignalImpl)
    → Arrived ks s s'
    → contains ks j ≡ false
    → ready j s ≡ false
    → ready j s' ≡ false
Arrived-ready j ks s s' a out quiet = rw (a.members j, a.mask_kept, out) quiet

add_signal-ready :
    (j : ℕ) (s : SignalImpl) → j < 64 → has j s.mask ≡ false → ready j (add_signal j s) ≡ true
unfolding add_signal
add_signal-ready j s lt unmasked = rw (add_bit-has j j s.received lt, unmasked) (ground arith)

cont_members :
    (c j : ℕ) (s : SignalImpl)
    → c < 64
    → j < 64
    → has j (remove_bit c (add_signal c s).received) ≡ not (j == c) && has j s.received
unfolding add_signal
cont_members c j s hc hj =
    rw (remove_bit-has j c (add_bit c s.received) hj hc, add_bit-has j c s.received hc)
      (ground arith)

-- A stopped process that does not mask SIGCONT and has none pending: whichever other signals
-- arrive, SIGKILL among them, it stays suspended and they stay pending. When SIGCONT arrives too,
-- it goes on, with SIGCONT alone taken out of what is pending.
pub stopped_until_cont :
    (s : SignalImpl) (ks : List SignalNo) (ctx : LocalContext)
    → s.handling ≡ some frozen
    → ready sigcont s ≡ false
    → has sigcont s.mask ≡ false
    → AllNumbers ks
    → contains ks sigcont ≡ false
    → (handle_signals (add_all ks s) ctx ≡ ok (process_suspended, add_all ks s, ctx))
      × (s' : SignalImpl) × (handle_signals (add_signal sigcont (add_all ks s)) ctx
          ≡ ok (handled, s', ctx))
      × (s'.handling ≡ none)
      × ((j : ℕ)
          → j < 64
          → has j s'.received ≡ not (j == sigcont) && (contains ks j || has j s.received))
unfolding add_signal
stopped_until_cont s ks ctx h quiet unmasked all none_in =
    let later = add_all ks s in
    let arrived = add_all_lem ks s all in
    let stopped : later.handling ≡ some frozen = arrived.handling_kept ∙ h in
    let here : ready sigcont (add_signal sigcont later) ≡ true =
      add_signal-ready sigcont later (omega arith) (rw (arrived.mask_kept) unmasked) in
    (
      frozen-waits later ctx stopped (Arrived-ready sigcont ks s later arrived none_in quiet),
      record (add_signal sigcont later) {
        received = remove_bit sigcont (add_signal sigcont later).received;
        handling = none;
      },
      frozen-goes_on (add_signal sigcont later) ctx stopped here,
      refl,
      λ j lt.
          cont_members sigcont j later (omega arith) lt
          ∙ ap (λ b. not (j == sigcont) && b) (arrived.members j),
    )

not_both : (a m : Bool) → m ≡ true → a && not m ≡ false
not_both a m h = ground arith

neither : (e h m : Bool) → e ≡ false → h && not m ≡ false → (e || h) && not m ≡ false
neither e h m out quiet = ground arith

masked-ready :
    (k j : ℕ) (s : SignalImpl)
    → j < 64
    → has j s.mask ≡ true
    → ready k s ≡ false
    → ready k (add_signal j s) ≡ false
unfolding add_signal
masked-ready k j s lt masked quiet = elim (ℕ_discrete k j) [
  | yes same ↦ not_both (has k (add_signal j s).received) (has k s.mask) (rw same masked)
  | no ne ↦
      rw (add_bit-has k j s.received lt)
        (neither (k == j) (has k s.received) (has k s.mask) (ground (arith, ne)) quiet)
]

-- No signal is taken while every pending one is masked, and SIGKILL is no exception: where SIGKILL
-- is masked, no signal is being handled and none is ready, its arrival changes nothing but that it
-- is pending.
pub kill-masked :
    (s : SignalImpl) (ctx : LocalContext)
    → IsValid s
    → s.handling ≡ none
    → has sigkill s.mask ≡ true
    → ((k : ℕ) → k < 64 → ready k s ≡ false)
    → handle_signals (add_signal sigkill s) ctx ≡ ok (no_signal, add_signal sigkill s, ctx)
unfolding handle_signals handle_from after_fetch add_signal
kill-masked s ctx v idle masked quiet =
    let valid : IsValid (add_signal sigkill s) = record {
      received_word = add_bit-IsWord sigkill s.received (v.received_word);
      mask_word = v.mask_word;
    } in
    elim (fetch_signal_lem (add_signal sigkill s) valid) [
      | inl (e, _) ↦
          ap (λ h. handle_from h (add_signal sigkill s) ctx) idle ∙ ap (λ o. after_fetch o ctx) e
      | inr (k, _, _, lt, mine, _, _, _) ↦
          absurd (apart mine (masked-ready k sigkill s (omega arith) masked (quiet k lt)))
    ]
  where
    apart : {b : Bool} → b ≡ true → b ≡ false → ⊥
    apart h k = cc
