-- ===== src/Signal/SignalImpl/Safety.antt =====
-- When the handling of signals panics (tg-rcore-tutorial-signal-impl/src/lib.rs).
use tg_rcore_tutorial.Prelude.{
  ℕ, ◌<◌, ◌≤◌, ◌≡◌, refl, ◌∙◌, ap, ◌==◌, leb, Bool, Bool-cases, true, false, Option-cases, none,
  some, ok, panic, arith, inl, inr, not, ◌&&◌,
}
use tg_rcore_tutorial.Signal.Defs.{
  SignalNo, SignalResult, sigkill, sigstop, sigcont, max_sig, no_signal, is_handling_signal,
  handled, process_suspended, process_killed,
}
use tg_rcore_tutorial.Signal.Context.{LocalContext, set_a, set_pc}
use tg_rcore_tutorial.Signal.SignalSet.{remove_bit, contain_bit}
use tg_rcore_tutorial.Signal.SignalSet.Members.{has, IsWord, remove_bit-has, remove_bit-IsWord}
use tg_rcore_tutorial.Signal.SignalImpl.{
  SignalImpl, user_signal, frozen, fetch_and_remove, deliver, handle_signals, handle_from,
  after_fetch, while_handling, negative, acted, default_action, action_result,
}
use tg_rcore_tutorial.Signal.SignalImpl.Fetch.{ready, IsValid, fetch_signal_lem}
use tg_rcore_tutorial.Signal.SignalImpl.Deliver.{IsFirst, fetch-first, handle-idle}

-- No signal above `max_sig` is pending.
pub record IsSafe (s : SignalImpl) : Type 0 where
  pub valid : IsValid s
  pub standard : (k : ℕ) → k < 64 → max_sig < k → has k s.received ≡ false

deliver-total :
    (k : SignalNo) (s : SignalImpl) (ctx : LocalContext)
    → k ≤ max_sig
    → (result : SignalResult) × (s' : SignalImpl) × (ctx' : LocalContext) × (deliver k s ctx
        ≡ ok (result, s', ctx'))
      × (s'.received ≡ s.received)
      × (s'.mask ≡ s.mask)
unfolding deliver
deliver-total k s ctx le = elim (Bool-cases (k == sigkill)) [
  | inl a ↦ (process_killed (negative k), s, ctx, rw (a, deliver), refl, refl)
  | inr a ↦ elim (Bool-cases (k == sigstop)) [
    | inl b ↦ (
      process_suspended,
      record s { handling = some frozen },
      ctx,
      rw (a, deliver) (rw b),
      refl,
      refl,
    )
    | inr b ↦
        let c : leb k max_sig ≡ true = ground arith in
        elim (Option-cases (s.actions k)) [
          | inl d ↦ (
            action_result (default_action k),
            s,
            ctx,
            rw (a, deliver) (rw (b, c) (ap (λ o. acted o k s ctx) d)),
            refl,
            refl,
          )
          | inr (action, d) ↦ (
            handled,
            record s { handling = some (user_signal ctx) },
            set_a 0 k (set_pc action.handler ctx),
            rw (a, deliver) (rw (b, c) (ap (λ o. acted o k s ctx) d)),
            refl,
            refl,
          )
        ]
  ]
]

-- Fewer signals pending, and the same mask.
pub keeps-IsSafe :
    (s s' : SignalImpl)
    → IsSafe s
    → IsWord s'.received
    → s'.mask ≡ s.mask
    → ((k : ℕ) → k < 64 → has k s.received ≡ false → has k s'.received ≡ false)
    → IsSafe s'
keeps-IsSafe s s' p word same fewer = record {
  valid = record { received_word = word; mask_word = rw same (p.valid.mask_word) };
  standard = λ k lt above. fewer k lt (p.standard k lt above);
}

lost : (a b : Bool) → b ≡ false → a && b ≡ false
lost a b h = ground arith

below_max : (k : ℕ) (s : SignalImpl) → IsSafe s → k < 64 → ready k s ≡ true → k ≤ max_sig
below_max k s p lt mine = elim (Bool-cases (leb k max_sig)) [
  | inl le ↦ ground (arith, le)
  | inr above ↦
      let quiet : ready k s ≡ false =
        gone (has k s.received) (not (has k s.mask)) (p.standard k lt (ground (arith, above))) in
      absurd (apart mine quiet)
]
  where
    gone : (a b : Bool) → a ≡ false → a && b ≡ false
    gone a b h = ground arith

    apart : {b : Bool} → b ≡ true → b ≡ false → ⊥
    apart h k = cc

-- From a state where no signal above 31 is pending `handle_signals` does not panic, and it leaves
-- such a state behind.
pub handle_signals-IsSafe :
    (s : SignalImpl) (ctx : LocalContext)
    → IsSafe s
    → (result : SignalResult) × (s' : SignalImpl) × (ctx' : LocalContext) × (handle_signals s ctx
        ≡ ok (result, s', ctx'))
      × IsSafe s'
unfolding handle_signals handle_from after_fetch while_handling fetch_and_remove
handle_signals-IsSafe s ctx p = elim (Option-cases s.handling) [
  | inl idle ↦ elim (fetch_signal_lem s (p.valid)) [
    | inl (e, _) ↦
        (no_signal, s, ctx, ap (λ h. handle_from h s ctx) idle ∙ ap (λ o. after_fetch o ctx) e, p)
    | inr (k, r, e, lt, mine, _, members, word) ↦
        let base = record s { received = r } in
        let low : k ≤ max_sig = below_max k s p lt mine in
        let (result, s', ctx', made, kept, same) = deliver-total k base ctx low in
        (
          result,
          s',
          ctx',
          handle-idle s base k ctx idle e ∙ made,
          keeps-IsSafe s s' p (rw kept word) same (λ j h quiet.
              rw kept (rw (members j h) (lost (not (j == k)) (has j s.received) quiet))),
        )
  ]
  | inr (user_signal old_ctx, h) ↦ (is_handling_signal, s, ctx, ap (λ o. handle_from o s ctx) h, p)
  | inr (frozen, h) ↦
      elim (Bool-cases (contain_bit s.received sigcont && not (contain_bit s.mask sigcont))) [
        | inr closed ↦ (process_suspended, s, ctx, ap (λ o. handle_from o s ctx) h ∙ rw closed, p)
        | inl opened ↦
            let s' = record s { received = remove_bit sigcont s.received; handling = none } in
            (
              handled,
              s',
              ctx,
              ap (λ o. handle_from o s ctx) h ∙ rw opened,
              keeps-IsSafe s s' p (remove_bit-IsWord sigcont s.received (p.valid.received_word))
                  refl
                  (λ j lt quiet.
                    rw (remove_bit-has j sigcont s.received lt (omega arith))
                      (lost (not (j == sigcont)) (has j s.received) quiet)),
            )
      ]
]

-- Where no signal is being handled and the first one that is ready has a number above 31,
-- `handle_signals` panics.
pub handle_signals-panic :
    (s : SignalImpl) (k : ℕ) (ctx : LocalContext)
    → IsValid s
    → s.handling ≡ none
    → IsFirst k s
    → max_sig < k
    → handle_signals s ctx ≡ panic
unfolding deliver
handle_signals-panic s k ctx v idle f lt =
    let (r, e, _, _) = fetch-first k s v f in
    let a : (k == sigkill) ≡ false = ground arith in
    let b : (k == sigstop) ≡ false = ground arith in
    let c : leb k max_sig ≡ false = ground arith in
    handle-idle s (record s { received = r }) k ctx idle e ∙ rw (a, deliver) (rw (b, c))
