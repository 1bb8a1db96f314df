-- ===== src/Signal/SignalImpl/Deliver.antt =====
-- A signal with a handler, from its delivery to the return (tg-rcore-tutorial-signal-impl/src/lib.rs).
use tg_rcore_tutorial.Prelude.{
  ℕ, ◌<◌, ◌≤◌, ◌≡◌, ◌≢◌, refl, ◌∙◌, ap, ◌==◌, leb, ltb, Bool-cases, true, false, Option, none, some,
  List, [], ◌∷◌, ok, arith, ◌⊎◌, inl, inr, not, ◌&&◌,
}
use native.Mathlib.Decide.{ℕ_discrete}
use tg_rcore_tutorial.Signal.Defs.{
  SignalNo, SignalAction, sigkill, sigstop, max_sig, handled, is_handling_signal,
}
use tg_rcore_tutorial.Signal.Context.{LocalContext, set_a, set_pc}
use tg_rcore_tutorial.Signal.SignalSet.{SignalSet}
use tg_rcore_tutorial.Signal.SignalSet.Members.{has, IsWord}
use tg_rcore_tutorial.Signal.SignalImpl.{
  SignalImpl, HandlingSignal, user_signal, fetch_signal, deliver, handle_signals, handle_from,
  after_fetch, return_from, while_handling, sig_return, add_signal,
}
use tg_rcore_tutorial.Signal.SignalImpl.Fetch.{ready, IsValid, fetch_signal_lem}

-- Signals that arrive, one after another.
unfoldable pub add_all : List SignalNo → SignalImpl → SignalImpl
add_all [] s = s
add_all (k ∷ ks) s = add_all ks (add_signal k s)

pub add_all-handling :
    (ks : List SignalNo) (h : Option HandlingSignal) (s : SignalImpl)
    → add_all ks (record s { handling = h }) ≡ record (add_all ks s) { handling = h }
unfolding add_all add_signal
add_all-handling [] h s = refl
add_all-handling (k ∷ ks) h s = add_all-handling ks h (add_signal k s)

-- The first signal that is ready.
pub record IsFirst (k : ℕ) (s : SignalImpl) : Type 0 where
  pub number : k < 64
  pub here : ready k s ≡ true
  pub lower : (j : ℕ) → j < k → ready j s ≡ false

pub fetch-first :
    (k : ℕ) (s : SignalImpl)
    → IsValid s
    → IsFirst k s
    → (r : SignalSet) × (fetch_signal s ≡ (some k, record s { received = r }))
      × ((j : ℕ) → j < 64 → has j r ≡ not (j == k) && has j s.received)
      × IsWord r
fetch-first k s v f = elim (fetch_signal_lem s v) [
  | inl (_, masked) ↦ absurd (ground (arith, masked k (f.number), f.here))
  | inr (i, r, e, lt, mine, lower, members, word) ↦ elim (ℕ_discrete i k) [
    | yes same ↦ (r, rw (← same) e, rw (← same) members, word)
    | no ne ↦ elim (order i k ne) [
      | inl less ↦ absurd (ground (arith, f.lower i less, mine))
      | inr more ↦ absurd (ground (arith, lower k more, f.here))
    ]
  ]
]
  where
    order : (i k : ℕ) → i ≢ k → (i < k) ⊎ (k < i)
    order i k ne = elim (Bool-cases (ltb i k)) [
      | inl less ↦ inl (ground (arith, less))
      | inr more ↦ inr (ground (arith, more, ne))
    ]

pub handle-idle :
    (s s' : SignalImpl) (k : ℕ) (ctx : LocalContext)
    → s.handling ≡ none
    → fetch_signal s ≡ (some k, s')
    → handle_signals s ctx ≡ deliver k s' ctx
unfolding handle_signals handle_from after_fetch
handle-idle s s' k ctx idle e = ap (λ h. handle_from h s ctx) idle ∙ ap (λ o. after_fetch o ctx) e

deliver-handler :
    (s : SignalImpl) (k : ℕ) (action : SignalAction) (ctx : LocalContext)
    → k ≢ sigkill
    → k ≢ sigstop
    → k ≤ max_sig
    → s.actions k ≡ some action
    → deliver k s ctx
      ≡ ok (
        handled,
        record s { handling = some (user_signal ctx) },
        set_a 0 k (set_pc action.handler ctx),
      )
unfolding deliver
deliver-handler s k action ctx kill stop le act =
    let a : (k == sigkill) ≡ false = ground arith in
    let b : (k == sigstop) ≡ false = ground arith in
    let c : leb k max_sig ≡ true = ground arith in rw (a, deliver) (rw (b, c) (rw act))

return-handler :
    (s : SignalImpl) (old_ctx ctx : LocalContext)
    → s.handling ≡ some (user_signal old_ctx)
    → (handle_signals s ctx ≡ ok (is_handling_signal, s, ctx))
      × (sig_return s ctx ≡ (true, record s { handling = none }, old_ctx))
unfolding handle_signals handle_from while_handling sig_return return_from
return-handler s old_ctx ctx h = (ap (λ o. handle_from o s ctx) h, ap (λ o. return_from o s ctx) h)

-- Where no signal is being handled, and the first one that is ready has a handler: the process
-- goes on at that handler with the number in a0. Until it returns, with whatever registers and
-- whichever signals arrive in between, no other signal is handled. The return gives back the
-- registers of before, those signals stay pending, and of the others only the one that was
-- handled is pending no more.
pub handler_returns :
    (s : SignalImpl) (k : ℕ) (action : SignalAction) (ctx : LocalContext)
    → IsValid s
    → s.handling ≡ none
    → IsFirst k s
    → k ≢ sigkill
    → k ≢ sigstop
    → k ≤ max_sig
    → s.actions k ≡ some action
    → (s' : SignalImpl) × (r : SignalSet) × (handle_signals s ctx
        ≡ ok (handled, s', set_a 0 k (set_pc action.handler ctx)))
      × ((j : ℕ) → j < 64 → has j r ≡ not (j == k) && has j s.received)
      × ((ks : List SignalNo) (ctx' : LocalContext)
          → (handle_signals (add_all ks s') ctx' ≡ ok (is_handling_signal, add_all ks s', ctx'))
            × (sig_return (add_all ks s') ctx'
                ≡ (true, record (add_all ks (record s { received = r })) { handling = none }, ctx)))
handler_returns s k action ctx v idle f kill stop le act =
    let (r, e, members, word) = fetch-first k s v f in
    let base = record s { received = r } in
    let mid = record base { handling = some (user_signal ctx) } in
    (
      mid,
      r,
      handle-idle s base k ctx idle e ∙ deliver-handler base k action ctx kill stop le act,
      members,
      λ ks ctx'.
          let move = add_all-handling ks (some (user_signal ctx)) base in
          rw move (
            return-handler (record (add_all ks base) { handling = some (user_signal ctx) }) ctx ctx'
              refl),
    )
