-- ===== src/Signal/Tests.antt =====
-- Runs of the signals of a process.
use tg_rcore_tutorial.Prelude.{
  ℕ, ◌^◌, ◌<◌, ◌≡◌, refl, arith, ◌==◌, if◌then◌else◌, true, false, not, ◌&&◌, ◌||◌, none, some,
  List, [], ◌∷◌, contains, ok, panic,
}
use tg_rcore_tutorial.Prelude.Bits.{bit-zero, bit-pow}
use tg_rcore_tutorial.Signal.Defs.{
  SignalNo, SignalAction, sigkill, sigcont, handled, is_handling_signal, no_signal,
  process_suspended,
}
use tg_rcore_tutorial.Signal.Context.{LocalContext, set_a, set_pc}
use tg_rcore_tutorial.Signal.SignalSet.{SignalSet}
use tg_rcore_tutorial.Signal.SignalSet.Members.{has}
use tg_rcore_tutorial.Signal.SignalImpl.{
  SignalImpl, frozen, new, handle_signals, sig_return, add_signal,
}
use tg_rcore_tutorial.Signal.SignalImpl.Fetch.{ready, IsValid}
use tg_rcore_tutorial.Signal.SignalImpl.Deliver.{IsFirst, add_all, handler_returns}
use tg_rcore_tutorial.Signal.SignalImpl.Stopped.{none_left, number, stopped_until_cont, kill-masked}
use tg_rcore_tutorial.Signal.SignalImpl.Safety.{IsSafe, handle_signals-panic}
use tg_rcore_tutorial.Signal.SignalImpl.Calls.{
  Call, run, IsStandard, done, more, run-IsSafe, new-IsSafe,
}

abbrev action : SignalAction
action = record { handler = 4096; mask = 0 }

-- SIGUSR1 is pending and has a handler.
abbrev usr1 : SignalImpl
usr1 = record {
  received = 2 ^ 10;
  mask = 0;
  handling = none;
  actions = λ i. if i == 10 then some action else none;
}

usr1-IsValid : IsValid usr1
usr1-IsValid = record { received_word = omega arith; mask_word = omega arith }

-- Nothing below its only member is in a set.
only-lower : (n m j : ℕ) → j < n → has j (2 ^ n) && not (has j m) ≡ false
only-lower n m j h = rw (bit-pow j n) (ground arith)

usr1-IsFirst : IsFirst 10 usr1
usr1-IsFirst = record { number = omega arith; here = refl; lower = only-lower 10 0 }

abbrev context : LocalContext
context = record { sctx = 0; x = λ i. i; sepc = 64; supervisor = false; interrupt = true }

handler_returns_example :
    (s' : SignalImpl) × (r : SignalSet) × (handle_signals usr1 context
      ≡ ok (handled, s', set_a 0 10 (set_pc 4096 context)))
    × ((j : ℕ) → j < 64 → has j r ≡ not (j == 10) && has j 1024)
    × ((ks : List SignalNo) (ctx' : LocalContext)
        → (handle_signals (add_all ks s') ctx' ≡ ok (is_handling_signal, add_all ks s', ctx'))
          × (sig_return (add_all ks s') ctx' ≡ (
            true,
            record (add_all ks (record usr1 { received = r })) { handling = none },
            context,
          )))
handler_returns_example =
    handler_returns usr1 10 action context usr1-IsValid refl usr1-IsFirst (λ e. omega (arith, e))
      (λ e. omega (arith, e)) (omega arith) refl

abbrev stopped : SignalImpl
stopped = record { received = 0; mask = 0; handling = some frozen; actions = λ i. none }

stopped_until_cont_example :
    (handle_signals (add_all (9 ∷ []) stopped) context
      ≡ ok (process_suspended, add_all (9 ∷ []) stopped, context))
    × (s' : SignalImpl) × (handle_signals (add_signal sigcont (add_all (9 ∷ []) stopped)) context
        ≡ ok (handled, s', context))
    × (s'.handling ≡ none)
    × ((j : ℕ)
        → j < 64
        → has j s'.received ≡ not (j == sigcont) && (contains (9 ∷ []) j || has j 0))
stopped_until_cont_example =
    stopped_until_cont stopped (9 ∷ []) context refl refl refl (number 9 [] (omega arith) none_left)
      refl

-- SIGKILL is masked.
abbrev shielded : SignalImpl
shielded = record { received = 0; mask = 512; handling = none; actions = λ i. none }

shielded-quiet : (k : ℕ) → k < 64 → ready k shielded ≡ false
shielded-quiet k h = rw (bit-zero k)

kill-masked_example :
    handle_signals (add_signal sigkill shielded) context
    ≡ ok (no_signal, add_signal sigkill shielded, context)
kill-masked_example =
    kill-masked shielded context (record { received_word = omega arith; mask_word = omega arith })
      refl refl shielded-quiet

-- SIGRTMIN, 32, is pending.
abbrev real_time : SignalImpl
real_time = record { received = 2 ^ 32; mask = 0; handling = none; actions = λ i. none }

real_time-IsFirst : IsFirst 32 real_time
real_time-IsFirst = record { number = omega arith; here = refl; lower = only-lower 32 0 }

handle_signals-panic_example : handle_signals real_time context ≡ panic
handle_signals-panic_example =
    handle_signals-panic real_time 32 context
      (record { received_word = omega arith; mask_word = omega arith }) refl real_time-IsFirst
      (omega arith)

abbrev calls : List Call
calls = Call.add 10 ∷ Call.get 10 ∷ Call.handle context ∷ []

run-IsSafe_example : (s' : SignalImpl) × (run calls new ≡ ok s') × IsSafe s'
run-IsSafe_example =
    run-IsSafe calls new
      (more _ _ (IsStandard.add 10 (omega arith))
        (more _ _ (IsStandard.get 10 (omega arith)) (more _ _ (IsStandard.handle context) done)))
      new-IsSafe
