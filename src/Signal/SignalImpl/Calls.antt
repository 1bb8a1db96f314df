-- ===== src/Signal/SignalImpl/Calls.antt =====
-- The calls that a kernel makes on the signals of a process, one after another
-- (tg-rcore-tutorial-signal-impl/src/lib.rs).
use tg_rcore_tutorial.Prelude.{
  ℕ, ◌≤◌, ◌≡◌, refl, ◌==◌, leb, if◌then◌else◌, Bool, Bool-cases, true, false, Option, none, some,
  List, [], ◌∷◌, Outcome, ok, ◌>>=◌, arith, inl, inr, ◌||◌,
}
use tg_rcore_tutorial.Prelude.Bits.{bit-zero}
use tg_rcore_tutorial.Signal.Defs.{SignalNo, SignalAction, sigkill, sigstop, max_sig}
use tg_rcore_tutorial.Signal.Context.{LocalContext}
use tg_rcore_tutorial.Signal.SignalSet.{set_new}
use tg_rcore_tutorial.Signal.SignalSet.Members.{has, IsWord, add_bit-has, add_bit-IsWord}
use tg_rcore_tutorial.Signal.SignalImpl.{
  SignalImpl, HandlingSignal, user_signal, frozen, new, handle_signals, sig_return, return_from,
  add_signal, update_mask, set_action, get_action_ref, clear, from_fork, or_default,
}
use tg_rcore_tutorial.Signal.SignalImpl.Safety.{IsSafe, keeps-IsSafe, handle_signals-IsSafe}

pub data Call : Type 0 where
  add : SignalNo → Call
  act : SignalNo → SignalAction → Call
  get : SignalNo → Call
  mask : ℕ → Call
  fork clear_all : Call
  handle return : LocalContext → Call

unfoldable pub call : Call → SignalImpl → Outcome SignalImpl
call (add k) s = ok (add_signal k s)
call (act k action) s = set_action k action s >>= λ r. ok r.1
call (get k) s = get_action_ref k s >>= λ r. ok s
call (mask m) s = ok (update_mask m s).1
call fork s = ok (from_fork s)
call clear_all s = ok (clear s)
call (handle ctx) s = handle_signals s ctx >>= λ r. ok r.1
call (return ctx) s = ok (sig_return s ctx).1

unfoldable pub run : List Call → SignalImpl → Outcome SignalImpl
run [] s = ok s
run (c ∷ cs) s = call c s >>= run cs

-- Numbers up to 31, and masks that are words.
pub data IsStandard : Call → Type 0 where
  add : (k : SignalNo) → k ≤ max_sig → IsStandard (Call.add k)
  act : (k : SignalNo) (action : SignalAction) → k ≤ max_sig → IsStandard (Call.act k action)
  get : (k : SignalNo) → k ≤ max_sig → IsStandard (Call.get k)
  mask : (m : ℕ) → IsWord m → IsStandard (Call.mask m)
  fork : IsStandard Call.fork
  clear_all : IsStandard Call.clear_all
  handle : (ctx : LocalContext) → IsStandard (Call.handle ctx)
  return : (ctx : LocalContext) → IsStandard (Call.return ctx)

pub data AllStandard : List Call → Type 0 where
  done : AllStandard []
  more : (c : Call) (cs : List Call) → IsStandard c → AllStandard cs → AllStandard (c ∷ cs)

set_action-total :
    (k : SignalNo) (action : SignalAction) (s : SignalImpl)
    → k ≤ max_sig
    → (b : Bool) × (s' : SignalImpl) × (set_action k action s ≡ ok (b, s'))
      × (s'.received ≡ s.received)
      × (s'.mask ≡ s.mask)
unfolding set_action
set_action-total k action s le = elim (Bool-cases (k == sigkill || k == sigstop)) [
  | inl special ↦ (false, s, rw special, refl, refl)
  | inr other ↦
      let inside : leb k max_sig ≡ true = ground arith in
      (
        true,
        record s { actions = λ i. if k == i then some action else s.actions i },
        rw (other, inside),
        refl,
        refl,
      )
]

get_action_ref-total :
    (k : SignalNo) (s : SignalImpl)
    → k ≤ max_sig
    → (o : Option SignalAction) × (get_action_ref k s ≡ ok o)
unfolding get_action_ref
get_action_ref-total k s le = elim (Bool-cases (k == sigkill || k == sigstop)) [
  | inl special ↦ (none, rw special)
  | inr other ↦
      let inside : leb k max_sig ≡ true = ground arith in
      (some (or_default (s.actions k)), rw (other, inside))
]

return_from-kept :
    (h : Option HandlingSignal) (s : SignalImpl) (ctx : LocalContext)
    → ((return_from h s ctx).1.received ≡ s.received) × ((return_from h s ctx).1.mask ≡ s.mask)
unfolding return_from
return_from-kept none s ctx = (refl, refl)
return_from-kept (some frozen) s ctx = (refl, refl)
return_from-kept (some (user_signal old_ctx)) s ctx = (refl, refl)

empty-has : (k : ℕ) → has k 0 ≡ false
empty-has k = rw (bit-zero k)

add_signal-IsSafe :
    (k : SignalNo) (s : SignalImpl) → k ≤ max_sig → IsSafe s → IsSafe (add_signal k s)
unfolding add_signal
add_signal-IsSafe k s le p = record {
  valid = record {
    received_word = add_bit-IsWord k s.received (p.valid.received_word);
    mask_word = p.valid.mask_word;
  };
  standard = λ j lt above.
      let other : (j == k) ≡ false = ground arith in
      rw (add_bit-has j k s.received (omega arith), other) (p.standard j lt above);
}

call-IsSafe :
    (c : Call) (s : SignalImpl)
    → IsStandard c
    → IsSafe s
    → (s' : SignalImpl) × (call c s ≡ ok s') × IsSafe s'
unfolding call add_signal update_mask set_new clear from_fork sig_return
call-IsSafe c s (IsStandard.add k le) p = (add_signal k s, refl, add_signal-IsSafe k s le p)
call-IsSafe c s (IsStandard.act k action le) p =
    let (b, s', made, kept, same) = set_action-total k action s le in
    (
      s',
      rw made,
      keeps-IsSafe s s' p (rw kept (p.valid.received_word)) same (λ j lt quiet. rw kept quiet),
    )
call-IsSafe c s (IsStandard.get k le) p =
    let (o, made) = get_action_ref-total k s le in (s, rw made, p)
call-IsSafe c s (IsStandard.mask m w) p = (
  record s { mask = m },
  refl,
  record {
    valid = record { received_word = p.valid.received_word; mask_word = w };
    standard = p.standard;
  },
)
call-IsSafe c s IsStandard.fork p = (
  from_fork s,
  refl,
  keeps-IsSafe s (from_fork s) p (omega arith) refl (λ j lt quiet. empty-has j),
)
call-IsSafe c s IsStandard.clear_all p =
    (clear s, refl, keeps-IsSafe s (clear s) p (p.valid.received_word) refl (λ j lt quiet. quiet))
call-IsSafe c s (IsStandard.handle ctx) p =
    let (result, s', ctx', made, safe) = handle_signals-IsSafe s ctx p in (s', rw made, safe)
call-IsSafe c s (IsStandard.return ctx) p =
    let (kept, same) = return_from-kept s.handling s ctx in
    (
      (sig_return s ctx).1,
      refl,
      keeps-IsSafe s (sig_return s ctx).1 p (rw kept (p.valid.received_word)) same
          (λ j lt quiet. rw kept quiet),
    )

-- The signals have numbers up to 31, the masks are words, and no other signal is pending at the
-- start. Then no sequence of the calls `add_signal`, `set_action`, `get_action_ref`,
-- `update_mask`, `from_fork`, `clear`, `handle_signals` and `sig_return` panics.
pub run-IsSafe :
    (cs : List Call) (s : SignalImpl)
    → AllStandard cs
    → IsSafe s
    → (s' : SignalImpl) × (run cs s ≡ ok s') × IsSafe s'
unfolding run
run-IsSafe cs s done p = (s, refl, p)
run-IsSafe cs s (more c rest std all) p =
    let (s1, made, safe) = call-IsSafe c s std p in
    let (s', ran, end) = run-IsSafe rest s1 all safe in (s', rw made ran, end)

pub new-IsSafe : IsSafe new
unfolding new
new-IsSafe = record {
  valid = record { received_word = omega arith; mask_word = omega arith };
  standard = λ k lt above. empty-has k;
}
