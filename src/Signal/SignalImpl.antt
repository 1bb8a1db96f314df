-- ===== src/Signal/SignalImpl.antt =====
-- tg-rcore-tutorial-signal-impl/src/lib.rs and default_action.rs: what a process does with the
-- signals that it receives.
pub mod Fetch
pub mod Deliver
pub mod Safety
pub mod Stopped
pub mod Calls
use tg_rcore_tutorial.Prelude.{
  ℕ, zero, suc, ◌==◌, leb, ◌&&◌, ◌||◌, not, if◌then◌else◌, Bool, true, false, Option, none, some,
  Outcome, ok, ◌>>=◌, ◌>>◌, assert, is_some,
}
use tg_rcore_tutorial.Prelude.Int.{ℤ, pos, negsuc}
use tg_rcore_tutorial.Signal.Defs.{
  SignalNo, SignalAction, SignalResult, signal_from, sigkill, sigchld, sigcont, sigstop, sigurg,
  max_sig, no_signal, is_handling_signal, ignored, handled, process_suspended, process_killed,
}
use tg_rcore_tutorial.Signal.SignalSet.{
  SignalSet, contain_bit, add_bit, remove_bit, set_new, find_first_one,
}
use tg_rcore_tutorial.Signal.Context.{LocalContext, set_pc, set_a}

pub data HandlingSignal : Type 0 where
  frozen : HandlingSignal
  user_signal : LocalContext → HandlingSignal

-- An index of `actions` above `max_sig` panics.
pub record SignalImpl : Type 0 where
  pub received : SignalSet
  pub mask : SignalSet
  pub handling : Option HandlingSignal
  pub actions : ℕ → Option SignalAction

unfoldable pub new : SignalImpl
new = record { received = 0; mask = 0; handling = none; actions = λ i. none }

unfoldable pub fetch_signal : SignalImpl → Option SignalNo × SignalImpl
fetch_signal s = elim (find_first_one s.mask s.received) [
  | none ↦ (none, s)
  | some num ↦ (some (signal_from num), record s { received = remove_bit num s.received })
]

unfoldable pub fetch_and_remove : SignalNo → SignalImpl → Bool × SignalImpl
fetch_and_remove signal_no s =
    if contain_bit s.received signal_no && not (contain_bit s.mask signal_no)
    then (true, record s { received = remove_bit signal_no s.received })
    else (false, s)

unfoldable pub from_fork : SignalImpl → SignalImpl
from_fork s = record { received = 0; mask = s.mask; handling = none; actions = s.actions }

unfoldable pub clear : SignalImpl → SignalImpl
clear s = record s { actions = λ i. none }

unfoldable pub add_signal : SignalNo → SignalImpl → SignalImpl
add_signal signal s = record s { received = add_bit signal s.received }

unfoldable pub set_action : SignalNo → SignalAction → SignalImpl → Outcome (Bool × SignalImpl)
set_action signum action s =
    if signum == sigkill || signum == sigstop
    then ok (false, s)
    else assert (leb signum max_sig)
      >> ok (true, record s { actions = λ i. if signum == i then some action else s.actions i })

abbrev pub or_default : Option SignalAction → SignalAction
or_default none = record { handler = 0; mask = 0 }
or_default (some action) = action

unfoldable pub get_action_ref : SignalNo → SignalImpl → Outcome (Option SignalAction)
get_action_ref signum s =
    if signum == sigkill || signum == sigstop
    then ok none
    else assert (leb signum max_sig) >> ok (some (or_default (s.actions signum)))

unfoldable pub update_mask : ℕ → SignalImpl → ℕ × SignalImpl
update_mask mask s = let (old, set) = set_new mask s.mask in (old, record s { mask = set })

-- `-(n as i32)` of a signal number.
abbrev pub negative : ℕ → ℤ
negative zero = pos 0
negative (suc n) = negsuc n

pub data DefaultAction : Type 0 where
  terminate : ℤ → DefaultAction
  ignore : DefaultAction

unfoldable pub default_action : SignalNo → DefaultAction
default_action signal_no =
    if signal_no == sigchld || signal_no == sigurg then ignore else terminate (negative signal_no)

unfoldable pub action_result : DefaultAction → SignalResult
action_result (terminate exit_code) = process_killed exit_code
action_result ignore = ignored

-- The user's action, or the default one.
abbrev pub acted :
    Option SignalAction
    → SignalNo
    → SignalImpl
    → LocalContext
    → Outcome (SignalResult × SignalImpl × LocalContext)
acted (some action) signal s ctx = ok (
  handled,
  record s { handling = some (user_signal ctx) },
  set_a 0 signal (set_pc action.handler ctx),
)
acted none signal s ctx = ok (action_result (default_action signal), s, ctx)

-- What happens to a signal that was taken out of the pending ones.
unfoldable pub deliver :
    SignalNo → SignalImpl → LocalContext → Outcome (SignalResult × SignalImpl × LocalContext)
deliver signal s ctx =
    if signal == sigkill
    then ok (process_killed (negative signal), s, ctx)
    else if signal == sigstop
    then ok (process_suspended, record s { handling = some frozen }, ctx)
    else assert (leb signal max_sig) >> acted (s.actions signal) signal s ctx

unfoldable pub while_handling :
    HandlingSignal → SignalImpl → LocalContext → Outcome (SignalResult × SignalImpl × LocalContext)
while_handling frozen s ctx =
    let (found, s') = fetch_and_remove sigcont s in
    if found
    then ok (handled, record s' { handling = none }, ctx)
    else ok (process_suspended, s', ctx)
while_handling (user_signal old_ctx) s ctx = ok (is_handling_signal, s, ctx)

unfoldable pub after_fetch :
    Option SignalNo × SignalImpl → LocalContext → Outcome (SignalResult × SignalImpl × LocalContext)
after_fetch (some signal, s) ctx = deliver signal s ctx
after_fetch (none, s) ctx = ok (no_signal, s, ctx)

unfoldable pub handle_from :
    Option HandlingSignal
    → SignalImpl
    → LocalContext
    → Outcome (SignalResult × SignalImpl × LocalContext)
handle_from (some handling) s ctx = while_handling handling s ctx
handle_from none s ctx = after_fetch (fetch_signal s) ctx

unfoldable pub handle_signals :
    SignalImpl → LocalContext → Outcome (SignalResult × SignalImpl × LocalContext)
handle_signals s ctx = handle_from s.handling s ctx

unfoldable pub return_from :
    Option HandlingSignal → SignalImpl → LocalContext → Bool × SignalImpl × LocalContext
return_from (some (user_signal old_ctx)) s ctx = (true, record s { handling = none }, old_ctx)
return_from (some frozen) s ctx = (false, s, ctx)
return_from none s ctx = (false, s, ctx)

unfoldable pub sig_return : SignalImpl → LocalContext → Bool × SignalImpl × LocalContext
sig_return s ctx = return_from s.handling s ctx
