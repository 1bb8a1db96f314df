-- ===== src/Signal/Defs.antt =====
-- tg-rcore-tutorial-signal-defs/src/lib.rs and tg-rcore-tutorial-signal/src/lib.rs: the numbers of
-- signals, actions and results.
use tg_rcore_tutorial.Prelude.{ℕ, ◌%◌, ltb, if◌then◌else◌}
use tg_rcore_tutorial.Prelude.Int.{ℤ}

-- The value of a `SignalNo`, below 64.
abbrev pub SignalNo : Type 0
SignalNo = ℕ

abbrev pub err : SignalNo
err = 0

abbrev pub sigkill : SignalNo
sigkill = 9

abbrev pub sigchld : SignalNo
sigchld = 17

abbrev pub sigcont : SignalNo
sigcont = 18

abbrev pub sigstop : SignalNo
sigstop = 19

abbrev pub sigurg : SignalNo
sigurg = 23

abbrev pub max_sig : ℕ
max_sig = 31

-- `SignalNo::from(usize)`: a byte that is no signal becomes `ERR`.
unfoldable pub signal_from : ℕ → SignalNo
signal_from num = if ltb (num % 256) 64 then num % 256 else err

pub record SignalAction : Type 0 where
  pub handler : ℕ
  pub mask : ℕ

pub data SignalResult : Type 0 where
  no_signal is_handling_signal ignored handled process_suspended : SignalResult
  process_killed : ℤ → SignalResult
