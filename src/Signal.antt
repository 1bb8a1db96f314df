-- ===== src/Signal.antt =====
-- The signals of a process: tg-rcore-tutorial-signal-defs, tg-rcore-tutorial-signal-impl and the
-- context of tg-rcore-tutorial-kernel-context that a handler changes.
pub mod Defs
pub mod SignalSet
pub mod Context
pub mod SignalImpl
mod Tests
