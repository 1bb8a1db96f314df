-- ===== src/Ch8.antt =====
-- Threads, their synchronisation and deadlock detection in chapter 8 (tg-rcore-tutorial-ch8).
pub mod Process
pub mod Processor
pub mod Deadlock
pub mod SyncCalls
mod Tests
