-- ===== src/Sync.antt =====
-- The crate tg-rcore-tutorial-sync: one module per source file, with its proofs below it.
pub mod Mutex
pub mod Semaphore
pub mod Condvar
pub mod Masking
mod Tests
