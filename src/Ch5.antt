-- ===== src/Ch5.antt =====
-- The kernel of chapter 5, tg-rcore-tutorial-ch5.
pub mod Processor
mod Tests
