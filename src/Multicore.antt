-- ===== src/Multicore.antt =====
-- The multi-core kernel, multicore/kernel.
pub mod FrameAlloc
pub mod PidAlloc
mod Tests
