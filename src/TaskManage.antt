-- ===== src/TaskManage.antt =====
-- The crate tg-rcore-tutorial-task-manage.
pub mod ProcRel
pub mod ProcThreadRel
pub mod Manager
pub mod Process
pub mod Threads
mod Tests
