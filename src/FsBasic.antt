-- ===== src/FsBasic.antt =====
-- exp-design/fs/fs-basic/src: a file system with a journal. Modelled are the disk, the write of the
-- block cache, the header of the log, the redo log and the undo log.
pub mod Disk
pub mod Cache
pub mod Header
pub mod RedoLog
pub mod UndoLog
mod Tests
