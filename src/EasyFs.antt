-- ===== src/EasyFs.antt =====
-- tg-rcore-tutorial-easy-fs/src: the file system of the later chapters, and pipes.
pub mod Efs
pub mod Content
pub mod DirEntry
pub mod Layout
pub mod Pipe
pub mod BlockCache
pub mod Bitmap
mod Tests
mod Runs
