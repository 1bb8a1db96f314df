-- ===== src/Lib.antt =====
-- Verification of tg-rcore-tutorial, a teaching operating system in Rust for RISC-V.
--
-- The repository is a set of crates. A kernel (tg-rcore-tutorial-ch1 to ch8, and
-- multicore/kernel) puts them together: tg-rcore-tutorial-task-manage keeps processes and their
-- tree and asks a container of the kernel for the next one to run; tg-rcore-tutorial-sync blocks
-- and wakes threads; tg-rcore-tutorial-signal-impl keeps the signals of a process, and changes
-- its registers, those of tg-rcore-tutorial-kernel-context, when one is delivered; the kernel of
-- chapter 8 checks for deadlocks before a thread waits; multicore/kernel has frames and pids of its
-- own. Apart from the kernels stands exp-design/fs/fs-basic, a file system with a journal.
--
-- The files and the code that they model:
--   Prelude: tests, lists as `Vec` and `VecDeque`, maps, panics (`Outcome`), the bits of words.
--   TaskManage: tg-rcore-tutorial-task-manage/src. ProcRel is `ProcRel`, ProcThreadRel
--     `ProcThreadRel`; Process is `PManager`, over the interface Manager (`Manage` and `Schedule`)
--     with the laws of a container. Process/Valid is the exit, Add `add`, Steps the other calls,
--     Reap an exit that is waited for, History any sequence of calls. Threads is `PThreadManager`,
--     over the interface of a container of threads and Store, that of a container of processes;
--     Threads/Families and Valid say which states are valid, Exit and Bereaved are about the exit
--     of a thread, Schedule, Steps and History about the other calls.
--   Sync: tg-rcore-tutorial-sync/src. Mutex is `MutexBlocking`, Semaphore and Condvar the types of
--     these names, Masking the cell of up.rs with the interrupts of a hart.
--   Ch5: tg-rcore-tutorial-ch5/src/processor.rs, the container of processes with the stride
--     scheduler. Processor/Laws is about the interface of TaskManage.
--   Ch8: tg-rcore-tutorial-ch8/src. Deadlock is `check_deadlock` of deadlock.rs, Process the part of
--     process.rs that the calls of main.rs on mutexes, semaphores and condition variables use, and
--     SyncCalls these calls. Deadlock/Sweep, Passes and Rows follow the check, Completes is its
--     specification, Safe about tables that pass it. SyncCalls/Tables and Reflects relate the
--     tables of a process to its mutexes and semaphores; Locks, Unlocks, Downs, Ups and Creates
--     treat one call each, Calls any sequence of them. Processor is processor.rs, which fills the
--     two interfaces of TaskManage/Threads.
--   Signal: tg-rcore-tutorial-signal-impl/src, with the numbers of tg-rcore-tutorial-signal-defs and
--     the registers of tg-rcore-tutorial-kernel-context. `handle_signals` is handle_from,
--     after_fetch, deliver and acted, its nested matches.
--   Multicore: multicore/kernel/src. FrameAlloc is mm/frame_alloc.rs, PidAlloc task/pid.rs.
--   FsBasic: exp-design/fs/fs-basic/src. Disk is disk.rs with crashes, Header, RedoLog and UndoLog
--     are log.rs, Cache the write of block_cache.rs. RedoLog/Replay is about the copies from the
--     log, Recovery about `recover` with crashes on the way, which both logs share, Write about
--     `log_write`, Commit about `commit`; UndoLog/Rollback is about the saved originals.
--   EasyFs: tg-rcore-tutorial-easy-fs/src. Pipe is pipe.rs, a pipe as a queue of bytes in a ring
--     buffer. BlockCache is block_cache.rs, with its handles: Queue is about lookups, Keeps
--     about the invariant, Changes and Handles about one handle, Sync about the write back, and
--     Transparent compares runs with the device alone. The other files look at the device
--     without the cache. Bitmap is bitmap.rs, Bitmap/Words one block of it and Bitmap/Alloc all
--     of them. Layout is the blocks of `DiskInode` of layout.rs: Layout/Total and Needs count
--     them, Grows and Increase follow `increase_size`, Clears, Places, Indirect and Returns
--     `clear_size`. Content is its `read_at` and `write_at`, over one device of bytes whose blocks
--     of ids are read through `ids_of`: Content/Bytes says what the bytes of a file are, Reads
--     follows the one, Writes and Stores the other. The inode is a value beside the device, as
--     `self` is in the code; that its own block is not one of its file is up to the callers.
--     Efs is efs.rs: Efs/Zeroed and Regions are about `create` and `open`, Inodes about places of
--     inodes and blocks of data. DirEntry is the names of directory entries.
--   Each part has a module Tests with runs at concrete states, EasyFs also Runs.
--
-- State is passed along: a method takes the record of its type and returns the new one. A method
-- that may panic returns an `Outcome`. `usize` is a number below 2^64 and sums wrap, as in a release
-- build; exit codes are integers. A lock is held for all of a method, so that it is one step. Where
-- the code locks a block that it has locked already, it would wait for itself for ever; this stands
-- as a panic.
-- A crash is a number of writes that the disk still takes; a write of a block is done as a whole or
-- not at all, and input and output do not fail otherwise.
-- Fuel: the passes of the deadlock check, each of which but the last finishes a thread, are one more
-- than the threads. The loop over the tables of an inode has one more than the blocks of data that
-- are left, and the loops of `read_at` and `write_at` one more than the bytes.
--
-- Not modelled: the switch of contexts, traps, devices and raw memory; page tables; the calls of the
-- kernels' main programs but those on mutexes, semaphores and condition variables; the directories
-- and file handles of tg-rcore-tutorial-easy-fs and the rest of fs-basic; the schedulers of
-- multicore/kernel, whose calls take one lock after another and so are no single steps.
pub mod Prelude
pub mod TaskManage
pub mod Sync
pub mod Ch5
pub mod Multicore
pub mod Signal
pub mod FsBasic
pub mod EasyFs
pub mod Ch8
