-- ===== src/Lib.antt =====
-- Models of the kernel in kernel/src and theorems about them.
--
-- The kernel is a Unix-like system for RISC-V: physical frames and Sv39 page tables (mm), tasks and
-- their identifiers (task), synchronization (sync), descriptors, pipes and a FAT32 file system (fs), and
-- timers. A system call reaches a component through the tables of the process that runs. A memory set
-- maps its areas with frames of the allocator into its page table; a file reads and writes sectors
-- through page caches, and directories and the allocation table through block caches.
--
-- Common            lists, tests, words of 64 and 32 bits with their wrap-around, members of
--                   lists, bit operations by numerals, error numbers, and the pool of handed-out
--                   numbers that the frame allocator and the identifier allocators share
-- Mm.Address        kernel/src/mm/address.rs: the four address types as numbers; `SimpleRange`
-- Mm.FrameAllocator kernel/src/mm/frame_allocator.rs: `StackFrameAllocator`, `FrameTracker`;
--                   Frames has the invariant, Trackers whole histories of trackers
-- Mm.PageTable      kernel/src/mm/page_table.rs: entries, and tables in a memory of entries by
--                   page and index; Tree is the tree of pages, Walk and Grow what writes and new
--                   pages do to it, Mapping one round of `find_pte_create`, Spec the map from page
--                   numbers to entries, Create, Update and Remove the operations
-- Mm.UserBuffer     `UserBuffer` of kernel/src/mm/page_table.rs
-- Mm.MemorySet      kernel/src/mm/memory_set.rs: `MapArea` and its map of trackers; Space has the
--                   operations of `MemorySet` on it, Unmapping the proofs on `unmap` and `munmap`
-- Task.Ids          kernel/src/task/id.rs: `RecycleAllocator`, and where stacks and trap contexts
--                   lie
-- Task.Manager      kernel/src/task/manager.rs, and the calls of kernel/src/task/mod.rs that
--                   suspend or block a task
-- Task.Signals      kernel/src/task/signal.rs, action.rs and syscall/signal.rs: flags, masks, actions
--                   and the calls on them; Masks has the proofs
-- Fs.FdTable        kernel/src/fs/mod.rs: `FdTable`; Slots has the lemmas on its lists, Laws and
--                   Reuse the operations
-- Fs.Pipe           kernel/src/fs/dev/pipe.rs: the ring as a queue (Ring), rounds of the loops
--                   (Transfers), and rounds of several tasks (Stream)
-- Fs.Fat            kernel/src/fs/fat32/bitmap.rs: places of entries (Places), chains (Chains)
--                   and the walk along one (Walk), the search (Search), `alloc` (Grow, Twice) and
--                   `free` (Free)
-- Fs.DirEntry       kernel/src/fs/fat32/layout.rs: short and long entries and the names they carry
--                   (Names)
-- Fs.DirIter        kernel/src/fs/fat32/dir_iter.rs: `DirIter` and `DirWalker` over the entries of a
--                   directory; Positions has single steps, Listing `ls`
-- Fs.DirFile        kernel/src/fs/fat32/vfs.rs: entries of a directory allocated, created and deleted;
--                   Creation has the entries that are written, Files what `ls` makes of them
-- Fs.Volume         kernel/src/fs/fat32/efs.rs, and sectors of files in vfs.rs (Sectors)
-- Fs.Cache          kernel/src/fs/cache.rs: `BufferCache` and `BlockCacheManager`; Contents compares
--                   them with the blocks they stand for
-- Fs.PageCache      kernel/src/fs/cache.rs: `PageCache` and `PageCacheManager`; Runs and Transfers
--                   have reading and writing of sectors, Allocated the table of caches
-- Fs.Swap           kernel/src/fs/swap.rs: the bitmap of pages
-- Sync.Mutex        kernel/src/sync/mutex.rs: `MutexBlocking`, and tasks that use it as a step
--                   relation
-- Sync.Semaphore    kernel/src/sync/semaphore.rs: `Semaphore` against a number of permits
-- Sync.Condvar      kernel/src/sync/condvar.rs
-- Sync.Futex        kernel/src/sync/futex.rs: queues by address, over the queues of Task.Manager
-- Timer             kernel/src/timer.rs: `TimeSpec`, `TimeVal`, `Times`
--
-- A method that changes its object takes the state and returns the new one. A panic, which ends the
-- kernel, is `none`, where the result is not already an error number. Arithmetic on `usize` wraps, since
-- the kernel is built for release. A loop that may wait for other tasks is one round, with what it
-- returns or goes on with; other tasks act between rounds. `get_all_clus_num` takes a number of rounds,
-- which suffices when it exceeds the links of the chain, and so when it is the number of entries of the
-- table, for a chain in the table; `collect` one more than the range. Physical
-- memory is mapped onto itself, so a table's page is read and written by its number; clearing a frame
-- when it is allocated is a write to it. The allocation table is read as the words of the disk.
-- `alloc_buffer_cache` takes a number of rounds, and three suffice while some cache has no clone: a
-- priority is at most one, so the second round evicts a cache. `DirIter::next` takes a number of steps, and
-- one more than the entries that are left suffices. `alloc_dir_ent` has two rounds for each entry, one to
-- find it and one for a cluster that the directory may get before it.
--
-- Parameters stand for what is not in kernel/src: the blocks of a device, which keep what is written to
-- them; what the clusters hold that a directory gets; the decoding of UTF-16 and UTF-8, which keeps a
-- string of plain characters; and the length of a name
-- in bytes.
--
-- Not modelled: loading of programs by xmas_elf and the copying of bytes into areas; short names
-- and contents of files; the tree of directories;
-- processes and most system calls; drivers, traps and context switches, which are device access and
-- assembly; and the libraries in kernel/vendor and dependency.
pub mod Common
pub mod Mm
pub mod Task
pub mod Fs
pub mod Sync
pub mod Timer
