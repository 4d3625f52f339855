-- ===== src/Fs.antt =====
-- kernel/src/fs: descriptor tables, pipes, the FAT32 table, directory entries, iterators and files, the
-- layout of a volume, block and page caches, the swap area.
pub mod FdTable
pub mod Pipe
pub mod Fat
pub mod DirEntry
pub mod DirIter
pub mod DirFile
pub mod Volume
pub mod Cache
pub mod PageCache
pub mod Swap
