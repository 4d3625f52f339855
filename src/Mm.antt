-- ===== src/Mm.antt =====
-- kernel/src/mm: addresses, physical frames, page tables, user buffers, memory sets.
pub mod Address
pub mod FrameAllocator
pub mod PageTable
pub mod UserBuffer
pub mod MemorySet
