-- ===== src/Sync.antt =====
-- kernel/src/sync: blocking mutexes, semaphores, condition variables and futexes.
pub mod Mutex
pub mod Semaphore
pub mod Condvar
pub mod Futex
