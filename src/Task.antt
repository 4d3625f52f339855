-- ===== src/Task.antt =====
-- kernel/src/task: identifiers, kernel and user stacks, the ready queue, signals.
pub mod Ids
pub mod Manager
pub mod Signals
