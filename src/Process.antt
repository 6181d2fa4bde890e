-- ===== src/Process.antt =====
-- kernel/process: the queue of runnable processes and the scheduler over it.
pub mod Queue
pub mod Scheduler
mod Tests
