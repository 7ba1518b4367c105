-- ===== src/Task.antt =====
-- kernel/src/task: processes, trap frames and the scheduler.
pub mod TrapFrame
pub mod Process
pub mod Stack
pub mod Scheduler
pub mod Image
