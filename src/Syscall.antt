-- ===== src/Syscall.antt =====
-- kernel/src/syscall.rs: the system calls and their dispatch.
pub mod Errors
pub mod Pages
pub mod Memory
pub mod Exit
pub mod Fork
pub mod Wait
pub mod Access
pub mod Transfer
pub mod Dispatch
pub mod Steady
pub mod Ends
pub mod Waiting
pub mod Children
pub mod Forking
pub mod NewPage
pub mod Rights
pub mod Backing
pub mod Break
pub mod Mapping
pub mod Mapped
pub mod Unmapping
pub mod Grants
