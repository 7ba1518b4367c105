-- ===== src/Trap.antt =====
-- kernel/src/trap.rs: page faults, copy on write, and the entry of every trap.
pub mod Cow
pub mod Fault
pub mod Handler
pub mod Ends
pub mod Return
