-- ===== src/Examples.antt =====
-- Small concrete states, and the theorems about kernel/src applied to them.
mod Data
mod Frames
mod Traps
mod Areas
mod Tasks
mod Syscalls
mod Calls
mod Tables
mod Machines
mod System
