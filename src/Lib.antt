-- ===== src/Lib.antt =====
-- Verification of the Unit00 kernel, a RISC-V kernel with Sv39 page tables, copy-on-write fork and
-- a small set of Linux system calls (kernel/src).
--
-- The state. Kernel.antt holds the record `Kernel`: the physical memory as a map from byte addresses,
-- multiples of 8, to 64-bit words, the statics of kernel/src/mm/frame.rs (NEXT_FRAME, FRAME_REFS,
-- FREE_LIST_HEAD), of kernel/src/task/scheduler.rs (PROCESS_LIST, CURRENT, NEXT_PID) and of `trap_handler`
-- (TICK_COUNT), with the register satp and the bytes sent to the console. The kernel maps RAM at its
-- physical addresses, so a pointer is an address of that memory, and one memory serves page tables, the
-- links of the free list, kernel stacks and the contents of pages. A function of the kernel is a command
-- `Cmd A`: it takes the state to an outcome, which is a value and a new state, a panic, a jump into a
-- user program, or the end of the machine. `usize` arithmetic that overflows is a panic, as in the build
-- that the Makefile makes by default.
--
-- The parts, from the bottom up.
--   Base: numbers, lists, words and their bits.
--   Console: kernel/src/console.rs. Uart is the driver on a device that is a parameter; the rest of the
--   kernel sees `putchar` and `puts` append to the output. `print_hex` of kernel/src/trap.rs stands here.
--   Frame: kernel/src/mm/frame.rs. The allocator keeps a list of free frames, linked through their first
--   words, and a mark above which no frame was handed out, and counts references.
--   PageTable: kernel/src/mm/page_table.rs. Flags and Entry are the bits of an entry; Walk is the walk of
--   the three levels (`walk`, `lookup`, `map`, `map_cow`, `unmap`, `for_each_leaf`, `init_kernel`), in
--   which a reference to an entry is its address, so that the aliasing of entries is the memory's.
--   Task: kernel/src/task. Process and TrapFrame are the records, Stack the image of a trap frame on a
--   kernel stack, Scheduler the list of processes and the switch to the next one.
--   Mmap: the helpers of `mmap` and `munmap` in kernel/src/syscall.rs that work on the table of areas of
--   the current process, as functions of that table.
--   Trap: kernel/src/trap.rs. Cow is `handle_cow_fault`, Fault the page faults, Handler `trap_handler`
--   with its interrupts and `kernel_trap_handler`; `user_trap` is a trap from user mode and back.
--   Syscall: kernel/src/syscall.rs, with a file for each group of calls; Dispatch is `dispatch`.
--   Cpu: the assembly of kernel/src/main.rs on a processor of registers and memory. TrapEntry is
--   `trap_entry` and `trap_exit_restore`, Smoke the first test of the user program in the image.
--   Boot: `rust_main` of kernel/src/main.rs.
--   System: what holds of the processes whenever a user program runs, and why each trap keeps it.
--   Examples: small concrete states, to which the theorems are applied.
-- Proofs stand beside the definitions: Kernel/Steady is the notion of a command that ends, with a value or a
-- panic, and leaves the processes alone, with a Steady module for each part that has such commands;
-- Frame/FreeList the invariant of the allocator; PageTable/Walk/Mapping what a walk needs and keeps, Walk/Tree
-- what the tables mean as a function from pages to entries, and NewMiddle, NewLast and Walking that new tables
-- do not change it, Walk/Pages which addresses are of one page, Full, Identity and Init the tables of the kernel; Mmap/Table
-- the invariant of the table of areas; Task/Scheduler/Switch and Leave the two ways out of a process; the
-- modules of Syscall named for what a call does (Break, Mapping, Mapped, Unmapping, Forking, Waiting, Ends, Grants)
-- how each system call ends, with Syscall/NewPage, Backing and Rights for the pages that `mmap` maps; Cpu/Saving, Restoring and RoundTrip what the assembly keeps of the registers;
-- System/Moves and Leaving the steps that the calls share, and System/Reach the states that traps lead to.
-- `rust_main` ends in a state of the kind that System/Reach starts from. A trap there runs `trap_entry`,
-- which saves the registers on the kernel stack, and then `user_trap`, which reads that frame, calls
-- `trap_handler`, and so `dispatch` or `page_fault_handler`; these call the scheduler, the page tables and
-- the allocator. `trap_exit_restore` gives the registers back from the stack.
--
-- Loops and fuel. Loops over a table or a range are structural recursion. The loop of `find_mmap_gap`
-- has one round for each area and one more; each retry passes the end of an area for good. The loops
-- over the pages of a range, also of the program at boot, have a round for each page and one to leave. A
-- loop that used up its rounds has the outcome `diverges`. A wait for the device of the console has as many
-- rounds as its caller gives it, and `none` is a wait that goes on.
--
-- Not modelled: the caches of translations (`sfence.vma` does nothing); the firmware and the hardware of
-- the timer, which are parameters, with the end of the machine as an outcome; the registers stvec and sie,
-- and sscratch at boot; `_start`, whose cleared statics are the state that `rust_main` starts from; the text
-- of a panic, which is lost with its state; the system-call tests of the user program; the build and the
-- linker script. The processor's accesses to user memory with SUM set, the bytes that come in at the
-- console, and the timer are the parameter `Machine` of Syscall/Transfer.antt. Of its stores only those to
-- the user's half of the addresses, where the kernel has no memory of its own, are taken to leave the processes
-- alone (IsMachine): `sys_wait` writes its result to a pointer that nothing checks, and a theorem on it asks
-- that the pointer lie in that half. The sum in `MmapArea::end` is not checked for overflow in the model: the
-- areas of a well-formed table end below the limit of the region of `mmap`.
pub mod Base
pub mod PageTable
pub mod Task
pub mod Kernel
pub mod Cpu
pub mod Console
pub mod Frame
pub mod Mmap
pub mod Trap
pub mod System
pub mod Boot
pub mod Syscall
pub mod Examples
