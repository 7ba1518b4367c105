-- ===== src/System.antt =====
-- What holds of the processes of the kernel (PROCESS_LIST, CURRENT and NEXT_PID of
-- kernel/src/task/scheduler.rs) whenever a user program runs.
pub mod Slots
pub mod Moves
pub mod Leaving
pub mod Calls
pub mod Transfers
pub mod Traps
pub mod Reach
use unit.Base.{ℕ, ◌<◌, ◌≤◌, ◌≡◌, Option, some, List, length, get_elem?}
use unit.Kernel.{Kernel, Outcome, returns, panics, resumes, shuts_down, diverges}
use unit.Mmap.Table.{IsTable}
use unit.Task.Process.{Process, running, user_heap_limit}
use unit.Task.Scheduler.{max_processes}
use unit.Task.TrapFrame

-- A process with a number below `next`, a kernel stack that can hold a trap frame, a well-formed table of
-- areas and a heap in bounds.
pub record IsProcess (next : ℕ) (p : Process) : Type 0 where
  pub number : p.pid < next
  pub stack : TrapFrame.size ≤ p.kernel_sp
  pub table : IsTable p.mmap_areas
  pub heap : (p.heap_start ≤ p.heap_end) × (p.heap_end ≤ user_heap_limit)

abbrev pub Holds : List (Option Process) → ℕ → Process → Type 0
Holds slots i p = get_elem? slots i ≡ some (some p)

-- Every slot is empty or holds such a process, and no two processes have one number.
pub record AreProcesses (next : ℕ) (slots : List (Option Process)) : Type 0 where
  pub size : length slots ≡ max_processes
  pub each : (i : ℕ) (p : Process) → Holds slots i p → IsProcess next p
  pub distinct :
      (i j : ℕ) (p q : Process) → Holds slots i p → Holds slots j q → p.pid ≡ q.pid → i ≡ j

-- No process but the one in slot `cur` is marked as running.
abbrev pub Alone : ℕ → List (Option Process) → Type 0
Alone cur slots = (i : ℕ) (p : Process) → Holds slots i p → p.state ≡ running → i ≡ cur

-- Inside of the kernel, where the current process may be marked as blocked or dead already.
pub record IsTasks (k : Kernel) : Type 0 where
  pub processes : AreProcesses k.next_pid k.process_list
  pub alone : Alone k.current k.process_list
  pub cur_in : k.current < max_processes

-- The current process is the one that is marked as running.
pub record IsSystem (k : Kernel) : Type 0 where
  pub tasks : IsTasks k
  pub current_runs :
      (p : Process) × (get_elem? k.process_list k.current ≡ some (some p)) × (p.state ≡ running)

-- A run of kernel code ends, and the processes are as they should be if it returns or a user program
-- goes on.
abbrev pub Keeps : {A : Type 0} → Outcome A → Type 0
Keeps (returns a j) = IsSystem j
Keeps panics = Unit
Keeps (resumes j) = IsSystem j
Keeps (shuts_down j) = Unit
Keeps diverges = ⊥
