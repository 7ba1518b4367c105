-- ===== src/Examples/Calls.antt =====
-- The theorems on the way of a system call, where the saved frame asks for one.
use unit.Base.{ℕ, ◌≡◌, ◌==◌, refl, if◌then◌else◌, arith}
use unit.Kernel.{Kernel, returns, resumes, pure, store}
use unit.Syscall.Dispatch.{dispatch, sys_getpid}
use unit.Syscall.Transfer.{Machine}
use unit.Task.Process.{running}
use unit.Task.Scheduler.{current}
use unit.Task.Scheduler.Switch.{Runs, stack_frame, saved}
use unit.Trap.Handler.{user_trap}
use unit.Trap.Return.{answered, asked, user_trap-answered, user_trap-sys_exec}
use unit.Examples.Data.{sample, process}

-- A user memory that is the kernel's, and a console that reads 0 and shows nothing.
abbrev pub machine : Machine
machine = record {
  load_byte = λ a. pure 0;
  store_byte = λ a b. pure tt;
  store_word = store;
  read_char = pure 0;
  read_time = pure 0;
  set_timer = λ t. pure tt;
}

-- The frame at the top of the kernel stack of process 1 asks for the call `number`.
abbrev pub calling : ℕ → Kernel
calling number = record sample {
  memory = λ a. if a == 0x8000_0ff0 then 8 else if a == 0x8000_0f68 then number else 0;
}

pub calling-Runs : (number : ℕ) → Runs (calling number) (process 1 0 running)
calling-Runs number = record { at = refl; stack = omega arith }

pub getpid_returns :
    dispatch machine (asked (calling 172) 0x8000_1000) (saved (calling 172) (process 1 0 running))
    ≡ returns 1 (saved (calling 172) (process 1 0 running))
unfolding dispatch sys_getpid current
getpid_returns = refl

user_trap-answered_example :
    (i : Kernel) × (user_trap machine (calling 172) ≡ resumes i)
    × (i.process_list ≡ (saved (calling 172) (process 1 0 running)).process_list)
    × (i.current ≡ 0)
    × (stack_frame i.memory 0x8000_1000 ≡ answered (stack_frame (calling 172).memory 0x8000_1000) 1)
user_trap-answered_example =
    user_trap-answered machine (calling 172) (process 1 0 running) 1
      (saved (calling 172) (process 1 0 running)) (calling-Runs 172) refl getpid_returns refl

user_trap-sys_exec_example :
    (i : Kernel) × (user_trap machine (calling 221) ≡ resumes i)
    × (stack_frame i.memory 0x8000_1000 ≡ answered (stack_frame (calling 221).memory 0x8000_1000) 0)
user_trap-sys_exec_example =
    user_trap-sys_exec machine (calling 221) (process 1 0 running) (calling-Runs 221) refl refl
