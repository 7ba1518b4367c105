-- ===== src/Syscall/Dispatch.antt =====
-- `dispatch` of kernel/src/syscall.rs.
use unit.Base.{ℕ, ◌||◌, ◌==◌, if◌then◌else◌, replicate}
use unit.Kernel.{Cmd, ◌>>=◌, ◌>>◌, pure}
use unit.Syscall.Errors.{linux_error, enosys}
use unit.Syscall.Transfer.{Machine, sys_getcwd, sys_read, sys_write, sys_uname}
use unit.Syscall.Memory.{sys_brk, sys_mmap, sys_munmap}
use unit.Syscall.Exit.{sys_exit}
use unit.Syscall.Fork.{sys_fork}
use unit.Syscall.Wait.{sys_wait}
use unit.Task.Process.{empty_area, max_mmap_areas}
use unit.Task.Scheduler.{current, store_current}
use unit.Task.TrapFrame.{set_sp}

-- The number and the six arguments.
pub record Call : Type 0 where
  pub number : ℕ
  pub arg0 : ℕ
  pub arg1 : ℕ
  pub arg2 : ℕ
  pub arg3 : ℕ
  pub arg4 : ℕ
  pub arg5 : ℕ

-- The stub for `exec`.
unfoldable pub sys_exec : Cmd ℕ
sys_exec = do
  cur ← current
  store_current (record cur {
    trap_frame = record (set_sp cur.trap_frame 0x3f00_1000) { sepc = 0x10000 };
    heap_end = cur.heap_start;
    mmap_areas = replicate max_mmap_areas empty_area;
  })
  pure 0

unfoldable pub sys_getpid : Cmd ℕ
sys_getpid = do cur ← current; pure cur.pid

unfoldable pub sys_getppid : Cmd ℕ
sys_getppid = do cur ← current; pure cur.parent_pid

module _ (m : Machine) where
  unfoldable pub dispatch : Call → Cmd ℕ
  dispatch c =
      if c.number == 17
      then sys_getcwd m c.arg0 c.arg1
      else if c.number == 63
      then sys_read m c.arg0 c.arg1 c.arg2
      else if c.number == 64
      then sys_write m c.arg0 c.arg1 c.arg2
      else if c.number == 93 || c.number == 94
      then sys_exit c.arg0
      else if c.number == 160
      then sys_uname m c.arg0
      else if c.number == 215
      then sys_munmap c.arg0 c.arg1
      else if c.number == 172
      then sys_getpid
      else if c.number == 173
      then sys_getppid
      else if c.number == 174 || c.number == 175 || c.number == 176 || c.number == 177
      then pure 0
      else if c.number == 178
      then sys_getpid
      else if c.number == 214
      then sys_brk c.arg0
      else if c.number == 220
      then sys_fork
      else if c.number == 221
      then sys_exec
      else if c.number == 222
      then sys_mmap c.arg0 c.arg1 c.arg2 c.arg3 c.arg4 c.arg5
      else if c.number == 260
      then sys_wait m.store_word c.arg0
      else pure (linux_error enosys)
