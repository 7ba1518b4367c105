-- ===== src/Syscall/Exit.antt =====
-- `sys_exit` of kernel/src/syscall.rs.
use unit.Base.{ℕ, not, if◌then◌else◌}
use unit.Kernel.{Cmd, ◌>>=◌, ◌>>◌, pure, load, store}
use unit.Frame.{dec_ref}
use unit.PageTable.Flags
use unit.PageTable.Entry
use unit.PageTable.Entry.{flags, ppn_to_addr}
use unit.PageTable.Walk.{for_each_leaf, kernel_vpn2_min}
use unit.Task.Process.{zombie}
use unit.Task.Scheduler.{current, reparent_orphans_to_init, wake_parent, schedule}
use unit.Trap.Fault.{set_state}

-- The callback: a user page is given up and its entry cleared.
unfoldable pub release_leaf : ℕ → ℕ → Cmd (Unit {0})
release_leaf vaddr entry = do
  e ← load entry
  if not (Flags.is_u (flags e))
      then pure tt
      else do left ← dec_ref (ppn_to_addr e); store entry Entry.empty

-- It does not return.
unfoldable pub sys_exit : {A : Type 0} → ℕ → Cmd A
sys_exit code = do
  reparent_orphans_to_init
  cur ← current
  for_each_leaf release_leaf cur.page_table 0 kernel_vpn2_min
  set_state (zombie code)
  wake_parent
  schedule
