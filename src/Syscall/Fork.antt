-- ===== src/Syscall/Fork.antt =====
-- `sys_fork` of kernel/src/syscall.rs.
use unit.Base.{ℕ, ◌+◌, ◌-◌, not, none, some, ◌==◌, if◌then◌else◌, set}
use unit.Kernel.{
  Cmd, ◌>>=◌, ◌>>◌, pure, gets, modify, load, store, write_zeros, expect, add_usize, for_range,
}
use unit.Frame.{alloc_frame, alloc_contiguous_frames, inc_ref}
use unit.PageTable.Defs.{PageTable}
use unit.PageTable.Entry.{is_u, is_w, is_cow, clear_w, set_cow, flags, ppn_to_addr}
use unit.PageTable.Walk.{entry_at, for_each_leaf, kernel_vpn2_min, map, map_cow, new}
use unit.Syscall.Errors.{linux_error, eagain}
use unit.Task.TrapFrame.{TrapFrame, set_a0}
use unit.Task.Process.{Process, ready, kernel_stack_pages, kernel_stack_size}
use unit.Task.Scheduler.{current, find_empty_slot, alloc_pid}

-- A root entry of the kernel's half that is not 0 is shared with the child.
unfoldable pub copy_root_entry : ℕ → ℕ → ℕ → Cmd (Unit {0})
copy_root_entry parent_root child_root vpn2 = do
  pte ← load (entry_at parent_root vpn2)
  if pte == 0 then pure tt else store (entry_at child_root vpn2) pte

-- A writable entry becomes read-only and marked for copying.
unfoldable pub protect : ℕ → Cmd (Unit {0})
protect entry = do
  e ← load entry
  if is_w e then (do store entry (clear_w e); e ← load entry; store entry (set_cow e)) else pure tt

-- The first callback: a user page of the parent is shared with the child. What `map` returns is
-- ignored.
unfoldable pub share_leaf : PageTable → ℕ → ℕ → Cmd (Unit {0})
share_leaf child_pt vaddr entry = do
  e ← load entry
  if not (is_u e) then pure tt else do
    inc_ref (ppn_to_addr e)
    protect entry
    f ← load entry
    done ←
        if is_cow f
        then map_cow child_pt vaddr (ppn_to_addr e) (flags f)
        else map child_pt vaddr (ppn_to_addr e) (flags f)
    pure tt

-- The second callback: a kernel page is mapped in the child too.
unfoldable pub copy_kernel_leaf : PageTable → ℕ → ℕ → Cmd (Unit {0})
copy_kernel_leaf child_pt vaddr entry = do
  e ← load entry
  if is_u e then pure tt else do done ← map child_pt vaddr (ppn_to_addr e) (flags e); pure tt

-- The trap frame of the child: it returns 0 from the system call.
unfoldable pub child_frame : TrapFrame → Cmd TrapFrame
child_frame tf = do
  sepc ← add_usize tf.sepc 4
  pure (record (set_a0 tf 0) { sepc = sepc; scause = 8 })

-- A zeroed root table, with the kernel's half of the parent's.
unfoldable pub child_root : Cmd ℕ
child_root = do
  frame ← alloc_frame
  root_frame ← expect frame
  write_zeros root_frame 4096
  cur ← current
  for_range (512 - kernel_vpn2_min) kernel_vpn2_min (copy_root_entry cur.page_table.root root_frame)
  pure root_frame

-- A zeroed kernel stack.
unfoldable pub child_stack : Cmd ℕ
child_stack = do
  frames ← alloc_contiguous_frames kernel_stack_pages
  kernel_stack ← expect frames
  write_zeros kernel_stack kernel_stack_size
  pure kernel_stack

-- `PROCESS_LIST[idx] = Some(child)`.
abbrev pub store_process : ℕ → Process → Cmd (Unit {0})
store_process idx p = modify (λ k. record k { process_list = set k.process_list idx (some p) })

unfoldable pub fork_into : ℕ → Cmd ℕ
fork_into idx = do
  pid ← alloc_pid
  root_frame ← child_root
  kernel_stack ← child_stack
  cur ← current
  child_tf ← child_frame cur.trap_frame
  for_each_leaf (share_leaf (new root_frame)) cur.page_table 0 kernel_vpn2_min
  cur ← current
  for_each_leaf (copy_kernel_leaf (new root_frame)) cur.page_table 0 kernel_vpn2_min
  cur ← current
  store_process idx (record {
    pid = pid;
    parent_pid = cur.pid;
    state = ready;
    page_table = new root_frame;
    trap_frame = child_tf;
    kernel_sp = kernel_stack + kernel_stack_size;
    kernel_stack_frame = kernel_stack;
    heap_start = cur.heap_start;
    heap_end = cur.heap_end;
    mmap_areas = cur.mmap_areas;
  })
  pure pid

unfoldable pub sys_fork : Cmd ℕ
sys_fork = do
  slot ← gets (λ k. find_empty_slot k.process_list)
  elim slot [ none ↦ pure (linux_error eagain) | some idx ↦ fork_into idx ]
