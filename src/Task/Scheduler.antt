-- ===== src/Task/Scheduler.antt =====
-- kernel/src/task/scheduler.rs: the process list and the switch to the next process.
use unit.Base.{
  ℕ, zero, suc, ◌+◌, ◌-◌, ◌%◌, Bool, true, false, not, ◌&&◌, ◌||◌, Option, none, some, List, [],
  ◌∷◌, ltb, ◌==◌, if◌then◌else◌, get_elem?, set, usize_end,
}
pub mod Pick
pub mod Switch
pub mod Leave
pub mod Family
use mathlib.Core.Option
use mathlib.Core.List.{map}
use unit.Kernel.{
  Kernel, Cmd, ◌>>=◌, ◌>>◌, pure, panic, gets, modify, expect, add_usize, resumes, shuts_down,
}
use unit.Task.TrapFrame
use unit.Task.TrapFrame.{TrapFrame}
use unit.Task.Stack.{read_from_stack, write_to_stack}
use unit.Task.Process.{Process, ProcessState, ready, running, blocked, gone, zombie}
use unit.PageTable.Walk.{satp_val}

abbrev pub max_processes : ℕ
max_processes = 32

-- `state == ProcessState::Gone` and so on.
abbrev pub is_gone : ProcessState → Bool
is_gone gone = true
is_gone _ = false

abbrev pub is_blocked : ProcessState → Bool
is_blocked blocked = true
is_blocked _ = false

abbrev pub is_ready : ProcessState → Bool
is_ready ready = true
is_ready _ = false

-- A slot that a new process may take.
abbrev pub vacant : Option Process → Bool
vacant none = true
vacant (some p) = is_gone p.state

unfoldable pub find_empty_slot : List (Option Process) → Option ℕ
find_empty_slot [] = none
find_empty_slot (slot ∷ slots) =
    if vacant slot then some 0 else Option.map suc (find_empty_slot slots)

unfoldable pub alloc_pid : Cmd ℕ
alloc_pid = do
  pid ← gets (λ k. k.next_pid)
  next ← add_usize pid 1
  modify (λ k. record k { next_pid = next })
  pure pid

abbrev pub occupant : Option (Option Process) → Option Process
occupant none = none
occupant (some slot) = slot

-- The index is checked as well as the slot.
unfoldable pub current : Cmd Process
current = do slot ← gets (λ k. get_elem? k.process_list k.current); expect (occupant slot)

-- A write through the reference that `current()` gives.
abbrev pub store_current : Process → Cmd (Unit {0})
store_current p = modify (λ k. record k { process_list = set k.process_list k.current (some p) })

-- A child of `cur_pid` that is not gone becomes a child of process 1.
unfoldable pub adopt : ℕ → Option Process → Option Process
adopt cur_pid none = none
adopt cur_pid (some p) =
    some
      (if p.parent_pid == cur_pid && not (is_gone p.state) then record p { parent_pid = 1 } else p)

unfoldable pub reparent_orphans_to_init : Cmd (Unit {0})
reparent_orphans_to_init = do
  cur ← current
  modify (λ k. record k { process_list = map (adopt cur.pid) k.process_list })

abbrev pub waits : ℕ → Option Process → Bool
waits pid none = false
waits pid (some p) = p.pid == pid && is_blocked p.state

abbrev pub awake : Option Process → Option Process
awake none = none
awake (some p) = some (record p { state = ready })

-- The loop of `wake_parent`: the first blocked process with this number becomes ready.
unfoldable pub wake : ℕ → List (Option Process) → List (Option Process)
wake pid [] = []
wake pid (slot ∷ slots) = if waits pid slot then awake slot ∷ slots else slot ∷ wake pid slots

unfoldable pub wake_parent : Cmd (Unit {0})
wake_parent = do
  cur ← current
  modify (λ k. record k { process_list = wake cur.parent_pid k.process_list })

abbrev pub runnable : Option (Option Process) → Bool
runnable (some (some p)) = is_ready p.state
runnable _ = false

-- The rounds of `pick_next` from `i` on; `max_processes` says that nothing can run.
unfoldable pub pick_from : ℕ → ℕ → List (Option Process) → ℕ → ℕ
pick_from zero i slots cur = max_processes
pick_from (suc n) i slots cur =
    let idx = (cur + i) % max_processes in
    let rest = pick_from n (i + 1) slots cur in if runnable (get_elem? slots idx) then idx else rest

unfoldable pub pick_next : List (Option Process) → ℕ → ℕ
pick_next slots cur = pick_from max_processes 1 slots cur

-- `kernel_sp - TrapFrame::SIZE`, checked.
abbrev pub frame_base : Process → Cmd ℕ
frame_base p = if ltb p.kernel_sp TrapFrame.size then panic else pure (p.kernel_sp - TrapFrame.size)

-- The first part of `schedule`, also of `trap_handler`: the trap frame on the stack is copied to the
-- process.
unfoldable pub save_trap_frame : Cmd (Unit {0})
save_trap_frame = do
  cur ← current
  base ← frame_base cur
  tf ← read_from_stack base
  store_current (record cur { trap_frame = tf })

abbrev pub resume : {A : Type 0} → Cmd A
resume k = resumes k

abbrev pub shutdown : {A : Type 0} → Cmd A
shutdown k = shuts_down k

-- The rest of `schedule`: the process in slot `next_idx` runs, with its page table and trap frame.
unfoldable pub switch_to : {A : Type 0} → ℕ → Cmd A
switch_to next_idx = do
  modify (λ k. record k { current = next_idx })
  next ← current
  store_current (record next { state = running })
  base ← frame_base next
  write_to_stack next.trap_frame base
  modify (λ k. record k { satp = satp_val next.page_table })
  resume

unfoldable pub schedule : {A : Type 0} → Cmd A
schedule = do
  save_trap_frame
  next_idx ← gets (λ k. pick_next k.process_list k.current)
  if next_idx == max_processes then shutdown else switch_to next_idx
