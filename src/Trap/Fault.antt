-- ===== src/Trap/Fault.antt =====
-- `page_fault_handler` and `do_segfault` of kernel/src/trap.rs.
use unit.Base.{ℕ, Bool, not, none, some, ◌&&◌, ◌==◌, if◌then◌else◌}
use unit.Console.{bytes, puts, print_hex}
use unit.Kernel.{Cmd, ◌>>=◌, ◌>>◌, pure, load}
use unit.PageTable.Walk.{lookup}
use unit.PageTable.Entry.{is_cow, is_r, is_w, is_u}
use unit.Task.Process.{ProcessState, zombie}
use unit.Task.Scheduler.{current, store_current, reparent_orphans_to_init, wake_parent, schedule}
use unit.Trap.Cow.{handle_cow_fault}

-- `current().state = state`.
unfoldable pub set_state : ProcessState → Cmd (Unit {0})
set_state state = do cur ← current; store_current (record cur { state = state })

unfoldable pub print_segfault : ℕ → ℕ → Cmd (Unit {0})
print_segfault scause stval = do
  puts (bytes "\n[SEGFAULT] scause=0x")
  print_hex scause
  puts (bytes " stval=0x")
  print_hex stval
  puts (bytes "\n")

-- It does not return.
unfoldable pub do_segfault : {A : Type 0} → ℕ → ℕ → Cmd A
do_segfault scause stval = do
  print_segfault scause stval
  reparent_orphans_to_init
  set_state (zombie 1)
  wake_parent
  schedule

-- The entry is one that a store may make private.
abbrev pub is_shared : ℕ → Bool
is_shared e = is_cow e && is_r e && not (is_w e) && is_u e

unfoldable pub page_fault_handler : ℕ → ℕ → Cmd ℕ
page_fault_handler scause stval = if not (scause == 15) then do_segfault scause stval else do
  proc ← current
  found ← lookup proc.page_table stval
  elim found [
    | none ↦ do_segfault scause stval
    | some entry ↦ do
      e ← load entry
      if is_shared e then (do handle_cow_fault stval entry; pure 0) else do_segfault scause stval
  ]
