-- ===== src/Trap/Handler.antt =====
-- `trap_handler` of kernel/src/trap.rs, and the assembly around it in kernel/src/main.rs: the return
-- path of `trap_entry`.
use unit.Base.{ℕ, ◌+◌, ◌*◌, ◌%◌, ◌||◌, ◌==◌, if◌then◌else◌, shr, get_elem?, usize_end}
use unit.Console.{bytes, puts, print_hex}
use unit.Kernel.{Cmd, ◌>>=◌, ◌>>◌, pure, gets, modify, add_usize, load, store, expect}
use unit.Syscall.Transfer.{Machine}
use unit.Syscall.Dispatch.{Call, dispatch}
use unit.Task.Scheduler.{current, save_trap_frame, frame_base, shutdown, resume}
use unit.Task.TrapFrame.{TrapFrame, reg_a0}
use unit.Trap.Fault.{page_fault_handler}

-- A register of a saved frame.
abbrev pub reg : TrapFrame → ℕ → Cmd ℕ
reg tf i = expect (get_elem? tf.regs i)

-- The system call that the registers of the current process ask for.
unfoldable pub requested : Cmd Call
requested = do
  cur ← current
  number ← reg cur.trap_frame 17
  a0 ← reg cur.trap_frame 10
  a1 ← reg cur.trap_frame 11
  a2 ← reg cur.trap_frame 12
  a3 ← reg cur.trap_frame 13
  a4 ← reg cur.trap_frame 14
  a5 ← reg cur.trap_frame 15
  pure
      (record { number = number; arg0 = a0; arg1 = a1; arg2 = a2; arg3 = a3; arg4 = a4; arg5 = a5 })

-- `trap_entry` behind the call of `trap_handler`, with `sp` at the saved frame, and then
-- `trap_exit_restore`: for a system call the result goes to `a0` and `sepc` moves on.
unfoldable pub trap_return : ℕ → ℕ → Cmd (Unit {0})
trap_return sp a0 = do
  scause ← load (sp + 272)
  if scause == 8
      then (do
        store (sp + reg_a0 * 8) a0
        sepc ← load (sp + 264)
        store (sp + 264) ((sepc + 4) % usize_end))
      else pure tt
  resume

unfoldable pub count_tick : Cmd (Unit {0})
count_tick = do
  ticks ← gets (λ k. k.tick_count)
  next ← add_usize ticks 1
  modify (λ k. record k { tick_count = next })

-- An exception that the kernel does not know.
unfoldable pub unknown_trap : {A : Type 0} → ℕ → Cmd A
unknown_trap scause = do
  puts (bytes "\n[TRAP]\n scause: 0x")
  print_hex scause
  puts (bytes "\n")
  shutdown

-- A trap from the kernel itself.
unfoldable pub kernel_trap_handler : {A : Type 0} → ℕ → ℕ → ℕ → ℕ → Cmd A
kernel_trap_handler scause sepc stval sstatus = do
  puts (bytes "\n[KERNEL TRAP]\n")
  puts (bytes " scause=0x")
  print_hex scause
  puts (bytes " sepc=0x")
  print_hex sepc
  puts (bytes " stval=0x")
  print_hex stval
  puts (bytes " sstatus=0x")
  print_hex sstatus
  puts (bytes "\n")
  shutdown

module _ (m : Machine) where
  -- An interrupt is counted and shown, and the next one is set.
  unfoldable pub handle_interrupt : Cmd ℕ
  handle_interrupt = do
    count_tick
    puts (bytes "tick ")
    ticks ← gets (λ k. k.tick_count)
    print_hex ticks
    puts (bytes "\n")
    now ← m.read_time
    next ← add_usize now 10000000
    m.set_timer next
    pure 0

  unfoldable pub trap_handler : ℕ → ℕ → Cmd ℕ
  trap_handler scause stval = do
    save_trap_frame
    if shr scause 63 == 1
        then handle_interrupt
        else if scause == 8
        then (do call ← requested; dispatch m call)
        else if scause == 12 || scause == 13 || scause == 15
        then page_fault_handler scause stval
        else unknown_trap scause

  -- A trap from user mode, with the frame saved on the kernel stack of the current process.
  unfoldable pub user_trap : Cmd (Unit {0})
  user_trap = do
    cur ← current
    sp ← frame_base cur
    scause ← load (sp + 272)
    stval ← load (sp + 280)
    a0 ← trap_handler scause stval
    trap_return sp a0
