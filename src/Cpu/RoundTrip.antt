-- ===== src/Cpu/RoundTrip.antt =====
-- A system call from the `ecall` of the user program to its next instruction: the assembly of
-- kernel/src/main.rs round `trap_handler` of kernel/src/trap.rs.
use unit.Base.{ℕ, ◌+◌, ◌%◌, ◌≤◌, ◌<◌, ◌≡◌, refl, ap, ◌∙◌, arith, usize_end, set}
use unit.Kernel.{Kernel, returns, resumes}
use unit.Cpu.{Cpu, exec, calls, srets, trap_handler}
use unit.Cpu.Registers.{sp, sscratch, sstatus, sepc, scause}
use unit.Cpu.TrapEntry.{trap_entry, entry_return, exit_restore}
use unit.Cpu.Saving.{registers, frame_of, trap_entry-Saves}
use unit.Cpu.Restoring.{tail, exit_restore-Restores}
use unit.Syscall.Dispatch.{dispatch}
use unit.Syscall.Transfer.{Machine}
use unit.Task.Process.{Process}
use unit.Task.Scheduler.Switch.{Runs, saved, stack_frame}
use unit.Task.TrapFrame.{TrapFrame, set_a0, size}
use unit.Trap.Handler.{user_trap}
use unit.Trap.Return.{asked, answered, user_trap-answered}

frame_saved :
    (u d : Cpu)
    → size ≤ u.csrs sscratch
    → u.csrs sscratch < usize_end
    → trap_entry u ≡ calls trap_handler d entry_return
    → stack_frame d.memory (u.csrs sscratch) ≡ frame_of u
frame_saved u d room top e =
    let s = trap_entry-Saves u room top in
    let same : d.memory ≡ s.0.memory = cc (s.1) in
    ap (λ m. stack_frame m (u.csrs sscratch)) same ∙ s.6

-- The registers of the answered frame, behind x0.
tail-answered :
    (u : Cpu) (v : ℕ) → tail (answered (frame_of u) v).regs ≡ set (registers u.regs 1 31) 9 v
unfolding set_a0
tail-answered u v = refl

module _ (m : Machine) (u : Cpu) (k : Kernel) (p : Process) (v : ℕ) (j : Kernel) (d c : Cpu)
    (r : Runs k p) (stack : p.kernel_sp ≡ u.csrs sscratch) (top : p.kernel_sp < usize_end)
    (is_call : u.csrs scause ≡ 8) (entered : trap_entry u ≡ calls trap_handler d entry_return)
    (memory : k.memory ≡ d.memory)
    (call : dispatch m (asked k p.kernel_sp) (saved k p) ≡ returns v j)
    (left : stack_frame j.memory p.kernel_sp ≡ stack_frame k.memory p.kernel_sp)
    (at_frame : c.regs sp + size ≡ p.kernel_sp) where
  on_stack : stack_frame k.memory p.kernel_sp ≡ frame_of u
  on_stack =
      ap (λ mem. stack_frame mem p.kernel_sp) memory
      ∙ ap (stack_frame d.memory) stack
      ∙ frame_saved u d (omega (arith, r.stack)) (omega arith) entered

  -- The processor in a state `u` of the user program takes a trap by `ecall`, with `sscratch` at the top
  -- of the kernel stack of the process that runs in the state `k`, whose memory is the one that
  -- `trap_entry` leaves. Where `dispatch` comes back with the value `v` and the saved frame unchanged,
  -- the user goes on behind the `ecall` with `v` in `a0`, all other registers and `sstatus` as they
  -- were, and the same `sscratch`, ready for the next trap.
  pub ecall-Answers :
      (i : Kernel) × (e : Cpu) × (user_trap m k ≡ resumes i)
      × (exec exit_restore (record c { memory = i.memory }) ≡ srets e)
      × (registers e.regs 1 31 ≡ set (registers u.regs 1 31) 9 v)
      × (e.csrs sepc ≡ (u.csrs sepc + 4) % usize_end)
      × (e.csrs sstatus ≡ u.csrs sstatus)
      × (e.csrs sscratch ≡ u.csrs sscratch)
      × (e.memory ≡ i.memory)
  unfolding set_a0
  ecall-Answers =
      let (i, out, _, _, frame) =
        user_trap-answered m k p v j r (ap TrapFrame.scause on_stack ∙ is_call) call left in
      let same : stack_frame i.memory p.kernel_sp ≡ answered (frame_of u) v =
        frame ∙ ap (λ f. answered f v) on_stack in
      let (e, leaves, regs, status, pc, scratch, mem) =
        exit_restore-Restores (record c { memory = i.memory }) p.kernel_sp at_frame top in
      (
        i,
        e,
        out,
        leaves,
        regs ∙ ap (λ f. tail (TrapFrame.regs f)) same ∙ tail-answered u v,
        pc ∙ ap TrapFrame.sepc same,
        status ∙ ap TrapFrame.sstatus same,
        scratch ∙ stack,
        mem,
      )
