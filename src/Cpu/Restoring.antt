-- ===== src/Cpu/Restoring.antt =====
-- What `trap_entry` of kernel/src/main.rs does behind `trap_handler`, and what `trap_exit_restore` gives
-- back to the user.
use unit.Base.{
  ℕ, ◌+◌, ◌-◌, ◌%◌, ◌≤◌, ◌<◌, ◌≡◌, ◌≢◌, true, false, if◌then◌else◌, refl, ap, ◌∙◌, sym, List, [],
  ◌∷◌, arith, usize_end, Bool-cases, inl, inr, ◌==◌,
}
use unit.Kernel.{update, within}
use unit.Cpu.{Cpu, exec, jumps, srets, trap_exit_restore}
use unit.Cpu.Registers.{a0, t0, t1, sp, sscratch, sstatus, sepc}
use unit.Cpu.TrapEntry.{entry_return, exit_restore}
use unit.Cpu.Saving.{Sees, words_at-Sees, registers}
use unit.Task.Stack.{words_at}
use unit.Task.Scheduler.Switch.{stack_frame}
use unit.Task.TrapFrame.{TrapFrame, size}
use unit.Trap.Return.{answered, stack_frame-written}

abbrev pub tail : List ℕ → List ℕ
tail [] = []
tail (x ∷ xs) = xs

module _ (c : Cpu) (top : ℕ) (below : c.regs sp + size ≡ top) (bound : top < usize_end) where
  abbrev word : ℕ → ℕ
  word q = c.memory ((c.regs sp + q) % usize_end)

  sees : Sees c.memory (c.regs sp) word
  sees q l = ap c.memory (omega arith)

  base_top : top - size ≡ c.regs sp
  base_top = omega arith

  found : (q : ℕ) → q < size → word q ≡ c.memory (top - size + q)
  found q l = ap c.memory (omega arith)

  regs_found : words_at c.memory (top - size) 32 ≡ words_at word 0 32
  regs_found =
      ap (λ (t : ℕ). words_at c.memory t 32) (omega arith)
      ∙ words_at-Sees c.memory (c.regs sp) word 32 0 (omega arith) sees

  -- With `sp` at a trap frame that ends at `top`, the user goes on with the registers of the frame but
  -- x0, with `sstatus` and `sepc` of the frame and with `top` in `sscratch`. No word of memory changes.
  pub exit_restore-Restores :
      (d : Cpu) × (exec exit_restore c ≡ srets d)
      × (registers d.regs 1 31 ≡ tail (stack_frame c.memory top).regs)
      × (d.csrs sstatus ≡ (stack_frame c.memory top).sstatus)
      × (d.csrs sepc ≡ (stack_frame c.memory top).sepc)
      × (d.csrs sscratch ≡ top)
      × (d.memory ≡ c.memory)
  unfolding exec exit_restore words_at
  exit_restore-Restores = (
    _,
    refl,
    ap tail (sym regs_found),
    found 256 (omega arith),
    found 264 (omega arith),
    omega arith,
    refl,
  )

-- The trap frame that `trap_exit_restore` gets behind a trap with this frame, for which the handler came
-- back with `v`.
abbrev pub returned : TrapFrame → ℕ → TrapFrame
returned f v = if f.scause == 8 then answered f v else f

returned_call :
    (m : ℕ → ℕ) (top v base x : ℕ)
    → base ≡ top - size
    → (m (base + 272) == 8) ≡ true
    → x ≡ (m (base + 264) + 4) % usize_end
    → stack_frame (update (update m (base + 80) v) (base + 264) x) top
      ≡ returned (stack_frame m top) v
returned_call m top v base x h is e =
    let there : (m (top - size + 272) == 8) ≡ true = rw (← h) is in
    let next : x ≡ (m (top - size + 264) + 4) % usize_end = rw (← h) e in
    rw (h, next, there) (stack_frame-written m top v)

returned_other :
    (m : ℕ → ℕ) (top v base : ℕ)
    → base ≡ top - size
    → (m (base + 272) == 8) ≡ false
    → stack_frame m top ≡ returned (stack_frame m top) v
returned_other m top v base h other =
    let there : (m (top - size + 272) == 8) ≡ false = rw (← h) other in rw there refl

-- Behind `trap_handler`, with `sp` at a trap frame and the result of the handler in `a0`, `trap_entry` jumps to
-- `trap_exit_restore`. For a trap by `ecall` the frame has got the result in `a0`, and `sepc` moved
-- behind the `ecall`; for any other trap it is the same. No word outside of the frame, no control and status
-- register and no register but `t0` and `t1` changes.
pub entry_return-Returns :
    (c : Cpu)
    → c.regs sp + size ≤ usize_end
    → (d : Cpu) × (exec entry_return c ≡ jumps trap_exit_restore d)
      × (stack_frame d.memory (c.regs sp + size)
          ≡ returned (stack_frame c.memory (c.regs sp + size)) (c.regs a0))
      × ((a : ℕ) → within (c.regs sp) size a ≡ false → d.memory a ≡ c.memory a)
      × ((r : ℕ) → r ≢ t0 → r ≢ t1 → d.regs r ≡ c.regs r)
      × (d.csrs ≡ c.csrs)
unfolding exec entry_return
entry_return-Returns c h = elim (Bool-cases (c.memory (c.regs sp + 272) == 8)) [
  | inl is ↦ rw (at_address 272 (omega arith)) (
      rw (at_address 80 (omega arith)) (
        rw (at_address 264 (omega arith)) (
          rw is (
            _,
            refl,
            returned_call c.memory (c.regs sp + size) (c.regs a0) (c.regs sp) _ (omega arith) is
                (ground arith),
            (λ a out. ground arith),
            (λ r h0 h1. ground arith),
            refl,
          ))))
  | inr other ↦ rw (at_address 272 (omega arith)) (
      rw other (
        _,
        refl,
        returned_other c.memory (c.regs sp + size) (c.regs a0) (c.regs sp) (omega arith) other,
        (λ a out. refl),
        (λ r h0 h1. ground arith),
        refl,
      ))
]
  where
    at_address : (q : ℕ) → q < size → (c.regs sp + q) % usize_end ≡ c.regs sp + q
    at_address q l = omega arith
