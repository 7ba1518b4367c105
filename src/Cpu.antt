-- ===== src/Cpu.antt =====
-- The processor as the assembly in kernel/src/main.rs uses it: registers, control and status
-- registers, and straight pieces of code that run to the next jump.
pub mod Registers
pub mod TrapEntry
pub mod Saving
pub mod Smoke
pub mod SmokeTest
pub mod Restoring
pub mod RoundTrip
use unit.Base.{
  ℕ, ◌+◌, ◌-◌, ◌%◌, ◌^◌, Bool, true, false, not, List, [], ◌∷◌, ◌==◌, if◌then◌else◌, usize_end,
}
use unit.Kernel.{update}

-- `regs r` is the register x`r`, where x0 is not read, and `csrs` is indexed by the registers' numbers.
pub record Cpu : Type 0 where
  pub regs : ℕ → ℕ
  pub csrs : ℕ → ℕ
  pub memory : ℕ → ℕ

-- The places that the code jumps to, and the functions that it calls.
pub data Label : Type 0 where
  from_user trap_exit_restore kernel_trap_handler trap_handler reg_fail : Label

-- Operands stand in the order of the assembler. A negative immediate is its two's complement.
pub data Instr : Type 0 where
  li : ℕ → ℕ → Instr
  mv : ℕ → ℕ → Instr
  addi : ℕ → ℕ → ℕ → Instr
  ld : ℕ → ℕ → ℕ → Instr
  sd : ℕ → ℕ → ℕ → Instr
  csrr : ℕ → ℕ → Instr
  csrw : ℕ → ℕ → Instr
  csrrw : ℕ → ℕ → ℕ → Instr
  bnez : ℕ → Label → Instr
  bne : ℕ → ℕ → Label → Instr
  j : Label → Instr
  call : Label → Instr
  ecall : Instr
  sret : Instr

-- How a piece of code is left: at its end, by a jump, by a call or an `ecall` with the code that
-- follows it, or for user mode.
pub data Exit : Type 0 where
  falls : Cpu → Exit
  jumps : Label → Cpu → Exit
  calls : Label → Cpu → List Instr → Exit
  traps : Cpu → List Instr → Exit
  srets : Cpu → Exit

abbrev pub minus : ℕ → ℕ
minus n = usize_end - n

-- A register as an operand: x0 is 0.
abbrev pub operand : Cpu → ℕ → ℕ
operand c r = if r == 0 then 0 else c.regs r

-- A result: one for x0 is dropped.
abbrev pub put : Cpu → ℕ → ℕ → Cpu
put c r v = record c { regs = if r == 0 then c.regs else update c.regs r v }

abbrev pub put_csr : Cpu → ℕ → ℕ → Cpu
put_csr c i v = record c { csrs = update c.csrs i v }

-- The address of a load or a store.
abbrev pub at : Cpu → ℕ → ℕ → ℕ
at c offset base = (operand c base + offset) % usize_end

-- The rounds of the processor, up to the first jump.
unfoldable pub exec : List Instr → Cpu → Exit
exec [] c = falls c
exec (li rd v ∷ code) c = exec code (put c rd v)
exec (mv rd rs ∷ code) c = exec code (put c rd (operand c rs))
exec (addi rd rs v ∷ code) c = exec code (put c rd ((operand c rs + v) % usize_end))
exec (ld rd offset base ∷ code) c = exec code (put c rd (c.memory (at c offset base)))
exec (sd rs offset base ∷ code) c =
    exec code (record c { memory = update c.memory (at c offset base) (operand c rs) })
exec (csrr rd i ∷ code) c = exec code (put c rd (c.csrs i))
exec (csrw i rs ∷ code) c = exec code (put_csr c i (operand c rs))
exec (csrrw rd i rs ∷ code) c = exec code (put (put_csr c i (operand c rs)) rd (c.csrs i))
exec (bnez rs label ∷ code) c =
    let rest = exec code c in if operand c rs == 0 then rest else jumps label c
exec (bne rs rt label ∷ code) c =
    let rest = exec code c in if operand c rs == operand c rt then rest else jumps label c
exec (j label ∷ code) c = jumps label c
exec (call label ∷ code) c = calls label c code
exec (ecall ∷ code) c = traps c code
exec (sret ∷ code) c = srets c
