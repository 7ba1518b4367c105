-- ===== src/Examples/Machines.antt =====
-- The theorems about the assembly and the console of kernel/src, at small machines.
use unit.Base.{
  ℕ, ◌+◌, ◌%◌, ◌≡◌, ◌≢◌, ◌<◌, refl, Bool, true, false, List, [], ◌∷◌, ◌++◌, ◌==◌, if◌then◌else◌,
  bit_and, arith, usize_end, set, length, some,
}
use unit.Console.{bytes, puts, print_hex}
use unit.Console.Digits.{read_hex, print_hex-read_hex}
use unit.Console.Sends.{IsUart, putstr-Sends}
use unit.Console.Uart.{Device, putstr}
use unit.Cpu.{Cpu, Exit, exec, jumps, calls, traps, srets, trap_exit_restore, trap_handler}
use unit.Cpu.Registers.{a7, t0, t1, sscratch, sstatus, sepc}
use unit.Cpu.Restoring.{returned, entry_return-Returns}
use unit.Cpu.RoundTrip.{ecall-Answers}
use unit.Cpu.Saving.{registers}
use unit.Cpu.Smoke.{register_test, register_check}
use unit.Cpu.SmokeTest.{Have, expected, Detects, register_test-Detects}
use unit.Cpu.TrapEntry.{entry_head, entry_save, entry_return, exit_restore, trap_entry}
use unit.Kernel.{Kernel, returns, resumes, within}
use unit.Syscall.Dispatch.{dispatch, sys_getpid}
use unit.Task.Process.{running}
use unit.Task.Scheduler.{current}
use unit.Task.Scheduler.Switch.{Runs, saved, stack_frame}
use unit.Trap.Handler.{user_trap}
use unit.Trap.Return.{asked}
use unit.Examples.Data.{sample, process}
use unit.Examples.Calls.{machine}

-- The user program asks for its number, with the number of each register in it.
abbrev asking : Cpu
asking = record {
  regs = λ r. if r == 17 then 172 else r;
  csrs = λ i.
      if i == 0x140
      then 0x8000_1000
      else if i == 0x142
      then 8
      else if i == 0x141
      then 0x1_0040
      else 32;
  memory = λ a. 0;
}

abbrev at_call : Exit → Cpu
at_call (calls label c code) = c
at_call other = asking

-- The processor at the call of `trap_handler`.
abbrev handling : Cpu
unfolding trap_entry exec entry_head entry_save
handling = at_call (trap_entry asking)

-- The kernel behind `trap_entry`.
abbrev trapped : Kernel
unfolding trap_entry exec entry_head entry_save
trapped = record sample { memory = handling.memory }

asking-entered : trap_entry asking ≡ calls trap_handler handling entry_return
unfolding trap_entry exec entry_head entry_save
asking-entered = refl

trapped-Runs : Runs trapped (process 1 0 running)
unfolding trapped
trapped-Runs = record { at = refl; stack = omega arith }

trapped_returns :
    dispatch machine (asked trapped 0x8000_1000) (saved trapped (process 1 0 running))
    ≡ returns 1 (saved trapped (process 1 0 running))
unfolding trap_entry exec entry_head entry_save dispatch sys_getpid current
trapped_returns = refl

trapped_memory : trapped.memory ≡ handling.memory
unfolding trapped handling
trapped_memory = refl

-- Back at `trap_exit_restore`, with `sp` at the frame.
abbrev leaving : Cpu
leaving = record asking { regs = λ r. if r == 2 then 0x8000_0ee0 else 0 }

ecall-Answers_example :
    (i : Kernel) × (e : Cpu) × (user_trap machine trapped ≡ resumes i)
    × (exec exit_restore (record leaving { memory = i.memory }) ≡ srets e)
    × (registers e.regs 1 31 ≡ set (registers asking.regs 1 31) 9 1)
    × (e.csrs sepc ≡ (asking.csrs sepc + 4) % usize_end)
    × (e.csrs sstatus ≡ asking.csrs sstatus)
    × (e.csrs sscratch ≡ asking.csrs sscratch)
    × (e.memory ≡ i.memory)
ecall-Answers_example =
    ecall-Answers machine asking trapped (process 1 0 running) 1
      (saved trapped (process 1 0 running)) handling leaving trapped-Runs refl (omega arith) refl
      asking-entered trapped_memory trapped_returns refl refl

entry_return-Returns_example :
    (d : Cpu) × (exec entry_return leaving ≡ jumps trap_exit_restore d)
    × (stack_frame d.memory (0x8000_0ee0 + 288)
        ≡ returned (stack_frame leaving.memory (0x8000_0ee0 + 288)) 0)
    × ((a : ℕ) → within 0x8000_0ee0 288 a ≡ false → d.memory a ≡ leaving.memory a)
    × ((r : ℕ) → r ≢ t0 → r ≢ t1 → d.regs r ≡ leaving.regs r)
    × (d.csrs ≡ leaving.csrs)
entry_return-Returns_example = entry_return-Returns leaving (omega arith)

register_test-Detects_example :
    (d : Cpu) × (exec register_test asking ≡ traps d register_check)
    × (d.regs a7 ≡ 172)
    × Have d.regs expected
    × Detects leaving
register_test-Detects_example = register_test-Detects asking leaving

print_hex-read_hex_example :
    (text : List ℕ) × (print_hex 0x2a sample ≡ returns tt (record sample { output = [] ++ text }))
    × (length text ≡ 16)
    × (read_hex text ≡ some 0x2a)
print_hex-read_hex_example = print_hex-read_hex 0x2a sample (omega arith)

-- A device that is busy for one read of its status after each byte.
abbrev read_uart : ℕ → Bool × List ℕ → ℕ × (Bool × List ℕ)
read_uart r (true, sent) = (0, (false, sent))
read_uart r (false, sent) = (0x60, (false, sent))

abbrev write_uart : ℕ → ℕ → Bool × List ℕ → Bool × List ℕ
write_uart r c (busy, sent) = (true, sent ++ c ∷ [])

abbrev uart : Device (Bool × List ℕ)
uart = record { read_reg = read_uart; write_reg = write_uart }

abbrev sent : Bool × List ℕ → List ℕ
sent s = s.1

abbrev rounds : Bool × List ℕ → ℕ
rounds s = if s.0 then 1 else 0

uart-IsUart : IsUart uart sent rounds
uart-IsUart = record {
  polled = λ s. polled s.0 s.1;
  busy = λ s. busy s.0 s.1;
  written = λ s c. written s.0 s.1 c;
}
  where
    polled : (b : Bool) (l : List ℕ) → sent (read_uart 5 (b, l)).1 ≡ l
    polled true l = refl
    polled false l = refl

    busy :
        (b : Bool) (l : List ℕ)
        → (bit_and (read_uart 5 (b, l)).0 0x20 == 0) ≡ true
        → rounds (read_uart 5 (b, l)).1 < rounds (b, l)
    busy true l e = omega arith
    busy false l e = absurd (cc)

    written :
        (b : Bool) (l : List ℕ) (c : ℕ)
        → (bit_and (read_uart 5 (b, l)).0 0x20 == 0) ≡ false
        → sent (write_uart 0 c (read_uart 5 (b, l)).1) ≡ l ++ c ∷ []
    written true l c e = refl
    written false l c e = refl

rounds-lt : (s : Bool × List ℕ) → rounds s < 2
rounds-lt s = ground arith

putstr-Sends_example :
    (t : Bool × List ℕ) × (j : Kernel) × (putstr uart 2 (bytes "ok\n") (false, []) ≡ some t)
    × (puts (bytes "ok\n") sample ≡ returns tt j)
    × (sent t ≡ j.output)
putstr-Sends_example =
    putstr-Sends uart sent rounds uart-IsUart 2 rounds-lt (bytes "ok\n") (false, []) sample refl
