-- ===== src/Cpu/Smoke.antt =====
-- The first part of the user program in kernel/src/main.rs: a test that a system call keeps the
-- registers, and the text that it writes when it passes.
use unit.Base.{List, [], ◌∷◌}
use unit.Cpu.Registers.{
  a0, a1, a2, a3, a4, a5, a6, a7, gp, s0, s1, s10, s11, s2, s3, s4, s5, s6, s7, s8, s9, sp, t0, t1,
  t2, t3, t4, t5, t6, tp,
}
use unit.Cpu.{Instr, li, mv, addi, sd, bne, ecall, minus, reg_fail}

-- `OK` and a line feed are written to the console.
unfoldable pub print_ok : List Instr
print_ok =
    addi sp sp (minus 16)
    ∷ li t0 0x0a4b4f
    ∷ sd t0 0 sp
    ∷ li a7 64
    ∷ li a0 1
    ∷ mv a1 sp
    ∷ li a2 3
    ∷ ecall
    ∷ addi sp sp 16
    ∷ []

-- Each register is compared with the value that it had before the call.
unfoldable pub register_check : List Instr
unfolding print_ok
register_check =
    li a0 0x3333
    ∷ bne gp a0 reg_fail
    ∷ li a0 0x4444
    ∷ bne tp a0 reg_fail
    ∷ li a0 0x1005
    ∷ bne t0 a0 reg_fail
    ∷ li a0 0x1006
    ∷ bne t1 a0 reg_fail
    ∷ li a0 0x1007
    ∷ bne t2 a0 reg_fail
    ∷ li a0 0x1008
    ∷ bne s0 a0 reg_fail
    ∷ li a0 0x1009
    ∷ bne s1 a0 reg_fail
    ∷ li a0 0x200b
    ∷ bne a1 a0 reg_fail
    ∷ li a0 0x200c
    ∷ bne a2 a0 reg_fail
    ∷ li a0 0x200d
    ∷ bne a3 a0 reg_fail
    ∷ li a0 0x200e
    ∷ bne a4 a0 reg_fail
    ∷ li a0 0x200f
    ∷ bne a5 a0 reg_fail
    ∷ li a0 0x2010
    ∷ bne a6 a0 reg_fail
    ∷ li a0 0x1012
    ∷ bne s2 a0 reg_fail
    ∷ li a0 0x1013
    ∷ bne s3 a0 reg_fail
    ∷ li a0 0x1014
    ∷ bne s4 a0 reg_fail
    ∷ li a0 0x1015
    ∷ bne s5 a0 reg_fail
    ∷ li a0 0x1016
    ∷ bne s6 a0 reg_fail
    ∷ li a0 0x1017
    ∷ bne s7 a0 reg_fail
    ∷ li a0 0x1018
    ∷ bne s8 a0 reg_fail
    ∷ li a0 0x1019
    ∷ bne s9 a0 reg_fail
    ∷ li a0 0x101a
    ∷ bne s10 a0 reg_fail
    ∷ li a0 0x101b
    ∷ bne s11 a0 reg_fail
    ∷ li a0 0x101c
    ∷ bne t3 a0 reg_fail
    ∷ li a0 0x101d
    ∷ bne t4 a0 reg_fail
    ∷ li a0 0x101e
    ∷ bne t5 a0 reg_fail
    ∷ li a0 0x101f
    ∷ bne t6 a0 reg_fail
    ∷ print_ok

-- Registers get different values, and `getpid` is called.
unfoldable pub register_test : List Instr
unfolding register_check
register_test =
    li gp 0x3333
    ∷ li tp 0x4444
    ∷ li t0 0x1005
    ∷ li t1 0x1006
    ∷ li t2 0x1007
    ∷ li s0 0x1008
    ∷ li s1 0x1009
    ∷ li a1 0x200b
    ∷ li a2 0x200c
    ∷ li a3 0x200d
    ∷ li a4 0x200e
    ∷ li a5 0x200f
    ∷ li a6 0x2010
    ∷ li s2 0x1012
    ∷ li s3 0x1013
    ∷ li s4 0x1014
    ∷ li s5 0x1015
    ∷ li s6 0x1016
    ∷ li s7 0x1017
    ∷ li s8 0x1018
    ∷ li s9 0x1019
    ∷ li s10 0x101a
    ∷ li s11 0x101b
    ∷ li t3 0x101c
    ∷ li t4 0x101d
    ∷ li t5 0x101e
    ∷ li t6 0x101f
    ∷ li a7 172
    ∷ ecall
    ∷ register_check
