-- ===== src/Cpu/TrapEntry.antt =====
-- `trap_entry` and `trap_exit_restore` of kernel/src/main.rs, instruction by instruction.
use unit.Base.{List, [], ◌∷◌}
use unit.Cpu.Registers.{
  a0, a1, a2, a3, a4, a5, a6, a7, gp, ra, s0, s1, s10, s11, s2, s3, s4, s5, s6, s7, s8, s9, scause,
  sepc, sp, sscratch, sstatus, stval, t0, t1, t2, t3, t4, t5, t6, tp, x0,
}
use unit.Cpu.{
  Cpu, Exit, jumps, exec, Instr, addi, li, mv, ld, sd, csrr, csrw, csrrw, bnez, bne, j, call, sret,
  minus, from_user, trap_exit_restore, kernel_trap_handler, trap_handler,
}

-- `trap_entry` up to the label `1`, which is `from_user` here.
unfoldable pub entry_head : List Instr
entry_head =
    csrrw t0 sscratch t0 ∷ bnez t0 from_user ∷ csrrw t0 sscratch t0 ∷ call kernel_trap_handler ∷ []

-- `trap_entry` behind the call of `trap_handler`. The label `1` stands at the jump to
-- `trap_exit_restore`.
unfoldable pub entry_return : List Instr
entry_return =
    ld t0 272 sp
    ∷ li t1 8
    ∷ bne t0 t1 trap_exit_restore
    ∷ sd a0 80 sp
    ∷ ld t0 264 sp
    ∷ addi t0 t0 4
    ∷ sd t0 264 sp
    ∷ j trap_exit_restore
    ∷ []

-- The arguments of `trap_handler`, and its call.
unfoldable pub entry_call : List Instr
unfolding entry_return
entry_call =
    ld a0 272 sp
    ∷ ld a1 264 sp
    ∷ ld a2 80 sp
    ∷ ld a3 88 sp
    ∷ ld a4 96 sp
    ∷ ld a5 136 sp
    ∷ ld a6 280 sp
    ∷ call trap_handler
    ∷ entry_return

-- The registers are saved on the kernel stack.
unfoldable pub entry_save : List Instr
unfolding entry_call
entry_save =
    addi t0 t0 (minus 288)
    ∷ sd x0 0 t0
    ∷ sd ra 8 t0
    ∷ sd sp 16 t0
    ∷ sd gp 24 t0
    ∷ sd tp 32 t0
    ∷ sd t1 48 t0
    ∷ csrr t1 sscratch
    ∷ sd t1 40 t0
    ∷ sd t2 56 t0
    ∷ sd s0 64 t0
    ∷ sd s1 72 t0
    ∷ sd a0 80 t0
    ∷ sd a1 88 t0
    ∷ sd a2 96 t0
    ∷ sd a3 104 t0
    ∷ sd a4 112 t0
    ∷ sd a5 120 t0
    ∷ sd a6 128 t0
    ∷ sd a7 136 t0
    ∷ sd s2 144 t0
    ∷ sd s3 152 t0
    ∷ sd s4 160 t0
    ∷ sd s5 168 t0
    ∷ sd s6 176 t0
    ∷ sd s7 184 t0
    ∷ sd s8 192 t0
    ∷ sd s9 200 t0
    ∷ sd s10 208 t0
    ∷ sd s11 216 t0
    ∷ sd t3 224 t0
    ∷ sd t4 232 t0
    ∷ sd t5 240 t0
    ∷ sd t6 248 t0
    ∷ csrr t1 sstatus
    ∷ sd t1 256 t0
    ∷ csrr t1 sepc
    ∷ sd t1 264 t0
    ∷ csrr t1 scause
    ∷ sd t1 272 t0
    ∷ csrr t1 stval
    ∷ sd t1 280 t0
    ∷ mv sp t0
    ∷ csrw sscratch x0
    ∷ entry_call

-- `trap_exit_restore`.
unfoldable pub exit_restore : List Instr
exit_restore =
    ld t0 264 sp
    ∷ csrw sepc t0
    ∷ ld t0 256 sp
    ∷ csrw sstatus t0
    ∷ ld t0 16 sp
    ∷ csrw sscratch t0
    ∷ ld ra 8 sp
    ∷ ld gp 24 sp
    ∷ ld tp 32 sp
    ∷ ld t1 48 sp
    ∷ ld t2 56 sp
    ∷ ld s0 64 sp
    ∷ ld s1 72 sp
    ∷ ld a0 80 sp
    ∷ ld a1 88 sp
    ∷ ld a2 96 sp
    ∷ ld a3 104 sp
    ∷ ld a4 112 sp
    ∷ ld a5 120 sp
    ∷ ld a6 128 sp
    ∷ ld a7 136 sp
    ∷ ld s2 144 sp
    ∷ ld s3 152 sp
    ∷ ld s4 160 sp
    ∷ ld s5 168 sp
    ∷ ld s6 176 sp
    ∷ ld s7 184 sp
    ∷ ld s8 192 sp
    ∷ ld s9 200 sp
    ∷ ld s10 208 sp
    ∷ ld s11 216 sp
    ∷ ld t3 224 sp
    ∷ ld t4 232 sp
    ∷ ld t5 240 sp
    ∷ ld t6 248 sp
    ∷ ld t0 40 sp
    ∷ addi sp sp 288
    ∷ csrrw sp sscratch sp
    ∷ sret
    ∷ []

-- On at the label `1`.
abbrev on_from_user : Exit → Exit
on_from_user (jumps from_user c) = exec entry_save c
on_from_user other = other

-- `trap_entry` up to the call of its handler.
unfoldable pub trap_entry : Cpu → Exit
trap_entry c = on_from_user (exec entry_head c)
