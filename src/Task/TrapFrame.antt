-- ===== src/Task/TrapFrame.antt =====
-- `TrapFrame` of kernel/src/task/trapframe.rs: the registers that a trap saves.
use unit.Base.{ℕ, ◌^◌, ◌*◌, ◌+◌, List, set, replicate}

abbrev pub reg_sp : ℕ
reg_sp = 2

abbrev pub reg_a0 : ℕ
reg_a0 = 10

abbrev pub sstatus_spie : ℕ
sstatus_spie = 2 ^ 5

pub record TrapFrame : Type 0 where
  pub regs : List ℕ
  pub sstatus : ℕ
  pub sepc : ℕ
  pub scause : ℕ
  pub stval : ℕ

-- `TrapFrame::SIZE`: 32 registers and four more words.
abbrev pub size : ℕ
size = (32 + 4) * 8

unfoldable pub new_user : ℕ → ℕ → TrapFrame
new_user entry user_sp = record {
  regs = set (replicate 32 0) reg_sp user_sp;
  sstatus = sstatus_spie;
  sepc = entry;
  scause = 8;
  stval = 0;
}

unfoldable pub set_a0 : TrapFrame → ℕ → TrapFrame
set_a0 tf value = record tf { regs = set tf.regs reg_a0 value }

unfoldable pub set_sp : TrapFrame → ℕ → TrapFrame
set_sp tf value = record tf { regs = set tf.regs reg_sp value }
