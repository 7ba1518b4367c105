-- ===== src/Task/Stack.antt =====
-- The image of a trap frame on a kernel stack: `read_from_stack` and `write_to_stack` of
-- kernel/src/task/trapframe.rs. `regs` stand at offsets 0 to 256, the other four words behind them.
use unit.Base.{ℕ, zero, suc, ◌+◌, List, [], ◌∷◌, ◌++◌}
use unit.Kernel.{Cmd, gets, update, returns}
use unit.Task.TrapFrame.{TrapFrame}

-- `n` words from `base` on.
unfoldable pub words_at : (ℕ → ℕ) → ℕ → ℕ → List ℕ
words_at memory base zero = []
words_at memory base (suc n) = memory base ∷ words_at memory (base + 8) n

unfoldable pub read_from_stack : ℕ → Cmd TrapFrame
read_from_stack base = gets λ k. record {
  regs = words_at k.memory base 32;
  sstatus = k.memory (base + 256);
  sepc = k.memory (base + 264);
  scause = k.memory (base + 272);
  stval = k.memory (base + 280);
}

-- A memory with the words put from `base` on.
unfoldable pub put_words : (ℕ → ℕ) → ℕ → List ℕ → ℕ → ℕ
put_words memory base [] = memory
put_words memory base (w ∷ ws) = update (put_words memory (base + 8) ws) base w

-- The words of a trap frame, in the order of its fields.
abbrev pub image : TrapFrame → List ℕ
image tf = tf.regs ++ tf.sstatus ∷ tf.sepc ∷ tf.scause ∷ tf.stval ∷ []

unfoldable pub write_to_stack : TrapFrame → ℕ → Cmd (Unit {0})
write_to_stack tf base k = returns tt (record k { memory = put_words k.memory base (image tf) })
