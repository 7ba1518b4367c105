-- ===== src/Trap/Return.antt =====
-- The way of a system call: `trap_handler` of kernel/src/trap.rs and the return path of `trap_entry` in
-- kernel/src/main.rs.
use unit.Base.{
  ℕ, zero, suc, ◌+◌, ◌-◌, ◌*◌, ◌%◌, ◌<◌, ◌≤◌, ◌≡◌, ◌≢◌, false, some, get_elem?, set, arith, refl,
  ap, ◌∙◌, usize_end, ltb, get_elem?-set_self, lt_of_get_elem?,
}
use unit.Kernel.{Kernel, returns, resumes, update, and_then}
use unit.Syscall.Dispatch.{Call, dispatch, sys_exec}
use unit.Syscall.Transfer.{Machine}
use unit.Task.Process.{Process}
use unit.Task.Scheduler.Switch.{
  Runs, stack_frame, saved, saved_process, current-Runs, save_trap_frame-saved,
}
use unit.Task.Image.{words_at-update}
use unit.Task.Stack.{words_at}
use unit.Task.TrapFrame
use unit.Task.TrapFrame.{TrapFrame, set_a0}
use unit.Trap.Handler.{requested, trap_return, trap_handler, user_trap}

-- A word written over is a word of the list replaced.
words_at-update_at :
    (m : ℕ → ℕ) (base v n i at : ℕ)
    → at ≡ base + i * 8
    → words_at (update m at v) base n ≡ set (words_at m base n) i v
unfolding words_at
words_at-update_at m base v zero i at e = refl
words_at-update_at m base v (suc n) zero at e =
    ground (arith, words_at-update m at v (base + 8) n (omega arith))
words_at-update_at m base v (suc n) (suc i) at e =
    ground (arith, words_at-update_at m (base + 8) v n i at (omega arith))

words_at-update_above :
    (m : ℕ → ℕ) (base v n at : ℕ)
    → base + n * 8 ≤ at
    → words_at (update m at v) base n ≡ words_at m base n
unfolding words_at
words_at-update_above m base v zero at h = refl
words_at-update_above m base v (suc n) at h =
    ground (arith, words_at-update_above m (base + 8) v n at (omega arith))

get_elem?-words_at :
    (m : ℕ → ℕ) (base n i : ℕ) → i < n → get_elem? (words_at m base n) i ≡ some (m (base + i * 8))
unfolding words_at
get_elem?-words_at m base zero i h = absurd (omega arith)
get_elem?-words_at m base (suc n) zero h = ap (λ (t : ℕ). some (m t)) (omega arith)
get_elem?-words_at m base (suc n) (suc i) h =
    get_elem?-words_at m (base + 8) n i (omega arith) ∙ ap (λ (t : ℕ). some (m t)) (omega arith)

-- The frame with which the user goes on behind a system call that gave `v`.
abbrev pub answered : TrapFrame → ℕ → TrapFrame
answered f v = record (set_a0 f v) { sepc = (f.sepc + 4) % usize_end }

module _ (mem : ℕ → ℕ) (sp v : ℕ) where
  abbrev base : ℕ
  base = sp - TrapFrame.size

  -- The memory behind the return path.
  abbrev pub written : ℕ → ℕ
  written = update (update mem (base + 80) v) (base + 264) ((mem (base + 264) + 4) % usize_end)

  -- The frame that `trap_exit_restore` then takes from the stack.
  pub stack_frame-written : stack_frame written sp ≡ answered (stack_frame mem sp) v
  unfolding set_a0
  stack_frame-written = λ i. record {
    regs =
        (words_at-update_above (update mem (base + 80) v) base ((mem (base + 264) + 4) % usize_end)
              32 (base + 264) (omega arith)
            ∙ words_at-update_at mem base v 32 10 (base + 80) (omega arith))
          i;
    sstatus = word 256 (omega arith) (omega arith) i;
    sepc = pc i;
    scause = word 272 (omega arith) (omega arith) i;
    stval = word 280 (omega arith) (omega arith) i;
  }
    where
      word : (o : ℕ) → o ≢ 264 → o ≢ 80 → written (base + o) ≡ mem (base + o)
      word o h1 h2 = ground arith

      pc : written (base + 264) ≡ (mem (base + 264) + 4) % usize_end
      pc = ground arith

module _ (k : Kernel) (sp v : ℕ) where
  abbrev answer : Kernel
  answer = record k { memory = written k.memory sp v }

  trap_return-answer :
      k.memory (sp - TrapFrame.size + 272) ≡ 8
      → trap_return (sp - TrapFrame.size) v k ≡ resumes answer
  unfolding trap_return
  trap_return-answer h = ground arith

-- The call that the registers of a frame ask for.
abbrev pub asked : Kernel → ℕ → Call
asked k sp =
    let base = sp - TrapFrame.size in
    record {
      number = k.memory (base + 136);
      arg0 = k.memory (base + 80);
      arg1 = k.memory (base + 88);
      arg2 = k.memory (base + 96);
      arg3 = k.memory (base + 104);
      arg4 = k.memory (base + 112);
      arg5 = k.memory (base + 120);
    }

pub saved-Runs : (k : Kernel) (p : Process) → Runs k p → Runs (saved k p) (saved_process k p)
saved-Runs k p r = record {
  at =
      get_elem?-set_self k.process_list k.current (some (saved_process k p))
        (lt_of_get_elem? k.process_list k.current (some p) r.at);
  stack = r.stack;
}

module _ (m : Machine) (k : Kernel) (p : Process) (r : Runs k p) where
  abbrev sp : ℕ
  sp = p.kernel_sp - TrapFrame.size

  pub requested-asked : requested (saved k p) ≡ returns (asked k p.kernel_sp) (saved k p)
  unfolding requested
  requested-asked = rw (current-Runs (saved-Runs k p r)) (
      rw
        (
          word 17 (omega arith),
          word 10 (omega arith),
          word 11 (omega arith),
          word 12 (omega arith),
          word 13 (omega arith),
          word 14 (omega arith),
          word 15 (omega arith),
        )
        refl)
    where
      word : (i : ℕ) → i < 32 → get_elem? (words_at k.memory sp 32) i ≡ some (k.memory (sp + i * 8))
      word i h = get_elem?-words_at k.memory sp 32 i h

  trap_handler_call :
      (scause stval : ℕ)
      → scause ≡ 8
      → trap_handler m scause stval k ≡ dispatch m (asked k p.kernel_sp) (saved k p)
  unfolding trap_handler
  trap_handler_call scause stval e = rw e (rw (save_trap_frame-saved r) (rw requested-asked refl))

  -- A trap by `ecall` runs `dispatch` on the registers saved on the stack, and then returns.
  user_trap_call :
      k.memory (sp + 272) ≡ 8
      → user_trap m k ≡ and_then (dispatch m (asked k p.kernel_sp) (saved k p)) (trap_return sp)
  unfolding user_trap
  user_trap_call h =
      rw (current-Runs r)
        (rw big (rw (trap_handler_call (k.memory (sp + 272)) (k.memory (sp + 280)) h) refl))
    where
      big : ltb p.kernel_sp TrapFrame.size ≡ false
      big = ground (arith, r.stack)

-- A trap by `ecall`, whose system call comes back with the value `v` in a state `j` that has the
-- saved frame unchanged, resumes the user in `j` with the saved frame but `v` in `a0` and `sepc`
-- moved behind the `ecall`.
pub user_trap-answered :
    (m : Machine) (k : Kernel) (p : Process) (v : ℕ) (j : Kernel)
    → Runs k p
    → (stack_frame k.memory p.kernel_sp).scause ≡ 8
    → dispatch m (asked k p.kernel_sp) (saved k p) ≡ returns v j
    → stack_frame j.memory p.kernel_sp ≡ stack_frame k.memory p.kernel_sp
    → (i : Kernel) × (user_trap m k ≡ resumes i)
      × (i.process_list ≡ j.process_list)
      × (i.current ≡ j.current)
      × (stack_frame i.memory p.kernel_sp ≡ answered (stack_frame k.memory p.kernel_sp) v)
user_trap-answered m k p v j r h e same = (
  answer j p.kernel_sp v,
  user_trap_call m k p r h
      ∙ rw e (trap_return-answer j p.kernel_sp v (ap TrapFrame.scause same ∙ h)),
  refl,
  refl,
  stack_frame-written j.memory p.kernel_sp v ∙ ap (λ f. answered f v) same,
)

-- The stub does not touch memory.
exec_returns :
    (m : Machine) (k : Kernel) (p : Process)
    → Runs k p
    → (asked k p.kernel_sp).number ≡ 221
    → (j : Kernel) × (dispatch m (asked k p.kernel_sp) (saved k p) ≡ returns 0 j)
      × (j.memory ≡ k.memory)
unfolding dispatch sys_exec
exec_returns m k p r n = rw n (rw (current-Runs (saved-Runs k p r)) (_, refl, refl))

-- The stub for `exec` has no effect on where the user goes on: after an `ecall` with the number 221
-- the frame that is restored is the saved one with 0 in `a0` and `sepc` moved behind the `ecall`, so
-- the entry point and the stack pointer that the stub writes are never used.
pub user_trap-sys_exec :
    (m : Machine) (k : Kernel) (p : Process)
    → Runs k p
    → (stack_frame k.memory p.kernel_sp).scause ≡ 8
    → (asked k p.kernel_sp).number ≡ 221
    → (i : Kernel) × (user_trap m k ≡ resumes i)
      × (stack_frame i.memory p.kernel_sp ≡ answered (stack_frame k.memory p.kernel_sp) 0)
user_trap-sys_exec m k p r h n =
    let (j, e, same) = exec_returns m k p r n in
    let (i, out, list, cur, frame) =
      user_trap-answered m k p 0 j r h e (ap (λ mem. stack_frame mem p.kernel_sp) same) in
    (i, out, frame)
