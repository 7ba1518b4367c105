-- ===== src/System/Traps.antt =====
-- Every trap from a user program (`user_trap`, for kernel/src/trap.rs and kernel/src/main.rs) ends with a
-- user program that goes on, and keeps what holds of the processes.
use unit.Base.{
  ◌||◌, ap, ◌∙◌, ◌≤◌, shr, ℕ, ◌+◌, ◌-◌, ◌<◌, ◌≡◌, Bool, true, false, Option, none, some,
  if◌then◌else◌, refl, arith, ltb, Bool-cases, inl, inr, usize_end, ◌==◌,
}
use unit.Kernel.{
  Kernel, Cmd, Outcome, returns, panics, resumes, shuts_down, diverges, and_then, pure, load,
  modify, ◌>>=◌, ◌>>◌,
}
use unit.Kernel.Steady.{
  IsSteady, SameTasks, steady, bind-IsSteady, seq-IsSteady, pure-IsSteady, gets-IsSteady,
  add_usize-IsSteady,
}
use unit.Console.Steady.{Prints-IsSteady, printed, puts-Prints, print_hex-Prints}
use unit.PageTable.Steady.{lookup-IsSteady}
use unit.PageTable.Walk.{lookup}
use unit.Syscall.Break.{IsCurrent, current-IsCurrent}
use unit.Syscall.Dispatch.{Call, dispatch, sys_getpid, sys_getppid, sys_exec}
use unit.Syscall.Errors.{linux_error, enosys}
use unit.Syscall.Exit.{sys_exit}
use unit.Syscall.Fork.{sys_fork}
use unit.Syscall.Memory.{sys_brk, sys_mmap, sys_munmap}
use unit.Syscall.Wait.{user_half}
use unit.Syscall.Steady.{current-IsSteady}
use unit.Syscall.Transfer.{Machine}
use unit.System.{IsSystem, Keeps}
use unit.System.Calls.{
  Steady-Keeps, sys_brk-Keeps, sys_mmap-Keeps, sys_munmap-Keeps, sys_fork-Keeps, sys_exec-Keeps,
  sys_wait-Keeps,
}
use unit.System.Leaving.{Keeps-next, sys_exit-Keeps, do_segfault-Keeps}
use unit.System.Moves.{IsTasks-same, IsSystem-same, Runs-IsTasks, saved-IsSystem}
use unit.System.Transfers.{
  IsMachine, sys_read-IsSteady, sys_write-IsSteady, sys_getcwd-IsSteady, sys_uname-IsSteady,
}
use unit.Task.Process.{Process}
use unit.Task.Scheduler.Switch.{saved, saved_process, current-Runs, save_trap_frame-saved}
use unit.Task.TrapFrame
use unit.Trap.Cow.{handle_cow_fault}
use unit.Trap.Cow.Steady.{handle_cow_fault-IsSteady}
use unit.Trap.Fault.{page_fault_handler, is_shared, do_segfault}
use unit.Console.{bytes}
use unit.Trap.Handler.{
  count_tick, handle_interrupt, unknown_trap, requested, trap_handler, trap_return, user_trap,
}
use unit.Trap.Return.{asked, requested-asked, saved-Runs}

-- The command keeps what holds of the processes, from the state `k`.
record KeepsAt {A : Type 0} (k : Kernel) (m : Cmd A) : Type 0 where
  run : Keeps (m k)

if-KeepsAt :
    {A : Type 0} {k : Kernel} {m n : Cmd A} (b : Bool)
    → KeepsAt k m
    → KeepsAt k n
    → KeepsAt k (if b then m else n)
if-KeepsAt true x y = x
if-KeepsAt false x y = y

Steady-KeepsAt : {A : Type 0} {k : Kernel} {m : Cmd A} → IsSystem k → IsSteady m → KeepsAt k m
Steady-KeepsAt {A} {k} {m} v s = record { run = Steady-Keeps k (m k) v (s.run k) }

bind-Keeps :
    {A B : Type 0} (o : Outcome A) (f : A → Cmd B)
    → Keeps o
    → ((a : A) (j : Kernel) → IsSystem j → Keeps (f a j))
    → Keeps (and_then o f)
bind-Keeps (returns a j) f h next = next a j h
bind-Keeps panics f h next = tt
bind-Keeps (resumes j) f h next = h
bind-Keeps (shuts_down j) f h next = tt
bind-Keeps diverges f h next = h

pure-KeepsAt : {A : Type 0} {k : Kernel} → IsSystem k → (a : A) → KeepsAt k (pure a)
pure-KeepsAt v a = record { run = v }

sys_getpid-IsSteady : IsSteady sys_getpid
unfolding sys_getpid
sys_getpid-IsSteady = search (steady, current-IsSteady)

sys_getppid-IsSteady : IsSteady sys_getppid
unfolding sys_getppid
sys_getppid-IsSteady = search (steady, current-IsSteady)

-- The arguments that are addresses of 64 bits.
abbrev pub HasWords : Call → Type 0
HasWords c = (c.arg0 < usize_end) × (c.arg1 < usize_end)

-- What a call lets the kernel store to lies in the user's half of the addresses.
pub record InHalf (c : Call) : Type 0 where
  pub getcwd : c.number ≡ 17 → c.arg0 + 2 ≤ user_half
  pub read : c.number ≡ 63 → c.arg1 + c.arg2 ≤ user_half
  pub uname : c.number ≡ 160 → c.arg0 + 390 ≤ user_half
  pub wait : c.number ≡ 260 → c.arg0 + 8 ≤ user_half

-- A branch that is known to be taken for one number.
on_number :
    {A : Type 0} {k : Kernel} {m n : Cmd A} (a b : ℕ)
    → (a ≡ b → KeepsAt k m)
    → KeepsAt k n
    → KeepsAt k (if a == b then m else n)
on_number {A} {k} {m} {n} a b x y = elim (Bool-cases (a == b)) [
  | inl same ↦ rw same (x (ground arith))
  | inr other ↦ rw other y
]

module _ (m : Machine) (h : IsMachine m) where
  dispatch-KeepsAt :
      (c : Call) (k : Kernel) → HasWords c → InHalf c → IsSystem k → KeepsAt k (dispatch m c)
  unfolding dispatch
  dispatch-KeepsAt c k w half v =
      let (p, at, runs) = v.current_runs in
      let exit : KeepsAt {A = ℕ} k (sys_exit c.arg0) = record {
        run = sys_exit-Keeps k p v.tasks at ℕ c.arg0;
      } in
      let munmap : KeepsAt k (sys_munmap c.arg0 c.arg1) = record {
        run = sys_munmap-Keeps k p v at runs c.arg0 c.arg1;
      } in
      let brk : KeepsAt k (sys_brk c.arg0) = record { run = sys_brk-Keeps k p v at runs c.arg0 } in
      let fork : KeepsAt k sys_fork = record { run = sys_fork-Keeps k p v at runs } in
      let exec : KeepsAt k sys_exec = record { run = sys_exec-Keeps k p v at runs } in
      let mmap : KeepsAt k (sys_mmap c.arg0 c.arg1 c.arg2 c.arg3 c.arg4 c.arg5) = record {
        run = sys_mmap-Keeps k p v at runs c.arg0 c.arg1 c.arg2 c.arg3 c.arg4 c.arg5;
      } in
      on_number c.number 17
        (λ e. Steady-KeepsAt v (sys_getcwd-IsSteady m h c.arg0 c.arg1 w.0 (half.getcwd e)))
        (on_number c.number 63
          (λ e. Steady-KeepsAt v (sys_read-IsSteady m h c.arg0 c.arg1 c.arg2 w.1 (half.read e)))
          (if-KeepsAt (c.number == 64)
            (Steady-KeepsAt v (sys_write-IsSteady m h c.arg0 c.arg1 c.arg2 w.1))
            (if-KeepsAt (c.number == 93 || c.number == 94) exit (
              on_number c.number 160
                (λ e. Steady-KeepsAt v (sys_uname-IsSteady m h c.arg0 w.0 (half.uname e)))
                (if-KeepsAt (c.number == 215) munmap (
                  if-KeepsAt (c.number == 172) (Steady-KeepsAt v sys_getpid-IsSteady) (
                    if-KeepsAt (c.number == 173) (Steady-KeepsAt v sys_getppid-IsSteady) (
                      if-KeepsAt
                        (c.number == 174 || c.number == 175 || c.number == 176 || c.number == 177)
                        (pure-KeepsAt v 0)
                        (if-KeepsAt (c.number == 178) (Steady-KeepsAt v sys_getpid-IsSteady) (
                          if-KeepsAt (c.number == 214) brk (
                            if-KeepsAt (c.number == 220) fork (
                              if-KeepsAt (c.number == 221) exec (
                                if-KeepsAt (c.number == 222) mmap (
                                  on_number c.number 260
                                    (λ e. record {
                                      run =
                                          sys_wait-Keeps k p v at runs m.store_word c.arg0
                                            h.store_word (half.wait e);
                                    })
                                    (pure-KeepsAt v (linux_error enosys))))))))))))))))

  tick_count-IsSteady : (n : ℕ) → IsSteady (modify (λ k. record k { tick_count = n }))
  tick_count-IsSteady n = record { run = λ k. (refl, refl, refl, refl) }

  count_tick-IsSteady : IsSteady count_tick
  unfolding count_tick
  count_tick-IsSteady =
      bind-IsSteady gets-IsSteady
        λ ticks. bind-IsSteady (add_usize-IsSteady ticks 1) tick_count-IsSteady

  handle_interrupt-IsSteady : IsSteady (handle_interrupt m)
  unfolding handle_interrupt
  handle_interrupt-IsSteady = seq-IsSteady count_tick-IsSteady (
      seq-IsSteady (Prints-IsSteady (puts-Prints _)) (
        bind-IsSteady gets-IsSteady λ ticks.
          seq-IsSteady (Prints-IsSteady (print_hex-Prints ticks)) (
            seq-IsSteady (Prints-IsSteady (puts-Prints _)) (
              bind-IsSteady h.read_time λ now.
                bind-IsSteady (add_usize-IsSteady now 10000000)
                  λ next. seq-IsSteady (h.set_timer next) pure-IsSteady))))

unknown_trap-KeepsAt : (scause : ℕ) (k : Kernel) → KeepsAt {A = ℕ} k (unknown_trap scause)
unfolding unknown_trap
unknown_trap-KeepsAt scause k =
    let (o1, e1) = (puts-Prints (bytes "\n[TRAP]\n scause: 0x")).run k in
    let (o2, e2) = (print_hex-Prints scause).run (printed k o1) in
    let (o3, e3) = (puts-Prints (bytes "\n")).run (printed k o2) in
    record { run = rw e1 (rw e2 (rw e3 tt)) }

module _ (k : Kernel) (p : Process) (v : IsSystem k) (at : IsCurrent k p) where
  segfault_later :
      (scause stval : ℕ) (j : Kernel) → SameTasks k j → Keeps {A = ℕ} (do_segfault scause stval j)
  segfault_later scause stval j same =
      do_segfault-Keeps j p (IsTasks-same k j same v.tasks) (rw (same.0, same.1) at) ℕ scause stval

  on_entry :
      (scause stval entry : ℕ) (j : Kernel)
      → SameTasks k j
      → KeepsAt {A = ℕ} j (
          if is_shared (j.memory entry)
          then (handle_cow_fault stval entry >> pure 0)
          else do_segfault scause stval)
  on_entry scause stval entry j same =
      if-KeepsAt (is_shared (j.memory entry))
        (Steady-KeepsAt (IsSystem-same k j same v)
          (seq-IsSteady (handle_cow_fault-IsSteady stval entry) (pure-IsSteady {a = 0})))
        (record { run = segfault_later scause stval j same })

  on_found :
      (scause stval : ℕ) (found : Option ℕ) (j : Kernel)
      → SameTasks k j
      → Keeps (
          (elim found as (λ x. Cmd ℕ) [
            | none ↦ do_segfault scause stval
            | some entry ↦ load entry >>= λ e.
                if is_shared e
                then (handle_cow_fault stval entry >> pure 0)
                else do_segfault scause stval
          ])
            j)
  on_found scause stval none j same = segfault_later scause stval j same
  on_found scause stval (some entry) j same = (on_entry scause stval entry j same).run

  page_fault_handler-Keeps : (scause stval : ℕ) → Keeps (page_fault_handler scause stval k)
  unfolding page_fault_handler
  page_fault_handler-Keeps scause stval = elim (Bool-cases (scause == 15)) [
    | inr other ↦ rw other (segfault_later scause stval k (refl, refl, refl, refl))
    | inl store ↦ rw store (
        rw (current-IsCurrent k p at) (
          Keeps-next k (lookup p.page_table stval k) _ ((lookup-IsSteady p.page_table stval).run k)
            v.tasks (λ found j same tj. on_found scause stval found j same)))
  ]

trap_return-Keeps : (sp a0 : ℕ) (k : Kernel) → IsSystem k → Keeps (trap_return sp a0 k)
unfolding trap_return
trap_return-Keeps sp a0 k v = elim (Bool-cases (k.memory (sp + 272) == 8)) [
  | inl call ↦ rw call (IsSystem-same k _ (refl, refl, refl, refl) v)
  | inr other ↦ rw other v
]

-- If the trap is by `ecall`, what the kernel may store to for it lies in the user's half.
abbrev pub AsksInHalf : Kernel → Type 0
AsksInHalf k =
    (p : Process)
    → IsCurrent k p
    → k.memory (p.kernel_sp - TrapFrame.size + 272) ≡ 8
    → InHalf (asked k p.kernel_sp)

module _ (m : Machine) (h : IsMachine m) (k : Kernel) (v : IsSystem k)
    (words : (a : ℕ) → k.memory a < usize_end) (half : AsksInHalf k) where
  trap_handler-Keeps :
      (scause stval : ℕ)
      → ((p : Process) → IsCurrent k p → k.memory (p.kernel_sp - TrapFrame.size + 272) ≡ scause)
      → Keeps (trap_handler m scause stval k)
  unfolding trap_handler
  trap_handler-Keeps scause stval cause =
      let (p, at, runs) = v.current_runs in
      let r = Runs-IsTasks k p v.tasks at in
      let w = saved-IsSystem k p v.tasks at runs in
      let fault : KeepsAt (saved k p) (page_fault_handler scause stval) = record {
        run =
            page_fault_handler-Keeps (saved k p) (saved_process k p) w (saved-Runs k p r).at scause
              stval;
      } in
      let call : scause ≡ 8 → KeepsAt (saved k p) (requested >>= dispatch m) = λ e. record {
        run =
            rw (requested-asked m k p r)
              (dispatch-KeepsAt m h (asked k p.kernel_sp) (saved k p) (words _, words _)
                (half p at (cause p at ∙ e)) w).run;
      } in
      rw (save_trap_frame-saved r) (
        (if-KeepsAt (shr scause 63 == 1) (Steady-KeepsAt w (handle_interrupt-IsSteady m h)) (
          on_number scause 8 call (
            if-KeepsAt (scause == 12 || scause == 13 || scause == 15) fault
              (unknown_trap-KeepsAt scause (saved k p))))).run)

  same_cause :
      (p q : Process)
      → IsCurrent k p
      → IsCurrent k q
      → k.memory (q.kernel_sp - TrapFrame.size + 272)
        ≡ k.memory (p.kernel_sp - TrapFrame.size + 272)
  same_cause p q at here =
      let same : q ≡ p = cc in
      ap (λ (s : Process). k.memory (s.kernel_sp - TrapFrame.size + 272)) same

  -- Every trap from user mode ends. Where each word of memory is below 2^64, the machine's accesses to
  -- the user's half of the addresses leave the processes alone, the call that the trap asks for has its
  -- buffer there, and the current process is the only one that is marked as running, with all
  -- processes well formed and their numbers different and below the next one: the trap panics, shuts the
  -- machine down, or a user program goes on in a state of which the same holds.
  pub user_trap-Keeps : Keeps (user_trap m k)
  unfolding user_trap
  user_trap-Keeps =
      let (p, at, runs) = v.current_runs in
      let r = Runs-IsTasks k p v.tasks at in
      let room : ltb p.kernel_sp TrapFrame.size ≡ false = ground (arith, r.stack) in
      let sp = p.kernel_sp - TrapFrame.size in
      rw (current-Runs r) (
        rw room (
          bind-Keeps (trap_handler m (k.memory (sp + 272)) (k.memory (sp + 280)) k) (trap_return sp)
            (trap_handler-Keeps (k.memory (sp + 272)) (k.memory (sp + 280))
              (λ q here. same_cause p q at here))
            (trap_return-Keeps sp)))
