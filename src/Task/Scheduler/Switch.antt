-- ===== src/Task/Scheduler/Switch.antt =====
-- `schedule` of kernel/src/task/scheduler.rs: saving the current process and switching to the next.
use unit.Base.{
  ℕ, ◌+◌, ◌-◌, ◌≤◌, ◌<◌, ◌≡◌, refl, true, false, Option, none, some, List, ◌==◌, if◌then◌else◌,
  get_elem?, set, arith, ◌⊎◌, inl, inr, ℕ_discrete, get_elem?-set_self, get_elem?-set_ne,
  lt_of_get_elem?,
}
use unit.Kernel.{Kernel, Outcome, returns, resumes, shuts_down}
use unit.PageTable.Walk.{satp_val}
use unit.Task.TrapFrame
use unit.Task.TrapFrame.{TrapFrame}
use unit.Task.Stack.{words_at, put_words, image, read_from_stack, write_to_stack}
use unit.Task.Process.{Process, ProcessState, ready, running, blocked, gone, zombie}
use unit.Task.Scheduler.{
  max_processes, runnable, current, save_trap_frame, switch_to, schedule, pick_next, shutdown,
}
use unit.Task.Scheduler.Pick.{IsNext, pick_next-IsNext}

-- The frame on the kernel stack that ends at `sp`.
abbrev pub stack_frame : (ℕ → ℕ) → ℕ → TrapFrame
stack_frame m sp =
    let base = sp - TrapFrame.size in
    record {
      regs = words_at m base 32;
      sstatus = m (base + 256);
      sepc = m (base + 264);
      scause = m (base + 272);
      stval = m (base + 280);
    }

-- `p` runs, on a kernel stack that can hold a trap frame.
pub record Runs (k : Kernel) (p : Process) : Type 0 where
  pub at : get_elem? k.process_list k.current ≡ some (some p)
  pub stack : TrapFrame.size ≤ p.kernel_sp

abbrev pub saved_process : Kernel → Process → Process
saved_process k p = record p { trap_frame = stack_frame k.memory p.kernel_sp }

-- The state with the trap frame of the current process saved.
abbrev pub saved : Kernel → Process → Kernel
saved k p = record k { process_list = set k.process_list k.current (some (saved_process k p)) }

pub current-Runs : {k : Kernel} {p : Process} → Runs k p → current k ≡ returns p k
unfolding current
current-Runs r = ground arith

pub save_trap_frame-saved :
    {k : Kernel} {p : Process} → Runs k p → save_trap_frame k ≡ returns tt (saved k p)
unfolding save_trap_frame read_from_stack
save_trap_frame-saved {k} {p} r = rw (current-Runs r) (ground (arith, r.stack))

-- The state in which the process `q` in slot `n` has just been resumed.
abbrev pub resumed : Kernel → ℕ → Process → Kernel
resumed k n q = record k {
  current = n;
  process_list = set k.process_list n (some (record q { state = running }));
  memory = put_words k.memory (q.kernel_sp - TrapFrame.size) (image q.trap_frame);
  satp = satp_val q.page_table;
}

switch_to-resumed :
    {A : Type 0} (k : Kernel) (n : ℕ) (q : Process)
    → get_elem? k.process_list n ≡ some (some q)
    → TrapFrame.size ≤ q.kernel_sp
    → switch_to {A = A} n k ≡ resumes (resumed k n q)
unfolding switch_to write_to_stack current
switch_to-resumed k n q e h = ground arith

runnable-some :
    (o : Option (Option Process))
    → runnable o ≡ true
    → (q : Process) × (o ≡ some (some q)) × (q.state ≡ ready)
runnable-some none h = absurd (cc)
runnable-some (some none) h = absurd (cc)
runnable-some (some (some q)) h = (q, refl, ready_state q.state h)
  where
    ready_state :
        (s : ProcessState) → runnable (some (some (record q { state = s }))) ≡ true → s ≡ ready
    ready_state ready e = refl
    ready_state running e = absurd (cc)
    ready_state blocked e = absurd (cc)
    ready_state gone e = absurd (cc)
    ready_state (zombie c) e = absurd (cc)

-- Every process of the list has a kernel stack that can hold a trap frame.
abbrev pub HaveStacks : List (Option Process) → Type 0
HaveStacks slots =
    (j : ℕ) (q : Process) → get_elem? slots j ≡ some (some q) → TrapFrame.size ≤ q.kernel_sp

HaveStacks-saved :
    (k : Kernel) (p : Process)
    → Runs k p
    → HaveStacks k.process_list
    → HaveStacks (saved k p).process_list
HaveStacks-saved k p r h j q e = elim (ℕ_discrete k.current j) [
  | yes same ↦ ground (
    arith,
    r.stack,
    get_elem?-set_self k.process_list j (some (saved_process k p)),
    lt_of_get_elem? k.process_list k.current (some p) r.at,
  )
  | no other ↦
      h j q (
        ground
          (arith, get_elem?-set_ne k.process_list k.current j (some (saved_process k p)) other))
]

-- How `schedule` ends: the process picked is resumed, or the machine is shut down because no
-- process is ready.
abbrev pub Switches : {A : Type 0} → Kernel → Outcome A → Type 0
Switches s o =
    ((n : ℕ) × (q : Process) × IsNext s.process_list s.current n
      × (get_elem? s.process_list n ≡ some (some q))
      × (q.state ≡ ready)
      × (o ≡ resumes (resumed s n q)))
    ⊎ ((o ≡ shuts_down s)
        × ((j : ℕ) → j < max_processes → runnable (get_elem? s.process_list j) ≡ false))

Switches-pick :
    {A : Type 0} (s : Kernel) (n : ℕ)
    → HaveStacks s.process_list
    → s.current < max_processes
    → IsNext s.process_list s.current n
    → Switches {A = A} s ((if n == max_processes then shutdown else switch_to n) s)
Switches-pick {A} s n h c (inr (end, all)) = inr (ground arith, all)
Switches-pick {A} s n h c (inl (d, lo, hi, at, hit, before)) =
    let (q, e, isready) = runnable-some (get_elem? s.process_list n) hit in
    let lt : n < max_processes = omega arith in
    inl (
      n,
      q,
      inl (d, lo, hi, at, hit, before),
      e,
      isready,
      ground (arith, switch_to-resumed {A = A} s n q e (h n q e)),
    )

-- Where all processes have kernel stacks that can hold a trap frame, `schedule` saves the trap
-- frame of the current process from its kernel stack and never returns. It resumes the first
-- ready process behind the current one: that process becomes current and running, its page table
-- goes into `satp` and its trap frame onto its stack. Only if no process is ready it shuts the
-- machine down.
pub schedule-Switches :
    {A : Type 0} {k : Kernel} {p : Process}
    → Runs k p
    → k.current < max_processes
    → HaveStacks k.process_list
    → Switches {A = A} (saved k p) (schedule k)
unfolding schedule
schedule-Switches {k} {p} r c h = rw (save_trap_frame-saved r) (
    Switches-pick (saved k p) (pick_next (saved k p).process_list k.current)
      (HaveStacks-saved k p r h) c (pick_next-IsNext (saved k p).process_list k.current c))
