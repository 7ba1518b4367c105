-- ===== src/Trap/Ends.antt =====
-- How a process ends: `do_segfault` of kernel/src/trap.rs, and the steps that `sys_exit` of
-- kernel/src/syscall.rs shares with it.
use unit.Base.{
  ℕ, zero, suc, ◌<◌, ◌≡◌, not, ◌&&◌, ◌==◌, Option, none, some, List, [], ◌∷◌, map, get_elem?, set,
  arith, Bool-cases, inl, inr, refl, ap, ◌∙◌, get_elem?-set_self, lt_of_get_elem?,
}
use unit.Kernel.{Kernel, Cmd, Outcome, ◌>>◌}
use unit.Task.Process.{Process, zombie}
use unit.Task.Scheduler.{
  max_processes, is_gone, adopt, wake, current, schedule, reparent_orphans_to_init, wake_parent,
}
use unit.Task.Scheduler.Switch.{Runs, HaveStacks, current-Runs}
use unit.Task.Scheduler.Leave.{
  Leaves, Handover, schedule-Handover, wake-get_elem?, HaveStacks-wake, HaveStacks-set,
  schedule-Leaves,
}
use unit.Task.Scheduler.Family.{Orphaned, Wakes, map-Orphaned, wake-Wakes}
use unit.Trap.Fault.{set_state, do_segfault, print_segfault}
use unit.Console.Steady.{Prints, prints, printed}

-- What `adopt` does to a process: its number, state and stack stay.
pub adopt-some :
    (pid : ℕ) (p : Process)
    → (q : Process) × (adopt pid (some p) ≡ some q) × (q.pid ≡ p.pid) × (q.kernel_sp ≡ p.kernel_sp)
unfolding adopt
adopt-some pid p = elim (Bool-cases (p.parent_pid == pid && not (is_gone p.state))) [
  | inl child ↦ (record p { parent_pid = 1 }, rw child refl, refl, refl)
  | inr other ↦ (p, rw other refl, refl, refl)
]

pub get_elem?-adopt :
    (pid : ℕ) (slots : List (Option Process)) (i : ℕ) (p : Process)
    → get_elem? slots i ≡ some (some p)
    → get_elem? (map (adopt pid) slots) i ≡ some (adopt pid (some p))
get_elem?-adopt pid [] i p e = absurd (cc)
get_elem?-adopt pid (x ∷ slots) zero p e = let same : x ≡ some p = ground arith in rw same refl
get_elem?-adopt pid (x ∷ slots) (suc i) p e = get_elem?-adopt pid slots i p e

stack-adopt :
    (pid : ℕ) (slot : Option Process) (q : Process)
    → adopt pid slot ≡ some q
    → (p : Process) × (slot ≡ some p) × (p.kernel_sp ≡ q.kernel_sp)
unfolding adopt
stack-adopt pid none q e = absurd (cc)
stack-adopt pid (some p) q e = (p, refl, ground arith)

pub HaveStacks-adopt :
    (pid : ℕ) (slots : List (Option Process))
    → HaveStacks slots
    → HaveStacks (map (adopt pid) slots)
HaveStacks-adopt pid [] h j q e = h j q e
HaveStacks-adopt pid (x ∷ slots) h zero q e =
    let (p, at, sp) = stack-adopt pid x q (ground arith) in omega (arith, sp, h 0 p (ap some at))
HaveStacks-adopt pid (x ∷ slots) h (suc j) q e = HaveStacks-adopt pid slots (λ i. h (suc i)) j q e

-- The steps that `sys_exit` and `do_segfault` end with.
abbrev pub end_process : {A : Type 0} → ℕ → Cmd A
end_process code = do set_state (zombie code); wake_parent; schedule

-- The process `p` becomes a zombie, its parent wakes if it waits, and another one goes on.
abbrev pub Passes : {A : Type 0} → Kernel → Process → ℕ → Outcome A → Type 0
Passes k p code o =
    (slots : List (Option Process)) × Wakes p.parent_pid
      (set k.process_list k.current (some (record p { state = zombie code }))) slots
    × Handover k.current (record p { state = zombie code }) slots o

-- How the process `p` ends: its children get the parent 1, it becomes a zombie with its exit code, and the
-- first blocked process with the number of its parent becomes ready. Then the first ready process behind it runs, or the machine is shut
-- down and no process is ready. In its slot stands the zombie then, and the process that runs is in another
-- one.
abbrev pub Ends : {A : Type 0} → Kernel → Process → ℕ → Outcome A → Type 0
Ends k p code o =
    (orphaned slots : List (Option Process)) × (q : Process) × Orphaned p.pid k.process_list
      orphaned
    × (get_elem? orphaned k.current ≡ some (some q))
    × (q.pid ≡ p.pid)
    × Wakes q.parent_pid (set orphaned k.current (some (record q { state = zombie code }))) slots
    × Handover k.current (record q { state = zombie code }) slots o
    × Leaves k.current p.pid code o

module _ (k : Kernel) (p : Process) (code : ℕ) (r : Runs k p) (c : k.current < max_processes)
    (h : HaveStacks k.process_list) where
  abbrev pub dead : Process
  dead = record p { state = zombie code }

  abbrev pub marked : List (Option Process)
  marked = set k.process_list k.current (some dead)

  abbrev pub ended : Kernel
  ended = record k { process_list = wake p.parent_pid marked }

  at_marked : get_elem? marked k.current ≡ some (some dead)
  at_marked =
      get_elem?-set_self k.process_list k.current (some dead)
        (lt_of_get_elem? k.process_list k.current (some p) r.at)

  pub at_dead : get_elem? ended.process_list k.current ≡ some (some dead)
  at_dead = wake-get_elem? p.parent_pid marked k.current (some dead) at_marked (ground arith)

  pub end_process-schedule : {A : Type 0} → end_process {A = A} code k ≡ schedule ended
  unfolding set_state wake_parent current
  end_process-schedule {A} = rw r.at (rw at_marked refl)

  marked-Runs : Runs ended dead
  marked-Runs = record { at = at_dead; stack = r.stack }

  stacks : HaveStacks ended.process_list
  stacks =
      HaveStacks-wake p.parent_pid marked (HaveStacks-set k.process_list k.current dead h r.stack)

  pub end_process-Passes : {A : Type 0} → Passes {A = A} k p code (end_process code k)
  end_process-Passes {A} = rw (end_process-schedule {A = A}) (
    ended.process_list,
    wake-Wakes p.parent_pid marked,
    schedule-Handover ended dead code marked-Runs c stacks refl,
  )

  pub end_process-Leaves : {A : Type 0} → Leaves {A = A} k.current p.pid code (end_process code k)
  end_process-Leaves {A} =
      rw (end_process-schedule {A = A}) (schedule-Leaves ended dead code marked-Runs c stacks refl)

pub Leaves-pid :
    {A : Type 0} (i n m code : ℕ) (o : Outcome A) → n ≡ m → Leaves i n code o → Leaves i m code o
Leaves-pid i n m code o e h = rw (← e) h

pub print_segfault-Prints : (scause stval : ℕ) → Prints (print_segfault scause stval)
unfolding print_segfault
print_segfault-Prints scause stval = search (prints) depth 14

-- `do_segfault` behind what it prints.
segfault_rest :
    {A : Type 0} (k : Kernel) (p : Process)
    → Runs k p
    → k.current < max_processes
    → HaveStacks k.process_list
    → Ends {A = A} k p 1 ((reparent_orphans_to_init >> end_process 1) k)
unfolding reparent_orphans_to_init
segfault_rest {A} k p r c h =
    let (q, e, number, sp) = adopt-some p.pid p in
    let i : Kernel = record k { process_list = map (adopt p.pid) k.process_list } in
    let s : Runs i q = record {
      at = get_elem?-adopt p.pid k.process_list k.current p r.at ∙ ap some e;
      stack = omega (arith, sp, r.stack);
    } in
    let stacks = HaveStacks-adopt p.pid k.process_list h in
    let (slots, wakes, over) = end_process-Passes i q 1 s c stacks {A = A} in
    rw (current-Runs r) (
      i.process_list,
      slots,
      q,
      map-Orphaned p.pid k.process_list,
      s.at,
      number,
      wakes,
      over,
      Leaves-pid k.current q.pid p.pid 1 _ number (end_process-Leaves i q 1 s c stacks),
    )

-- Where all processes have kernel stacks that can hold a trap frame, `do_segfault` does not
-- return: the children of the current process get the parent 1, it becomes a zombie with exit code 1, and
-- the first blocked process with the number of its parent becomes ready. Then the first ready process behind it is resumed, in another
-- slot, or no process is ready and the machine is shut down. No other process changes in the list.
pub do_segfault-Leaves :
    {A : Type 0} (k : Kernel) (p : Process) (scause stval : ℕ)
    → Runs k p
    → k.current < max_processes
    → HaveStacks k.process_list
    → Ends {A = A} k p 1 (do_segfault scause stval k)
unfolding do_segfault
do_segfault-Leaves {A} k p scause stval r c h =
    let (out, e) = (print_segfault-Prints scause stval).run k in
    rw e (segfault_rest (printed k out) p (record { at = r.at; stack = r.stack }) c h)
