-- ===== src/System/Leaving.antt =====
-- The ends of a process (`sys_exit` of kernel/src/syscall.rs and `do_segfault` of kernel/src/trap.rs) keep
-- what holds of the processes.
use unit.Base.{ℕ, ◌∙◌, ap, some, map, set, refl}
use unit.Kernel.{Kernel, Outcome, Cmd, and_then, ◌>>◌}
use unit.Kernel.Steady.{SameTasks, Steady, Steady-next}
use unit.Console.Steady.{printed}
use unit.PageTable.Steady.{for_each_leaf-IsSteady}
use unit.PageTable.Walk.{for_each_leaf, kernel_vpn2_min}
use unit.Syscall.Break.{IsCurrent}
use unit.Syscall.Ends.{release_leaf-IsSteady}
use unit.Syscall.Exit.{release_leaf, sys_exit}
use unit.System.{IsProcess, IsTasks, Keeps}
use unit.System.Moves.{
  IsTasks-same, IsTasks-set, IsTasks-adopt, IsTasks-wake, Runs-IsTasks, schedule-Keeps,
}
use unit.Task.Process.{Process, zombie}
use unit.Task.Scheduler.{adopt, reparent_orphans_to_init}
use unit.Task.Scheduler.Switch.{HaveStacks, current-Runs}
use unit.Trap.Ends.{
  end_process, end_process-schedule, at_dead, ended, adopt-some, get_elem?-adopt,
  print_segfault-Prints,
}
use unit.Trap.Fault.{do_segfault}

stacks_of : (k : Kernel) → IsTasks k → HaveStacks k.process_list
stacks_of k t j q here = (t.processes.each j q here).stack

module _ (k : Kernel) (p : Process) (code : ℕ) (t : IsTasks k) (at : IsCurrent k p) where
  dead-IsProcess : IsProcess k.next_pid (record p { state = zombie code })
  dead-IsProcess =
      let v = t.processes.each k.current p at in
      record { number = v.number; stack = v.stack; table = v.table; heap = v.heap }

  marked-IsTasks : IsTasks (record k {
    process_list = set k.process_list k.current (some (record p { state = zombie code }));
  })
  marked-IsTasks =
      IsTasks-set k _ p (record p { state = zombie code }) at refl dead-IsProcess refl refl refl t

  pub end_process-Keeps : (A : Type 0) → Keeps {A = A} (end_process code k)
  end_process-Keeps A =
      let r = Runs-IsTasks k p t at in
      let h = stacks_of k t in
      rw (end_process-schedule k p code r t.cur_in h {A = A}) (
        schedule-Keeps (ended k p code r t.cur_in h) (record p { state = zombie code })
          (IsTasks-wake _ p.parent_pid marked-IsTasks) (at_dead k p code r t.cur_in h) (λ e. cc) A)

-- What follows a command that leaves the processes alone.
pub Keeps-next :
    {A B : Type 0} (k : Kernel) (o : Outcome A) (f : A → Cmd B)
    → Steady k o
    → IsTasks k
    → ((a : A) (j : Kernel) → SameTasks k j → IsTasks j → Keeps (f a j))
    → Keeps (and_then o f)
Keeps-next k o f s t next =
    Steady-next Keeps k o f s tt (λ a j same. next a j same (IsTasks-same k j same t))

module _ (k : Kernel) (p : Process) (t : IsTasks k) (at : IsCurrent k p) where
  -- The list with the children of the current process moved.
  abbrev pub moved : Kernel
  moved = record k { process_list = map (adopt p.pid) k.process_list }

  pub moved-IsTasks : IsTasks moved
  moved-IsTasks = IsTasks-adopt k p.pid t

  pub moved-IsCurrent : (q : Process) × IsCurrent moved q
  moved-IsCurrent =
      let (q, e, number, sp) = adopt-some p.pid p in
      (q, get_elem?-adopt p.pid k.process_list k.current p at ∙ ap some e)

  reparent_rest : (A : Type 0) → Keeps {A = A} ((reparent_orphans_to_init >> end_process 1) k)
  unfolding reparent_orphans_to_init
  reparent_rest A =
      let (q, here) = moved-IsCurrent in
      rw (current-Runs (Runs-IsTasks k p t at)) (end_process-Keeps moved q 1 moved-IsTasks here A)

  pub sys_exit-Keeps : (A : Type 0) (code : ℕ) → Keeps {A = A} (sys_exit code k)
  unfolding sys_exit reparent_orphans_to_init
  sys_exit-Keeps A code =
      let (q, here) = moved-IsCurrent in
      rw (current-Runs (Runs-IsTasks k p t at)) (
        rw (current-Runs (Runs-IsTasks moved q moved-IsTasks here)) (
          Keeps-next moved (for_each_leaf release_leaf q.page_table 0 kernel_vpn2_min moved) _
            ((for_each_leaf-IsSteady release_leaf release_leaf-IsSteady q.page_table 0
                kernel_vpn2_min).run
              moved)
            moved-IsTasks
            (λ u j same tj. end_process-Keeps j q code tj (rw (same.0, same.1) here) A)))

pub do_segfault-Keeps :
    (k : Kernel) (p : Process) (t : IsTasks k) (at : IsCurrent k p) (A : Type 0) (scause stval : ℕ)
    → Keeps {A = A} (do_segfault scause stval k)
unfolding do_segfault
do_segfault-Keeps k p t at A scause stval =
    let (out, e) = (print_segfault-Prints scause stval).run k in
    rw e (
      reparent_rest (printed k out) p (IsTasks-same k (printed k out) (refl, refl, refl, refl) t) at
        A)
