-- ===== src/System/Moves.antt =====
-- The steps of the scheduler in kernel/src/task/scheduler.rs keep what holds of the processes.
use unit.Base.{
  ℕ, zero, suc, ◌≡◌, ◌≢◌, true, false, Option, none, some, List, [], ◌∷◌, length, set, map, arith,
  ◌⊎◌, inl, inr, refl, ap, ◌∙◌, sym, get_elem?-set_self, lt_of_get_elem?, ◌==◌, not, ◌&&◌,
  Bool-cases,
}
use unit.Kernel.{Kernel, Outcome}
use unit.Kernel.Steady.{SameTasks}
use unit.System.{Holds, IsProcess, IsTasks, IsSystem, Keeps}
use unit.System.Slots.{set-AreProcesses, set-Alone, leave-Alone}
use unit.Syscall.Break.{IsCurrent}
use unit.Task.Process.{Process, running, ready}
use unit.Task.Scheduler.{adopt, is_gone, wake, schedule}
use unit.Task.Scheduler.Family.{wake-Wakes, Wakes}
use unit.Task.Scheduler.Switch.{Runs, Switches, saved, saved_process, resumed, schedule-Switches}

pub IsTasks-same : (k j : Kernel) → SameTasks k j → IsTasks k → IsTasks j
IsTasks-same k j s t = record {
  processes = rw (s.0, s.2) t.processes;
  alone = rw (s.0, s.1) t.alone;
  cur_in = rw s.1 t.cur_in;
}

pub IsSystem-same : (k j : Kernel) → SameTasks k j → IsSystem k → IsSystem j
IsSystem-same k j s v =
    let (p, at, runs) = v.current_runs in
    record { tasks = IsTasks-same k j s v.tasks; current_runs = (p, rw (s.0, s.1) at, runs) }

-- The current process is another with the same number.
module _ (k j : Kernel) (p q : Process) (at : IsCurrent k p) (number : q.pid ≡ p.pid)
    (v : IsProcess k.next_pid q) (list : j.process_list ≡ set k.process_list k.current (some q))
    (cur : j.current ≡ k.current) (next : j.next_pid ≡ k.next_pid) where
  pub IsTasks-set : IsTasks k → IsTasks j
  IsTasks-set t = record {
    processes =
        rw (list, next)
          (set-AreProcesses k.process_list k.current q k.next_pid p t.processes at number v);
    alone = rw (list, cur) (set-Alone k.process_list k.current q k.current t.alone (λ e. refl));
    cur_in = rw cur t.cur_in;
  }

  pub IsSystem-set : q.state ≡ running → IsTasks k → IsSystem j
  IsSystem-set runs t = record {
    tasks = IsTasks-set t;
    current_runs = (
      q,
      rw (list, cur)
          (get_elem?-set_self k.process_list k.current (some q)
            (lt_of_get_elem? k.process_list k.current (some p) at)),
      runs,
    );
  }

-- A change of the parent alone.
Holds-adopt :
    (pid : ℕ) (slots : List (Option Process)) (j : ℕ) (q : Process)
    → Holds (map (adopt pid) slots) j q
    → (p : Process) × Holds slots j p × ((q ≡ p) ⊎ (q ≡ record p { parent_pid = 1 }))
unfolding adopt
Holds-adopt pid [] j q h = absurd (cc)
Holds-adopt pid (none ∷ slots) zero q h = absurd (cc)
Holds-adopt pid (some p ∷ slots) zero q h =
    (p, refl, go (Bool-cases (p.parent_pid == pid && not (is_gone p.state))))
  where
    go :
        ((p.parent_pid == pid && not (is_gone p.state)) ≡ true)
          ⊎ ((p.parent_pid == pid && not (is_gone p.state)) ≡ false)
        → (q ≡ p) ⊎ (q ≡ record p { parent_pid = 1 })
    go (inl child) = inr (ground arith)
    go (inr other) = inl (ground arith)
Holds-adopt pid (x ∷ slots) (suc j) q h = Holds-adopt pid slots j q h

length-adopt :
    (pid : ℕ) (slots : List (Option Process)) → length (map (adopt pid) slots) ≡ length slots
length-adopt pid [] = refl
length-adopt pid (x ∷ slots) = ap suc (length-adopt pid slots)

same_number : (p q : Process) → (q ≡ p) ⊎ (q ≡ record p { parent_pid = 1 }) → q.pid ≡ p.pid
same_number p q (inl e) = ap Process.pid e
same_number p q (inr e) = ap Process.pid e

IsProcess-adopted :
    (next : ℕ) (p q : Process)
    → IsProcess next p
    → (q ≡ p) ⊎ (q ≡ record p { parent_pid = 1 })
    → IsProcess next q
IsProcess-adopted next p q v (inl e) = rw e v
IsProcess-adopted next p q v (inr e) =
    rw e (record { number = v.number; stack = v.stack; table = v.table; heap = v.heap })

state_adopted : (p q : Process) → (q ≡ p) ⊎ (q ≡ record p { parent_pid = 1 }) → p.state ≡ q.state
state_adopted p q (inl e) = sym (ap Process.state e)
state_adopted p q (inr e) = sym (ap Process.state e)

pub IsTasks-adopt :
    (k : Kernel) (pid : ℕ)
    → IsTasks k
    → IsTasks (record k { process_list = map (adopt pid) k.process_list })
IsTasks-adopt k pid t = record {
  processes = record {
    size = length-adopt pid k.process_list ∙ t.processes.size;
    each = λ j q h.
        let (p, at, e) = Holds-adopt pid k.process_list j q h in
        IsProcess-adopted k.next_pid p q (t.processes.each j p at) e;
    distinct = λ i j p q h h' e.
        let (p', at, c) = Holds-adopt pid k.process_list i p h in
        let (q', at', c') = Holds-adopt pid k.process_list j q h' in
        t.processes.distinct i j p' q' at at' (sym (same_number p' p c) ∙ e ∙ same_number q' q c');
  };
  alone = λ j q h e.
      let (p, at, c) = Holds-adopt pid k.process_list j q h in
      t.alone j p at (state_adopted p q c ∙ e);
  cur_in = t.cur_in;
}

pub IsTasks-wake :
    (k : Kernel) (pid : ℕ)
    → IsTasks k
    → IsTasks (record k { process_list = wake pid k.process_list })
IsTasks-wake k pid t = go (wake-Wakes pid k.process_list)
  where
    go :
        Wakes pid k.process_list (wake pid k.process_list)
        → IsTasks (record k { process_list = wake pid k.process_list })
    go (inr (e, all)) = rw e t
    go (inl (i, p, at, waiting, before, e)) = rw e (record {
      processes =
          set-AreProcesses k.process_list i (record p { state = ready }) k.next_pid p t.processes at
            refl (woken (t.processes.each i p at));
      alone =
          set-Alone k.process_list i (record p { state = ready }) k.current t.alone
            (λ run. absurd (cc));
      cur_in = t.cur_in;
    })
      where
        woken : IsProcess k.next_pid p → IsProcess k.next_pid (record p { state = ready })
        woken v = record { number = v.number; stack = v.stack; table = v.table; heap = v.heap }

IsProcess-framed :
    (next : ℕ) (k : Kernel) (p : Process) → IsProcess next p → IsProcess next (saved_process k p)
IsProcess-framed next k p v = record {
  number = v.number;
  stack = v.stack;
  table = v.table;
  heap = v.heap;
}

module _ (k : Kernel) (p : Process) (t : IsTasks k) (at : IsCurrent k p) where
  pub Runs-IsTasks : Runs k p
  Runs-IsTasks = record { at = at; stack = (t.processes.each k.current p at).stack }

  pub saved-IsTasks : IsTasks (saved k p)
  saved-IsTasks =
      IsTasks-set k (saved k p) p (saved_process k p) at refl
        (IsProcess-framed k.next_pid k p (t.processes.each k.current p at)) refl refl refl t

  pub saved-IsSystem : p.state ≡ running → IsSystem (saved k p)
  saved-IsSystem runs =
      IsSystem-set k (saved k p) p (saved_process k p) at refl
        (IsProcess-framed k.next_pid k p (t.processes.each k.current p at)) refl refl refl runs t

  module _ (stopped : p.state ≢ running) where
    resumed-IsSystem :
        (n : ℕ) (q : Process)
        → Holds (saved k p).process_list n q
        → IsSystem (resumed (saved k p) n q)
    resumed-IsSystem n q here =
        let s = saved-IsTasks in
        let w = s.processes.each n q here in
        let run : Process = record q { state = running } in
        record {
          tasks = record {
            processes =
                set-AreProcesses (saved k p).process_list n run k.next_pid q s.processes here refl
                  (record { number = w.number; stack = w.stack; table = w.table; heap = w.heap });
            alone =
                leave-Alone (saved k p).process_list n run k.current (saved_process k p) s.alone
                  (get_elem?-set_self k.process_list k.current (some (saved_process k p))
                    (lt_of_get_elem? k.process_list k.current (some p) at))
                  stopped;
            cur_in =
                omega (
                  arith,
                  lt_of_get_elem? (saved k p).process_list n (some q) here,
                  s.processes.size,
                );
          };
          current_runs = (
            run,
            get_elem?-set_self (saved k p).process_list n (some run)
                (lt_of_get_elem? (saved k p).process_list n (some q) here),
            refl,
          );
        }

    pub Switches-Keeps : {A : Type 0} (o : Outcome A) → Switches (saved k p) o → Keeps o
    Switches-Keeps o (inl (n, q, next, here, isready, out)) = rw out (resumed-IsSystem n q here)
    Switches-Keeps o (inr (out, none_ready)) = rw out tt

    pub schedule-Keeps : (A : Type 0) → Keeps {A = A} (schedule k)
    schedule-Keeps A =
        Switches-Keeps (schedule {A = A} k)
          (schedule-Switches Runs-IsTasks t.cur_in (λ j q here. (t.processes.each j q here).stack))
