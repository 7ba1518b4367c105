-- ===== src/System/Calls.antt =====
-- The system calls of kernel/src/syscall.rs that change the processes keep what holds of them.
use unit.Base.{
  ℕ, ◌+◌, ◌≤◌, ◌≡◌, ◌≢◌, ◌∙◌, ap, sym, inl, inr, true, false, Option, some, List, get_elem?,
  replicate, arith, refl, get_elem?-set_ne, get_elem?-set_self, lt_of_get_elem?,
}
use unit.Kernel.{Kernel, Cmd, Outcome, returns, panics, resumes, shuts_down, diverges}
use unit.Kernel.Steady.{Steady, IsSteady}
use unit.Mmap.Area.{ceil}
use unit.Mmap.Table.{IsTable-unused}
use unit.Task.TrapFrame.{set_sp}
use unit.Syscall.Break.{IsCurrent, current-IsCurrent, MovesBreak, sys_brk-MovesBreak}
use unit.Syscall.Dispatch.{sys_exec}
use unit.Syscall.Fork.{sys_fork}
use unit.Syscall.Forking.{IsChild, Forks, ForksOrFails, sys_fork-Forks}
use unit.Syscall.Mapping.{HasTable, AddsMapping, sys_mmap-AddsAreas}
use unit.Syscall.Memory.{sys_brk, sys_mmap, sys_munmap}
use unit.Syscall.Unmapping.{DropsMapping, sys_munmap-DropsMapping}
use unit.Syscall.Wait.{sys_wait, user_half}
use unit.Syscall.Waiting.{Reaps, Waits, blocking, sys_wait-Waits}
use unit.System.{IsProcess, IsTasks, IsSystem, Keeps}
use unit.System.Slots.{add-AreProcesses, set-AreProcesses, set-Alone}
use unit.System.Moves.{IsSystem-same, IsTasks-set, IsSystem-set, Runs-IsTasks, Switches-Keeps}
use unit.Task.Process.{
  Process, MmapArea, empty_area, max_mmap_areas, running, blocked, gone, zombie,
}
use unit.Task.Scheduler.{vacant, is_gone}

pub Steady-Keeps : {A : Type 0} (k : Kernel) (o : Outcome A) → IsSystem k → Steady k o → Keeps o
Steady-Keeps k (returns a j) v s = IsSystem-same k j s v
Steady-Keeps k panics v s = tt
Steady-Keeps k (resumes j) v s = absurd s
Steady-Keeps k (shuts_down j) v s = absurd s
Steady-Keeps k diverges v s = absurd s

-- The slot of a process that runs is not free.
occupied : (p : Process) → p.state ≡ running → vacant (some p) ≡ true → ⊥
occupied p runs h = let live : is_gone p.state ≡ false = rw runs refl in cc

-- A process that runs is no zombie.
living :
    (p child : Process) (code : ℕ) → p.state ≡ running → child.state ≡ zombie code → child ≡ p → ⊥
living p child code runs dead same =
    let e : zombie code ≡ running = sym dead ∙ ap Process.state same ∙ runs in cc

module _ (k : Kernel) (p : Process) (v : IsSystem k) (at : IsCurrent k p)
    (runs : p.state ≡ running) where
  sound : IsProcess k.next_pid p
  sound = v.tasks.processes.each k.current p at

  MovesBreak-Keeps : (b : ℕ) (o : Outcome ℕ) → MovesBreak k p b o → Keeps o
  MovesBreak-Keeps b o (inl e) = rw e tt
  MovesBreak-Keeps b o (inr (inl (j, e, same))) = rw e (IsSystem-same k j same v)
  MovesBreak-Keeps b o (inr (inr (j, e, bounds, list, cur, next))) =
      rw e (IsSystem-set k j p (record p { heap_end = b }) at refl w list cur next runs v.tasks)
    where
      w : IsProcess k.next_pid (record p { heap_end = b })
      w = record { number = sound.number; stack = sound.stack; table = sound.table; heap = bounds }

  pub sys_brk-Keeps : (b : ℕ) → Keeps (sys_brk b k)
  sys_brk-Keeps b = MovesBreak-Keeps b (sys_brk b k) (sys_brk-MovesBreak k p b at)

  HasTable-IsSystem : (j : Kernel) (areas : List MmapArea) → HasTable k p j areas → IsSystem j
  HasTable-IsSystem j areas (list, cur, next, table) =
      IsSystem-set k j p (record p { mmap_areas = areas }) at refl
        (record { number = sound.number; stack = sound.stack; table = table; heap = sound.heap })
        list cur next runs v.tasks

  AddsMapping-Keeps :
      (len prot flags : ℕ) (o : Outcome ℕ)
      → AddsMapping k p len prot flags (λ start m. Unit {0}) o
      → Keeps o
  AddsMapping-Keeps len prot flags o (inl e) = rw e tt
  AddsMapping-Keeps len prot flags o (inr (inl (errno, j, e, err, same))) =
      rw e (IsSystem-same k j same v)
  AddsMapping-Keeps len prot flags o (inr (inr (start, j, areas, e, place, has, adds, held))) =
      rw e (HasTable-IsSystem j areas has)

  pub sys_mmap-Keeps :
      (addr len prot flags fd offset : ℕ) → Keeps (sys_mmap addr len prot flags fd offset k)
  sys_mmap-Keeps addr len prot flags fd offset = AddsMapping-Keeps (ceil len) prot flags _ (
      sys_mmap-AddsAreas k p prot flags at sound.table len (λ start m. Unit {0})
        (λ pte start j right place e. tt) addr fd offset)

  DropsMapping-Keeps : (start end : ℕ) (o : Outcome ℕ) → DropsMapping k p start end o → Keeps o
  DropsMapping-Keeps start end o (inl e) = rw e tt
  DropsMapping-Keeps start end o (inr (inl (errno, e, err))) = rw e v
  DropsMapping-Keeps start end o (inr (inr (j, areas, e, has, drops))) =
      rw e (HasTable-IsSystem j areas has)

  pub sys_munmap-Keeps : (addr len : ℕ) → Keeps (sys_munmap addr len k)
  sys_munmap-Keeps addr len =
      DropsMapping-Keeps addr (addr + ceil len) _
        (sys_munmap-DropsMapping k p at sound.table addr len)

  child-IsProcess : (c : Process) → IsChild p k.next_pid c → IsProcess (k.next_pid + 1) c
  child-IsProcess c h = record {
    number = omega (arith, h.pid_new);
    stack = omega (arith, h.stack);
    table = rw h.areas sound.table;
    heap = omega (arith, h.heap, sound.heap);
  }

  Forks-Keeps :
      (idx : ℕ) (s : Option Process) (o : Outcome ℕ)
      → get_elem? k.process_list idx ≡ some s
      → vacant s ≡ true
      → Forks k p idx o
      → Keeps o
  Forks-Keeps idx s o here free (inl e) = rw e tt
  Forks-Keeps idx s o here free (inr (j, c, e, child, list, next, cur)) = rw e (record {
    tasks = record {
      processes =
          rw (list, next)
            (add-AreProcesses k.process_list idx c k.next_pid v.tasks.processes child.pid_new
              (child-IsProcess c child));
      alone =
          rw (list, cur)
            (set-Alone k.process_list idx c k.current v.tasks.alone
              (λ run. absurd (cc (child.state_ready))));
      cur_in = rw cur v.tasks.cur_in;
    };
    current_runs = (
      p,
      rw (list, cur) (get_elem?-set_ne k.process_list idx k.current (some c) other ∙ at),
      runs,
    );
  })
    where
      other : idx ≢ k.current
      other same =
          let slot : s ≡ some p = ground (arith, at) in
          occupied p runs (ap vacant (sym slot) ∙ free)

  pub sys_fork-Keeps : Keeps (sys_fork k)
  sys_fork-Keeps = go (sys_fork-Forks k p at)
    where
      go : ForksOrFails k p (sys_fork k) → Keeps (sys_fork k)
      go (inl (e, all)) = rw e v
      go (inr (idx, s, here, free, forks)) = Forks-Keeps idx s (sys_fork k) here free forks

  pub sys_exec-Keeps : Keeps (sys_exec k)
  unfolding sys_exec
  sys_exec-Keeps = rw (current-IsCurrent k p at) (
      IsSystem-set k _ p
        (record p {
          trap_frame = record (set_sp p.trap_frame 0x3f00_1000) { sepc = 0x10000 };
          heap_end = p.heap_start;
          mmap_areas = replicate max_mmap_areas empty_area;
        })
        at refl
        (record {
          number = sound.number;
          stack = sound.stack;
          table = IsTable-unused;
          heap = omega (arith, sound.heap);
        })
        refl refl refl runs v.tasks)

  Reaps-Keeps :
      (idx : ℕ) (child : Process) (o : Outcome ℕ)
      → get_elem? k.process_list idx ≡ some (some child)
      → idx ≢ k.current
      → Reaps k idx child o
      → Keeps o
  Reaps-Keeps idx child o here other (inl e) = rw e tt
  Reaps-Keeps idx child o here other (inr (j, e, list, cur, next)) = rw e (record {
    tasks = record {
      processes =
          rw (list, next)
            (set-AreProcesses k.process_list idx (record child { state = gone }) k.next_pid child
              v.tasks.processes here refl left);
      alone =
          rw (list, cur)
            (set-Alone k.process_list idx (record child { state = gone }) k.current v.tasks.alone
              (λ run. absurd (cc)));
      cur_in = rw cur v.tasks.cur_in;
    };
    current_runs = (
      p,
      rw (list, cur)
          (get_elem?-set_ne k.process_list idx k.current (some (record child { state = gone }))
              other
            ∙ at),
      runs,
    );
  })
    where
      left : IsProcess k.next_pid (record child { state = gone })
      left =
          let w = v.tasks.processes.each idx child here in
          record { number = w.number; stack = w.stack; table = w.table; heap = w.heap }

  blocking-IsTasks : IsTasks (blocking k p)
  blocking-IsTasks =
      IsTasks-set k (blocking k p) p (record p { state = blocked }) at refl
        (record {
          number = sound.number;
          stack = sound.stack;
          table = sound.table;
          heap = sound.heap;
        })
        refl refl refl v.tasks

  Waits-Keeps : (o : Outcome ℕ) → Waits k p o → Keeps o
  Waits-Keeps o (inl (idx, code, child, here, parent, dead, reaps)) =
      Reaps-Keeps idx child o here (λ same. living p child code runs dead (ground (arith, at)))
        reaps
  Waits-Keeps o (inr (inl (none, alive, switches))) =
      Switches-Keeps (blocking k p) (record p { state = blocked }) blocking-IsTasks
        (get_elem?-set_self k.process_list k.current (some (record p { state = blocked }))
          (lt_of_get_elem? k.process_list k.current (some p) at))
        (λ e. cc) o switches
  Waits-Keeps o (inr (inr (none, nobody, e))) = rw e v

  pub sys_wait-Keeps :
      (user_store : ℕ → ℕ → Cmd (Unit {0})) (ptr : ℕ)
      → ((a w : ℕ) → a + 8 ≤ user_half → IsSteady (user_store a w))
      → ptr + 8 ≤ user_half
      → Keeps (sys_wait user_store ptr k)
  sys_wait-Keeps user_store ptr fine low = Waits-Keeps (sys_wait user_store ptr k) (
      sys_wait-Waits user_store fine ptr k p low (Runs-IsTasks k p v.tasks at) v.tasks.cur_in
        (λ j q here. (v.tasks.processes.each j q here).stack))
