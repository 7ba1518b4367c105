-- ===== src/Examples/Tasks.antt =====
-- The theorems on kernel/src/task, on the sample list of three processes.
use unit.Base.{
  Option, List, ℕ, zero, suc, replicate, ◌≡◌, ◌<◌, ◌≤◌, ◌⊎◌, refl, some, none, get_elem?, Option,
  arith,
}
use unit.Kernel.{Kernel, returns}
use unit.Task.Stack.{read_from_stack, write_to_stack}
use unit.Task.Image.{read_from_stack-write_to_stack}
use unit.Task.Process.{Process, running}
use unit.Task.Scheduler.{schedule}
use unit.Task.Scheduler.{wake_parent, reparent_orphans_to_init}
use unit.Task.Scheduler.Family.{
  Wakes, Orphaned, wake_parent-Wakes, reparent_orphans_to_init-Orphaned,
}
use unit.Task.Scheduler.Switch.{Runs, HaveStacks, Switches, saved, schedule-Switches}
use unit.Examples.Data.{sample, slots, process, registers}

read_from_stack-write_to_stack_example :
    (j : Kernel) × (write_to_stack registers 0x8000_0ee0 sample ≡ returns tt j)
    × (read_from_stack 0x8000_0ee0 j ≡ returns registers j)
    × ((a : ℕ) → (a < 0x8000_0ee0) ⊎ (0x8000_1000 ≤ a) → j.memory a ≡ sample.memory a)
read_from_stack-write_to_stack_example =
    read_from_stack-write_to_stack registers 0x8000_0ee0 sample refl

pub sample-Runs : Runs sample (process 1 0 running)
sample-Runs = record { at = refl; stack = omega arith }

empty_slots : (n j : ℕ) (q : Process) → get_elem? (replicate n none) j ≡ some (some q) → ⊥
empty_slots zero j q h = cc
empty_slots (suc n) zero q h = cc
empty_slots (suc n) (suc j) q h = empty_slots n j q h

-- The kernel stack of every process of the list can hold a trap frame.
pub sample-HaveStacks : HaveStacks slots
sample-HaveStacks zero q h = ground (arith, h)
sample-HaveStacks (suc zero) q h = ground (arith, h)
sample-HaveStacks (suc (suc zero)) q h = ground (arith, h)
sample-HaveStacks (suc (suc (suc j))) q h = absurd (empty_slots 29 j q h)

schedule-Switches_example : Switches {A = ℕ} (saved sample (process 1 0 running)) (schedule sample)
schedule-Switches_example = schedule-Switches sample-Runs (omega arith) sample-HaveStacks

wake_parent-Wakes_example :
    (out : List (Option Process)) × (wake_parent sample
      ≡ returns tt (record sample { process_list = out }))
    × Wakes 0 slots out
wake_parent-Wakes_example = wake_parent-Wakes sample (process 1 0 running) sample-Runs

reparent_orphans_to_init-Orphaned_example :
    (out : List (Option Process)) × (reparent_orphans_to_init sample
      ≡ returns tt (record sample { process_list = out }))
    × Orphaned 1 slots out
reparent_orphans_to_init-Orphaned_example =
    reparent_orphans_to_init-Orphaned sample (process 1 0 running) sample-Runs
