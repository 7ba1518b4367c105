-- ===== src/Examples/Syscalls.antt =====
-- The theorems on system calls and on the end of a process, on the sample state.
use unit.Base.{[], ◌∷◌, ℕ, zero, suc, ◌+◌, ◌≡◌, true, refl, arith, replicate}
use unit.Kernel.{store}
use unit.Kernel.Steady.{IsSteady, store-IsSteady}
use unit.Mmap.Area.{AreAreas, ceil}
use unit.Mmap.Mapped.{mapped}
use unit.Mmap.Table.{IsTable, any}
use unit.Syscall.Access.{ensure_user_range}
use unit.Syscall.Break.{MovesBreak, sys_brk-MovesBreak}
use unit.Syscall.Children.{FindsZombie, find_zombie-FindsZombie}
use unit.Syscall.Ends.{Exits, sys_exit-Leaves}
use unit.Syscall.Exit.{sys_exit}
use unit.Syscall.Fork.{sys_fork}
use unit.Syscall.Forking.{ForksOrFails, sys_fork-Forks}
use unit.Syscall.Mapping.{AddsMapping}
use unit.Syscall.Mapped.{MapsFrames, sys_mmap-AddsMapping}
use unit.Syscall.Memory.{sys_brk, sys_mmap, sys_munmap}
use unit.Syscall.Steady.{ensure_user_range-IsSteady}
use unit.Syscall.Unmapping.{DropsMapping, sys_munmap-DropsMapping}
use unit.Syscall.Wait.{sys_wait, find_zombie}
use unit.Syscall.Waiting.{Waits, sys_wait-Waits}
use unit.Task.Process.{empty_area, running}
use unit.Trap.Ends.{Ends, do_segfault-Leaves}
use unit.Trap.Fault.{do_segfault}
use unit.Examples.Tables.{three_levels, three_levels-IsTree, three_levels-IsAllocator}
use unit.Examples.Data.{page_free, sample, slots, process, table}
use unit.Examples.Tasks.{sample-Runs, sample-HaveStacks}

AreAreas-replicate : (n : ℕ) → AreAreas (replicate n empty_area)
AreAreas-replicate zero = tt
AreAreas-replicate (suc n) = (λ h. absurd (cc), AreAreas-replicate n)

mapped-replicate : (n a : ℕ) → mapped a any (replicate n empty_area) ≡ 0
mapped-replicate zero a = refl
mapped-replicate (suc n) a = ground (arith, mapped-replicate n a)

pub table-IsTable : IsTable table
table-IsTable = record {
  each = (
    λ h. record {
      start_aligned = refl;
      len_aligned = refl;
      nonempty = omega arith;
      above = omega arith;
      below = omega arith;
    },
    AreAreas-replicate 31,
  );
  disjoint = λ a. ground (arith, mapped-replicate 31 a);
  size = refl;
}

-- On the state of the tables of three levels.
sys_mmap-AddsMapping_example :
    AddsMapping three_levels
      (process 1 0 running)
      (ceil 100)
      3
      0x22
      (MapsFrames three_levels (process 1 0 running).page_table 3 (ceil 100))
      (sys_mmap 0 100 3 0x22 0 0 three_levels)
sys_mmap-AddsMapping_example =
    sys_mmap-AddsMapping three_levels (process 1 0 running) 3 0x22 refl table-IsTable
      (three_levels-IsTree, page_free ∷ [], three_levels-IsAllocator) 100 0 0 0

sys_munmap-DropsMapping_example :
    DropsMapping sample
      (process 1 0 running)
      0x3e00_1000
      (0x3e00_1000 + ceil 100)
      (sys_munmap 0x3e00_1000 100 sample)
sys_munmap-DropsMapping_example =
    sys_munmap-DropsMapping sample (process 1 0 running) refl table-IsTable 0x3e00_1000 100

sys_brk-MovesBreak_example :
    MovesBreak sample (process 1 0 running) 0x2_1000 (sys_brk 0x2_1000 sample)
sys_brk-MovesBreak_example = sys_brk-MovesBreak sample (process 1 0 running) 0x2_1000 refl

ensure_user_range-IsSteady_example : IsSteady (ensure_user_range 0x1_0ff0 100 true)
ensure_user_range-IsSteady_example = ensure_user_range-IsSteady 0x1_0ff0 100 true (omega arith)

sys_exit-Leaves_example : Exits {A = ℕ} sample (process 1 0 running) 7 (sys_exit 7 sample)
sys_exit-Leaves_example =
    sys_exit-Leaves sample (process 1 0 running) 7 sample-Runs (omega arith) sample-HaveStacks

do_segfault-Leaves_example :
    Ends {A = ℕ} sample (process 1 0 running) 1 (do_segfault 13 0xdead_0000 sample)
do_segfault-Leaves_example =
    do_segfault-Leaves sample (process 1 0 running) 13 0xdead_0000 sample-Runs (omega arith)
      sample-HaveStacks

find_zombie-FindsZombie_example : FindsZombie 1 slots (find_zombie 1 slots)
find_zombie-FindsZombie_example = find_zombie-FindsZombie 1 slots

-- A store through the identity map of the kernel.
sys_wait-Waits_example : Waits sample (process 1 0 running) (sys_wait store 0x1_0000 sample)
sys_wait-Waits_example =
    sys_wait-Waits store (λ a w low. store-IsSteady a w) 0x1_0000 sample (process 1 0 running)
      (omega arith) sample-Runs (omega arith) sample-HaveStacks

sys_fork-Forks_example : ForksOrFails sample (process 1 0 running) (sys_fork sample)
sys_fork-Forks_example = sys_fork-Forks sample (process 1 0 running) refl
