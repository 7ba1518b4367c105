-- ===== src/Examples/System.antt =====
-- The theorems about the start of kernel/src, about runs of any length and about checks of user memory,
-- at small states.
use unit.Base.{
  ℕ, zero, suc, ◌+◌, ◌<◌, ◌≤◌, ◌≡◌, refl, ap, ◌⊎◌, inl, inr, none, some, get_elem?, replicate,
  arith, usize_end, false,
}
use unit.Boot.{Image, rust_main, powered_on}
use unit.Boot.Starts.{Starts, rust_main-Starts}
use unit.Kernel.{Kernel, returns}
use unit.Kernel.Steady.{pure-IsSteady, store-IsSteady}
use unit.Syscall.Access.{granted, refused, ensure_user_range}
use unit.Syscall.Errors.{linux_error, efault}
use unit.Syscall.Grants.{Checks, pages, first_page, ensure_user_range-Grants}
use unit.System.{Holds, IsProcess, IsSystem, Keeps}
use unit.System.Reach.{Reach, here, next, Reach-IsSystem}
use unit.System.Traps.{AsksInHalf}
use unit.System.Transfers.{IsMachine}
use unit.Task.Process.{Process, ProcessState, running, ready, blocked}
use unit.Trap.Handler.{user_trap}
use unit.Trap.Return.{user_trap-answered}
use unit.Examples.Calls.{machine, calling, calling-Runs, getpid_returns}
use unit.Examples.Data.{sample, slots, process}
use unit.Examples.Syscalls.{table-IsTable}

machine-IsMachine : IsMachine machine
machine-IsMachine = record {
  load_byte = λ a. pure-IsSteady;
  store_byte = λ a b low. pure-IsSteady;
  store_word = λ a w low. store-IsSteady a w;
  read_char = pure-IsSteady;
  read_time = pure-IsSteady;
  set_timer = λ t. pure-IsSteady;
}

-- A program of three bytes behind a small kernel.
abbrev small : Image
small = record {
  kernel_end = 0x8002_0000;
  user_prog_start = 0x8001_0000;
  user_prog_end = 0x8001_0003;
  user_prog = λ i. i + 1;
}

rust_main-Starts_example : Starts (rust_main machine small (powered_on (λ a. 0) 0))
rust_main-Starts_example = rust_main-Starts machine small (λ a. 0) 0 machine-IsMachine

process-IsProcess :
    (pid parent : ℕ) (state : ProcessState) → pid < 4 → IsProcess 4 (process pid parent state)
process-IsProcess pid parent state h = record {
  number = h;
  stack = omega arith;
  table = table-IsTable;
  heap = omega arith;
}

-- Which process is where in the sample.
Slot : ℕ → Process → Type 0
Slot i q =
    ((i ≡ 0) × (q ≡ process 1 0 running))
    ⊎ ((i ≡ 1) × (q ≡ process 2 1 blocked))
    ⊎ ((i ≡ 2) × (q ≡ process 3 2 ready))

vacant_rest : (n i : ℕ) (q : Process) → get_elem? (replicate n none) i ≡ some (some q) → ⊥
vacant_rest zero i q h = cc
vacant_rest (suc n) zero q h = cc
vacant_rest (suc n) (suc i) q h = vacant_rest n i q h

slots_lem : (i : ℕ) (q : Process) → Holds slots i q → Slot i q
unfolding Slot
slots_lem zero q h = inl (refl, ground arith)
slots_lem (suc zero) q h = inr (inl (refl, ground arith))
slots_lem (suc (suc zero)) q h = inr (inr (refl, ground arith))
slots_lem (suc (suc (suc i))) q h = absurd (vacant_rest 29 i q h)

Slot-IsProcess : (i : ℕ) (q : Process) → Slot i q → IsProcess 4 q
unfolding Slot
Slot-IsProcess i q (inl (a, b)) = rw b (process-IsProcess 1 0 running (omega arith))
Slot-IsProcess i q (inr (inl (a, b))) = rw b (process-IsProcess 2 1 blocked (omega arith))
Slot-IsProcess i q (inr (inr (a, b))) = rw b (process-IsProcess 3 2 ready (omega arith))

number_of : (i : ℕ) (q : Process) → Slot i q → q.pid ≡ i + 1
unfolding Slot
number_of i q (inl (a, b)) = omega (arith, ap Process.pid b)
number_of i q (inr (inl (a, b))) = omega (arith, ap Process.pid b)
number_of i q (inr (inr (a, b))) = omega (arith, ap Process.pid b)

only_running : (i : ℕ) (q : Process) → Slot i q → q.state ≡ running → i ≡ 0
unfolding Slot
only_running i q (inl (a, b)) e = a
only_running i q (inr (inl (a, b))) e = absurd cc
only_running i q (inr (inr (a, b))) e = absurd cc

calling-IsSystem : (number : ℕ) → IsSystem (calling number)
calling-IsSystem number = record {
  tasks = record {
    processes = record {
      size = refl;
      each = λ i q h. Slot-IsProcess i q (slots_lem i q h);
      distinct = λ i j p q h h' e.
          omega (arith, e, number_of i p (slots_lem i p h), number_of j q (slots_lem j q h'));
    };
    alone = λ i q h e. only_running i q (slots_lem i q h) e;
    cur_in = omega arith;
  };
  current_runs = (process 1 0 running, refl, refl);
}

-- The state behind the trap of `calling 172`, with another memory.
abbrev answered_state : Kernel
answered_state =
    (user_trap-answered machine (calling 172) (process 1 0 running) 1 _ (calling-Runs 172) refl
      getpid_returns refl).0

abbrev later : Kernel
later = record answered_state { memory = λ a. 7 }

calling-words : (a : ℕ) → (calling 172).memory a < usize_end
calling-words a = ground arith

-- The call of the first trap names no buffer.
calling-AsksInHalf : AsksInHalf (calling 172)
calling-AsksInHalf p at cause =
    let same : p ≡ process 1 0 running = ground (arith, at) in
    rw same (record {
      getcwd = λ e. absurd (omega (arith, e));
      read = λ e. absurd (omega (arith, e));
      uname = λ e. absurd (omega (arith, e));
      wait = λ e. absurd (omega (arith, e));
    })

later-Reach : Reach machine (calling 172) later
later-Reach =
    next here
      (user_trap-answered machine (calling 172) (process 1 0 running) 1 _ (calling-Runs 172) refl
        getpid_returns refl).1
      (refl, (λ a. omega arith), λ p at cause. absurd (omega (arith, cause)))

Reach-IsSystem_example : IsSystem later × Keeps (user_trap machine later)
Reach-IsSystem_example =
    Reach-IsSystem machine (calling 172) machine-IsMachine (calling-IsSystem 172) calling-words
      calling-AsksInHalf later-Reach

ensure_user_range-Grants_example :
    ((◌≡◌ {A = ℕ} 8 0) × (ensure_user_range 0x1_0000 8 false sample ≡ returns granted sample))
    ⊎ ((0 < 8)
        × ((◌≡◌ {A = ℕ} 0x1_0000 0) ⊎ (usize_end < 0x1_0000 + 8))
        × (ensure_user_range 0x1_0000 8 false sample
            ≡ returns (refused (linux_error efault)) sample))
    ⊎ ((0 < 8)
        × (0 < 0x1_0000)
        × (0x1_0000 + 8 ≤ usize_end)
        × Checks sample
            (process 1 0 running)
            refl
            (pages 0x1_0000 8)
            (first_page 0x1_0000)
            (ensure_user_range 0x1_0000 8 false sample))
ensure_user_range-Grants_example =
    ensure_user_range-Grants sample (process 1 0 running) refl 0x1_0000 8 (omega arith)
