-- ===== src/Boot/Starts.antt =====
-- How `rust_main` of kernel/src/main.rs ends.
use unit.Base.{
  ℕ, zero, suc, ◌+◌, ◌-◌, ◌≡◌, ◌∙◌, ap, sym, false, ltb, Option, none, some, List, ◌∷◌, length,
  get_elem?, set, replicate, arith, refl, ◌⊎◌, inl, inr, Bool-cases, usize_end,
}
use unit.Boot.{
  Image, first_process, start_first, enter_first, rust_main, powered_on, first_table, set_satp,
  start_timer, first_stack,
}
use unit.Boot.Steady.{first_table-IsSteady, start_timer-IsSteady, first_stack-IsSteady}
use unit.Console.{bytes, puts}
use unit.Console.Steady.{Prints-IsSteady, puts-Prints}
use unit.Syscall.Transfer.{Machine}
use unit.System.Transfers.{IsMachine}
use unit.Kernel.{Kernel, Outcome, panics, resumes}
use unit.Kernel.Steady.{Steady-next}
use unit.PageTable.Defs.{PageTable}
use unit.PageTable.Walk.{satp_val}
use unit.System.{Holds, IsProcess, IsSystem}
use unit.Mmap.Table.{IsTable-unused}
use unit.Task.Process.{Process, running, kernel_stack_size}
use unit.Task.Scheduler.{max_processes, current, alloc_pid}
use unit.Task.Scheduler.Switch.{stack_frame}
use unit.Task.Stack.{put_words, image, write_to_stack}
use unit.Task.TrapFrame.{new_user, size}
use unit.Task.Image.{frame_back}

-- A list with one process, in its first slot.
abbrev one_process : Process → List (Option Process)
one_process p = some p ∷ replicate 31 none

none_held : (n i : ℕ) (q : Process) → get_elem? (replicate n none) i ≡ some (some q) → ⊥
none_held zero i q h = cc
none_held (suc n) zero q h = cc
none_held (suc n) (suc i) q h = none_held n i q h

Holds-one : (p : Process) (i : ℕ) (q : Process) → Holds (one_process p) i q → (i ≡ 0) × (q ≡ p)
Holds-one p zero q h = (refl, ground arith)
Holds-one p (suc i) q h = absurd (none_held 31 i q h)

-- The state of the kernel in which a single process runs.
module _ (k : Kernel) (p : Process) (list : k.process_list ≡ one_process p) (cur : k.current ≡ 0)
    (v : IsProcess k.next_pid p) (runs : p.state ≡ running) where
  held : (i : ℕ) (q : Process) → Holds k.process_list i q → (i ≡ 0) × (q ≡ p)
  held i q h = Holds-one p i q (ap (λ l. get_elem? l i) (sym list) ∙ h)

  IsSystem-one : IsSystem k
  IsSystem-one = record {
    tasks = record {
      processes = record {
        size = ap length list;
        each = λ i q h. rw (held i q h).1 v;
        distinct = λ i j q r h h' e. (held i q h).0 ∙ sym (held j r h').0;
      };
      alone = λ i q h e. (held i q h).0 ∙ sym cur;
      cur_in = rw cur (omega arith);
    };
    current_runs = (p, rw (list, cur) refl, runs);
  }

-- How booting ends: with a panic, or with the first process at the start of its program: it has number 1
-- and no parent, is the only process and runs, and its page table is in force. The frame that
-- `trap_exit_restore` takes from its kernel stack is that of a new user program.
abbrev pub Starts : Outcome (Unit {0}) → Type 0
Starts o =
    (o ≡ panics)
    ⊎ ((j : Kernel) × (p : Process) × (o ≡ resumes j)
        × IsSystem j
        × (j.process_list ≡ some p ∷ replicate 31 none)
        × (j.current ≡ 0)
        × (p.pid ≡ 1)
        × (p.parent_pid ≡ 0)
        × (j.satp ≡ satp_val p.page_table)
        × (stack_frame j.memory p.kernel_sp ≡ new_user 0x1_0000 0x3f00_1000))

module _ (k : Kernel) (list : k.process_list ≡ replicate max_processes none) (next : k.next_pid ≡ 1)
    (pt : PageTable) (kernel_stack : ℕ) where
  abbrev init : Process
  init = first_process pt kernel_stack (kernel_stack + kernel_stack_size) k.next_pid

  abbrev started : Kernel
  started = record k {
    next_pid = k.next_pid + 1;
    process_list = set k.process_list 0 (some init);
    current = 0;
    satp = satp_val pt;
    memory = put_words k.memory (kernel_stack + kernel_stack_size - size) (image init.trap_frame);
  }

  IsSystem-started : IsSystem started
  unfolding first_process
  IsSystem-started =
      IsSystem-one started init (rw list refl) refl
        (record {
          number = omega arith;
          stack = omega arith;
          table = IsTable-unused;
          heap = omega arith;
        })
        refl

  start_first-Starts : Starts (start_first pt kernel_stack k)
  unfolding start_first enter_first alloc_pid current set_satp write_to_stack first_process new_user
  start_first-Starts = elim (Bool-cases (ltb (kernel_stack + kernel_stack_size) usize_end)) [
    | inr over ↦ rw over (inl refl)
    | inl fits ↦ rw fits (elim (Bool-cases (ltb (k.next_pid + 1) usize_end)) [
      | inr over ↦ rw over (inl refl)
      | inl more ↦ rw more (
          rw first (
            rw room (
              inr (
                started,
                init,
                refl,
                IsSystem-started,
                ap (λ l. set l 0 (some init)) list,
                refl,
                next,
                refl,
                refl,
                frame_back init.trap_frame (kernel_stack + kernel_stack_size - size) k refl,
              ))))
    ])
  ]
    where
      first : get_elem? (set k.process_list 0 (some init)) 0 ≡ some (some init)
      first = rw list refl

      room : ltb (kernel_stack + kernel_stack_size) size ≡ false
      room = ground arith

-- From the statics as they are linked and any memory, with a machine that leaves the processes alone,
-- `rust_main` ends: it panics, or enters the first process, which has number 1 and no parent, is the only
-- one and the one that runs, with its page table in force and the frame of a new user program on its
-- kernel stack. The state is then one in which all processes are well formed.
pub rust_main-Starts :
    (m : Machine) (img : Image) (memory : ℕ → ℕ) (satp : ℕ)
    → IsMachine m
    → Starts (rust_main m img (powered_on memory satp))
unfolding rust_main set_satp
rust_main-Starts m img memory satp h =
    let k = powered_on memory satp in
    Steady-next Starts k (puts (bytes "Unit00 booting...\n") k) _
      ((Prints-IsSteady (puts-Prints (bytes "Unit00 booting...\n"))).run k) (inl refl)
      λ u j1 s1.
        Steady-next Starts j1 (first_table img j1) _ ((first_table-IsSteady img).run j1) (inl refl)
          λ made j2 s2.
            let i : Kernel = record j2 { satp = made.1 } in
            Steady-next Starts i (start_timer m i) _ ((start_timer-IsSteady m h).run i) (inl refl)
              λ u j3 s3.
                Steady-next Starts j3 (first_stack j3) _ (first_stack-IsSteady.run j3) (inl refl)
                  λ stack j4 s4.
                    start_first-Starts j4 (s4.0 ∙ s3.0 ∙ s2.0 ∙ s1.0) (s4.2 ∙ s3.2 ∙ s2.2 ∙ s1.2)
                      made.0 stack
