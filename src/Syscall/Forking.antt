-- ===== src/Syscall/Forking.antt =====
-- How `sys_fork` of kernel/src/syscall.rs ends.
use unit.Base.{
  ℕ, ◌+◌, ◌≡◌, true, false, Option, some, get_elem?, set, Bool-cases, inl, inr, ◌⊎◌, refl, ap, ltb,
  usize_end,
}
use unit.Kernel.{◌>>=◌, ◌>>◌, Kernel, Outcome, returns, panics, and_then, pure}
use unit.Kernel.Steady.{IsSteady, SameTasks, Steady-next, SameTasks-trans, steady}
use unit.Frame.Steady.{alloc_frame-IsSteady, inc_ref-IsSteady, alloc_contiguous_frames-IsSteady}
use unit.PageTable.Defs.{PageTable}
use unit.PageTable.Steady.{map-IsSteady, map_cow-IsSteady, for_each_leaf-IsSteady}
use unit.PageTable.Walk.{new, for_each_leaf, kernel_vpn2_min}
use unit.Syscall.Break.{IsCurrent, current-IsCurrent}
use unit.Syscall.Errors.{linux_error, eagain}
use unit.Syscall.Fork.{
  copy_root_entry, protect, share_leaf, copy_kernel_leaf, child_frame, child_root, child_stack,
  store_process, fork_into, sys_fork,
}
use unit.Syscall.Steady.{current-IsSteady}
use unit.Task.Process.{Process, ready, kernel_stack_size}
use unit.Task.Scheduler.{current, alloc_pid, vacant}
use unit.Task.Scheduler.Pick.{find_empty_slot-FindsVacant}
use unit.Task.TrapFrame.{TrapFrame, set_a0}

copy_root_entry-IsSteady : (parent child vpn2 : ℕ) → IsSteady (copy_root_entry parent child vpn2)
unfolding copy_root_entry
copy_root_entry-IsSteady parent child vpn2 = search steady depth 14

protect-IsSteady : (entry : ℕ) → IsSteady (protect entry)
unfolding protect
protect-IsSteady entry = search steady depth 20

share_leaf-IsSteady :
    (child_pt : PageTable) (vaddr entry : ℕ) → IsSteady (share_leaf child_pt vaddr entry)
unfolding share_leaf
share_leaf-IsSteady child_pt vaddr entry =
    search (steady, inc_ref-IsSteady, protect-IsSteady, map-IsSteady, map_cow-IsSteady) depth 20

copy_kernel_leaf-IsSteady :
    (child_pt : PageTable) (vaddr entry : ℕ) → IsSteady (copy_kernel_leaf child_pt vaddr entry)
unfolding copy_kernel_leaf
copy_kernel_leaf-IsSteady child_pt vaddr entry = search (steady, map-IsSteady) depth 20

child_root-IsSteady : IsSteady child_root
unfolding child_root
child_root-IsSteady =
    search (steady, alloc_frame-IsSteady, current-IsSteady, copy_root_entry-IsSteady) depth 20

child_stack-IsSteady : IsSteady child_stack
unfolding child_stack
child_stack-IsSteady = search (steady, alloc_contiguous_frames-IsSteady) depth 20

-- The child that `fork` makes of `p`: it has the number `pid`, is ready, and goes on behind the system
-- call with the registers of its parent but 0 for a result.
pub record IsChild (p : Process) (pid : ℕ) (c : Process) : Type 0 where
  pub pid_new : c.pid ≡ pid
  pub parent : c.parent_pid ≡ p.pid
  pub state_ready : c.state ≡ ready
  pub frame :
      c.trap_frame ≡ record (set_a0 p.trap_frame 0) { sepc = p.trap_frame.sepc + 4; scause = 8 }
  pub stack : c.kernel_sp ≡ c.kernel_stack_frame + kernel_stack_size
  pub heap : (c.heap_start ≡ p.heap_start) × (c.heap_end ≡ p.heap_end)
  pub areas : c.mmap_areas ≡ p.mmap_areas

-- How a fork into the slot `idx` ends: with a panic, or the number of the child, in the slot.
abbrev pub Forks : Kernel → Process → ℕ → Outcome ℕ → Type 0
Forks k p idx o =
    (o ≡ panics)
    ⊎ ((j : Kernel) × (c : Process) × (o ≡ returns k.next_pid j)
        × IsChild p k.next_pid c
        × (j.process_list ≡ set k.process_list idx (some c))
        × (j.next_pid ≡ k.next_pid + 1)
        × (j.current ≡ k.current))

module _ (k : Kernel) (p : Process) (at : IsCurrent k p) (idx : ℕ) where
  abbrev numbered : Kernel
  numbered = record k { next_pid = k.next_pid + 1 }

  still : (j : Kernel) → SameTasks numbered j → IsCurrent j p
  still j s = rw (s.0, s.1) at

  abbrev made : ℕ → ℕ → TrapFrame → Process → Process
  made root stack tf cur = record {
    pid = k.next_pid;
    parent_pid = cur.pid;
    state = ready;
    page_table = new root;
    trap_frame = tf;
    kernel_sp = stack + kernel_stack_size;
    kernel_stack_frame = stack;
    heap_start = cur.heap_start;
    heap_end = cur.heap_end;
    mmap_areas = cur.mmap_areas;
  }

  -- The last steps, from the state behind each of the walks over the parent's pages.
  Forks-stored :
      (root stack : ℕ) (tf : TrapFrame)
      → tf ≡ record (set_a0 p.trap_frame 0) { sepc = p.trap_frame.sepc + 4; scause = 8 }
      → (j : Kernel) → SameTasks numbered j
      → Forks k p idx
          ((current >>= λ cur. store_process idx (made root stack tf cur) >> pure k.next_pid) j)
  Forks-stored root stack tf e j s = rw (current-IsCurrent j p (still j s)) (
      inr (
        record j { process_list = set j.process_list idx (some (made root stack tf p)) },
        made root stack tf p,
        refl,
        record {
          pid_new = refl;
          parent = refl;
          state_ready = refl;
          frame = e;
          stack = refl;
          heap = (refl, refl);
          areas = refl;
        },
        ap (λ slots. set slots idx (some (made root stack tf p))) s.0,
        s.2,
        s.1,
      ))

  Forks-framed :
      (root stack : ℕ) (j : Kernel)
      → SameTasks numbered j
      → Forks k p idx (
          (child_frame p.trap_frame >>= λ tf.
          for_each_leaf (share_leaf (new root)) p.page_table 0 kernel_vpn2_min
          >> (current >>= λ cur.
              for_each_leaf (copy_kernel_leaf (new root)) cur.page_table 0 kernel_vpn2_min
              >> (current >>= λ cur.
                  store_process idx (made root stack tf cur) >> pure k.next_pid)))
            j)
  unfolding child_frame
  Forks-framed root stack j s = elim (Bool-cases (ltb (p.trap_frame.sepc + 4) usize_end)) [
    | inr over ↦ rw over (inl refl)
    | inl fits ↦ rw fits (
        Steady-next (Forks k p idx) j
          (for_each_leaf (share_leaf (new root)) p.page_table 0 kernel_vpn2_min j) _
          ((for_each_leaf-IsSteady (share_leaf (new root)) (share_leaf-IsSteady (new root))
              p.page_table 0 kernel_vpn2_min).run
            j)
          (inl refl)
          λ u j4 s4.
            let t4 = SameTasks-trans numbered j j4 s s4 in
            rw (current-IsCurrent j4 p (still j4 t4)) (
              Steady-next (Forks k p idx) j4
                (for_each_leaf (copy_kernel_leaf (new root)) p.page_table 0 kernel_vpn2_min j4) _
                ((for_each_leaf-IsSteady (copy_kernel_leaf (new root))
                    (copy_kernel_leaf-IsSteady (new root)) p.page_table 0 kernel_vpn2_min).run
                  j4)
                (inl refl)
                λ u j5 s5.
                  Forks-stored root stack _ refl j5 (SameTasks-trans numbered j4 j5 t4 s5)))
  ]

  Forks-fork_into : Forks k p idx (fork_into idx k)
  unfolding fork_into alloc_pid child_frame
  Forks-fork_into = elim (Bool-cases (ltb (k.next_pid + 1) usize_end)) [
    | inr over ↦ rw over (inl refl)
    | inl fits ↦ rw fits (
        Steady-next (Forks k p idx) numbered (child_root numbered) _
          (child_root-IsSteady.run numbered) (inl refl)
          λ root j1 s1.
            Steady-next (Forks k p idx) j1 (child_stack j1) _ (child_stack-IsSteady.run j1)
              (inl refl)
              λ stack j2 s2.
                let t2 = SameTasks-trans numbered j1 j2 s1 s2 in
                rw (current-IsCurrent j2 p (still j2 t2)) (Forks-framed root stack j2 t2))
  ]

-- How `sys_fork` ends: EAGAIN and nothing changed as no slot is vacant, or a fork into the first one.
abbrev pub ForksOrFails : Kernel → Process → Outcome ℕ → Type 0
ForksOrFails k p o =
    ((o ≡ returns (linux_error eagain) k)
      × ((j : ℕ) (t : Option Process) → get_elem? k.process_list j ≡ some t → vacant t ≡ false))
    ⊎ ((idx : ℕ) × (s : Option Process) × (get_elem? k.process_list idx ≡ some s)
        × (vacant s ≡ true)
        × Forks k p idx o)

-- Where the current slot holds a process, `sys_fork` ends. It reports EAGAIN and changes nothing,
-- and then no slot of the list is vacant; or it panics; or it gives the next process number, and
-- a vacant slot holds a ready child with that number, the heap bounds and areas of its parent, a
-- stack pointer at the end of its kernel stack, and the parent's saved registers, but 0 as the
-- result of the call behind which it goes on. No other slot changes.
pub sys_fork-Forks : (k : Kernel) (p : Process) → IsCurrent k p → ForksOrFails k p (sys_fork k)
unfolding sys_fork
sys_fork-Forks k p at = elim (find_empty_slot-FindsVacant k.process_list) [
  | inl (idx, e, s, here, free, before) ↦
      rw (and_then, e) (inr (idx, s, here, free, Forks-fork_into k p at idx))
  | inr (e, all) ↦ rw (and_then, e) (inl (refl, all))
]
