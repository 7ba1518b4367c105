-- ===== src/Syscall/Ends.antt =====
-- How `sys_exit` of kernel/src/syscall.rs ends.
use unit.Base.{get_elem?, ℕ, ◌<◌, ◌≡◌, ◌⊎◌, some, map, arith, inl, inr, refl, ap, ◌∙◌}
use unit.Kernel.{Kernel, Outcome, returns, panics, resumes, shuts_down, diverges, and_then}
use unit.Kernel.Steady.{IsSteady, Steady, steady}
use unit.Frame.Steady.{dec_ref-IsSteady}
use unit.PageTable.Steady.{for_each_leaf-IsSteady}
use unit.PageTable.Walk.{for_each_leaf, kernel_vpn2_min}
use unit.Syscall.Exit.{release_leaf, sys_exit}
use unit.Task.Process.{Process}
use unit.Task.Scheduler.{max_processes, adopt, reparent_orphans_to_init}
use unit.Task.Scheduler.Family.{map-Orphaned}
use unit.Task.Scheduler.Leave.{Leaves}
use unit.Task.Scheduler.Switch.{Runs, HaveStacks, current-Runs}
use unit.Trap.Ends.{
  end_process, end_process-Leaves, end_process-Passes, Ends, Passes, Leaves-pid, adopt-some,
  get_elem?-adopt, HaveStacks-adopt,
}

pub release_leaf-IsSteady : (vaddr entry : ℕ) → IsSteady (release_leaf vaddr entry)
unfolding release_leaf
release_leaf-IsSteady vaddr entry = search (steady, dec_ref-IsSteady) depth 14

-- A panic, or the process is left for good.
abbrev pub Exits : {A : Type 0} → Kernel → Process → ℕ → Outcome A → Type 0
Exits k p code o = (o ≡ panics) ⊎ Ends k p code o

-- The steps behind the release of the pages: a panic, or the process passes on.
abbrev Released : {A : Type 0} → Kernel → Process → ℕ → Outcome A → Type 0
Released k p code o = (o ≡ panics) ⊎ (Passes k p code o × Leaves k.current p.pid code o)

module _ (k : Kernel) (p : Process) (code : ℕ) (r : Runs k p) (c : k.current < max_processes)
    (h : HaveStacks k.process_list) where
  exit-Released :
      {A : Type 0} (o : Outcome (Unit {0}))
      → Steady k o
      → Released {A = A} k p code (and_then o (λ _. end_process code))
  exit-Released {A} (returns u j) s =
      let rj : Runs j p = record { at = rw (s.0, s.1) r.at; stack = r.stack } in
      let cj : j.current < max_processes = omega (arith, s.1) in
      let hj : HaveStacks j.process_list = rw s.0 h in
      inr (
        rw (← s.0, ← s.1)
          (end_process-Passes j p code rj cj hj {A = A}, end_process-Leaves j p code rj cj hj))
  exit-Released panics s = inl refl
  exit-Released (resumes j) s = absurd s
  exit-Released (shuts_down j) s = absurd s
  exit-Released diverges s = absurd s

-- Where all processes have kernel stacks that can hold a trap frame, `sys_exit` does not return.
-- It panics, or the children of the process get the parent 1, it becomes a zombie with its exit code, and the
-- first blocked process with the number of its parent becomes ready. Then the first ready process behind
-- it is resumed, in another slot, or no process is ready and the machine is shut down. No other process
-- changes in the list.
pub sys_exit-Leaves :
    {A : Type 0} (k : Kernel) (p : Process) (code : ℕ)
    → Runs k p
    → k.current < max_processes
    → HaveStacks k.process_list
    → Exits {A = A} k p code (sys_exit code k)
unfolding sys_exit reparent_orphans_to_init
sys_exit-Leaves {A} k p code r c h =
    let (q, e, number, sp) = adopt-some p.pid p in
    let i : Kernel = record k { process_list = map (adopt p.pid) k.process_list } in
    let s : Runs i q = record {
      at = get_elem?-adopt p.pid k.process_list k.current p r.at ∙ ap some e;
      stack = omega (arith, sp, r.stack);
    } in
    rw (current-Runs r) (
      rw (current-Runs s) (
        finish i q number s.at refl _ (
          exit-Released i q code s c (HaveStacks-adopt p.pid k.process_list h)
            (for_each_leaf release_leaf q.page_table 0 kernel_vpn2_min i)
            ((for_each_leaf-IsSteady release_leaf release_leaf-IsSteady q.page_table 0
                kernel_vpn2_min).run
              i))))
  where
    finish :
        (i : Kernel) (q : Process)
        → q.pid ≡ p.pid
        → get_elem? i.process_list i.current ≡ some (some q)
        → i ≡ record k { process_list = map (adopt p.pid) k.process_list }
        → (o : Outcome A) → Released i q code o
        → Exits k p code o
    finish i q number at e o (inl out) = inl out
    finish i q number at e o (inr ((slots, wakes, over), leaves)) =
        let list : i.process_list ≡ map (adopt p.pid) k.process_list = ap Kernel.process_list e in
        let cur : i.current ≡ k.current = ap Kernel.current e in
        inr (
          i.process_list,
          slots,
          q,
          rw list (map-Orphaned p.pid k.process_list),
          rw (← cur) at,
          number,
          rw (← cur) wakes,
          rw (← cur) over,
          rw (← cur) (Leaves-pid i.current q.pid p.pid code o number leaves),
        )
