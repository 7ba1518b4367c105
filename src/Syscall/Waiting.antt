-- ===== src/Syscall/Waiting.antt =====
-- How `sys_wait` of kernel/src/syscall.rs ends.
use unit.Base.{
  ℕ, ◌+◌, ◌<◌, ◌≤◌, ◌≡◌, true, false, ◌==◌, Option, some, get_elem?, set, if◌then◌else◌, Bool-cases,
  inl, inr, ◌⊎◌, refl, ap, get_elem?-set_self, lt_of_get_elem?,
}
use unit.Kernel.{
  Kernel, Cmd, Outcome, returns, panics, resumes, shuts_down, diverges, and_then, pure, modify,
  ◌>>◌,
}
use unit.Kernel.Steady.{
  IsSteady, Steady, SameTasks, Steady-trans, steady, bind-IsSteady, seq-IsSteady, elim-IsSteady,
  if-IsSteady, pure-IsSteady,
}
use unit.Frame.Steady.{free_frame-IsSteady}
use unit.PageTable.Steady.{lookup-IsSteady}
use unit.Syscall.Children.{
  find_zombie-FindsZombie, NoneDead, has_live_child-some, has_live_child-none,
}
use unit.Syscall.Errors.{linux_error, echild}
use unit.Syscall.Steady.{current-IsSteady}
use unit.Syscall.Wait.{
  live_child, has_live_child, free_l1, free_l2, free_intermediate_frames, free_user_pt_resources,
  unshare, reap, user_half, sys_wait,
}
use unit.Task.Process.{Process, zombie, gone, blocked}
use unit.Task.Scheduler.{max_processes}
use unit.Task.Scheduler.Leave.{HaveStacks-set}
use unit.Task.Scheduler.Switch.{Runs, HaveStacks, Switches, saved, current-Runs, schedule-Switches}
use unit.Trap.Cow.Steady.{handle_cow_fault-IsSteady}
use unit.Trap.Fault.{set_state}

free_l1-IsSteady : (l2_addr vpn1 : ℕ) → IsSteady (free_l1 l2_addr vpn1)
unfolding free_l1
free_l1-IsSteady l2_addr vpn1 = search (steady, free_frame-IsSteady) depth 14

free_l2-IsSteady : (root vpn2 : ℕ) → IsSteady (free_l2 root vpn2)
unfolding free_l2
free_l2-IsSteady root vpn2 = search (steady, free_frame-IsSteady, free_l1-IsSteady) depth 14

free_user_pt_resources-IsSteady : (child : Process) → IsSteady (free_user_pt_resources child)
unfolding free_user_pt_resources free_intermediate_frames
free_user_pt_resources-IsSteady child =
    search (steady, free_frame-IsSteady, free_l2-IsSteady) depth 14

unshare-IsSteady : (vaddr : ℕ) → IsSteady (unshare vaddr)
unfolding unshare
unshare-IsSteady vaddr = bind-IsSteady current-IsSteady λ cur.
    bind-IsSteady (lookup-IsSteady cur.page_table vaddr) λ found.
      elim-IsSteady found pure-IsSteady
        (λ entry. search (steady, handle_cow_fault-IsSteady) depth 14)

-- A panic, or the number of the child, whose slot in the list is marked as gone; no other changes.
abbrev pub Reaps : Kernel → ℕ → Process → Outcome ℕ → Type 0
Reaps k idx child o =
    (o ≡ panics)
    ⊎ ((j : Kernel) × (o ≡ returns child.pid j)
        × (j.process_list ≡ set k.process_list idx (some (record child { state = gone })))
        × (j.current ≡ k.current)
        × (j.next_pid ≡ k.next_pid))

module _ (k : Kernel) (idx : ℕ) (child : Process)
    (at : get_elem? k.process_list idx ≡ some (some child)) where
  -- The state behind the release of the child's resources, and the mark.
  Reaps-freed :
      (o : Outcome (Unit {0}))
      → Steady k o
      → Reaps k idx child (
          and_then o (λ _.
            modify (λ k. record k {
              process_list = set k.process_list idx (some (record child { state = gone }));
            })
            >> pure child.pid))
  Reaps-freed (returns u j) s = inr (
    record j { process_list = set j.process_list idx (some (record child { state = gone })) },
    refl,
    ap (λ slots. set slots idx (some (record child { state = gone }))) s.0,
    s.1,
    s.2,
  )
  Reaps-freed panics s = inl refl
  Reaps-freed (resumes j) s = absurd s
  Reaps-freed (shuts_down j) s = absurd s
  Reaps-freed diverges s = absurd s

  Reaps-reap : (j : Kernel) → SameTasks k j → Reaps k idx child (reap idx j)
  unfolding reap
  Reaps-reap j s =
      let here : get_elem? j.process_list idx ≡ some (some child) = rw s.0 at in
      rw here (
        Reaps-freed (free_user_pt_resources child j) (
          Steady-trans k j (free_user_pt_resources child j) s
            ((free_user_pt_resources-IsSteady child).run j)))

  Reaps-stored :
      (o : Outcome (Unit {0})) → Steady k o → Reaps k idx child (and_then o (λ _. reap idx))
  Reaps-stored (returns u j) s = Reaps-reap j s
  Reaps-stored panics s = inl refl
  Reaps-stored (resumes j) s = absurd s
  Reaps-stored (shuts_down j) s = absurd s
  Reaps-stored diverges s = absurd s

-- The current process waits: `schedule` from the state in which it is blocked.
abbrev pub blocking : Kernel → Process → Kernel
blocking k p = record k {
  process_list = set k.process_list k.current (some (record p { state = blocked }));
}

-- How `sys_wait` ends.
abbrev pub Waits : Kernel → Process → Outcome ℕ → Type 0
Waits k p o =
    ((idx code : ℕ) × (child : Process) × (get_elem? k.process_list idx ≡ some (some child))
      × (child.parent_pid ≡ p.pid)
      × (child.state ≡ zombie code)
      × Reaps k idx child o)
    ⊎ (NoneDead p.pid k.process_list
        × ((j : ℕ) × (q : Process) × (get_elem? k.process_list j ≡ some (some q))
            × (live_child p.pid (some q) ≡ true))
        × Switches (saved (blocking k p) (record p { state = blocked })) o)
    ⊎ (NoneDead p.pid k.process_list
        × ((j : ℕ) (slot : Option Process)
            → get_elem? k.process_list j ≡ some slot
            → live_child p.pid slot ≡ false)
        × (o ≡ returns (linux_error echild) k))

blocking-Runs :
    (k : Kernel) (p : Process) → Runs k p → Runs (blocking k p) (record p { state = blocked })
blocking-Runs k p r = record {
  at =
      get_elem?-set_self k.process_list k.current (some (record p { state = blocked }))
        (lt_of_get_elem? k.process_list k.current (some p) r.at);
  stack = r.stack;
}

module _ (user_store : ℕ → ℕ → Cmd (Unit {0}))
    (fine : (a w : ℕ) → a + 8 ≤ user_half → IsSteady (user_store a w)) where
  store_code-IsSteady :
      (ptr code : ℕ)
      → ptr + 8 ≤ user_half
      → IsSteady (if ptr == 0 then pure tt else (unshare ptr >> user_store ptr code))
  store_code-IsSteady ptr code low =
      if-IsSteady (ptr == 0) pure-IsSteady (seq-IsSteady (unshare-IsSteady ptr) (fine ptr code low))

  -- Where a store to the user's half of the addresses ends and leaves the processes alone, the word
  -- for the exit code lies in that half or is not asked for, and all processes have kernel stacks that can hold a
  -- trap frame, `sys_wait` ends in one of three ways. With a child
  -- that has exited, it panics or gives the number of one, which is marked as gone and alone
  -- changes in the list. With none, but a child that lives, the process becomes blocked and
  -- `schedule` switches to a ready process or shuts the machine down. With no child it reports
  -- ECHILD and changes nothing.
  pub sys_wait-Waits :
      (ptr : ℕ) (k : Kernel) (p : Process)
      → ptr + 8 ≤ user_half
      → Runs k p
      → k.current < max_processes
      → HaveStacks k.process_list
      → Waits k p (sys_wait user_store ptr k)
  unfolding sys_wait set_state
  sys_wait-Waits ptr k p low r c h =
      rw (current-Runs r) (elim (find_zombie-FindsZombie p.pid k.process_list) [
        | inl (idx, code, child, e, at, parent, dead, before) ↦
            rw (and_then, e)
              (inl (
                idx,
                code,
                child,
                at,
                parent,
                dead,
                Reaps-stored k idx child at
                    ((if ptr == 0 then pure tt else (unshare ptr >> user_store ptr code)) k)
                    ((store_code-IsSteady ptr code low).run k),
              ))
        | inr (e, all) ↦ elim (Bool-cases (has_live_child p.pid k.process_list)) [
          | inl alive ↦
              rw (and_then, e)
                (inr (
                  inl (
                    all,
                    has_live_child-some p.pid k.process_list alive,
                    rw alive (
                        rw (current-Runs r) (
                          schedule-Switches (blocking-Runs k p r) c (
                            HaveStacks-set k.process_list k.current (record p { state = blocked }) h
                              r.stack))),
                  )))
          | inr alone ↦
              rw (and_then, e)
                (inr (inr (all, has_live_child-none p.pid k.process_list alone, rw alone refl)))
        ]
      ])
