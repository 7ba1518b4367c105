-- ===== src/Syscall/Break.antt =====
-- What `sys_brk` of kernel/src/syscall.rs does to the heap of the current process.
use unit.Base.{
  ℕ, ◌≤◌, ◌≡◌, Bool, true, false, ◌||◌, some, ltb, ◌==◌, arith, if◌then◌else◌, set, get_elem?, ◌⊎◌,
  inl, inr, Bool-cases, refl,
}
use unit.Kernel.{Kernel, Outcome, returns, panics, resumes, shuts_down, diverges, and_then, pure}
use unit.Kernel.Steady.{IsSteady, Steady, SameTasks, steady}
use unit.Mmap.{align_up}
use unit.Syscall.Memory.{grow_heap, shrink_heap, set_break, move_break, sys_brk}
use unit.Syscall.Steady.{map_zeroed_user_pages-IsSteady, unmap_user_pages-IsSteady}
use unit.Task.Process.{Process, user_heap_limit}
use unit.Task.Scheduler.{current}

align_up-IsSteady : (a : ℕ) → IsSteady (align_up a)
unfolding align_up
align_up-IsSteady a = search steady

grow_heap-IsSteady : (old_break new_break : ℕ) → IsSteady (grow_heap old_break new_break)
unfolding grow_heap
grow_heap-IsSteady old_break new_break =
    search (steady, align_up-IsSteady, map_zeroed_user_pages-IsSteady) depth 14

shrink_heap-IsSteady : (new_break old_break : ℕ) → IsSteady (shrink_heap new_break old_break)
unfolding shrink_heap
shrink_heap-IsSteady new_break old_break =
    search (steady, align_up-IsSteady, unmap_user_pages-IsSteady) depth 14

-- The process `p` is in the slot of the current one.
abbrev pub IsCurrent : Kernel → Process → Type 0
IsCurrent k p = get_elem? k.process_list k.current ≡ some (some p)

pub current-IsCurrent : (k : Kernel) (p : Process) → IsCurrent k p → current k ≡ returns p k
unfolding current
current-IsCurrent k p at = rw at refl

-- The new end of the heap is between its start and the limit.
abbrev pub IsBreak : Process → ℕ → Type 0
IsBreak p b = (p.heap_start ≤ b) × (b ≤ user_heap_limit)

-- How `sys_brk` ends: with a panic, or with the old break and the same processes, or with the new
-- break, in bounds, and just the heap of the current process moved.
abbrev pub MovesBreak : Kernel → Process → ℕ → Outcome ℕ → Type 0
MovesBreak k p b o =
    (o ≡ panics)
    ⊎ ((j : Kernel) × (o ≡ returns p.heap_end j) × SameTasks k j)
    ⊎ ((j : Kernel) × (o ≡ returns b j)
        × IsBreak p b
        × (j.process_list ≡ set k.process_list k.current (some (record p { heap_end = b })))
        × (j.current ≡ k.current)
        × (j.next_pid ≡ k.next_pid))

module _ (k : Kernel) (p : Process) (b : ℕ) (at : IsCurrent k p) where
  MovesBreak-set_break :
      (j : Kernel) → SameTasks k j → IsBreak p b → MovesBreak k p b (set_break b j)
  unfolding set_break current
  MovesBreak-set_break j s h = inr (
      inr (
        record j { process_list = set k.process_list k.current (some (record p { heap_end = b })) },
        ground (arith, s),
        h,
        refl,
        s.1,
        s.2,
      ))

  MovesBreak-grow :
      (o : Outcome Bool)
      → Steady k o
      → IsBreak p b
      → MovesBreak k p b (and_then o (λ done. if done then set_break b else pure p.heap_end))
  MovesBreak-grow (returns true j) s h = MovesBreak-set_break j s h
  MovesBreak-grow (returns false j) s h = inr (inl (j, refl, s))
  MovesBreak-grow panics s h = inl refl
  MovesBreak-grow (resumes j) s h = absurd s
  MovesBreak-grow (shuts_down j) s h = absurd s
  MovesBreak-grow diverges s h = absurd s

  MovesBreak-shrink :
      (o : Outcome (Unit {0}))
      → Steady k o
      → IsBreak p b
      → MovesBreak k p b (and_then o (λ _. set_break b))
  MovesBreak-shrink (returns u j) s h = MovesBreak-set_break j s h
  MovesBreak-shrink panics s h = inl refl
  MovesBreak-shrink (resumes j) s h = absurd s
  MovesBreak-shrink (shuts_down j) s h = absurd s
  MovesBreak-shrink diverges s h = absurd s

  MovesBreak-move_break : IsBreak p b → MovesBreak k p b (move_break p.heap_end b k)
  unfolding move_break
  MovesBreak-move_break h = elim (Bool-cases (ltb p.heap_end b)) [
    | inl up ↦
        rw up
          (MovesBreak-grow (grow_heap p.heap_end b k) ((grow_heap-IsSteady p.heap_end b).run k) h)
    | inr not_up ↦ rw not_up (elim (Bool-cases (ltb b p.heap_end)) [
      | inl down ↦ rw down (
          MovesBreak-shrink (shrink_heap b p.heap_end k) ((shrink_heap-IsSteady b p.heap_end).run k)
            h)
      | inr same ↦ rw same (MovesBreak-set_break k (refl, refl, refl, refl) h)
    ])
  ]

  -- Where the current slot holds a process, `sys_brk` ends: it panics, or gives back the old
  -- break and changes no process, or gives the break asked for, which is then between the start
  -- of the heap and the limit, and in all the list only the heap end of the current process
  -- changed, to it.
  pub sys_brk-MovesBreak : MovesBreak k p b (sys_brk b k)
  unfolding sys_brk current
  sys_brk-MovesBreak = rw at (elim (Bool-cases (b == 0)) [
    | inl query ↦ rw query (inr (inl (k, refl, (refl, refl, refl, refl))))
    | inr move ↦ rw move (elim (Bool-cases (ltb b p.heap_start || ltb user_heap_limit b)) [
      | inl out ↦ rw out (inr (inl (k, refl, (refl, refl, refl, refl))))
      | inr fits ↦ rw fits (MovesBreak-move_break (ground arith))
    ])
  ])
