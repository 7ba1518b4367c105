-- ===== src/Task/Scheduler/Leave.antt =====
-- The last steps of a process (kernel/src/task/scheduler.rs, `sys_exit` and `do_segfault`): its children
-- go to process 1, it becomes a zombie, its parent wakes up, and `schedule` never picks it again.
use unit.Base.{
  ℕ, zero, suc, ◌≤◌, ◌<◌, ◌≡◌, ◌≢◌, false, Option, none, some, List, [], ◌∷◌, get_elem?, set, arith,
  Bool-cases, inl, inr, ◌⊎◌, refl, get_elem?-set_self, get_elem?-set_ne, lt_of_get_elem?, ap,
}
use unit.Kernel.{Kernel, Outcome, resumes, shuts_down}
use unit.Task.TrapFrame
use unit.Task.TrapFrame.{TrapFrame}
use unit.Task.Scheduler.Pick.{IsNext}
use unit.Task.Process.{Process, ProcessState, zombie, running, ready}
use unit.Task.Scheduler.{max_processes, runnable, waits, awake, wake, schedule}
use unit.Task.Scheduler.Switch.{
  Runs, HaveStacks, Switches, saved, saved_process, resumed, schedule-Switches,
}

-- A zombie with this exit code is in slot `i`.
abbrev pub IsZombieAt : List (Option Process) → ℕ → ℕ → ℕ → Type 0
IsZombieAt slots i pid code =
    (z : Process) × (get_elem? slots i ≡ some (some z)) × (z.pid ≡ pid) × (z.state ≡ zombie code)

-- How the process with number `pid` ends: another process is resumed, or the machine is shut down; its
-- slot holds a zombie with its number and exit code.
abbrev pub Leaves : {A : Type 0} → ℕ → ℕ → ℕ → Outcome A → Type 0
Leaves i pid code o =
    ((j : Kernel) × (o ≡ resumes j) × (j.current ≢ i) × IsZombieAt j.process_list i pid code)
    ⊎ ((j : Kernel) × (o ≡ shuts_down j) × IsZombieAt j.process_list i pid code)

-- How `schedule` goes on from the list `slots`, in which the process `z` that is left stands in slot `i`, with
-- any trap frame: the first ready process behind it runs, or no process is ready and the machine is shut
-- down.
abbrev pub Handover : {A : Type 0} → ℕ → Process → List (Option Process) → Outcome A → Type 0
Handover i z slots o =
    (tf : TrapFrame) × (after : List (Option Process)) × (after
      ≡ set slots i (some (record z { trap_frame = tf })))
    × (((n : ℕ) × (q : Process) × (j : Kernel) × IsNext after i n
          × (get_elem? after n ≡ some (some q))
          × (q.state ≡ ready)
          × (o ≡ resumes j)
          × (j.current ≡ n)
          × (j.process_list ≡ set after n (some (record q { state = running }))))
        ⊎ ((j : Kernel) × (o ≡ shuts_down j)
            × (j.process_list ≡ after)
            × ((n : ℕ) → n < max_processes → runnable (get_elem? after n) ≡ false)))

-- Waking a parent leaves a slot alone whose process does not wait.
pub wake-get_elem? :
    (pid : ℕ) (slots : List (Option Process)) (i : ℕ) (slot : Option Process)
    → get_elem? slots i ≡ some slot
    → waits pid slot ≡ false
    → get_elem? (wake pid slots) i ≡ some slot
unfolding wake
wake-get_elem? pid [] i slot e h = e
wake-get_elem? pid (x ∷ slots) zero slot e h = ground arith
wake-get_elem? pid (x ∷ slots) (suc i) slot e h = elim (Bool-cases (waits pid x)) [
  | inl hit ↦ rw hit e
  | inr miss ↦ rw miss (wake-get_elem? pid slots i slot e h)
]

awake-stack :
    (slot : Option Process) (q : Process)
    → awake slot ≡ some q
    → (p : Process) × (slot ≡ some p) × (p.kernel_sp ≡ q.kernel_sp)
awake-stack none q h = absurd (cc)
awake-stack (some p) q h = (p, refl, ground (arith, h))

pub HaveStacks-wake :
    (pid : ℕ) (slots : List (Option Process)) → HaveStacks slots → HaveStacks (wake pid slots)
unfolding wake
HaveStacks-wake pid [] h j q e = h j q e
HaveStacks-wake pid (x ∷ slots) h zero q e = elim (Bool-cases (waits pid x)) [
  | inl hit ↦ let (p, a, b) = awake-stack x q (ground arith) in omega (arith, b, h 0 p (ap some a))
  | inr miss ↦ h 0 q (ground arith)
]
HaveStacks-wake pid (x ∷ slots) h (suc j) q e = elim (Bool-cases (waits pid x)) [
  | inl hit ↦ h (suc j) q (ground arith)
  | inr miss ↦ HaveStacks-wake pid slots (λ i. h (suc i)) j q (ground arith)
]

pub HaveStacks-set :
    (slots : List (Option Process)) (i : ℕ) (p : Process)
    → HaveStacks slots
    → TrapFrame.size ≤ p.kernel_sp
    → HaveStacks (set slots i (some p))
HaveStacks-set [] i p h s j q e = h j q e
HaveStacks-set (x ∷ slots) zero p h s zero q e = ground arith
HaveStacks-set (x ∷ slots) zero p h s (suc j) q e = h (suc j) q e
HaveStacks-set (x ∷ slots) (suc i) p h s zero q e = h 0 q e
HaveStacks-set (x ∷ slots) (suc i) p h s (suc j) q e =
    HaveStacks-set slots i p (λ n. h (suc n)) s j q e

-- The slot of a zombie is not runnable.
zombie_stays :
    (c : ℕ) (s : ProcessState) (p : Process)
    → s ≡ zombie c
    → runnable (some (some (record p { state = s }))) ≡ false
zombie_stays c s p e = rw e refl

module _ (k : Kernel) (z : Process) (code : ℕ) (r : Runs k z) (c : k.current < max_processes)
    (h : HaveStacks k.process_list) (dead : z.state ≡ zombie code) where
  abbrev left : Kernel
  left = saved k z

  at_left : get_elem? left.process_list k.current ≡ some (some (saved_process k z))
  at_left =
      get_elem?-set_self k.process_list k.current (some (saved_process k z))
        (lt_of_get_elem? k.process_list k.current (some z) r.at)

  Leaves-Switches :
      {A : Type 0} (o : Outcome A) → Switches (saved k z) o → Leaves k.current z.pid code o
  Leaves-Switches o (inl (n, q, next, e, isready, out)) = inl (
    resumed left n q,
    out,
    other,
    (
      saved_process k z,
      ground (
        arith,
        get_elem?-set_ne left.process_list n k.current (some (record q { state = running })),
        at_left,
        other,
      ),
      refl,
      dead,
    ),
  )
    where
      other : n ≢ k.current
      other same = absurd (ground (arith, at_left, dead))
  Leaves-Switches o (inr (out, none_ready)) =
      inr (left, out, (saved_process k z, at_left, refl, dead))

  Handover-Switches :
      {A : Type 0} (o : Outcome A) → Switches (saved k z) o → Handover k.current z k.process_list o
  Handover-Switches o (inl (n, q, next, e, isready, out)) = (
    (saved_process k z).trap_frame,
    left.process_list,
    refl,
    inl (n, q, resumed left n q, next, e, isready, out, refl, refl),
  )
  Handover-Switches o (inr (out, none_ready)) =
      ((saved_process k z).trap_frame, left.process_list, refl, inr (left, out, refl, none_ready))

  pub schedule-Handover : {A : Type 0} → Handover {A = A} k.current z k.process_list (schedule k)
  schedule-Handover {A} = Handover-Switches (schedule {A = A} k) (schedule-Switches r c h)

  pub schedule-Leaves : {A : Type 0} → Leaves {A = A} k.current z.pid code (schedule k)
  schedule-Leaves {A} = Leaves-Switches (schedule {A = A} k) (schedule-Switches r c h)
