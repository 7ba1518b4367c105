-- ===== src/Task/Scheduler/Family.antt =====
-- What `wake_parent` and `reparent_orphans_to_init` of kernel/src/task/scheduler.rs do to the list.
use unit.Base.{
  ℕ, zero, suc, ◌<◌, ◌≡◌, ◌≢◌, true, false, ◌==◌, Option, none, some, List, [], ◌∷◌, map, get_elem?,
  set, arith, Bool-cases, inl, inr, ◌⊎◌, refl, ap,
}
use unit.Kernel.{Kernel, returns}
use unit.Task.Process.{Process, ready}
use unit.Task.Scheduler.{is_gone, adopt, waits, awake, wake, wake_parent, reparent_orphans_to_init}
use unit.Task.Scheduler.Switch.{Runs, current-Runs}

-- The first process with this number that waits is ready in `out`, which is else the same; or none waits
-- and `out` is the same.
abbrev pub Wakes : ℕ → List (Option Process) → List (Option Process) → Type 0
Wakes pid slots out =
    ((i : ℕ) × (p : Process) × (get_elem? slots i ≡ some (some p))
      × (waits pid (some p) ≡ true)
      × ((j : ℕ) (slot : Option Process)
          → j < i
          → get_elem? slots j ≡ some slot
          → waits pid slot ≡ false)
      × (out ≡ set slots i (some (record p { state = ready }))))
    ⊎ ((out ≡ slots)
        × ((j : ℕ) (slot : Option Process)
            → get_elem? slots j ≡ some slot
            → waits pid slot ≡ false))

Wakes-cons :
    (pid : ℕ) (x : Option Process) (slots out : List (Option Process))
    → waits pid x ≡ false
    → Wakes pid slots out
    → Wakes pid (x ∷ slots) (x ∷ out)
Wakes-cons pid x slots out h (inl (i, p, at, hit, before, e)) =
    inl (suc i, p, at, hit, λ j s. first j s, ap (λ (t : List (Option Process)). x ∷ t) e)
  where
    first :
        (j : ℕ) (s : Option Process)
        → j < suc i
        → get_elem? (x ∷ slots) j ≡ some s
        → waits pid s ≡ false
    first zero s l g = let same : x ≡ s = ground arith in rw (← same) h
    first (suc j) s l g = before j s (omega arith) g
Wakes-cons pid x slots out h (inr (e, all)) =
    inr (ap (λ (t : List (Option Process)). x ∷ t) e, λ j s. every j s)
  where
    every : (j : ℕ) (s : Option Process) → get_elem? (x ∷ slots) j ≡ some s → waits pid s ≡ false
    every zero s g = let same : x ≡ s = ground arith in rw (← same) h
    every (suc j) s g = all j s g

Wakes-head :
    (pid : ℕ) (x : Option Process) (slots : List (Option Process))
    → waits pid x ≡ true
    → Wakes pid (x ∷ slots) (awake x ∷ slots)
Wakes-head pid none slots h = absurd (cc)
Wakes-head pid (some p) slots h = inl (0, p, refl, h, λ j s l g. absurd (omega arith), refl)

pub wake-Wakes : (pid : ℕ) (slots : List (Option Process)) → Wakes pid slots (wake pid slots)
unfolding wake
wake-Wakes pid [] = inr (refl, λ j s g. absurd (cc))
wake-Wakes pid (x ∷ slots) = elim (Bool-cases (waits pid x)) [
  | inl hit ↦ rw (wake, hit) (Wakes-head pid x slots hit)
  | inr miss ↦ rw (wake, miss) (Wakes-cons pid x slots (wake pid slots) miss (wake-Wakes pid slots))
]

-- Where the current slot holds a process, `wake_parent` makes the first process ready that has
-- the number of its parent and is blocked, if there is one, and changes nothing else.
pub wake_parent-Wakes :
    (k : Kernel) (p : Process)
    → Runs k p
    → (out : List (Option Process)) × (wake_parent k ≡ returns tt (record k { process_list = out }))
      × Wakes p.parent_pid k.process_list out
unfolding wake_parent
wake_parent-Wakes k p r = (
  wake p.parent_pid k.process_list,
  rw (current-Runs r) refl,
  wake-Wakes p.parent_pid k.process_list,
)

-- What becomes of the slot: a child of `pid` that is not gone has the parent 1 in `out`, any other process
-- and an empty slot stay.
abbrev pub Becomes : ℕ → Option Process → Option (Option Process) → Type 0
Becomes pid none out = out ≡ some none
Becomes pid (some p) out =
    ((p.parent_pid ≡ pid)
      × (is_gone p.state ≡ false)
      × (out ≡ some (some (record p { parent_pid = 1 }))))
    ⊎ (((p.parent_pid ≢ pid) ⊎ (is_gone p.state ≡ true)) × (out ≡ some (some p)))

abbrev pub Orphaned : ℕ → List (Option Process) → List (Option Process) → Type 0
Orphaned pid slots out =
    (j : ℕ) (slot : Option Process)
    → get_elem? slots j ≡ some slot
    → Becomes pid slot (get_elem? out j)

adopt-Becomes : (pid : ℕ) (slot : Option Process) → Becomes pid slot (some (adopt pid slot))
unfolding adopt
adopt-Becomes pid none = refl
adopt-Becomes pid (some p) = elim (Bool-cases (p.parent_pid == pid)) [
  | inr other ↦ inr (inl (λ h. absurd (ground arith)), ground arith)
  | inl child ↦ elim (Bool-cases (is_gone p.state)) [
    | inl gone ↦ inr (inr gone, ground arith)
    | inr left ↦ inl (ground arith, left, ground arith)
  ]
]

pub map-Orphaned :
    (pid : ℕ) (slots : List (Option Process)) → Orphaned pid slots (map (adopt pid) slots)
map-Orphaned pid [] j slot e = absurd (cc)
map-Orphaned pid (x ∷ slots) zero slot e =
    let same : x ≡ slot = ground arith in rw same (adopt-Becomes pid slot)
map-Orphaned pid (x ∷ slots) (suc j) slot e = map-Orphaned pid slots j slot e

-- Where the current slot holds a process, `reparent_orphans_to_init` gives each of its children
-- that is not gone the parent 1, leaves every other process and every empty slot as it was, and
-- changes nothing but the list.
pub reparent_orphans_to_init-Orphaned :
    (k : Kernel) (p : Process)
    → Runs k p
    → (out : List (Option Process)) × (reparent_orphans_to_init k
        ≡ returns tt (record k { process_list = out }))
      × Orphaned p.pid k.process_list out
unfolding reparent_orphans_to_init
reparent_orphans_to_init-Orphaned k p r =
    (map (adopt p.pid) k.process_list, rw (current-Runs r) refl, map-Orphaned p.pid k.process_list)
