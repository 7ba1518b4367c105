-- ===== src/Syscall/Children.antt =====
-- The searches of `sys_wait` of kernel/src/syscall.rs for children.
use mathlib.Core.Option
use unit.Base.{
  ℕ, zero, suc, ◌<◌, ◌≡◌, true, false, ◌==◌, Option, none, some, List, [], ◌∷◌, get_elem?, arith,
  Bool-cases, Option-cases, inl, inr, ◌⊎◌, refl,
}
use unit.Syscall.Wait.{exit_code, dead_child, find_zombie, live_child, has_live_child}
use unit.Task.Process.{Process, ProcessState, ready, running, zombie, gone, blocked}

-- The first child that has exited, with its slot and code, or none.
abbrev pub FindsZombie : ℕ → List (Option Process) → Option (ℕ × ℕ) → Type 0
FindsZombie cur slots o =
    ((idx code : ℕ) × (child : Process) × (o ≡ some (idx, code))
      × (get_elem? slots idx ≡ some (some child))
      × (child.parent_pid ≡ cur)
      × (child.state ≡ zombie code)
      × ((j : ℕ) (slot : Option Process)
          → j < idx
          → get_elem? slots j ≡ some slot
          → dead_child cur slot ≡ none))
    ⊎ ((o ≡ none)
        × ((j : ℕ) (slot : Option Process)
            → get_elem? slots j ≡ some slot
            → dead_child cur slot ≡ none))

exit_code-some : (s : ProcessState) (code : ℕ) → exit_code s ≡ some code → s ≡ zombie code
exit_code-some ready code h = absurd (cc)
exit_code-some running code h = absurd (cc)
exit_code-some blocked code h = absurd (cc)
exit_code-some gone code h = absurd (cc)
exit_code-some (zombie c) code h = ground arith

dead_child-some :
    (cur : ℕ) (slot : Option Process) (code : ℕ)
    → dead_child cur slot ≡ some code
    → (p : Process) × (slot ≡ some p) × (p.parent_pid ≡ cur) × (p.state ≡ zombie code)
dead_child-some cur none code h = absurd (cc)
dead_child-some cur (some p) code h = elim (Bool-cases (p.parent_pid == cur)) [
  | inl child ↦ (p, refl, ground arith, exit_code-some p.state code (ground arith))
  | inr other ↦ absurd (ground arith)
]

FindsZombie-cons :
    (cur : ℕ) (slot : Option Process) (slots : List (Option Process)) (o : Option (ℕ × ℕ))
    → dead_child cur slot ≡ none
    → FindsZombie cur slots o
    → FindsZombie cur (slot ∷ slots) (Option.map (λ (p : ℕ × ℕ). (suc p.0, p.1)) o)
FindsZombie-cons cur slot slots o h (inl (idx, code, child, e, at, parent, dead, before)) =
    inl (suc idx, code, child, ground arith, at, parent, dead, λ j s. first j s)
  where
    first :
        (j : ℕ) (s : Option Process)
        → j < suc idx
        → get_elem? (slot ∷ slots) j ≡ some s
        → dead_child cur s ≡ none
    first zero s l g = let same : slot ≡ s = ground arith in rw (← same) h
    first (suc j) s l g = before j s (omega arith) g
FindsZombie-cons cur slot slots o h (inr (e, all)) = inr (ground arith, λ j s. every j s)
  where
    every :
        (j : ℕ) (s : Option Process) → get_elem? (slot ∷ slots) j ≡ some s → dead_child cur s ≡ none
    every zero s g = let same : slot ≡ s = ground arith in rw (← same) h
    every (suc j) s g = all j s g

-- `find_zombie` gives the slot and exit code of the first child that has exited, or nothing, and
-- then no child has.
pub find_zombie-FindsZombie :
    (cur : ℕ) (slots : List (Option Process)) → FindsZombie cur slots (find_zombie cur slots)
unfolding find_zombie
find_zombie-FindsZombie cur [] = inr (refl, λ j s g. absurd (cc))
find_zombie-FindsZombie cur (slot ∷ slots) = elim (Option-cases (dead_child cur slot)) [
  | inr (code, e) ↦
      let (p, at, parent, dead) = dead_child-some cur slot code e in
      rw (find_zombie, e)
        (inl (0, code, p, refl, ground arith, parent, dead, λ j s l g. absurd (omega arith)))
  | inl e ↦
      rw (find_zombie, e) (FindsZombie-cons cur slot slots _ e (find_zombie-FindsZombie cur slots))
]

-- No child has exited.
abbrev pub NoneDead : ℕ → List (Option Process) → Type 0
NoneDead cur slots =
    (j : ℕ) (slot : Option Process) → get_elem? slots j ≡ some slot → dead_child cur slot ≡ none

pub has_live_child-some :
    (cur : ℕ) (slots : List (Option Process))
    → has_live_child cur slots ≡ true
    → (j : ℕ) × (q : Process) × (get_elem? slots j ≡ some (some q))
      × (live_child cur (some q) ≡ true)
unfolding has_live_child
has_live_child-some cur [] h = absurd (cc)
has_live_child-some cur (none ∷ slots) h =
    let (j, q, at, live) = has_live_child-some cur slots h in (suc j, q, at, live)
has_live_child-some cur (some p ∷ slots) h = elim (Bool-cases (live_child cur (some p))) [
  | inl live ↦ (0, p, refl, live)
  | inr out ↦
      let (j, q, at, live) = has_live_child-some cur slots (ground arith) in (suc j, q, at, live)
]

pub has_live_child-none :
    (cur : ℕ) (slots : List (Option Process))
    → has_live_child cur slots ≡ false
    → (j : ℕ) (slot : Option Process) → get_elem? slots j ≡ some slot
    → live_child cur slot ≡ false
unfolding has_live_child
has_live_child-none cur [] h j slot g = absurd (cc)
has_live_child-none cur (x ∷ slots) h zero slot g =
    let same : x ≡ slot = ground arith in rw (← same) (ground arith)
has_live_child-none cur (x ∷ slots) h (suc j) slot g =
    has_live_child-none cur slots (ground arith) j slot g
