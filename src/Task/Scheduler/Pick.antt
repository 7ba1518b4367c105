-- ===== src/Task/Scheduler/Pick.antt =====
-- `pick_next` and `find_empty_slot` of kernel/src/task/scheduler.rs as searches.
use mathlib.Core.Option
use unit.Base.{
  ℕ, zero, suc, ◌+◌, ◌-◌, ◌%◌, ◌≤◌, ◌<◌, ◌≡◌, refl, true, false, Option, none, some, List, [], ◌∷◌,
  get_elem?, arith, Bool-cases, ◌⊎◌, inl, inr, ℕ_discrete,
}
use unit.Task.Process.{Process}
use unit.Task.Scheduler.{max_processes, runnable, vacant, pick_from, pick_next, find_empty_slot}

-- `r` is the first runnable slot at the distances from `i` to `n` behind `cur`, or none is runnable.
abbrev Picks : ℕ → ℕ → List (Option Process) → ℕ → ℕ → Type 0
Picks n i slots cur r =
    ((d : ℕ) × (i ≤ d)
      × (d < i + n)
      × (r ≡ (cur + d) % max_processes)
      × (runnable (get_elem? slots r) ≡ true)
      × ((e : ℕ) → i ≤ e → e < d → runnable (get_elem? slots ((cur + e) % max_processes)) ≡ false))
    ⊎ ((r ≡ max_processes)
        × ((e : ℕ)
            → i ≤ e
            → e < i + n
            → runnable (get_elem? slots ((cur + e) % max_processes)) ≡ false))

module _ (slots : List (Option Process)) (cur : ℕ) where
  pick_from-Picks : (n i : ℕ) → Picks n i slots cur (pick_from n i slots cur)
  unfolding pick_from
  pick_from-Picks zero i = inr (refl, λ e lo hi. absurd (omega arith))
  pick_from-Picks (suc n) i =
      elim (Bool-cases (runnable (get_elem? slots ((cur + i) % max_processes)))) [
        | inl hit ↦ inl (
          i,
          omega arith,
          omega arith,
          ground arith,
          ground arith,
          λ e lo hi. absurd (omega arith),
        )
        | inr miss ↦ rw miss (later miss (pick_from-Picks n (i + 1)))
      ]
    where
      later :
          runnable (get_elem? slots ((cur + i) % max_processes)) ≡ false
          → Picks n (i + 1) slots cur (pick_from n (i + 1) slots cur)
          → Picks (suc n) i slots cur (pick_from n (i + 1) slots cur)
      later miss (inl (d, lo, hi, at, hit, before)) = inl (
        d,
        omega arith,
        omega arith,
        at,
        hit,
        λ e l h. elim (ℕ_discrete e i) [
          | yes same ↦ rw same miss
          | no other ↦ before e (omega arith) h
        ],
      )
      later miss (inr (end, all)) = inr (
        end,
        λ e l h. elim (ℕ_discrete e i) [
          | yes same ↦ rw same miss
          | no other ↦ all e (omega arith) (omega arith)
        ],
      )

-- `r` is the runnable slot that comes first behind `cur`, round the list and `cur` itself last; or `r`
-- is the mark for none, and no slot is runnable.
abbrev pub IsNext : List (Option Process) → ℕ → ℕ → Type 0
IsNext slots cur r =
    ((d : ℕ) × (1 ≤ d)
      × (d ≤ max_processes)
      × (r ≡ (cur + d) % max_processes)
      × (runnable (get_elem? slots r) ≡ true)
      × ((e : ℕ) → 1 ≤ e → e < d → runnable (get_elem? slots ((cur + e) % max_processes)) ≡ false))
    ⊎ ((r ≡ max_processes) × ((j : ℕ) → j < max_processes → runnable (get_elem? slots j) ≡ false))

IsNext-Picks :
    (slots : List (Option Process)) (cur r : ℕ)
    → cur < max_processes
    → Picks max_processes 1 slots cur r
    → IsNext slots cur r
IsNext-Picks slots cur r h (inl (d, lo, hi, at, hit, before)) =
    inl (d, lo, omega arith, at, hit, before)
IsNext-Picks slots cur r h (inr (end, all)) = inr (
  end,
  λ j l.
      let e : ℕ = (j + 31 - cur) % max_processes + 1 in
      let round : (cur + e) % max_processes ≡ j = omega arith in
      rw (← round) (all e (omega arith) (omega arith)),
)

-- For a current index inside the list, `pick_next` gives the runnable process that comes first
-- behind the current one, round the list and at last the current one itself; or the mark for
-- none, and then no slot is runnable.
pub pick_next-IsNext :
    (slots : List (Option Process)) (cur : ℕ)
    → cur < max_processes
    → IsNext slots cur (pick_next slots cur)
unfolding pick_next
pick_next-IsNext slots cur h =
    IsNext-Picks slots cur _ h (pick_from-Picks slots cur max_processes 1)

-- The first vacant slot, or `None` and no slot is vacant.
abbrev pub FindsVacant : List (Option Process) → Option ℕ → Type 0
FindsVacant slots o =
    ((i : ℕ) × (o ≡ some i)
      × (s : Option Process) × (get_elem? slots i ≡ some s)
      × (vacant s ≡ true)
      × ((j : ℕ) (t : Option Process) → j < i → get_elem? slots j ≡ some t → vacant t ≡ false))
    ⊎ ((o ≡ none) × ((j : ℕ) (t : Option Process) → get_elem? slots j ≡ some t → vacant t ≡ false))

FindsVacant-cons :
    (slot : Option Process) (slots : List (Option Process)) (o : Option ℕ)
    → vacant slot ≡ false
    → FindsVacant slots o
    → FindsVacant (slot ∷ slots) (Option.map suc o)
FindsVacant-cons slot slots o h (inl (i, e, s, at, free, before)) =
    inl (suc i, ground arith, s, at, free, λ j t. first j t)
  where
    first :
        (j : ℕ) (t : Option Process)
        → j < suc i
        → get_elem? (slot ∷ slots) j ≡ some t
        → vacant t ≡ false
    first zero t l g = ground arith
    first (suc j) t l g = before j t (omega arith) g
FindsVacant-cons slot slots o h (inr (e, all)) = inr (ground arith, λ j t. every j t)
  where
    every : (j : ℕ) (t : Option Process) → get_elem? (slot ∷ slots) j ≡ some t → vacant t ≡ false
    every zero t g = ground arith
    every (suc j) t g = all j t g

-- `find_empty_slot` gives the first slot that is empty or whose process is gone, and `None` only if
-- there is no such slot.
pub find_empty_slot-FindsVacant :
    (slots : List (Option Process)) → FindsVacant slots (find_empty_slot slots)
unfolding find_empty_slot
find_empty_slot-FindsVacant [] = inr (refl, λ j t g. absurd (cc))
find_empty_slot-FindsVacant (slot ∷ slots) = elim (Bool-cases (vacant slot)) [
  | inl free ↦ rw free (inl (0, refl, slot, refl, free, λ j t l g. absurd (omega arith)))
  | inr taken ↦ rw taken (FindsVacant-cons slot slots _ taken (find_empty_slot-FindsVacant slots))
]
