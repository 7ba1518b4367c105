-- ===== src/Mmap/Mapped.antt =====
-- The set of addresses that a table of areas maps, and what the preflight test of `munmap` counts
-- (kernel/src/syscall.rs).
use unit.Base.{
  ℕ, zero, suc, ◌+◌, ◌≤◌, ◌<◌, ◌≡◌, Bool, false, not, ◌&&◌, some, inl, inr, if◌then◌else◌, ltb, leb,
  List, [], ◌∷◌, get_elem?, set, arith, Bool-cases, Option-cases, refl,
}
use unit.Mmap.{splits, find_free_mmap_slot, count_needed, count_free}
use unit.Task.Process.{MmapArea, end_of}

-- 1 if the area is used, holds the address `a` and has a protection and flags that `sel` picks.
abbrev pub weight : ℕ → (ℕ → ℕ → Bool) → MmapArea → ℕ
weight a sel area =
    if area.used && leb area.start a && ltb a (end_of area) && sel area.prot area.flags
    then 1
    else 0

-- How many areas of the table map `a` so. With all protections picked, a table without overlaps has
-- 1 at an address that is mapped and 0 elsewhere.
abbrev pub mapped : ℕ → (ℕ → ℕ → Bool) → List MmapArea → ℕ
mapped a sel [] = 0
mapped a sel (area ∷ areas) = weight a sel area + mapped a sel areas

-- Replacing one entry moves a total by the difference of the two weights.
pub mapped-set :
    (a : ℕ) (sel : ℕ → ℕ → Bool) (i : ℕ) (old new : MmapArea) (areas : List MmapArea)
    → get_elem? areas i ≡ some old
    → mapped a sel (set areas i new) + weight a sel old ≡ mapped a sel areas + weight a sel new
mapped-set a sel i old new [] h = absurd (cc)
mapped-set a sel zero old new (x ∷ areas) h = ground arith
mapped-set a sel (suc i) old new (x ∷ areas) h = omega (arith, mapped-set a sel i old new areas h)

-- The first free slot holds an area that is not used.
pub find_free_mmap_slot-some :
    (areas : List MmapArea) (slot : ℕ)
    → find_free_mmap_slot areas ≡ some slot
    → (area : MmapArea) × (get_elem? areas slot ≡ some area) × (area.used ≡ false)
unfolding find_free_mmap_slot
find_free_mmap_slot-some [] slot h = absurd (cc)
find_free_mmap_slot-some (x ∷ areas) slot h = elim (Bool-cases x.used) [
  | inr unused ↦ (x, ground arith, unused)
  | inl used ↦ elim (Option-cases (find_free_mmap_slot areas)) [
    | inl e ↦ absurd (ground arith)
    | inr (j, e) ↦
        let rest = find_free_mmap_slot-some areas j e in (rest.0, ground (arith, rest.1), rest.2)
  ]
]

pub find_free_mmap_slot-exists :
    (areas : List MmapArea)
    → 0 < count_free areas
    → (slot : ℕ) × (find_free_mmap_slot areas ≡ some slot)
unfolding find_free_mmap_slot count_free
find_free_mmap_slot-exists [] h = absurd (omega arith)
find_free_mmap_slot-exists (x ∷ areas) h = elim (Bool-cases x.used) [
  | inr unused ↦ (0, ground arith)
  | inl used ↦
      let rest = find_free_mmap_slot-exists areas (ground arith) in
      (suc rest.0, ground (arith, rest.1))
]

abbrev pub free_weight : MmapArea → ℕ
free_weight area = if not area.used then 1 else 0

pub count_free-set :
    (i : ℕ) (old new : MmapArea) (areas : List MmapArea)
    → get_elem? areas i ≡ some old
    → count_free (set areas i new) + free_weight old ≡ count_free areas + free_weight new
unfolding count_free
count_free-set i old new [] h = absurd (cc)
count_free-set zero old new (x ∷ areas) h = ground arith
count_free-set (suc i) old new (x ∷ areas) h = omega (arith, count_free-set i old new areas h)

module _ (start end : ℕ) where
  -- How many of the areas from slot `n` on would be cut in two.
  abbrev pub needed_from : ℕ → List MmapArea → ℕ
  needed_from n [] = 0
  needed_from zero (x ∷ areas) = count_needed start end (x ∷ areas)
  needed_from (suc n) (x ∷ areas) = needed_from n areas

  pub needed_from-zero :
      (areas : List MmapArea) → needed_from 0 areas ≡ count_needed start end areas
  unfolding count_needed
  needed_from-zero [] = refl
  needed_from-zero (x ∷ areas) = refl

  pub needed_from-suc :
      (n : ℕ) (areas : List MmapArea) (area : MmapArea)
      → get_elem? areas n ≡ some area
      → needed_from n areas ≡ (if splits start end area then 1 else 0) + needed_from (n + 1) areas
  unfolding count_needed
  needed_from-suc n [] area h = absurd (cc)
  needed_from-suc zero (x ∷ areas) area h = ground (arith, needed_from-zero areas)
  needed_from-suc (suc n) (x ∷ areas) area h = ground (arith, needed_from-suc n areas area)

  -- An entry that is not to be cut does not add to the count, wherever it is put.
  count_needed-set-le :
      (i : ℕ) (new : MmapArea) (areas : List MmapArea)
      → splits start end new ≡ false
      → count_needed start end (set areas i new) ≤ count_needed start end areas
  unfolding count_needed
  count_needed-set-le i new [] h = omega arith
  count_needed-set-le zero new (x ∷ areas) h = ground arith
  count_needed-set-le (suc i) new (x ∷ areas) h = ground (arith, count_needed-set-le i new areas)

  pub needed_from-set-le :
      (n i : ℕ) (new : MmapArea) (areas : List MmapArea)
      → splits start end new ≡ false
      → needed_from n (set areas i new) ≤ needed_from n areas
  needed_from-set-le n i new [] h = omega arith
  needed_from-set-le zero zero new (x ∷ areas) h = count_needed-set-le 0 new (x ∷ areas) h
  needed_from-set-le zero (suc i) new (x ∷ areas) h = count_needed-set-le (suc i) new (x ∷ areas) h
  needed_from-set-le (suc n) zero new (x ∷ areas) h = omega arith
  needed_from-set-le (suc n) (suc i) new (x ∷ areas) h = needed_from-set-le n i new areas h
