-- ===== src/Mmap/Hint.antt =====
-- `choose_mmap_addr` of kernel/src/syscall.rs: the hint of `mmap`, and what a huge hint does.
use unit.Base.{
  ℕ, ◌+◌, ◌%◌, ◌≤◌, ◌<◌, ◌≡◌, true, ◌&&◌, Option, none, some, inl, inr, ◌⊎◌, ◌↔◌, leb, ◌==◌,
  usize_end, List, [], ◌∷◌, length, arith, Bool-cases, refl,
}
use unit.Kernel.{Kernel, Outcome, returns, panics}
use unit.Mmap.{align_up, find_mmap_gap, mmap_range_available, choose_mmap_addr}
use unit.Mmap.Area.{AreAreas, ceil, align_up-ceil}
use unit.Mmap.Gap.{IsFree, FindsGap, find_mmap_gap-FindsGap}
use unit.Task.Process.{MmapArea, user_mmap_start, user_mmap_limit, max_mmap_areas}

-- `mmap_range_available` decides that no used area meets the range.
pub mmap_range_available_iff :
    (start end : ℕ) (areas : List MmapArea)
    → (mmap_range_available start end areas ≡ true) ↔ IsFree start end areas
unfolding mmap_range_available
mmap_range_available_iff start end [] = (λ h. tt, λ h. refl)
mmap_range_available_iff start end (area ∷ areas) =
    let ih = mmap_range_available_iff start end areas in
    (λ h. (ground arith, ih.0 (ground arith)), λ h. ground (arith, ih.1 h.1))

-- A place for `len` bytes: whole pages inside the region, away from all used areas.
abbrev pub IsPlace : List MmapArea → ℕ → ℕ → Type 0
IsPlace areas len c =
    (c % 4096 ≡ 0) × (user_mmap_start ≤ c) × (c + len ≤ user_mmap_limit) × IsFree c (c + len) areas

-- The outcome is a place, or `None`; the state is the same.
abbrev pub Chooses : List MmapArea → ℕ → Kernel → Outcome (Option ℕ) → Type 0
Chooses areas len k o =
    ((c : ℕ) × (o ≡ returns (some c) k) × IsPlace areas len c) ⊎ (o ≡ returns none k)

Chooses-find_mmap_gap :
    (areas : List MmapArea) (len : ℕ) (k : Kernel)
    → AreAreas areas
    → length areas ≤ max_mmap_areas
    → Chooses areas len k (find_mmap_gap areas len k)
Chooses-find_mmap_gap areas len k w few = go (find_mmap_gap-FindsGap areas len k w few)
  where
    go :
        FindsGap areas len k (find_mmap_gap areas len k)
        → Chooses areas len k (find_mmap_gap areas len k)
    go (inl (c, e, a, lo, hi, free, _)) = inl (c, e, (a, lo, hi, free))
    go (inr (e, _)) = inr e

-- On a table of well-formed areas, at most 32 of them, and for a hint that does not overflow when
-- it is rounded up, `choose_mmap_addr` gives a free page-aligned place in the region or `None`,
-- and never panics.
pub choose_mmap_addr-Chooses :
    (areas : List MmapArea) (hint len : ℕ) (k : Kernel)
    → AreAreas areas
    → length areas ≤ max_mmap_areas
    → hint + 4096 < usize_end
    → Chooses areas len k (choose_mmap_addr areas hint len k)
unfolding choose_mmap_addr
choose_mmap_addr-Chooses areas hint len k w few h = elim (Bool-cases (hint == 0)) [
  | inl e ↦ rw e (Chooses-find_mmap_gap areas len k w few)
  | inr e ↦
      rw (e, align_up-ceil hint k h)
        (elim (Bool-cases (leb user_mmap_start (ceil hint))) [
          | inr low ↦ rw low (Chooses-find_mmap_gap areas len k w few)
          | inl up ↦ rw up (elim (Bool-cases (leb usize_end (ceil hint + len))) [
            | inl over ↦ rw over (inr refl)
            | inr fits ↦
                rw fits
                  (elim (Bool-cases (
                    leb (ceil hint + len) user_mmap_limit
                    && mmap_range_available (ceil hint) (ceil hint + len) areas)) [
                      | inr out ↦ rw out (Chooses-find_mmap_gap areas len k w few)
                      | inl good ↦ rw good (
                          inl (
                            ceil hint,
                            refl,
                            (
                              omega arith,
                              ground arith,
                              ground arith,
                              (mmap_range_available_iff (ceil hint) (ceil hint + len) areas).0
                                  (ground arith),
                            ),
                          ))
                    ])
          ])
        ])
]

-- A hint that is not 0 and whose rounded-up address is a free place in the region is taken: the
-- result is that address.
choose_mmap_addr_hint :
    (areas : List MmapArea) (hint len : ℕ) (k : Kernel)
    → 0 < hint
    → IsPlace areas len (ceil hint)
    → choose_mmap_addr areas hint len k ≡ returns (some (ceil hint)) k
unfolding choose_mmap_addr
choose_mmap_addr_hint areas hint len k pos p = ground (
  arith,
  align_up-ceil hint k,
  (mmap_range_available_iff (ceil hint) (ceil hint + len) areas).1 p.3,
)

-- A hint within 4096 bytes of the end of the 64-bit addresses panics, as the addition in `align_up`
-- overflows.
pub choose_mmap_addr_overflow :
    (areas : List MmapArea) (hint len : ℕ) (k : Kernel)
    → usize_end ≤ hint + 4096
    → choose_mmap_addr areas hint len k ≡ panics
unfolding choose_mmap_addr align_up
choose_mmap_addr_overflow areas hint len k h = ground arith
