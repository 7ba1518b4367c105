-- ===== src/Mmap/Gap.antt =====
-- `find_mmap_gap` and `choose_mmap_addr` of kernel/src/syscall.rs give the lowest free place.
use unit.Base.{
  ℕ, zero, suc, ◌+◌, ◌%◌, ◌≤◌, ◌<◌, ◌≡◌, true, false, ◌&&◌, Option, none, some, inl, inr, ◌⊎◌,
  if◌then◌else◌, ltb, List, [], ◌∷◌, length, arith, Bool-cases, Option-cases, refl, dec_lt,
}
use unit.Kernel.{Kernel, Outcome, returns}
use unit.Mmap.{ranges_overlap, first_overlap, gap_loop, find_mmap_gap, meets}
use unit.Mmap.Area.{AreAreas, ceil, align_up-ceil}
use unit.Task.Process.{MmapArea, end_of, user_mmap_start, user_mmap_limit, max_mmap_areas}

-- No used area meets the range, and: some used area does.
abbrev pub IsFree : ℕ → ℕ → List MmapArea → Type 0
IsFree start end [] = Unit
IsFree start end (area ∷ areas) = (meets start end area ≡ false) × IsFree start end areas

abbrev pub IsTaken : ℕ → ℕ → List MmapArea → Type 0
IsTaken start end [] = ⊥
IsTaken start end (area ∷ areas) = (meets start end area ≡ true) ⊎ IsTaken start end areas

-- How many used areas end above `candidate`: what the search still has to pass.
abbrev ahead : ℕ → List MmapArea → ℕ
ahead candidate [] = 0
ahead candidate (area ∷ areas) =
    (if area.used && ltb candidate (end_of area) then 1 else 0) + ahead candidate areas

ahead-le : (c d : ℕ) (areas : List MmapArea) → c ≤ d → ahead d areas ≤ ahead c areas
ahead-le c d [] h = omega arith
ahead-le c d (area ∷ areas) h = ground (arith, ahead-le c d areas h)

ahead-le-length : (c : ℕ) (areas : List MmapArea) → ahead c areas ≤ length areas
ahead-le-length c [] = omega arith
ahead-le-length c (area ∷ areas) = ground (arith, ahead-le-length c areas)

first_overlap-none :
    (c e : ℕ) (areas : List MmapArea) → first_overlap c e areas ≡ none → IsFree c e areas
unfolding first_overlap
first_overlap-none c e [] h = tt
first_overlap-none c e (area ∷ areas) h = ground (arith, first_overlap-none c e areas)

-- The area in the way ends at `up`: it ends above the candidate, so the search passes it for good,
-- and it is in the way of every page below its end.
record Passes (c len : ℕ) (areas : List MmapArea) (up : ℕ) : Type 0 where
  fewer : ahead (ceil up) areas < ahead c areas
  higher : c < up
  below : up ≤ user_mmap_limit
  taken : (p : ℕ) → c ≤ p → p < up → IsTaken p (p + len) areas

first_overlap-Passes :
    (c len : ℕ) (areas : List MmapArea) (up : ℕ)
    → AreAreas areas
    → first_overlap c (c + len) areas ≡ some up
    → Passes c len areas up
unfolding first_overlap ranges_overlap
first_overlap-Passes c len [] up w h = absurd (cc)
first_overlap-Passes c len (area ∷ areas) up w h = elim (Bool-cases (meets c (c + len) area)) [
  | inl hit ↦
      let e : end_of area ≡ up = ground arith in
      record {
        fewer = ground (arith, ahead-le c (ceil up) areas);
        higher = ground arith;
        below = ground (arith, w.0);
        taken = λ p lo hi. inl (ground arith);
      }
  | inr miss ↦
      let rest = first_overlap-Passes c len areas up w.1 (ground arith) in
      record {
        fewer = ground (arith, rest.fewer);
        higher = rest.higher;
        below = rest.below;
        taken = λ p lo hi. inr (rest.taken p lo hi);
      }
]

-- What a search from `START` on finds: the lowest page-aligned place for `len` bytes that meets no
-- used area, or `None` where there is no such place; the state does not change.
abbrev pub FindsGap : List MmapArea → ℕ → Kernel → Outcome (Option ℕ) → Type 0
FindsGap areas len k o =
    ((c : ℕ) × (o ≡ returns (some c) k)
      × (c % 4096 ≡ 0)
      × (user_mmap_start ≤ c)
      × (c + len ≤ user_mmap_limit)
      × IsFree c (c + len) areas
      × ((p : ℕ) → user_mmap_start ≤ p → p < c → p % 4096 ≡ 0 → IsTaken p (p + len) areas))
    ⊎ ((o ≡ returns none k)
        × ((p : ℕ)
            → user_mmap_start ≤ p
            → p + len ≤ user_mmap_limit
            → p % 4096 ≡ 0
            → IsTaken p (p + len) areas))

module _ (areas : List MmapArea) (len : ℕ) (w : AreAreas areas) (k : Kernel) where
  gap_loop-FindsGap :
      (n c : ℕ)
      → ahead c areas < n
      → c % 4096 ≡ 0
      → user_mmap_start ≤ c
      → ((p : ℕ) → user_mmap_start ≤ p → p < c → p % 4096 ≡ 0 → IsTaken p (p + len) areas)
      → FindsGap areas len k (gap_loop n areas len c k)
  unfolding gap_loop
  gap_loop-FindsGap zero c fuel al lo seen = absurd (omega arith)
  gap_loop-FindsGap (suc n) c fuel al lo seen = elim (dec_lt user_mmap_limit (c + len)) [
    | yes full ↦ inr (ground arith, λ p h1 h2 h3. seen p h1 (omega arith) h3)
    | no fits ↦ elim (Option-cases (first_overlap c (c + len) areas)) [
      | inl e ↦
          inl (c, ground arith, al, lo, omega arith, first_overlap-none c (c + len) areas e, seen)
      | inr (up, e) ↦
          let ps = first_overlap-Passes c len areas up w e in
          let go : gap_loop (suc n) areas len c k ≡ gap_loop n areas len (ceil up) k =
            ground (arith, align_up-ceil up k, ps.below) in
          rw go (
            gap_loop-FindsGap n (ceil up) (omega (arith, ps.fewer)) (omega arith)
              (omega (arith, ps.higher))
              λ p h1 h2 h3. elim (dec_lt p c) [
                | yes low ↦ seen p h1 low h3
                | no high ↦ ps.taken p (omega arith) (omega arith)
              ])
    ]
  ]

-- On a table of well-formed areas, at most 32 of them, `find_mmap_gap` ends without a panic and
-- finds the lowest free page-aligned place, or reports that there is none, and then there is
-- none.
pub find_mmap_gap-FindsGap :
    (areas : List MmapArea) (len : ℕ) (k : Kernel)
    → AreAreas areas
    → length areas ≤ max_mmap_areas
    → FindsGap areas len k (find_mmap_gap areas len k)
unfolding find_mmap_gap
find_mmap_gap-FindsGap areas len k w few =
    gap_loop-FindsGap areas len w k (max_mmap_areas + 1) user_mmap_start
      (omega (arith, ahead-le-length user_mmap_start areas)) refl (omega arith)
      (λ p h1 h2 h3. absurd (omega arith))
