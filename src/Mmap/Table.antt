-- ===== src/Mmap/Table.antt =====
-- The invariant of the table of areas of kernel/src/syscall.rs: what `mmap` puts in and `munmap` takes
-- out keep it.
use mathlib.Core.Option
use unit.Base.{
  ℕ, zero, suc, ◌+◌, ◌-◌, ◌%◌, ◌≤◌, ◌<◌, ◌≡◌, Bool, true, false, ◌&&◌, Option, none, some, leb, ltb,
  List, [], ◌∷◌, length, get_elem?, set, arith, Bool-cases, Option-cases, inl, inr, refl,
  length-set, replicate,
}
use unit.Mmap.{
  meets, ranges_overlap, find_free_mmap_slot, can_split_mmap_range, split_area, cut_area, remove_at,
  remove_loop, remove_mmap_range,
}
use unit.Mmap.Area.{IsArea, AreAreas}
use unit.Mmap.Gap.{IsFree}
use unit.Mmap.Hint.{IsPlace}
use unit.Mmap.Mapped.{weight, mapped, mapped-set, find_free_mmap_slot-some}
use unit.Mmap.Remove.{remove_mmap_range-mapped}
use unit.Task.Process.{MmapArea, empty_area, end_of, max_mmap_areas}

abbrev pub any : ℕ → ℕ → Bool
any prot flags = true

-- Every used area is whole pages of the region for mappings, and no address is in two of them.
pub record IsTable (areas : List MmapArea) : Type 0 where
  pub each : AreAreas areas
  pub disjoint : (a : ℕ) → mapped a any areas ≤ 1
  pub size : length areas ≡ max_mmap_areas

AreAreas-set :
    (areas : List MmapArea) (i : ℕ) (new : MmapArea)
    → AreAreas areas
    → (new.used ≡ true → IsArea new)
    → AreAreas (set areas i new)
AreAreas-set [] i new w h = w
AreAreas-set (x ∷ areas) zero new w h = (h, w.1)
AreAreas-set (x ∷ areas) (suc i) new w h = (w.0, AreAreas-set areas i new w.1 h)

AreAreas-get :
    (areas : List MmapArea) (i : ℕ) (area : MmapArea)
    → AreAreas areas
    → get_elem? areas i ≡ some area
    → area.used ≡ true
    → IsArea area
AreAreas-get [] i area w h u = absurd (cc)
AreAreas-get (x ∷ areas) zero area w h u =
    let same : x ≡ area = ground arith in rw (← same) (w.0 (ground arith))
AreAreas-get (x ∷ areas) (suc i) area w h u = AreAreas-get areas i area w.1 h u

-- A range that is free is not mapped.
mapped-IsFree :
    (start end a : ℕ) (sel : ℕ → ℕ → Bool) (areas : List MmapArea)
    → IsFree start end areas
    → start ≤ a
    → a < end
    → mapped a sel areas ≡ 0
unfolding ranges_overlap
mapped-IsFree start end a sel [] h lo hi = refl
mapped-IsFree start end a sel (x ∷ areas) h lo hi =
    ground (arith, h, mapped-IsFree start end a sel areas h.1 lo hi)

abbrev pub added : ℕ → ℕ → ℕ → ℕ → MmapArea
added start len prot flags = record {
  start = start;
  len = len;
  prot = prot;
  flags = flags;
  used = true;
}

-- The area that `mmap` records in a free slot, at a place that it has chosen.
module _ (areas : List MmapArea) (slot start len prot flags : ℕ) (t : IsTable areas)
    (e : find_free_mmap_slot areas ≡ some slot) (place : IsPlace areas len start)
    (al : len % 4096 ≡ 0) (pos : 0 < len) where
  abbrev new : MmapArea
  new = added start len prot flags

  pub mapped-added :
      (a : ℕ) (sel : ℕ → ℕ → Bool)
      → mapped a sel (set areas slot new) ≡ mapped a sel areas + weight a sel new
  mapped-added a sel =
      let (old, at, unused) = find_free_mmap_slot-some areas slot e in
      omega (arith, mapped-set a sel slot old new areas at, no_weight old unused)
    where
      no_weight : (x : MmapArea) → x.used ≡ false → weight a sel x ≡ 0
      no_weight x u = ground arith

  pub IsTable-added : IsTable (set areas slot new)
  IsTable-added = record {
    each = AreAreas-set areas slot new t.each (λ h. record {
      start_aligned = place.0;
      len_aligned = al;
      nonempty = pos;
      above = place.1;
      below = place.2;
    });
    disjoint = λ a. elim (Bool-cases (leb start a && ltb a (start + len))) [
      | inl inside ↦
          ground (arith, mapped-added a any, mapped-IsFree start (start + len) a any areas place.3)
      | inr outside ↦ ground (arith, mapped-added a any, t.disjoint a)
    ];
    size = rw (length-set areas slot new) t.size;
  }

-- If there is a new table, its areas are well formed.
abbrev StayAreas : Option (List MmapArea) → Type 0
StayAreas none = Unit
StayAreas (some out) = AreAreas out

module _ (start end : ℕ) (als : start % 4096 ≡ 0) (ale : end % 4096 ≡ 0)
    (ordered : start ≤ end) where
  module _ (area : MmapArea) (i : ℕ) (areas : List MmapArea) (hit : meets start end area ≡ true)
      (v : IsArea area) (w : AreAreas areas) where
    abbrev head : MmapArea
    head = record area { len = start - area.start }

    abbrev rest : MmapArea
    rest = record area { start = end; len = end_of area - end }

    head-IsArea : area.start < start → start < end_of area → IsArea head
    head-IsArea l r = record {
      start_aligned = v.start_aligned;
      len_aligned = omega (arith, v.start_aligned);
      nonempty = omega arith;
      above = v.above;
      below = omega (arith, v.below);
    }

    rest-IsArea : area.start < end → end < end_of area → IsArea rest
    rest-IsArea l r = record {
      start_aligned = ale;
      len_aligned = omega (arith, v.start_aligned, v.len_aligned);
      nonempty = omega arith;
      above = omega (arith, v.above);
      below = omega (arith, v.below);
    }

    StayAreas-split_area :
        area.start < start → end < end_of area → StayAreas (split_area start end area i areas)
    unfolding split_area
    StayAreas-split_area l r = go (find_free_mmap_slot (set areas i head))
      where
        go : (o : Option ℕ) → StayAreas (Option.map (λ slot. set (set areas i head) slot rest) o)
        go none = tt
        go (some slot) =
            AreAreas-set (set areas i head) slot rest
              (AreAreas-set areas i head w (λ u. head-IsArea l (omega arith)))
              (λ u. rest-IsArea (omega arith) r)

    StayAreas-cut_area : StayAreas (cut_area start end area i areas)
    unfolding cut_area ranges_overlap
    StayAreas-cut_area = elim (Bool-cases (leb start area.start && leb (end_of area) end)) [
      | inl whole ↦ rw whole (AreAreas-set areas i empty_area w (λ u. absurd (cc)))
      | inr part ↦ rw part (elim (Bool-cases (leb start area.start)) [
        | inl front ↦
            rw front (AreAreas-set areas i rest w (λ u. rest-IsArea (ground arith) (ground arith)))
        | inr later ↦ rw later (elim (Bool-cases (leb (end_of area) end)) [
          | inl back ↦
              rw back (AreAreas-set areas i head w (λ u. head-IsArea (ground arith) (ground arith)))
          | inr middle ↦ rw middle (StayAreas-split_area (ground arith) (ground arith))
        ])
      ])
    ]

  StayAreas-remove_at :
      (i : ℕ) (areas : List MmapArea) → AreAreas areas → StayAreas (remove_at start end i areas)
  unfolding remove_at
  StayAreas-remove_at i areas w = elim (Option-cases (get_elem? areas i)) [
    | inl e ↦ rw (e, remove_at) w
    | inr (area, at) ↦ elim (Bool-cases (meets start end area)) [
      | inl hit ↦
          rw (at, remove_at, hit)
            (StayAreas-cut_area area i areas hit (AreAreas-get areas i area w at (ground arith)) w)
      | inr miss ↦ rw (at, remove_at, miss) w
    ]
  ]

  StayAreas-remove_loop :
      (n i : ℕ) (areas : List MmapArea)
      → AreAreas areas
      → StayAreas (remove_loop start end n i areas)
  unfolding remove_loop Option.bind
  StayAreas-remove_loop zero i areas w = w
  StayAreas-remove_loop (suc n) i areas w =
      go (remove_at start end i areas) (StayAreas-remove_at i areas w)
        (StayAreas-remove_loop n (i + 1))
    where
      go :
          (o : Option (List MmapArea))
          → StayAreas o
          → ((out : List MmapArea) → AreAreas out → StayAreas (remove_loop start end n (i + 1) out))
          → StayAreas (Option.bind o (remove_loop start end n (i + 1)))
      go none h ih = tt
      go (some out) h ih = ih out h

-- The table that `remove_mmap_range` leaves is well formed, if it was and the range is whole pages.
pub IsTable-removed :
    (start end : ℕ) (areas out : List MmapArea)
    → start % 4096 ≡ 0
    → end % 4096 ≡ 0
    → start ≤ end
    → IsTable areas
    → can_split_mmap_range start end areas ≡ true
    → remove_mmap_range start end areas ≡ some out
    → IsTable out
unfolding remove_mmap_range
IsTable-removed start end areas out als ale ordered t h e =
    let (got, e2, len, same) = remove_mmap_range-mapped start end areas ordered h in
    let eq : got ≡ out = cc in
    record {
      each =
          StayAreas-eq
            (StayAreas-remove_loop start end als ale ordered (length areas) 0 areas t.each);
      disjoint = λ a. rw (← eq) (rw (same a any) (ground (arith, t.disjoint a)));
      size = rw (← eq) (rw len t.size);
    }
  where
    StayAreas-eq : StayAreas (remove_loop start end (length areas) 0 areas) → AreAreas out
    StayAreas-eq = rw e (λ w. w)

AreAreas-replicate : (n : ℕ) → AreAreas (replicate n empty_area)
AreAreas-replicate zero = tt
AreAreas-replicate (suc n) = (λ h. absurd (cc), AreAreas-replicate n)

mapped-replicate : (n a : ℕ) (sel : ℕ → ℕ → Bool) → mapped a sel (replicate n empty_area) ≡ 0
mapped-replicate zero a sel = refl
mapped-replicate (suc n) a sel = omega (arith, mapped-replicate n a sel)

-- A table with no area in use.
pub IsTable-unused : IsTable (replicate max_mmap_areas empty_area)
IsTable-unused = record {
  each = AreAreas-replicate max_mmap_areas;
  disjoint = λ a. omega (arith, mapped-replicate max_mmap_areas a any);
  size = refl;
}
