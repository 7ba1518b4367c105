-- ===== src/Mmap/Remove.antt =====
-- `remove_mmap_range` of kernel/src/syscall.rs against the set of addresses that a table maps.
use mathlib.Core.Option
use unit.Base.{
  ℕ, zero, suc, ◌+◌, ◌≤◌, ◌<◌, ◌≡◌, Bool, true, ◌&&◌, some, inl, inr, if◌then◌else◌, ltb, leb, List,
  [], ◌∷◌, length, get_elem?, arith, ◌∙◌, get_elem?-ne-none, Bool-cases, Option-cases, refl, dec_lt,
}
use unit.Mmap.{
  ranges_overlap, meets, count_free, can_split_mmap_range, remove_at, remove_loop,
  remove_mmap_range,
}
use unit.Task.Process.{MmapArea}
use unit.Mmap.Mapped.{mapped, needed_from, needed_from-zero, needed_from-suc}
use unit.Mmap.Cut.{IsClear, Keeps, IsCut, cut_area-IsCut}

module _ (start end : ℕ) where
  remove_at-IsCut :
      (i : ℕ) (areas : List MmapArea)
      → start ≤ end
      → i < length areas
      → IsClear start end i areas
      → needed_from start end i areas ≤ count_free areas
      → (out : List MmapArea) × (remove_at start end i areas ≡ some out)
        × IsCut start end i areas out
  unfolding remove_at
  remove_at-IsCut i areas ordered lt seen room = elim (Option-cases (get_elem? areas i)) [
    | inl e ↦ absurd (get_elem?-ne-none areas i lt e)
    | inr (area, at) ↦ elim (Bool-cases (meets start end area)) [
      | inl hit ↦
          let (out, e, c) = cut_area-IsCut start end i areas area at seen room ordered hit in
          (out, rw (at, remove_at, hit) e, c)
      | inr miss ↦ (
        areas,
        rw (at, remove_at, miss),
        record {
          keeps = λ a sel h. refl;
          clear = λ j x l g. elim (dec_lt j i) [
            | yes low ↦ seen j x low g
            | no high ↦ let same : j ≡ i = omega arith in ground arith
          ];
          room = omega (arith, needed_from-suc start end i areas area at);
          same_length = refl;
        },
      )
    ]
  ]

  -- The rounds from slot `i` on clear the rest of the table.
  remove_loop-IsCut :
      (n i : ℕ) (areas : List MmapArea)
      → start ≤ end
      → i + n ≡ length areas
      → IsClear start end i areas
      → needed_from start end i areas ≤ count_free areas
      → (out : List MmapArea) × (remove_loop start end n i areas ≡ some out)
        × Keeps start end areas out
        × IsClear start end (length out) out
        × (length out ≡ length areas)
  unfolding remove_loop Option.bind
  remove_loop-IsCut zero i areas ordered e seen room =
      (areas, refl, λ a sel h. refl, λ j x l g. seen j x (omega arith) g, refl)
  remove_loop-IsCut (suc n) i areas ordered e seen room =
      let (mid, r, c) = remove_at-IsCut i areas ordered (omega arith) seen room in
      let (out, q, keeps, clear, len) =
        remove_loop-IsCut n (i + 1) mid ordered (omega (arith, c.same_length)) c.clear c.room in
      (out, rw r q, λ a sel h. keeps a sel h ∙ c.keeps a sel h, clear, len ∙ c.same_length)

  -- No area that is clear of the range maps an address in it.
  mapped-IsClear :
      (a : ℕ) (sel : ℕ → ℕ → Bool) (areas : List MmapArea)
      → start ≤ a
      → a < end
      → IsClear start end (length areas) areas
      → mapped a sel areas ≡ 0
  unfolding ranges_overlap
  mapped-IsClear a sel [] lo hi c = refl
  mapped-IsClear a sel (x ∷ areas) lo hi c = ground (
    arith,
    c 0 x (omega arith) refl,
    mapped-IsClear a sel areas lo hi (λ j y l g. c (suc j) y (omega arith) g),
  )

-- For a range that does not end before its start, if the preflight test passes,
-- `remove_mmap_range` does not panic; afterwards no address of the range is mapped, every other
-- address is mapped as before, with its protection and flags, and the table has the same size.
pub remove_mmap_range-mapped :
    (start end : ℕ) (areas : List MmapArea)
    → start ≤ end
    → can_split_mmap_range start end areas ≡ true
    → (out : List MmapArea) × (remove_mmap_range start end areas ≡ some out)
      × (length out ≡ length areas)
      × ((a : ℕ) (sel : ℕ → ℕ → Bool)
          → mapped a sel out ≡ (if leb start a && ltb a end then 0 else mapped a sel areas))
unfolding remove_mmap_range can_split_mmap_range
remove_mmap_range-mapped start end areas ordered h =
    let enough : needed_from start end 0 areas ≤ count_free areas =
      ground (arith, needed_from-zero start end areas) in
    let (out, e, keeps, clear, len) =
      remove_loop-IsCut start end (length areas) 0 areas ordered (omega arith)
        (λ j x l g. absurd (omega arith)) enough in
    (
      out,
      e,
      len,
      λ a sel. elim (Bool-cases (leb start a && ltb a end)) [
        | inl inside ↦
            rw inside (mapped-IsClear start end a sel out (ground arith) (ground arith) clear)
        | inr outside ↦ rw outside (keeps a sel (ground arith))
      ],
    )
