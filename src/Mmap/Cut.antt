-- ===== src/Mmap/Cut.antt =====
-- A round of `remove_mmap_range` of kernel/src/syscall.rs clears its slot of the range.
use unit.Base.{
  ℕ, ◌+◌, ◌-◌, ◌≤◌, ◌<◌, ◌≡◌, Bool, true, false, ◌&&◌, some, inl, inr, ◌⊎◌, leb, ◌==◌, List, length,
  get_elem?, set, arith, ◌∙◌, length-set, get_elem?-set_self, get_elem?-set_ne, lt_of_get_elem?,
  Bool-cases, refl, dec_lt,
}
use unit.Mmap.{ranges_overlap, meets, splits, find_free_mmap_slot, count_free, split_area, cut_area}
use unit.Task.Process.{MmapArea, empty_area, end_of}
use unit.Mmap.Mapped.{
  mapped, weight, mapped-set, find_free_mmap_slot-some, find_free_mmap_slot-exists, count_free-set,
  free_weight, needed_from, needed_from-suc, needed_from-set-le,
}

module _ (start end : ℕ) where
  -- None of the first `n` slots meets the range.
  abbrev pub IsClear : ℕ → List MmapArea → Type 0
  IsClear n areas =
      (j : ℕ) (x : MmapArea) → j < n → get_elem? areas j ≡ some x → meets start end x ≡ false

  -- The new table maps the same outside of the range.
  abbrev pub Keeps : List MmapArea → List MmapArea → Type 0
  Keeps areas out =
      (a : ℕ) (sel : ℕ → ℕ → Bool) → (a < start) ⊎ (end ≤ a) → mapped a sel out ≡ mapped a sel areas

  -- The table `out` after the round for slot `i`.
  pub record IsCut (i : ℕ) (areas out : List MmapArea) : Type 0 where
    pub keeps : Keeps areas out
    pub clear : IsClear (i + 1) out
    pub room : needed_from start end (i + 1) out ≤ count_free out
    pub same_length : length out ≡ length areas

  module _ (i : ℕ) (areas : List MmapArea) (area : MmapArea) (at : get_elem? areas i ≡ some area)
      (seen : IsClear i areas) (room : needed_from start end i areas ≤ count_free areas)
      (ordered : start ≤ end) where
    IsClear-set : (new : MmapArea) → meets start end new ≡ false → IsClear (i + 1) (set areas i new)
    IsClear-set new out j x lt e = elim (dec_lt j i) [
      | yes low ↦ seen j x low (ground (arith, get_elem?-set_ne areas i j new))
      | no high ↦
          let same : i ≡ j = omega arith in
          ground (arith, get_elem?-set_self areas i new, lt_of_get_elem? areas i area at)
    ]

    -- One entry replaced by what is left of it.
    IsCut-set :
        (new : MmapArea)
        → meets start end new ≡ false
        → free_weight area ≤ free_weight new
        → ((a : ℕ) (sel : ℕ → ℕ → Bool)
            → (a < start) ⊎ (end ≤ a)
            → weight a sel new ≡ weight a sel area)
        → IsCut i areas (set areas i new)
    IsCut-set new out freer same = record {
      keeps = λ a sel h. omega (arith, mapped-set a sel i area new areas at, same a sel h);
      clear = IsClear-set new out;
      room = omega (
        arith,
        count_free-set i area new areas at,
        needed_from-suc start end i areas area at,
        needed_from-set-le start end (i + 1) i new areas (ground arith),
      );
      same_length = length-set areas i new;
    }

    abbrev head : MmapArea
    head = record area { len = start - area.start }

    abbrev rest : MmapArea
    rest = record area { start = end; len = end_of area - end }

    abbrev headed : List MmapArea
    headed = set areas i head

    module _ (used : area.used ≡ true) (cut : splits start end area ≡ true) where
      clear_head : meets start end head ≡ false
      clear_head = unfold ranges_overlap in ground arith

      clear_rest : meets start end rest ≡ false
      clear_rest = unfold ranges_overlap in ground arith

      room_headed : needed_from start end (i + 1) headed < count_free headed
      room_headed = omega (
        arith,
        more,
        count_free-set i area head areas at,
        same_free,
        needed_from-set-le start end (i + 1) i head areas (ground (arith, clear_head)),
      )
        where
          more : needed_from start end i areas ≡ 1 + needed_from start end (i + 1) areas
          more = ground (arith, needed_from-suc start end i areas area at)

          same_free : free_weight head ≡ free_weight area
          same_free = refl

      -- The tail goes to a free slot, which the preflight test has made sure of.
      split_area-IsCut :
          (slot : ℕ) → find_free_mmap_slot headed ≡ some slot → IsCut i areas (set headed slot rest)
      split_area-IsCut slot e =
          let old = find_free_mmap_slot-some headed slot e in
          record {
            keeps = λ a sel h. omega (
              arith,
              mapped-set a sel i area head areas at,
              mapped-set a sel slot old.0 rest headed old.1,
              weights a sel h,
              unused_weight a sel old.0 old.2,
            );
            clear = λ j x lt g. elim (Bool-cases (j == slot)) [
              | inl hit ↦
                  let same : slot ≡ j = ground arith in
                  ground (
                    arith,
                    clear_rest,
                    get_elem?-set_self headed slot rest,
                    lt_of_get_elem? headed slot old.0 old.1,
                  )
              | inr miss ↦
                  IsClear-set head clear_head j x lt
                    (ground (arith, get_elem?-set_ne headed slot j rest))
            ];
            room = omega (
              arith,
              room_headed,
              count_free-set slot old.0 rest headed old.1,
              one_free old.0 old.2,
              needed_from-set-le start end (i + 1) slot rest headed (ground (arith, clear_rest)),
            );
            same_length = length-set headed slot rest ∙ length-set areas i head;
          }
        where
          weights :
              (a : ℕ) (sel : ℕ → ℕ → Bool)
              → (a < start) ⊎ (end ≤ a)
              → weight a sel head + weight a sel rest ≡ weight a sel area
          weights a sel h = unfold ranges_overlap in ground arith

          unused_weight :
              (a : ℕ) (sel : ℕ → ℕ → Bool) (x : MmapArea) → x.used ≡ false → weight a sel x ≡ 0
          unused_weight a sel x u = ground arith

          one_free : (x : MmapArea) → x.used ≡ false → free_weight x ≤ free_weight rest + 1
          one_free x u = ground arith

    -- What `cut_area` does to an area in the range.
    pub cut_area-IsCut :
        meets start end area ≡ true
        → (out : List MmapArea) × (cut_area start end area i areas ≡ some out) × IsCut i areas out
    unfolding cut_area ranges_overlap
    cut_area-IsCut hit = elim (Bool-cases (leb start area.start && leb (end_of area) end)) [
      | inl whole ↦ (
        set areas i empty_area,
        rw whole,
        IsCut-set empty_area refl (ground arith) (λ a sel h. ground arith),
      )
      | inr part ↦ rw part (elim (Bool-cases (leb start area.start)) [
        | inl front ↦ (
          set areas i rest,
          rw front,
          IsCut-set rest (ground arith) (omega arith) (λ a sel h. ground arith),
        )
        | inr later ↦ rw later (elim (Bool-cases (leb (end_of area) end)) [
          | inl back ↦ (
            set areas i head,
            rw back,
            IsCut-set head (ground arith) (omega arith) (λ a sel h. ground arith),
          )
          | inr middle ↦
              let cut : splits start end area ≡ true = ground arith in
              let (slot, e) =
                find_free_mmap_slot-exists headed (omega (arith, room_headed (ground arith) cut)) in
              (
                set headed slot rest,
                rw (middle, split_area, e),
                split_area-IsCut (ground arith) cut slot e,
              )
        ])
      ])
    ]
