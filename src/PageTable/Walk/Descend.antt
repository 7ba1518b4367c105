-- ===== src/PageTable/Walk/Descend.antt =====
-- One level of `walk` in kernel/src/mm/page_table.rs: the table that is there, or a new one.
use unit.Base.{
  ℕ, ◌+◌, ◌*◌, ◌<◌, ◌≤◌, ◌≡◌, ◌≢◌, true, false, List, [], Option, none, some, arith, Bool-cases,
  inl, inr, ◌⊎◌, refl, ap, ◌∙◌, if◌then◌else◌,
}
use unit.Kernel.{Kernel, Outcome, returns, update, within}
use unit.Frame.{alloc_frame, ram_end}
use unit.Frame.FreeList.{index, IsFrame, IsAllocator, IsAllocator-memory}
use unit.Frame.Alloc.{IsUnused, Handed, Allocates, alloc_frame-Allocates}
use unit.PageTable.Entry.{is_valid, ppn_to_addr, new_table}
use unit.PageTable.Entry.Laws.{new_table-fields}
use unit.PageTable.Walk.{entry_at, descend, add_table}

-- A frame that somebody references.
abbrev pub InUse : Kernel → ℕ → Type 0
InUse k t = IsFrame t × (0 < k.frame_refs (index t))

-- Of the frames in use only the word at `a` may have changed, if it was not a valid entry, and all are
-- still in use.
pub record Extends (k j : Kernel) (a : ℕ) : Type 0 where
  pub same :
      (t b : ℕ)
      → InUse k t
      → within t 4096 b ≡ true
      → (b ≢ a) ⊎ (is_valid (k.memory b) ≡ true)
      → j.memory b ≡ k.memory b
  pub used : (t : ℕ) → InUse k t → InUse j t

-- The table `n` that the entry at `a` leads to in `j`: it was there, or it is a zeroed frame that was not
-- in use.
pub record LeadsTo (k j : Kernel) (a n : ℕ) : Type 0 where
  pub valid : is_valid (j.memory a) ≡ true
  pub leads : ppn_to_addr (j.memory a) ≡ n
  pub origin :
      ((is_valid (k.memory a) ≡ true) × (ppn_to_addr (k.memory a) ≡ n) × (j ≡ k))
      ⊎ ((is_valid (k.memory a) ≡ false)
          × IsUnused k n
          × ((o : ℕ) → o < 4096 → j.memory (n + o) ≡ 0))
  pub in_use : InUse j n

-- How one level ends: with a table, or without, as no frame is left for it.
abbrev pub Descends : Kernel → List ℕ → ℕ → Outcome (Option ℕ) → Type 0
Descends k free a o =
    ((free ≡ []) × (ram_end ≤ k.next_frame) × (o ≡ returns none k))
    ⊎ ((n : ℕ) × (j : Kernel) × (rest : List ℕ) × (o ≡ returns (some n) j)
        × IsAllocator j rest
        × Extends k j a
        × LeadsTo k j a n)

module _ (k : Kernel) (free : List ℕ) (v : IsAllocator k free) (t idx : ℕ) (u : InUse k t)
    (lt : idx < 512) where
  abbrev a : ℕ
  a = t + idx * 8

  -- The state behind a new table.
  module _ (pa : ℕ) (i : Kernel) (unused : IsUnused k pa) (handed : Handed k pa i) where
    abbrev grown : Kernel
    grown = record i {
      memory = update (λ b. if within pa 4096 b then 0 else i.memory b) a (new_table pa);
    }

    refs : (q : ℕ) → i.frame_refs q ≡ update k.frame_refs (index pa) 1 q
    refs q = ap (λ (r : ℕ → ℕ). r q) handed.0

    mem : (b : ℕ) → i.memory b ≡ k.memory b
    mem b = ap (λ (m : ℕ → ℕ). m b) handed.1

    -- Frames in use are not the new one.
    apart : (s : ℕ) → InUse k s → index s ≢ index pa
    apart s h e = absurd (ground arith)

    out_of_page : (s b : ℕ) → InUse k s → within s 4096 b ≡ true → within pa 4096 b ≡ false
    out_of_page s b h inside = ground (arith, apart s h)

    in_table : within t 4096 a ≡ true
    in_table = ground arith

    fields : (ppn_to_addr (new_table pa) ≡ pa) × (is_valid (new_table pa) ≡ true)
    fields = let f = new_table-fields pa (omega (arith, unused.0.1)) unused.0.2 in (f.0, f.1)

    here : grown.memory a ≡ new_table pa
    here = ground arith

    elsewhere : (s b : ℕ) → InUse k s → within s 4096 b ≡ true → b ≢ a → grown.memory b ≡ k.memory b
    elsewhere s b h inside out = ground (arith, mem b, out_of_page s b h inside)

    kept :
        is_valid (k.memory a) ≡ false
        → (s b : ℕ) → InUse k s
        → within s 4096 b ≡ true
        → (b ≢ a) ⊎ (is_valid (k.memory b) ≡ true)
        → grown.memory b ≡ k.memory b
    kept missing s b h inside (inl out) = elsewhere s b h inside out
    kept missing s b h inside (inr there) = elsewhere s b h inside λ e. cc

    grown-Extends : is_valid (k.memory a) ≡ false → Extends k grown a
    grown-Extends missing = record {
      same = kept missing;
      used = λ s h. (h.0, ground (arith, refs (index s)));
    }

    grown-LeadsTo : is_valid (k.memory a) ≡ false → LeadsTo k grown a pa
    grown-LeadsTo h = record {
      valid = ap is_valid here ∙ fields.1;
      leads = ap ppn_to_addr here ∙ fields.0;
      origin = inr (h, unused, λ o l. ground (arith, out_of_page t a u in_table));
      in_use = (unused.0, ground (arith, refs (index pa)));
    }

    grown-IsAllocator : (rest : List ℕ) → IsAllocator i rest → IsAllocator grown rest
    grown-IsAllocator rest w = IsAllocator-memory i grown.memory rest w (λ f hf h. elsewhere f hf h)
      where
        elsewhere : (f : ℕ) → IsFrame f → i.frame_refs (index f) ≡ 0 → grown.memory f ≡ i.memory f
        elsewhere f hf h = ground (arith, refs (index f), refs (index t), apart t u)

  Descends-alloc :
      is_valid (k.memory a) ≡ false
      → Allocates k free (alloc_frame k)
      → Descends k free a (add_table a k)
  unfolding add_table
  Descends-alloc h (inl (empty, full, e)) = inl (empty, full, rw e refl)
  Descends-alloc h (inr (pa, rest, i, e, unused, handed, w, out, up)) = inr (
    pa,
    grown pa i unused handed,
    rest,
    rw e (ground (arith, fields pa i unused handed)),
    grown-IsAllocator pa i unused handed rest w,
    grown-Extends pa i unused handed h,
    grown-LeadsTo pa i unused handed h,
  )

  -- One level of `walk`, where a table that is there is in use.
  pub descend-Descends :
      (is_valid (k.memory a) ≡ true → InUse k (ppn_to_addr (k.memory a)))
      → Descends k free a (descend t idx k)
  unfolding descend entry_at
  descend-Descends old = elim (Bool-cases (is_valid (k.memory a))) [
    | inr missing ↦ rw missing (Descends-alloc missing (alloc_frame-Allocates k free v))
    | inl there ↦ rw there (
        inr (
          ppn_to_addr (k.memory a),
          k,
          free,
          refl,
          v,
          record { same = λ s b h inside out. refl; used = λ s h. h },
          record {
            valid = there;
            leads = refl;
            origin = inl (there, refl, refl);
            in_use = old there;
          },
        ))
  ]
