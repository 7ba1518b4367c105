-- ===== src/Syscall/Backing.antt =====
-- The pages that `map_zeroed_user_pages` of kernel/src/syscall.rs puts into the page table.
use unit.Base.{
  ℕ, zero, suc, ◌+◌, ◌-◌, ◌/◌, ◌%◌, ◌^◌, ◌<◌, ◌≤◌, ◌≡◌, ◌==◌, Bool, true, false, inl, inr, ◌⊎◌,
  none, arith, refl, ◌∙◌, sym, if◌then◌else◌, ltb, usize_end, dec_lt,
}
use mathlib.Core.Path.{subst}
use unit.Frame.FreeList.{IsFrame}
use unit.Kernel.{Kernel, Cmd, Outcome, returns, panics, and_then, pure, add_usize, ◌>>=◌}
use unit.Kernel.Steady.{SameTasks, SameTasks-trans}
use unit.PageTable.Defs.{PageTable}
use unit.PageTable.Entry.{new_leaf}
use unit.PageTable.Walk.Pages.{same_page-floor}
use unit.PageTable.Walk.Translation.{same_page, translate-SamePage}
use unit.PageTable.Walk.Tree.{in_force, translate, SamePage}
use unit.Syscall.Break.{IsCurrent}
use unit.Syscall.Pages.{map_page, map_loop, map_zeroed_user_pages, page_rounds}
use unit.Task.Process.{Process}
use unit.Syscall.NewPage.{AreSound, AddsPage, AddsPage-map_page}

same_page_low : (va a : ℕ) → va < 2 ^ 39 → a < 2 ^ 39 → same_page va a ≡ (va / 4096 == a / 4096)
same_page_low va a hv ha = same_page-floor va a ∙ ground arith

same_page-SamePage : (va a : ℕ) → same_page va a ≡ true → SamePage va a
same_page-SamePage va a h = (ground arith, ground arith, ground arith)

-- In `j` the pages from `start` to `end` lead to frames of RAM with the flags, and had no entry in force in
-- `k`; all others have the entry that they have in `k`, or none as there.
abbrev pub AreBacked : Kernel → Kernel → PageTable → ℕ → ℕ → ℕ → Type 0
AreBacked k j pt start end flags =
    ((a : ℕ)
      → start ≤ a
      → a < end
      → (translate k pt a ≡ none)
        × (frame : ℕ) × IsFrame frame
        × (translate j pt a ≡ in_force (new_leaf frame flags)))
    × ((a : ℕ) → (a < start) ⊎ (end ≤ a) → a < 2 ^ 39 → translate j pt a ≡ translate k pt a)

-- One more page.
module _ (k i j : Kernel) (pt : PageTable) (start va flags frame : ℕ) (al : va % 4096 ≡ 0)
    (above : start ≤ va) (low : va + 4096 ≤ 2 ^ 39) (f : IsFrame frame)
    (absent : translate i pt va ≡ none)
    (update : (vb : ℕ)
      → translate j pt vb
        ≡ (if same_page va vb then in_force (new_leaf frame flags) else translate i pt vb))
    (b : AreBacked k i pt start va flags) where
  other_page :
      (a : ℕ) → a < 2 ^ 39 → (a < va) ⊎ (va + 4096 ≤ a) → translate j pt a ≡ translate i pt a
  other_page a h out =
      let apart : same_page va a ≡ false =
        same_page_low va a (omega arith) h ∙ ground (arith, out) in
      update a ∙ rw apart refl

  this_page : (a : ℕ) → va ≤ a → a < va + 4096 → same_page va a ≡ true
  this_page a lo hi = same_page_low va a (omega arith) (omega arith) ∙ ground arith

  backed_page :
      (a : ℕ)
      → start ≤ a
      → a < va + 4096
      → (translate k pt a ≡ none)
        × (frame : ℕ) × IsFrame frame
        × (translate j pt a ≡ in_force (new_leaf frame flags))
  backed_page a lo hi = elim (dec_lt a va) [
    | yes before ↦
        let (was, old, g, e) = b.0 a lo before in
        (was, old, g, other_page a (omega arith) (inl before) ∙ e)
    | no here ↦
        let same = this_page a (omega arith) hi in
        (
          sym (b.1 a (inr (omega arith)) (omega arith))
              ∙ translate-SamePage i pt va a (same_page-SamePage va a same)
              ∙ absent,
          frame,
          f,
          update a ∙ rw same refl,
        )
  ]

  pub AreBacked-more : AreBacked k j pt start (va + 4096) flags
  AreBacked-more = (backed_page, λ a out h. other_page a h (beside a out) ∙ b.1 a (outside a out) h)
    where
      beside : (a : ℕ) → (a < start) ⊎ (va + 4096 ≤ a) → (a < va) ⊎ (va + 4096 ≤ a)
      beside a (inl below) = inl (omega arith)
      beside a (inr over) = inr over

      outside : (a : ℕ) → (a < start) ⊎ (va + 4096 ≤ a) → (a < start) ⊎ (va ≤ a)
      outside a (inl below) = inl below
      outside a (inr over) = inr (omega arith)

-- How the loop ends: with a panic, a failure that changes no process, or all pages of the range.
abbrev pub Backs : Kernel → Process → ℕ → ℕ → ℕ → Outcome Bool → Type 0
Backs k p start end flags o =
    (o ≡ panics)
    ⊎ ((j : Kernel) × (o ≡ returns false j) × SameTasks k j)
    ⊎ ((j : Kernel) × (o ≡ returns true j)
        × SameTasks k j
        × AreSound j p.page_table
        × AreBacked k j p.page_table start end flags)

module _ (k : Kernel) (p : Process) (start end flags : ℕ) (at : IsCurrent k p)
    (ale : end % 4096 ≡ 0) (low : end ≤ 2 ^ 39) where
  -- What a round leads to, if the loop goes on with `rest`.
  Backs-round :
      (va : ℕ) (i : Kernel) (rest : ℕ → Cmd Bool) (o : Outcome Bool)
      → va % 4096 ≡ 0
      → start ≤ va
      → va < end
      → SameTasks k i
      → AreBacked k i p.page_table start va flags
      → ((j : Kernel)
          → SameTasks k j
          → AreSound j p.page_table
          → AreBacked k j p.page_table start (va + 4096) flags
          → Backs k p start end flags (rest (va + 4096) j))
      → AddsPage i p va flags o
      → Backs k p start end flags
          (and_then o (λ done. if done then (add_usize va 4096 >>= rest) else pure false))
  Backs-round va i rest o al above more s b next (inl e) = rw e (inl refl)
  Backs-round va i rest o al above more s b next (inr (inl (j, e, t))) =
      rw e (inr (inl (j, refl, SameTasks-trans k i j s t)))
  Backs-round va i rest o al above more s b next
        (inr (inr (j, frame, e, t, sound, f, absent, update))) =
      let fits : ltb (va + 4096) usize_end ≡ true = ground arith in
      rw (e, fits)
        (next j (SameTasks-trans k i j s t) sound (
          AreBacked-more k i j p.page_table start va flags frame al above (omega arith) f absent
            update b))

  -- The loop from `va` on, in the state `i`.
  map_loop-Backs :
      (n va : ℕ) (i : Kernel)
      → (end - va + 4095) / 4096 < n
      → va % 4096 ≡ 0
      → start ≤ va
      → va ≤ end
      → SameTasks k i
      → AreSound i p.page_table
      → AreBacked k i p.page_table start va flags
      → Backs k p start end flags (map_loop n start end flags va i)
  unfolding map_loop
  map_loop-Backs zero va i fuel al above below s sound b = absurd (omega arith)
  map_loop-Backs (suc n) va i fuel al above below s sound b = elim (dec_lt va end) [
    | no out ↦
        let done : ltb va end ≡ false = ground arith in
        let last : va ≡ end = omega arith in
        rw done (
          inr (
            inr (
              i,
              refl,
              s,
              sound,
              subst (λ (t : ℕ). AreBacked k i p.page_table start t flags) last b,
            )))
    | yes more ↦
        let on : ltb va end ≡ true = ground arith in
        rw on (
          Backs-round va i (map_loop n start end flags) (map_page start va flags i) al above more s
            b
            (λ j s' sound' b'.
              map_loop-Backs n (va + 4096) j (omega arith) (omega arith) (omega arith) (omega arith)
                s' sound' b')
            (AddsPage-map_page i p start va flags (ground (arith, s)) sound))
  ]

  pub map_zeroed_user_pages-Backs :
      start % 4096 ≡ 0
      → start ≤ end
      → AreSound k p.page_table
      → Backs k p start end flags (map_zeroed_user_pages start end flags k)
  unfolding map_zeroed_user_pages
  map_zeroed_user_pages-Backs al ordered sound =
      map_loop-Backs (page_rounds start end) start k (omega arith) al (omega arith) ordered
        (refl, refl, refl, refl) sound ((λ a lo hi. absurd (omega arith)), (λ a out h. refl))
