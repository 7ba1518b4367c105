-- ===== src/Syscall/NewPage.antt =====
-- One round of `map_zeroed_user_pages` of kernel/src/syscall.rs: a new page.
use unit.Base.{
  ℕ, ◌≡◌, Bool, true, false, Bool-cases, inl, inr, ◌⊎◌, List, Option, none, some, arith, refl, ap,
  ◌∙◌, if◌then◌else◌,
}
use mathlib.Core.Path.{subst}
use unit.Frame.{alloc_frame, free_frame}
use unit.Frame.Alloc.{Allocates, IsUnused, Handed, alloc_frame-Allocates}
use unit.Frame.FreeList.{index, IsFrame, IsAllocator, IsAllocator-memory}
use unit.Kernel.{Kernel, Outcome, returns, panics, and_then, pure, within, ◌>>◌}
use unit.Kernel.Steady.{SameTasks, Steady, Steady-next, Steady-trans, SameTasks-trans}
use unit.PageTable.Defs.{PageTable}
use unit.PageTable.Entry.{new_leaf, is_valid}
use unit.PageTable.Walk.{lookup, follow, entry_at, map}
use unit.PageTable.Walk.Descend.{InUse}
use unit.PageTable.Walk.Mapping.{root_entry, middle_entry, vpn0-bound, vpn1-bound, vpn2-bound}
use unit.PageTable.Walk.Translation.{same_page, Updates, map_leaf-Updates}
use unit.PageTable.Walk.Tree.{
  leaf, IsTree, IsTree-SameTables, SameTables, in_force, translate, translate-SameTables,
}
use unit.Syscall.Steady.{unmap_user_pages-IsSteady}
use unit.PageTable.Steady.{map-IsSteady}
use unit.Frame.Steady.{alloc_frame-IsSteady, free_frame-IsSteady}
use unit.Syscall.Break.{IsCurrent, current-IsCurrent}
use unit.Syscall.Pages.{roll_back, unmap_user_pages, is_mapped, map_zeroed_page, map_page}
use unit.Task.Process.{Process}

-- The page tables `pt` and the allocator are well formed.
abbrev pub AreSound : Kernel → PageTable → Type 0
AreSound k pt = IsTree k pt × (free : List ℕ) × IsAllocator k free

-- `is_mapped` changes nothing, and a page that it does not find has no entry in force.
is_mapped_lem :
    (k : Kernel) (p : Process) (va : ℕ)
    → IsCurrent k p
    → (b : Bool) × (is_mapped va k ≡ returns b k) × (b ≡ false → translate k p.page_table va ≡ none)
unfolding is_mapped lookup follow entry_at translate
is_mapped_lem k p va at =
    let pt = p.page_table in
    rw (current-IsCurrent k p at) (elim (Bool-cases (is_valid (k.memory (root_entry pt va)))) [
      | inr no_middle ↦ rw no_middle (false, refl, λ h. refl)
      | inl m ↦ rw m (elim (Bool-cases (is_valid (k.memory (middle_entry k pt va)))) [
        | inr no_last ↦ rw no_last (false, refl, λ h. refl)
        | inl l ↦ rw l (is_valid (k.memory (leaf k pt va)), refl, λ h. rw h refl)
      ])
    ])

-- A frame that nobody referenced may be handed out and cleared.
module _ (k : Kernel) (pt : PageTable) (pa : ℕ) (i : Kernel) (unused : IsUnused k pa)
    (handed : Handed k pa i) where
  abbrev pub cleared : Kernel
  cleared = record i { memory = λ b. if within pa 4096 b then 0 else i.memory b }

  word_kept : (s b : ℕ) → InUse k s → within s 4096 b ≡ true → cleared.memory b ≡ k.memory b
  word_kept s b u inside = ground (arith, ap (λ (m : ℕ → ℕ). m b) handed.1)

  still_in_use : (s : ℕ) → InUse k s → InUse cleared s
  still_in_use s u = (u.0, ground (arith, ap (λ (r : ℕ → ℕ). r (index s)) handed.0))

  module _ (t : IsTree k pt) where
    cleared-SameTables : (vb : ℕ) → SameTables k cleared pt vb
    cleared-SameTables vb =
        let p = t.path vb in
        record {
          root_word = word_kept pt.root (root_entry pt vb) p.root (ground (arith, vpn2-bound vb));
          middle_word = λ h.
              let s = p.second h in
              word_kept _ (middle_entry k pt vb) s.0 (ground (arith, vpn1-bound vb));
        }

    cleared-IsTree : IsTree cleared pt
    cleared-IsTree = IsTree-SameTables k cleared pt cleared-SameTables still_in_use t

    cleared-translate : (vb : ℕ) → translate cleared pt vb ≡ translate k pt vb
    cleared-translate vb = translate-SameTables k cleared pt vb (cleared-SameTables vb) (λ h.
        let s = (t.path vb).third h.0 h.1 in
        word_kept _ (leaf k pt vb) s.0 (ground (arith, vpn0-bound vb)))

  cleared-IsAllocator : (rest : List ℕ) → IsAllocator i rest → IsAllocator cleared rest
  cleared-IsAllocator rest v = IsAllocator-memory i cleared.memory rest v (λ f hf h. apart f hf h)
    where
      apart : (f : ℕ) → IsFrame f → i.frame_refs (index f) ≡ 0 → cleared.memory f ≡ i.memory f
      apart f hf h = ground (arith, ap (λ (r : ℕ → ℕ). r (index f)) handed.0)

run-SameTasks :
    {A : Type 0} (k j : Kernel) (a : A) (o : Outcome A)
    → o ≡ returns a j
    → Steady k o
    → SameTasks k j
run-SameTasks k j a o e s = subst (λ x. Steady k x) e s

-- How a round ends: with a panic, a failure that changes no process, or a new entry for the page, that leads
-- to a frame of its own.
abbrev pub AddsPage : Kernel → Process → ℕ → ℕ → Outcome Bool → Type 0
AddsPage k p va flags o =
    (o ≡ panics)
    ⊎ ((j : Kernel) × (o ≡ returns false j) × SameTasks k j)
    ⊎ ((j : Kernel) × (frame : ℕ) × (o ≡ returns true j)
        × SameTasks k j
        × AreSound j p.page_table
        × IsFrame frame
        × (translate k p.page_table va ≡ none)
        × ((vb : ℕ)
            → translate j p.page_table vb ≡ (
                if same_page va vb
                then in_force (new_leaf frame flags)
                else translate k p.page_table vb)))

module _ (k : Kernel) (p : Process) (start va flags : ℕ) (at : IsCurrent k p) where
  AddsPage-roll_back : (j : Kernel) → SameTasks k j → AddsPage k p va flags (roll_back start va j)
  AddsPage-roll_back j s =
      Steady-next (AddsPage k p va flags) k (unmap_user_pages start va j) (λ _. pure false)
        (Steady-trans k j (unmap_user_pages start va j) s
          ((unmap_user_pages-IsSteady start va).run j))
        (inl refl) (λ _ i s'. inr (inl (i, refl, s')))

  module _ (t : IsTree k p.page_table) (new : translate k p.page_table va ≡ none) where
    -- From the state `c` with the new frame cleared.
    AddsPage-mapped :
        (c : Kernel) (frame : ℕ) (o : Outcome Bool)
        → SameTasks k c
        → IsFrame frame
        → ((vb : ℕ) → translate c p.page_table vb ≡ translate k p.page_table vb)
        → Steady c o
        → Updates c p.page_table va (new_leaf frame flags) false true o
        → AddsPage k p va flags (
            and_then o
              (λ done. if done then pure true else (free_frame frame >> roll_back start va)))
    AddsPage-mapped c frame o s f same run (inl (j, e, v, full, t', kept)) =
        let s' = SameTasks-trans k c j s (run-SameTasks c j false o e run) in
        rw e (
          Steady-next (AddsPage k p va flags) k (free_frame frame j) (λ _. roll_back start va)
            (Steady-trans k j (free_frame frame j) s' ((free_frame-IsSteady frame).run j))
            (inl refl) (λ _ i s''. AddsPage-roll_back i s''))
    AddsPage-mapped c frame o s f same run (inr (j, free, e, v, t', update)) =
        let s' = SameTasks-trans k c j s (run-SameTasks c j true o e run) in
        rw e (
          inr (
            inr (
              j,
              frame,
              refl,
              s',
              (t', free, v),
              f,
              new,
              λ vb.
                  update vb
                  ∙ ap
                      (λ (r : Option ℕ).
                        if same_page va vb then in_force (new_leaf frame flags) else r)
                      (same vb),
            )))

    AddsPage-alloc :
        (free : List ℕ)
        → Allocates k free (alloc_frame k)
        → AddsPage k p va flags (map_zeroed_page start va flags k)
    unfolding map_zeroed_page
    AddsPage-alloc free (inl (none_free, full, e)) =
        rw e (AddsPage-roll_back k (refl, refl, refl, refl))
    AddsPage-alloc free (inr (frame, rest, i, e, unused, handed, w, out, up)) =
        let c = cleared k p.page_table frame i unused handed in
        let s = run-SameTasks k i (some frame) (alloc_frame k) e (alloc_frame-IsSteady.run k) in
        rw (e, current-IsCurrent c p (ground (arith, s)))
          (AddsPage-mapped c frame (map p.page_table va frame flags c) s unused.0
            (cleared-translate k p.page_table frame i unused handed t)
            ((map-IsSteady p.page_table va frame flags).run c)
            (unfold map in
              map_leaf-Updates c p.page_table va frame flags false rest
                (cleared-IsTree k p.page_table frame i unused handed t)
                (cleared-IsAllocator k p.page_table frame i unused handed rest w)))

  pub AddsPage-map_page :
      AreSound k p.page_table → AddsPage k p va flags (map_page start va flags k)
  unfolding map_page
  AddsPage-map_page (t, free, v) =
      let (b, e, absent) = is_mapped_lem k p va at in
      rw e (elim (Bool-cases b) [
        | inl there ↦ rw there (AddsPage-roll_back k (refl, refl, refl, refl))
        | inr fresh ↦
            rw fresh (AddsPage-alloc t (absent fresh) free (alloc_frame-Allocates k free v))
      ])
