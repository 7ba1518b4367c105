-- ===== src/PageTable/Walk/Walking.antt =====
-- `walk` of kernel/src/mm/page_table.rs, down to the entry of a page.
use unit.Base.{
  ℕ, ◌≤◌, ◌+◌, ◌*◌, ◌≡◌, inl, inr, ◌⊎◌, List, [], Option, none, some, refl, ap, ◌∙◌, sym,
}
use unit.Frame.{ram_end}
use unit.Frame.FreeList.{IsAllocator}
use unit.Kernel.{Kernel, Outcome, returns, and_then, pure, try, ◌>>=◌}
use unit.PageTable.Defs.{PageTable}
use unit.PageTable.Walk.{entry_at, vpn0, vpn1, vpn2, descend, walk}
use unit.PageTable.Walk.Descend.{Descends, descend-Descends}
use unit.PageTable.Walk.Mapping.{root_entry, middle, middle_entry, vpn1-bound, vpn2-bound}
use unit.PageTable.Walk.NewLast.{NewLast-IsTree, NewLast-translate, NewLast-HasTables}
use unit.PageTable.Walk.NewMiddle.{NewMiddle-IsTree, NewMiddle-translate}
use unit.PageTable.Walk.Tree.{last, leaf, HasTables, HasMiddle, IsTree, translate}

-- How `walk` ends: without an entry, as no frame was left for a table, or with that of the page, behind
-- tables that are there. Neither changes what the tables mean.
abbrev pub Walks : Kernel → PageTable → ℕ → Outcome (Option ℕ) → Type 0
Walks k pt va o =
    ((j : Kernel) × (o ≡ returns none j)
      × IsAllocator j []
      × (ram_end ≤ j.next_frame)
      × IsTree j pt
      × ((vb : ℕ) → translate j pt vb ≡ translate k pt vb))
    ⊎ ((j : Kernel) × (free : List ℕ) × (o ≡ returns (some (leaf j pt va)) j)
        × IsAllocator j free
        × IsTree j pt
        × HasTables j pt va
        × ((vb : ℕ) → translate j pt vb ≡ translate k pt vb))

Walks-before :
    (k i : Kernel) (pt : PageTable) (va : ℕ) (o : Outcome (Option ℕ))
    → ((vb : ℕ) → translate i pt vb ≡ translate k pt vb)
    → Walks i pt va o
    → Walks k pt va o
Walks-before k i pt va o same (inl (j, e, v, full, t, after)) =
    inl (j, e, v, full, t, λ vb. after vb ∙ same vb)
Walks-before k i pt va o same (inr (j, free, e, v, t, h, after)) =
    inr (j, free, e, v, t, h, λ vb. after vb ∙ same vb)

Walks-last :
    (k : Kernel) (pt : PageTable) (va : ℕ) (free : List ℕ) (o : Outcome (Option ℕ))
    → IsTree k pt
    → HasMiddle k pt va
    → IsAllocator k free
    → Descends k free (middle_entry k pt va) o
    → Walks k pt va (and_then o (λ t0. try t0 (λ table0. pure (some (entry_at table0 (vpn0 va))))))
unfolding entry_at
Walks-last k pt va free o t m v (inl (empty, full, e)) =
    inl (k, rw e refl, rw (← empty) v, full, t, λ vb. refl)
Walks-last k pt va free o t m v (inr (n0, j0, rest, e, w, x0, l0)) = elim l0.origin [
  | inl (there, leads, same) ↦
      let found : o ≡ returns (some (last k pt va)) k = cc in
      inr (k, rest, rw found refl, rw (← same) w, t, (m, there), λ vb. refl)
  | inr (missing, unused, zeroed) ↦
      let h =
        NewLast-HasTables k j0 pt va n0 t m x0 missing l0.leads unused.1 zeroed l0.in_use
          l0.valid in
      inr (
        j0,
        rest,
        rw e (ap (λ (s : ℕ). returns (some (s + vpn0 va * 8)) j0) (sym h.1)),
        w,
        NewLast-IsTree k j0 pt va n0 t m x0 missing l0.leads unused.1 zeroed l0.in_use,
        h.0,
        NewLast-translate k j0 pt va n0 t m x0 missing l0.leads unused.1 zeroed l0.in_use,
      )
]

-- The second level, from a root entry that leads to a table.
Walks-middle :
    (k : Kernel) (pt : PageTable) (va : ℕ) (free : List ℕ)
    → IsTree k pt
    → HasMiddle k pt va
    → IsAllocator k free
    → Walks k pt va (
        and_then
          (descend (middle k pt va) (vpn1 va) k)
          (λ t0. try t0 (λ table0. pure (some (entry_at table0 (vpn0 va))))))
Walks-middle k pt va free t m v =
    let p = t.path va in
    Walks-last k pt va free _ t m v (
      descend-Descends k free v (middle k pt va) (vpn1 va) (p.second m).0 (vpn1-bound va)
        (λ h. (p.third m h).0))

Walks-root :
    (k : Kernel) (pt : PageTable) (va : ℕ) (free : List ℕ) (o : Outcome (Option ℕ))
    → IsTree k pt
    → IsAllocator k free
    → Descends k free (root_entry pt va) o
    → Walks k pt va (
        and_then o (λ t1. try t1 (λ table1. descend table1 (vpn1 va) >>= λ t0.
        try t0 (λ table0. pure (some (entry_at table0 (vpn0 va)))))))
Walks-root k pt va free o t v (inl (empty, full, e)) =
    inl (k, rw e refl, rw (← empty) v, full, t, λ vb. refl)
Walks-root k pt va free o t v (inr (n1, j1, rest, e, w, x1, l1)) = elim l1.origin [
  | inl (there, leads, same) ↦
      let found : o ≡ returns (some (middle k pt va)) k = cc in
      rw found (Walks-middle k pt va rest t there (rw (← same) w))
  | inr (missing, unused, zeroed) ↦
      let found : o ≡ returns (some (middle j1 pt va)) j1 =
        e ∙ ap (λ (s : ℕ). returns (some s) j1) (sym l1.leads) in
      rw found (
        Walks-before k j1 pt va _
          (NewMiddle-translate k j1 pt va n1 t x1 missing l1.leads unused.1 zeroed l1.in_use)
          (Walks-middle j1 pt va rest
            (NewMiddle-IsTree k j1 pt va n1 t x1 missing l1.leads unused.1 zeroed l1.in_use)
            l1.valid w))
]

pub walk-Walks :
    (k : Kernel) (pt : PageTable) (va : ℕ) (free : List ℕ)
    → IsTree k pt
    → IsAllocator k free
    → Walks k pt va (walk pt va k)
unfolding walk
walk-Walks k pt va free t v =
    let p = t.path va in
    Walks-root k pt va free (descend pt.root (vpn2 va) k) t v
      (descend-Descends k free v pt.root (vpn2 va) p.root (vpn2-bound va) (λ h. (p.second h).0))
