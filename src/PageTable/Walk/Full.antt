-- ===== src/PageTable/Walk/Full.antt =====
-- Mapping a page when no frame is left (kernel/src/mm/page_table.rs): nothing but the memory changes.
use unit.Base.{ℕ, ◌≤◌, ◌≡◌, Bool, Bool-cases, inl, inr, true, false, [], Option, none, some, refl}
use unit.Frame.{ram_end}
use unit.Frame.Alloc.{alloc_frame-full}
use unit.Frame.FreeList.{IsAllocator}
use unit.Kernel.{Kernel, Cmd, Outcome, returns, update, and_then, pure, try, ◌>>=◌, ◌>>◌}
use unit.PageTable.Defs.{PageTable}
use unit.PageTable.Entry.{is_valid, new_leaf}
use unit.PageTable.Walk.{
  entry_at, vpn0, vpn1, vpn2, add_table, descend, walk, write_leaf, map_leaf, map,
}

-- No frame is free, and none lies above the mark.
abbrev pub IsFull : Kernel → Type 0
IsFull k = IsAllocator k [] × (ram_end ≤ k.next_frame)

module _ (k : Kernel) (full : IsFull k) where
  descend_full : (table idx : ℕ) → (found : Option ℕ) × (descend table idx k ≡ returns found k)
  unfolding descend add_table
  descend_full table idx = elim (Bool-cases (is_valid (k.memory (entry_at table idx)))) [
    | inl there ↦ rw there (_, refl)
    | inr missing ↦ rw (missing, alloc_frame-full k full.0 full.1) (none, refl)
  ]

  last_full :
      (va : ℕ) (found : Option ℕ) (o : Outcome (Option ℕ))
      → o ≡ returns found k
      → (r : Option ℕ) × (and_then o
            (λ t0. try t0 (λ table0. pure (some (entry_at table0 (vpn0 va)))))
          ≡ returns r k)
  last_full va none o e = (none, rw e refl)
  last_full va (some table) o e = (some (entry_at table (vpn0 va)), rw e refl)

  middle_full :
      (va : ℕ) (found : Option ℕ) (o : Outcome (Option ℕ))
      → o ≡ returns found k
      → (r : Option ℕ) × (and_then o (λ t1. try t1 (λ table1. descend table1 (vpn1 va) >>= λ t0.
            try t0 (λ table0. pure (some (entry_at table0 (vpn0 va))))))
          ≡ returns r k)
  middle_full va none o e = (none, rw e refl)
  middle_full va (some table) o e =
      let d = descend_full table (vpn1 va) in
      rw e (last_full va d.0 (descend table (vpn1 va) k) d.1)

  walk_full : (pt : PageTable) (va : ℕ) → (found : Option ℕ) × (walk pt va k ≡ returns found k)
  unfolding walk
  walk_full pt va =
      let d = descend_full pt.root (vpn2 va) in middle_full va d.0 (descend pt.root (vpn2 va) k) d.1

  leaf_full :
      (pa f : ℕ) (found : Option ℕ) (o : Outcome (Option ℕ))
      → o ≡ returns found k
      → (done : Bool) × (memory : ℕ → ℕ) × (and_then o (λ found. elim found as (λ x. Cmd Bool) [
        | none ↦ pure false
        | some entry ↦ do write_leaf entry pa f false; pure true
      ])
          ≡ returns done (record k { memory = memory }))
  unfolding write_leaf
  leaf_full pa f none o e = (false, k.memory, rw e refl)
  leaf_full pa f (some entry) o e = (true, update k.memory entry (new_leaf pa f), rw e refl)

  pub map_full :
      (pt : PageTable) (va pa f : ℕ)
      → (done : Bool) × (memory : ℕ → ℕ) × (map pt va pa f k
          ≡ returns done (record k { memory = memory }))
  unfolding map map_leaf
  map_full pt va pa f = let w = walk_full pt va in leaf_full pa f w.0 (walk pt va k) w.1
