-- ===== src/PageTable/Steady.antt =====
-- The walks of kernel/src/mm/page_table.rs leave the processes alone.
use unit.Base.{ℕ, Bool}
use unit.Kernel.{Cmd}
use unit.Kernel.Steady.{
  IsSteady, steady, bind-IsSteady, pure-IsSteady, elim-IsSteady, for_range-IsSteady,
}
use unit.Frame.Steady.{alloc_frame-IsSteady}
use unit.PageTable.Defs.{PageTable}
use unit.PageTable.Walk.{
  add_table, descend, walk, follow, lookup, write_leaf, map_leaf, map, map_cow, unmap, visit_l1,
  visit_l2, visit_root, for_each_leaf,
}

add_table-IsSteady : (entry : ℕ) → IsSteady (add_table entry)
unfolding add_table
add_table-IsSteady entry = search (steady, alloc_frame-IsSteady) depth 14

descend-IsSteady : (table_addr idx : ℕ) → IsSteady (descend table_addr idx)
unfolding descend
descend-IsSteady table_addr idx = search (steady, add_table-IsSteady) depth 14

walk-IsSteady : (pt : PageTable) (vaddr : ℕ) → IsSteady (walk pt vaddr)
unfolding walk
walk-IsSteady pt vaddr = search (steady, descend-IsSteady) depth 14

follow-IsSteady : (table_addr idx : ℕ) → IsSteady (follow table_addr idx)
unfolding follow
follow-IsSteady table_addr idx = search steady depth 14

pub lookup-IsSteady : (pt : PageTable) (vaddr : ℕ) → IsSteady (lookup pt vaddr)
unfolding lookup
lookup-IsSteady pt vaddr = search (steady, follow-IsSteady) depth 14

write_leaf-IsSteady : (entry paddr f : ℕ) (cow : Bool) → IsSteady (write_leaf entry paddr f cow)
unfolding write_leaf
write_leaf-IsSteady entry paddr f cow = search steady depth 14

map_leaf-IsSteady :
    (pt : PageTable) (vaddr paddr f : ℕ) (cow : Bool) → IsSteady (map_leaf pt vaddr paddr f cow)
unfolding map_leaf
map_leaf-IsSteady pt vaddr paddr f cow =
    bind-IsSteady (walk-IsSteady pt vaddr)
      λ found. elim-IsSteady found pure-IsSteady (λ entry. search (steady, write_leaf-IsSteady))

pub map-IsSteady : (pt : PageTable) (vaddr paddr f : ℕ) → IsSteady (map pt vaddr paddr f)
unfolding map
map-IsSteady pt vaddr paddr f = search map_leaf-IsSteady

pub map_cow-IsSteady : (pt : PageTable) (vaddr paddr f : ℕ) → IsSteady (map_cow pt vaddr paddr f)
unfolding map_cow
map_cow-IsSteady pt vaddr paddr f = search map_leaf-IsSteady

pub unmap-IsSteady : (pt : PageTable) (vaddr : ℕ) → IsSteady (unmap pt vaddr)
unfolding unmap
unmap-IsSteady pt vaddr =
    bind-IsSteady (walk-IsSteady pt vaddr)
      λ found. elim-IsSteady found pure-IsSteady (λ entry. search steady)

module _ (callback : ℕ → ℕ → Cmd (Unit {0}))
    (h : (vaddr entry : ℕ) → IsSteady (callback vaddr entry)) where
  visit_l1-IsSteady : (v2 v1 l1_addr v0 : ℕ) → IsSteady (visit_l1 callback v2 v1 l1_addr v0)
  unfolding visit_l1
  visit_l1-IsSteady v2 v1 l1_addr v0 = search (steady, h) depth 14

  visit_l2-IsSteady : (v2 l2_addr v1 : ℕ) → IsSteady (visit_l2 callback v2 l2_addr v1)
  unfolding visit_l2
  visit_l2-IsSteady v2 l2_addr v1 = search (steady, h, visit_l1-IsSteady) depth 14

  visit_root-IsSteady : (pt : PageTable) (v2 : ℕ) → IsSteady (visit_root callback pt v2)
  unfolding visit_root
  visit_root-IsSteady pt v2 = search (steady, visit_l2-IsSteady) depth 14

  -- The walk over all leaves, if its callback does so.
  pub for_each_leaf-IsSteady :
      (pt : PageTable) (vpn2_min vpn2_max : ℕ)
      → IsSteady (for_each_leaf callback pt vpn2_min vpn2_max)
  unfolding for_each_leaf
  for_each_leaf-IsSteady pt vpn2_min vpn2_max = for_range-IsSteady _ _ (visit_root-IsSteady pt)
