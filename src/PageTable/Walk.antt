-- ===== src/PageTable/Walk.antt =====
-- Walks of a page table in memory: `walk`, `lookup`, `map`, `unmap` and the rest of `PageTable` in
-- kernel/src/mm/page_table.rs. A `&mut PTEntry` is the address of the entry.
pub mod Descend
pub mod Mapping
pub mod Tree
pub mod NewMiddle
pub mod NewLast
pub mod Walking
pub mod Translation
pub mod Full
pub mod Pages
pub mod Identity
pub mod Init
pub mod Canonical
use unit.Base.{
  ℕ, zero, suc, ◌+◌, ◌-◌, ◌*◌, ◌/◌, Bool, true, false, not, ◌&&◌, ◌||◌, Option, none, some,
  if◌then◌else◌, bit_and, bit_or, shl, shr, ltb,
}
use unit.Kernel.{
  Cmd, ◌>>=◌, ◌>>◌, pure, load, store, write_zeros, try, for_range, expect, diverges, add_usize,
}
use unit.Frame.{alloc_frame, ram_size}
use unit.PageTable.Defs.{PageTable}
use unit.PageTable.Flags
use unit.PageTable.Entry.{is_r, is_w, is_x, is_valid, set_cow, new_table, new_leaf, ppn_to_addr}
use unit.PageTable.Entry

abbrev pub kernel_vpn2_min : ℕ
kernel_vpn2_min = 2

-- `PageTable::new`.
abbrev pub new : ℕ → PageTable
new root = record { root = root }

unfoldable pub entry_at : ℕ → ℕ → ℕ
entry_at table_addr idx = table_addr + idx * 8

-- The indices of the three levels.
unfoldable pub vpn0 : ℕ → ℕ
vpn0 vaddr = bit_and (shr vaddr 12) 0x1ff

unfoldable pub vpn1 : ℕ → ℕ
vpn1 vaddr = bit_and (shr vaddr 21) 0x1ff

unfoldable pub vpn2 : ℕ → ℕ
vpn2 vaddr = bit_and (shr vaddr 30) 0x1ff

-- A middle level that is missing: a zeroed frame becomes the next table.
unfoldable pub add_table : ℕ → Cmd (Option ℕ)
add_table entry = do
  page ← alloc_frame
  try page λ new_page. do
    write_zeros new_page 4096
    store entry (new_table new_page)
    e ← load entry
    pure (some (ppn_to_addr e))

-- One round of the loop of `walk`.
unfoldable pub descend : ℕ → ℕ → Cmd (Option ℕ)
unfolding add_table
descend table_addr idx = do
  e ← load (entry_at table_addr idx)
  if is_valid e then pure (some (ppn_to_addr e)) else add_table (entry_at table_addr idx)

unfoldable pub walk : PageTable → ℕ → Cmd (Option ℕ)
unfolding descend
walk pt vaddr = do
  t1 ← descend pt.root (vpn2 vaddr)
  try t1 λ table1. do
    t0 ← descend table1 (vpn1 vaddr)
    try t0 λ table0. pure (some (entry_at table0 (vpn0 vaddr)))

-- One round of the loop of `lookup`.
unfoldable pub follow : ℕ → ℕ → Cmd (Option ℕ)
follow table_addr idx = do
  e ← load (entry_at table_addr idx)
  pure (if is_valid e then some (ppn_to_addr e) else none)

unfoldable pub lookup : PageTable → ℕ → Cmd (Option ℕ)
unfolding follow
lookup pt vaddr = do
  t1 ← follow pt.root (vpn2 vaddr)
  try t1 λ table1. do
    t0 ← follow table1 (vpn1 vaddr)
    try t0 λ table0. pure (some (entry_at table0 (vpn0 vaddr)))

-- `*entry = new_leaf; if cow { entry.set_cow() }`.
unfoldable pub write_leaf : ℕ → ℕ → ℕ → Bool → Cmd (Unit {0})
write_leaf entry paddr f cow = do
  store entry (new_leaf paddr f)
  if cow then (do e ← load entry; store entry (set_cow e)) else pure tt

unfoldable pub map_leaf : PageTable → ℕ → ℕ → ℕ → Bool → Cmd Bool
unfolding walk write_leaf
map_leaf pt vaddr paddr f cow = do
  found ← walk pt vaddr
  elim found [ none ↦ pure false | some entry ↦ do write_leaf entry paddr f cow; pure true ]

unfoldable pub map : PageTable → ℕ → ℕ → ℕ → Cmd Bool
unfolding map_leaf
map pt vaddr paddr f = map_leaf pt vaddr paddr f false

unfoldable pub map_cow : PageTable → ℕ → ℕ → ℕ → Cmd Bool
unfolding map_leaf
map_cow pt vaddr paddr f = map_leaf pt vaddr paddr f true

unfoldable pub unmap : PageTable → ℕ → Cmd (Unit {0})
unfolding walk
unmap pt vaddr = do
  found ← walk pt vaddr
  elim found [ none ↦ pure tt | some entry ↦ store entry Entry.empty ]

unfoldable pub satp_val : PageTable → ℕ
satp_val pt = bit_or (shl 8 60) (shr pt.root 12)

abbrev pub root_addr : PageTable → ℕ
root_addr pt = pt.root

-- `for_each_leaf`: the callback gets the virtual address and the address of the entry, and may
-- change the entry, or any memory, while the loops go on.
module _ (callback : ℕ → ℕ → Cmd (Unit {0})) where
  unfoldable pub visit_l1 : ℕ → ℕ → ℕ → ℕ → Cmd (Unit {0})
  visit_l1 v2 v1 l1_addr v0 = do
    e ← load (entry_at l1_addr v0)
    if not (is_valid e)
        then pure tt
        else if not (is_r e) && not (is_w e) && not (is_x e)
        then pure tt
        else callback (bit_or (bit_or (shl v2 30) (shl v1 21)) (shl v0 12)) (entry_at l1_addr v0)

  unfoldable pub visit_l2 : ℕ → ℕ → ℕ → Cmd (Unit {0})
  unfolding visit_l1
  visit_l2 v2 l2_addr v1 = do
    e ← load (entry_at l2_addr v1)
    if not (is_valid e)
        then pure tt
        else if is_r e || is_w e || is_x e
        then callback (bit_or (shl v2 30) (shl v1 21)) (entry_at l2_addr v1)
        else for_range 512 0 (visit_l1 v2 v1 (ppn_to_addr e))

  unfoldable pub visit_root : PageTable → ℕ → Cmd (Unit {0})
  unfolding visit_l2
  visit_root pt v2 = do
    e ← load (entry_at pt.root v2)
    if not (is_valid e) then pure tt else for_range 512 0 (visit_l2 v2 (ppn_to_addr e))

  unfoldable pub for_each_leaf : PageTable → ℕ → ℕ → Cmd (Unit {0})
  unfolding visit_root
  for_each_leaf pt vpn2_min vpn2_max = for_range (vpn2_max - vpn2_min) vpn2_min (visit_root pt)

-- The loop of `init_kernel`, which ignores what `map` returns; one round for each page of RAM and
-- one to leave.
unfoldable pub map_identity : ℕ → PageTable → ℕ → ℕ → Cmd (Unit {0})
map_identity zero pt pa ram_end k = diverges
map_identity (suc n) pt pa ram_end k =
    let rest = map_identity n pt in
    let body = do
      done ← map pt pa pa (Flags.new true true true false)
      next ← add_usize pa 4096
      rest next ram_end
    in if ltb pa ram_end then body k else pure tt k

unfoldable pub init_kernel : ℕ → Cmd (PageTable × ℕ)
unfolding map_identity satp_val
init_kernel start = do
  frame ← alloc_frame
  root ← expect frame
  write_zeros root 4096
  ram_end ← add_usize start ram_size
  map_identity (ram_size / 4096 + 1) (new root) start ram_end
  pure (new root, satp_val (new root))
