-- ===== src/Examples/Traps.antt =====
-- The theorems on page-table entries and write faults (kernel/src/mm/page_table.rs and
-- kernel/src/trap.rs), on the sample state.
use unit.Base.{ℕ, ◌<◌, ◌+◌, ◌≡◌, ◌^◌, refl, [], ◌∷◌, arith}
use unit.Kernel.{Kernel, returns}
use unit.PageTable.Entry.{ppn_to_addr}
use unit.Trap.Cow.{handle_cow_fault}
use unit.Frame.FreeList.{index, IsFrame}
use unit.Frame.Refs.{IsUsed}
use unit.Trap.Cow.Laws.{
  Unshares, OutsideUnused, IsClaimed, OneWord, handle_cow_fault_unique, handle_cow_fault-Unshares,
}
use unit.Examples.Data.{
  sample, sample-IsAllocator, page_free, page_shared, page_tables, page_shared-IsFrame,
  page_shared-IsUsed, shared_entry,
}

-- The page that the entry leads to.
shared_page : ppn_to_addr (sample.memory page_tables) ≡ page_shared
unfolding ppn_to_addr
shared_page = refl

shared_page-IsUsed : IsUsed sample (ppn_to_addr (sample.memory page_tables))
shared_page-IsUsed = rw shared_page page_shared-IsUsed

shared_page_many : 1 < sample.frame_refs (index (ppn_to_addr (sample.memory page_tables)))
shared_page_many = rw shared_page (omega arith)

shared_page_few : sample.frame_refs (index (ppn_to_addr (sample.memory page_tables))) < 2 ^ 32
shared_page_few = rw shared_page (omega arith)

table-OutsideUnused : OutsideUnused sample page_tables
table-OutsideUnused pa u = ground arith

handle_cow_fault-Unshares_example :
    Unshares page_tables sample
      (page_free ∷ [])
      sample-IsAllocator
      shared_page-IsUsed
      shared_page_many
      shared_page_few
      table-OutsideUnused
      (handle_cow_fault 0x1_0000 page_tables sample)
handle_cow_fault-Unshares_example =
    handle_cow_fault-Unshares page_tables sample (page_free ∷ []) sample-IsAllocator
      shared_page-IsUsed shared_page_many shared_page_few table-OutsideUnused 0x1_0000

-- The same with one user of the page.
abbrev alone : Kernel
alone = record sample { frame_refs = λ i. 1 }

alone_page : IsFrame (ppn_to_addr (alone.memory page_tables))
alone_page = rw shared_page page_shared-IsFrame

handle_cow_fault_unique_example :
    (j : Kernel) × (handle_cow_fault 0x1_0000 page_tables alone ≡ returns tt j)
    × IsClaimed shared_entry (j.memory page_tables)
    × OneWord alone page_tables j
handle_cow_fault_unique_example =
    handle_cow_fault_unique 0x1_0000 page_tables alone (omega arith) alone_page (omega arith)

-- A private page that may be read and written.
abbrev private_entry : ℕ
private_entry = 0x2000_0000 + 23
