-- ===== src/PageTable/Defs.antt =====
-- `PageTable` of kernel/src/mm/page_table.rs. The allocator that it stores is `alloc_frame` wherever
-- the program makes one, so the root is its only content.
use unit.Base.{ℕ}

pub record PageTable : Type 0 where
  pub root : ℕ
