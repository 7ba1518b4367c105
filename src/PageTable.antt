-- ===== src/PageTable.antt =====
-- kernel/src/mm/page_table.rs.
pub mod Defs
pub mod Flags
pub mod Entry
pub mod Walk
pub mod Steady
