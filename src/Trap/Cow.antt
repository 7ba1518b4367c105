-- ===== src/Trap/Cow.antt =====
-- `handle_cow_fault` of kernel/src/trap.rs. `sfence.vma` has no effect in the model, which has no
-- cache of translations.
pub mod Laws
pub mod Steady
use unit.Base.{ℕ, true, ltb, if◌then◌else◌}
use unit.Kernel.{Cmd, ◌>>=◌, ◌>>◌, load, store, copy_words, expect}
use unit.Frame.{get_ref, alloc_frame, dec_ref}
use unit.PageTable.Flags
use unit.PageTable.Entry.{ppn_to_addr, flags, new_leaf, clear_cow, set_w}

-- Shared with another process: a copy in a new frame.
unfoldable pub copy_page : ℕ → ℕ → Cmd (Unit {0})
copy_page entry ppn = do
  frame ← alloc_frame
  new_frame ← expect frame
  copy_words ppn new_frame 4096
  left ← dec_ref ppn
  e ← load entry
  store entry (new_leaf new_frame (Flags.new true true (Flags.is_x (flags e)) true))
  e ← load entry
  store entry (clear_cow e)

-- The only user: writable again, in place.
unfoldable pub claim_page : ℕ → Cmd (Unit {0})
claim_page entry = do
  e ← load entry
  store entry (set_w e true)
  e ← load entry
  store entry (clear_cow e)

unfoldable pub handle_cow_fault : ℕ → ℕ → Cmd (Unit {0})
handle_cow_fault vaddr entry = do
  e ← load entry
  refcount ← get_ref (ppn_to_addr e)
  if ltb 1 refcount then copy_page entry (ppn_to_addr e) else claim_page entry
