-- ===== src/Syscall/Access.antt =====
-- `ensure_user_range` of kernel/src/syscall.rs: may the kernel read or write these user bytes?
use unit.Base.{
  ℕ, zero, suc, ◌+◌, ◌-◌, ◌/◌, Bool, false, not, ◌&&◌, none, some, leb, ◌==◌, if◌then◌else◌,
  bit_and, bit_not, usize_end,
}
use unit.Kernel.{Cmd, ◌>>=◌, ◌>>◌, pure, load, add_usize, diverges}
use unit.PageTable.Entry.{is_cow, is_r, is_w, is_u}
use unit.PageTable.Walk.{lookup}
use unit.Syscall.Errors.{linux_error, efault}
use unit.Task.Scheduler.{current}
use unit.Trap.Cow.{handle_cow_fault}

-- `Result<(), usize>`.
pub data Access : Type 0 where
  granted : Access
  refused : ℕ → Access

-- For a store, a page marked for copying is made private first.
unfoldable pub allow_write : ℕ → ℕ → Cmd Bool
allow_write page entry = do
  e ← load entry
  if is_cow e && is_r e && not (is_w e) then handle_cow_fault page entry else pure tt
  e ← load entry
  pure (is_w e)

-- The checks of one page.
unfoldable pub check_page : ℕ → Bool → Cmd Bool
check_page page write = do
  cur ← current
  found ← lookup cur.page_table page
  elim found [
    | none ↦ pure false
    | some entry ↦ do
      e ← load entry
      if not (is_u e) then pure false else if write then allow_write page entry else pure (is_r e)
  ]

-- One round for each page, and `last` is the page of the last byte.
unfoldable pub check_loop : ℕ → ℕ → Bool → ℕ → Cmd Access
check_loop zero last write page k = diverges
check_loop (suc n) last write page k =
    let rest = check_loop n last write in
    let round = do
      allowed ← check_page page write
      if not allowed
          then pure (refused (linux_error efault))
          else if leb last page
          then pure granted
          else add_usize page 4096 >>= rest
    in round k

unfoldable pub ensure_user_range : ℕ → ℕ → Bool → Cmd Access
ensure_user_range ptr len write =
    if len == 0
    then pure granted
    else if ptr == 0
    then pure (refused (linux_error efault))
    else if leb usize_end (ptr + (len - 1))
    then pure (refused (linux_error efault))
    else let page = bit_and ptr (bit_not 0xfff) in
      let last = bit_and (ptr + (len - 1)) (bit_not 0xfff) in
      check_loop ((last - page) / 4096 + 1) last write page
