-- ===== src/Syscall/Pages.antt =====
-- `map_zeroed_user_pages` and `unmap_user_pages` of kernel/src/syscall.rs. Each loop has a round for
-- each page and one to leave.
use unit.Base.{ℕ, zero, suc, ◌+◌, ◌-◌, ◌/◌, Bool, true, false, ◌&&◌, none, some, ltb, if◌then◌else◌}
use unit.Kernel.{Cmd, ◌>>=◌, ◌>>◌, pure, load, store, write_zeros, add_usize, diverges}
use unit.Frame.{alloc_frame, free_frame, dec_ref}
use unit.PageTable.Walk.{lookup, map}
use unit.PageTable.Entry
use unit.PageTable.Entry.{is_valid, is_u, ppn_to_addr}
use unit.Task.Scheduler.{current}

abbrev pub page_rounds : ℕ → ℕ → ℕ
page_rounds start end = (end - start + 4095) / 4096 + 1

-- The body of the loop of `unmap_user_pages`.
unfoldable pub unmap_user_page : ℕ → Cmd (Unit {0})
unmap_user_page vaddr = do
  proc ← current
  found ← lookup proc.page_table vaddr
  elim found [
    | none ↦ pure tt
    | some entry ↦ do
      e ← load entry
      if is_valid e && is_u e
          then (do left ← dec_ref (ppn_to_addr e); store entry Entry.empty)
          else pure tt
  ]

unfoldable pub unmap_loop : ℕ → ℕ → ℕ → Cmd (Unit {0})
unmap_loop zero end vaddr k = diverges
unmap_loop (suc n) end vaddr k =
    let rest = unmap_loop n end in
    let round = unmap_user_page vaddr >> (add_usize vaddr 4096 >>= rest) in
    if ltb vaddr end then round k else pure tt k

unfoldable pub unmap_user_pages : ℕ → ℕ → Cmd (Unit {0})
unmap_user_pages start end = unmap_loop (page_rounds start end) end start

-- Gives back what was mapped so far.
abbrev pub roll_back : ℕ → ℕ → Cmd Bool
roll_back start vaddr = do unmap_user_pages start vaddr; pure false

-- A page that is not mapped yet gets a zeroed frame; true if the loop may go on.
unfoldable pub map_zeroed_page : ℕ → ℕ → ℕ → Cmd Bool
map_zeroed_page start vaddr flags = do
  page ← alloc_frame
  elim page [
    | none ↦ roll_back start vaddr
    | some frame ↦ do
      write_zeros frame 4096
      proc ← current
      done ← map proc.page_table vaddr frame flags
      if done then pure true else (do free_frame frame; roll_back start vaddr)
  ]

-- The page has an entry in force.
unfoldable pub is_mapped : ℕ → Cmd Bool
is_mapped vaddr = do
  proc ← current
  found ← lookup proc.page_table vaddr
  elim found [ none ↦ pure false | some entry ↦ do e ← load entry; pure (is_valid e) ]

unfoldable pub map_page : ℕ → ℕ → ℕ → Cmd Bool
map_page start vaddr flags = do
  mapped ← is_mapped vaddr
  if mapped then roll_back start vaddr else map_zeroed_page start vaddr flags

unfoldable pub map_loop : ℕ → ℕ → ℕ → ℕ → ℕ → Cmd Bool
map_loop zero start end flags vaddr k = diverges
map_loop (suc n) start end flags vaddr k =
    let rest = map_loop n start end flags in
    let round = do
      done ← map_page start vaddr flags
      if done then add_usize vaddr 4096 >>= rest else pure false
    in if ltb vaddr end then round k else pure true k

unfoldable pub map_zeroed_user_pages : ℕ → ℕ → ℕ → Cmd Bool
map_zeroed_user_pages start end flags = map_loop (page_rounds start end) start end flags start
