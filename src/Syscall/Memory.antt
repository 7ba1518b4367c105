-- ===== src/Syscall/Memory.antt =====
-- `brk`, `mmap` and `munmap` of kernel/src/syscall.rs.
use unit.Base.{
  ℕ, ◌+◌, ◌-◌, Bool, true, false, not, ◌||◌, Option, none, some, ltb, leb, ◌==◌, if◌then◌else◌,
  bit_or, bit_not, test, usize_end, set,
}
use unit.Kernel.{Cmd, ◌>>=◌, ◌>>◌, pure, expect}
use unit.Mmap.{
  page_size, align_up, checked_align_up, pte_flags_from_prot, choose_mmap_addr, find_free_mmap_slot,
  can_split_mmap_range, remove_mmap_range,
}
use unit.PageTable.Flags
use unit.Syscall.Errors.{linux_error, einval, enosys, enomem}
use unit.Syscall.Pages.{map_zeroed_user_pages, unmap_user_pages}
use unit.Task.Process.{MmapArea, user_heap_limit, user_mmap_start, user_mmap_limit}
use unit.Task.Scheduler.{current, store_current}

abbrev pub map_private : ℕ
map_private = 0x02

abbrev pub map_fixed : ℕ
map_fixed = 0x10

abbrev pub map_anonymous : ℕ
map_anonymous = 0x20

unfoldable pub grow_heap : ℕ → ℕ → Cmd Bool
grow_heap old_break new_break = do
  start ← align_up old_break
  end ← align_up new_break
  map_zeroed_user_pages start end (Flags.new true true false true)

unfoldable pub shrink_heap : ℕ → ℕ → Cmd (Unit {0})
shrink_heap new_break old_break = do
  start ← align_up new_break
  end ← align_up old_break
  unmap_user_pages start end

-- `current().heap_end = new_break`, and the result.
unfoldable pub set_break : ℕ → Cmd ℕ
set_break new_break = do
  cur ← current
  store_current (record cur { heap_end = new_break })
  pure new_break

-- The part of `sys_brk` behind its checks.
unfoldable pub move_break : ℕ → ℕ → Cmd ℕ
move_break old_break new_break =
    if ltb old_break new_break
    then (do
      done ← grow_heap old_break new_break
      if done then set_break new_break else pure old_break)
    else if ltb new_break old_break
    then (do shrink_heap new_break old_break; set_break new_break)
    else set_break new_break

unfoldable pub sys_brk : ℕ → Cmd ℕ
sys_brk new_break = do
  cur ← current
  if new_break == 0
      then pure cur.heap_end
      else if ltb new_break cur.heap_start || ltb user_heap_limit new_break
      then pure cur.heap_end
      else move_break cur.heap_end new_break

-- The flags that `sys_mmap` refuses.
abbrev pub unsupported : ℕ → Bool
unsupported flags =
    test flags map_fixed
    || not (test flags map_anonymous)
    || not (test flags map_private)
    || test flags (bit_not (bit_or (bit_or map_private map_fixed) map_anonymous))

-- `current().mmap_areas[slot] = area`.
unfoldable pub store_area : ℕ → MmapArea → Cmd (Unit {0})
store_area slot area = do
  cur ← current
  store_current (record cur { mmap_areas = set cur.mmap_areas slot area })

-- The part of `sys_mmap` behind the choice of an address.
unfoldable pub place_mapping : ℕ → ℕ → ℕ → ℕ → ℕ → Cmd ℕ
place_mapping start len prot flags pte_flags = do
  cur ← current
  elim (find_free_mmap_slot cur.mmap_areas) [
    | none ↦ pure (linux_error enomem)
    | some slot ↦ do
      done ← map_zeroed_user_pages start (start + len) pte_flags
      if not done then pure (linux_error enomem) else do
        store_area slot
            (record { start = start; len = len; prot = prot; flags = flags; used = true })
        pure start
  ]

unfoldable pub choose_and_place : ℕ → ℕ → ℕ → ℕ → ℕ → Cmd ℕ
choose_and_place addr len prot flags pte_flags = do
  cur ← current
  chosen ← choose_mmap_addr cur.mmap_areas addr len
  elim chosen [
    | none ↦ pure (linux_error enomem)
    | some start ↦ place_mapping start len prot flags pte_flags
  ]

-- `checked_align_up(len)`, with 0 refused too.
unfoldable pub rounded_len : ℕ → Option ℕ
rounded_len len = elim (checked_align_up len) [
  | none ↦ none
  | some l ↦ if l == 0 then none else some l
]

unfoldable pub sys_mmap : ℕ → ℕ → ℕ → ℕ → ℕ → ℕ → Cmd ℕ
sys_mmap addr len prot flags fd offset = elim (rounded_len len) [
  | none ↦ pure (linux_error einval)
  | some len ↦
      if test offset (page_size - 1)
      then pure (linux_error einval)
      else if unsupported flags
      then pure (linux_error enosys)
      else elim (pte_flags_from_prot prot) [
        | none ↦ pure (linux_error einval)
        | some pte_flags ↦ choose_and_place addr len prot flags pte_flags
      ]
]

-- The part of `sys_munmap` behind its checks.
unfoldable pub remove_mapping : ℕ → ℕ → Cmd ℕ
remove_mapping addr end = do
  unmap_user_pages addr end
  cur ← current
  areas ← expect (remove_mmap_range addr end cur.mmap_areas)
  store_current (record cur { mmap_areas = areas })
  pure 0

unfoldable pub sys_munmap : ℕ → ℕ → Cmd ℕ
sys_munmap addr len =
    if test addr (page_size - 1) then pure (linux_error einval) else elim (rounded_len len) [
      | none ↦ pure (linux_error einval)
      | some len ↦
          if leb usize_end (addr + len)
          then pure (linux_error einval)
          else if ltb addr user_mmap_start || ltb user_mmap_limit (addr + len)
          then pure (linux_error einval)
          else do
            cur ← current
            if not (can_split_mmap_range addr (addr + len) cur.mmap_areas)
                then pure (linux_error enomem)
                else remove_mapping addr (addr + len)
    ]
