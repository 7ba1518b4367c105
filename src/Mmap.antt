-- ===== src/Mmap.antt =====
-- The table of mapped areas of a process: the helpers of `mmap` and `munmap` in
-- kernel/src/syscall.rs that work on `current().mmap_areas`, as functions of that table.
pub mod Area
pub mod Gap
pub mod Hint
pub mod Mapped
pub mod Cut
pub mod Remove
pub mod Table
use unit.Base.{
  ℕ, zero, suc, ◌+◌, ◌-◌, ◌*◌, ◌/◌, ◌%◌, ◌^◌, Bool, true, false, not, ◌&&◌, ◌||◌, Option, none,
  some, if◌then◌else◌, bit_and, bit_or, bit_not, test, ltb, leb, ◌==◌, usize_end, List, [], ◌∷◌,
  length, get_elem?, set,
}
use mathlib.Core.Option
use unit.Kernel.{Cmd, ◌>>=◌, pure, add_usize, try, diverges}
use unit.PageTable.Flags
use unit.Task.Process.{
  MmapArea, empty_area, end_of, user_mmap_start, user_mmap_limit, max_mmap_areas,
}

abbrev pub page_size : ℕ
page_size = 4096

abbrev pub prot_read : ℕ
prot_read = 0x1

abbrev pub prot_write : ℕ
prot_write = 0x2

abbrev pub prot_exec : ℕ
prot_exec = 0x4

-- `addr + PAGE_SIZE` is checked; the difference that follows cannot fail.
unfoldable pub align_up : ℕ → Cmd ℕ
align_up addr = do
  top ← add_usize addr page_size
  pure (bit_and (top - 1) (bit_not (page_size - 1)))

unfoldable pub checked_align_up : ℕ → Option ℕ
checked_align_up addr =
    if ltb (addr + (page_size - 1)) usize_end
    then some (bit_and (addr + (page_size - 1)) (bit_not (page_size - 1)))
    else none

unfoldable pub pte_flags_from_prot : ℕ → Option ℕ
pte_flags_from_prot prot =
    if test prot (bit_not (bit_or (bit_or prot_read prot_write) prot_exec))
    then none
    else if prot == 0
    then none
    else let writable = test prot prot_write in
      let readable = test prot prot_read || writable in
      let executable = test prot prot_exec in some (Flags.new readable writable executable true)

unfoldable pub ranges_overlap : ℕ → ℕ → ℕ → ℕ → Bool
ranges_overlap a_start a_end b_start b_end = ltb a_start b_end && ltb b_start a_end

-- A used area that meets the range.
abbrev pub meets : ℕ → ℕ → MmapArea → Bool
meets start end area = area.used && ranges_overlap start end area.start (end_of area)

-- The `for` loop of `find_mmap_gap`: the end of the first area in the way.
unfoldable pub first_overlap : ℕ → ℕ → List MmapArea → Option ℕ
first_overlap candidate end [] = none
first_overlap candidate end (area ∷ areas) =
    if not area.used
    then first_overlap candidate end areas
    else if ranges_overlap candidate end area.start (end_of area)
    then some (end_of area)
    else first_overlap candidate end areas

-- The outer loop, with one round for each area and one more.
unfoldable pub gap_loop : ℕ → List MmapArea → ℕ → ℕ → Cmd (Option ℕ)
gap_loop zero areas len candidate = λ _. diverges
gap_loop (suc n) areas len candidate =
    let retry = λ (end : ℕ). align_up end >>= gap_loop n areas len in
    if leb usize_end (candidate + len)
    then pure none
    else if ltb user_mmap_limit (candidate + len)
    then pure none
    else elim (first_overlap candidate (candidate + len) areas) [
      | none ↦ pure (some candidate)
      | some end ↦ retry end
    ]

unfoldable pub find_mmap_gap : List MmapArea → ℕ → Cmd (Option ℕ)
unfolding gap_loop
find_mmap_gap areas len = gap_loop (max_mmap_areas + 1) areas len user_mmap_start

unfoldable pub mmap_range_available : ℕ → ℕ → List MmapArea → Bool
mmap_range_available start end [] = true
mmap_range_available start end (area ∷ areas) =
    (not area.used || not (ranges_overlap start end area.start (end_of area)))
    && mmap_range_available start end areas

-- The hint, rounded up, serves if it lies in the region and is free; `checked_add` gives `None` for
-- the whole search if the end overflows.
unfoldable pub choose_mmap_addr : List MmapArea → ℕ → ℕ → Cmd (Option ℕ)
choose_mmap_addr areas hint len = if hint == 0 then find_mmap_gap areas len else do
  up ← align_up hint
  if not (leb user_mmap_start up)
      then find_mmap_gap areas len
      else if leb usize_end (up + len)
      then pure none
      else if leb (up + len) user_mmap_limit && mmap_range_available up (up + len) areas
      then pure (some up)
      else find_mmap_gap areas len

-- `position(|area| !area.used)`.
unfoldable pub find_free_mmap_slot : List MmapArea → Option ℕ
find_free_mmap_slot [] = none
find_free_mmap_slot (area ∷ areas) =
    if not area.used then some 0 else Option.map suc (find_free_mmap_slot areas)

-- An area that a removal would cut in two.
abbrev pub splits : ℕ → ℕ → MmapArea → Bool
splits start end area = meets start end area && ltb area.start start && ltb end (end_of area)

-- The two counters of `can_split_mmap_range`.
unfoldable pub count_needed : ℕ → ℕ → List MmapArea → ℕ
count_needed start end [] = 0
count_needed start end (area ∷ areas) =
    (if splits start end area then 1 else 0) + count_needed start end areas

unfoldable pub count_free : List MmapArea → ℕ
count_free [] = 0
count_free (area ∷ areas) = (if not area.used then 1 else 0) + count_free areas

unfoldable pub can_split_mmap_range : ℕ → ℕ → List MmapArea → Bool
unfolding count_needed count_free
can_split_mmap_range start end areas = leb (count_needed start end areas) (count_free areas)

-- Cuts the area in slot `i` in two; `none` is the panic of the `expect`.
unfoldable pub split_area : ℕ → ℕ → MmapArea → ℕ → List MmapArea → Option (List MmapArea)
split_area start end area i areas =
    let areas = set areas i (record area { len = start - area.start }) in
    let tail : MmapArea = record area { start = end; len = end_of area - end } in
    Option.map (λ slot. set areas slot tail) (find_free_mmap_slot areas)

-- What a round of `remove_mmap_range` does to an area that meets the range.
unfoldable pub cut_area : ℕ → ℕ → MmapArea → ℕ → List MmapArea → Option (List MmapArea)
unfolding split_area
cut_area start end area i areas =
    if leb start area.start && leb (end_of area) end
    then some (set areas i empty_area)
    else if leb start area.start
    then some (set areas i (record area { start = end; len = end_of area - end }))
    else if leb (end_of area) end
    then some (set areas i (record area { len = start - area.start }))
    else split_area start end area i areas

-- A round of the loop of `remove_mmap_range`.
unfoldable pub remove_at : ℕ → ℕ → ℕ → List MmapArea → Option (List MmapArea)
unfolding cut_area
remove_at start end i areas = elim (get_elem? areas i) [
  | none ↦ some areas
  | some area ↦ if meets start end area then cut_area start end area i areas else some areas
]

unfoldable pub remove_loop : ℕ → ℕ → ℕ → ℕ → List MmapArea → Option (List MmapArea)
unfolding remove_at
remove_loop start end zero i areas = some areas
remove_loop start end (suc n) i areas =
    Option.bind (remove_at start end i areas) (remove_loop start end n (i + 1))

unfoldable pub remove_mmap_range : ℕ → ℕ → List MmapArea → Option (List MmapArea)
unfolding remove_loop
remove_mmap_range start end areas = remove_loop start end (length areas) 0 areas
