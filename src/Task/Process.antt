-- ===== src/Task/Process.antt =====
-- kernel/src/task/process.rs.
use unit.Base.{ℕ, ◌+◌, ◌*◌, Bool, false, List}
use unit.PageTable.Defs.{PageTable}
use unit.Task.TrapFrame.{TrapFrame}

abbrev pub user_heap_start : ℕ
user_heap_start = 0x2_0000

abbrev pub user_heap_limit : ℕ
user_heap_limit = 0x3e00_0000

abbrev pub user_mmap_start : ℕ
user_mmap_start = user_heap_limit

abbrev pub user_mmap_limit : ℕ
user_mmap_limit = 0x3f00_0000

abbrev pub max_mmap_areas : ℕ
max_mmap_areas = 32

abbrev pub kernel_stack_pages : ℕ
kernel_stack_pages = 8

abbrev pub kernel_stack_size : ℕ
kernel_stack_size = kernel_stack_pages * 4096

pub record MmapArea : Type 0 where
  pub start : ℕ
  pub len : ℕ
  pub prot : ℕ
  pub flags : ℕ
  pub used : Bool

-- `MmapArea::EMPTY`.
abbrev pub empty_area : MmapArea
empty_area = record { start = 0; len = 0; prot = 0; flags = 0; used = false }

-- `MmapArea::end`. A used area ends at `user_mmap_limit` or below, so the sum does not overflow.
abbrev pub end_of : MmapArea → ℕ
end_of area = area.start + area.len

pub data ProcessState : Type 0 where
  ready running blocked gone : ProcessState
  zombie : ℕ → ProcessState

pub record Process : Type 0 where
  pub pid : ℕ
  pub parent_pid : ℕ
  pub state : ProcessState
  pub page_table : PageTable
  pub trap_frame : TrapFrame
  pub kernel_sp : ℕ
  pub kernel_stack_frame : ℕ
  pub heap_start : ℕ
  pub heap_end : ℕ
  pub mmap_areas : List MmapArea
