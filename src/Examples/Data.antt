-- ===== src/Examples/Data.antt =====
-- A small state of the kernel of kernel/src: three frames below the mark, of which the first is
-- shared by two processes, the second is free and the third holds a page table.
use unit.Base.{
  ℕ, ◌+◌, ◌^◌, true, refl, Option, none, some, List, [], ◌∷◌, ◌==◌, if◌then◌else◌, replicate, arith,
}
use unit.Kernel.{Kernel}
use unit.Frame.FreeList.{IsFrame, IsAllocator}
use unit.Frame.Refs.{IsUsed}
use unit.Task.Process.{
  MmapArea, empty_area, Process, ProcessState, running, ready, blocked, user_mmap_start,
}
use unit.Task.TrapFrame.{TrapFrame}

abbrev pub page_shared : ℕ
page_shared = 0x8000_0000

abbrev pub page_free : ℕ
page_free = 0x8000_1000

abbrev pub page_tables : ℕ
page_tables = 0x8000_2000

-- A user page marked for copying, that may be read.
abbrev pub shared_entry : ℕ
shared_entry = 2 ^ 62 + 0x2000_0000 + 19

abbrev pub two_areas : List MmapArea
two_areas =
    record { start = user_mmap_start; len = 0x3000; prot = 3; flags = 0x22; used = true }
    ∷ empty_area
    ∷ []

abbrev pub table : List MmapArea
table =
    record { start = user_mmap_start; len = 0x3000; prot = 3; flags = 0x22; used = true }
    ∷ replicate 31 empty_area

abbrev pub registers : TrapFrame
registers = record { regs = replicate 32 7; sstatus = 32; sepc = 0x1_0000; scause = 8; stval = 0 }

abbrev pub process : ℕ → ℕ → ProcessState → Process
process pid parent state = record {
  pid = pid;
  parent_pid = parent;
  state = state;
  page_table = record { root = page_tables };
  trap_frame = registers;
  kernel_sp = 0x8000_1000;
  kernel_stack_frame = page_shared;
  heap_start = 0x2_0000;
  heap_end = 0x2_0000;
  mmap_areas = table;
}

-- The first runs, the second waits, the third may run.
abbrev pub slots : List (Option Process)
slots =
    some (process 1 0 running)
    ∷ some (process 2 1 blocked)
    ∷ some (process 3 2 ready)
    ∷ replicate 29 none

abbrev pub sample : Kernel
sample = record {
  memory = λ a. if a == page_tables then shared_entry else 0;
  next_frame = 0x8000_3000;
  frame_refs = λ i. if i == 0 then 2 else if i == 2 then 1 else 0;
  free_list_head = page_free;
  process_list = slots;
  current = 0;
  next_pid = 4;
  satp = 0;
  output = [];
  tick_count = 0;
}

pub sample-IsAllocator : IsAllocator sample (page_free ∷ [])
sample-IsAllocator = record {
  chain = (refl, (omega arith, omega arith, refl), omega arith, refl, refl, refl);
  aligned = refl;
  above = omega arith;
  below = omega arith;
  fresh = λ pa lo hi. ground arith;
}

pub page_shared-IsFrame : IsFrame page_shared
page_shared-IsFrame = (omega arith, omega arith, refl)

pub page_shared-IsUsed : IsUsed sample page_shared
page_shared-IsUsed = (page_shared-IsFrame, omega arith, omega arith)
