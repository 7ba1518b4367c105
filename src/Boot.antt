-- ===== src/Boot.antt =====
-- `rust_main` of kernel/src/main.rs: the page table of the kernel, the first process, and the way into it.
pub mod Steady
pub mod Starts
use unit.Base.{
  ℕ, zero, suc, ◌+◌, ◌-◌, ◌*◌, ◌/◌, ◌%◌, ◌^◌, true, false, none, List, ltb, leb, ◌&&◌,
  if◌then◌else◌, set, replicate, bit_and, bit_not, usize_end,
}
use unit.Console.{bytes, puts}
use unit.Frame.{ram_base, frame_init, alloc_frame, alloc_contiguous_frames}
use unit.Kernel.{
  Kernel, Cmd, ◌>>=◌, ◌>>◌, pure, panic, modify, expect, add_usize, within, write_zeros, diverges,
}
use unit.PageTable.Defs.{PageTable}
use unit.PageTable.Flags
use unit.PageTable.Walk.{map, init_kernel, satp_val}
use unit.Syscall.Fork.{store_process}
use unit.Syscall.Transfer.{Machine}
use unit.Task.Process.{
  Process, running, empty_area, max_mmap_areas, user_heap_start, kernel_stack_pages,
  kernel_stack_size,
}
use unit.Task.Scheduler.{max_processes, alloc_pid, current, frame_base, resume}
use unit.Task.Stack.{write_to_stack}
use unit.Task.TrapFrame.{new_user}

abbrev pub page_size : ℕ
page_size = 4096

abbrev pub user_code_base : ℕ
user_code_base = 0x1_0000

abbrev pub user_stack : ℕ
user_stack = 0x3f00_0000

-- What the linker makes of the program: the symbols, and the bytes from `user_prog_start` on.
pub record Image : Type 0 where
  pub kernel_end : ℕ
  pub user_prog_start : ℕ
  pub user_prog_end : ℕ
  pub user_prog : ℕ → ℕ

-- `a - b` on `usize`, checked.
abbrev pub sub_usize : ℕ → ℕ → Cmd ℕ
sub_usize a b = if ltb a b then panic else pure (a - b)

-- The word of `n` bytes, the lowest first.
unfoldable pub word_of : ℕ → (ℕ → ℕ) → ℕ
word_of zero byte = 0
word_of (suc n) byte = byte 0 + 256 * word_of n (λ b. byte (b + 1))

-- Byte `b` of a word.
abbrev pub byte_of : ℕ → ℕ → ℕ
byte_of word b = word / 256 ^ b % 256

-- `copy_nonoverlapping` of `n` bytes of the program, from the one with number `from` on.
unfoldable pub copy_program : (ℕ → ℕ) → ℕ → ℕ → ℕ → Cmd (Unit {0})
unfolding word_of
copy_program prog from to n = modify (λ k. record k {
  memory = λ a.
      if within to n a
      then word_of 8
          (λ b. if ltb (a - to + b) n then prog (from + (a - to) + b) else byte_of (k.memory a) b)
      else k.memory a;
})

-- One page of the program.
unfoldable pub load_code_page : Image → PageTable → ℕ → ℕ → Cmd (Unit {0})
load_code_page img pt prog_len copied = do
  frame ← alloc_frame
  code_page ← expect frame
  write_zeros code_page page_size
  let chunk = if ltb (prog_len - copied) page_size then prog_len - copied else page_size
  copy_program img.user_prog copied code_page chunk
  vaddr ← add_usize user_code_base copied
  done ← map pt vaddr code_page (Flags.new true false true true)
  pure tt

-- The loop: a round for each page and one to leave.
unfoldable pub load_code : ℕ → Image → PageTable → ℕ → ℕ → Cmd (Unit {0})
load_code zero img pt prog_len copied k = diverges
load_code (suc n) img pt prog_len copied k =
    let rest = load_code n img pt prog_len in
    let body = load_code_page img pt prog_len copied >> (add_usize copied page_size >>= rest) in
    if ltb copied prog_len then body k else pure tt k

unfoldable pub load_user_code : Image → PageTable → Cmd (Unit {0})
load_user_code img pt = do
  prog_len ← sub_usize img.user_prog_end img.user_prog_start
  top ← add_usize prog_len (page_size - 1)
  end ← add_usize user_code_base (bit_and top (bit_not (page_size - 1)))
  if leb end user_heap_start
      then load_code ((prog_len + 4095) / 4096 + 1) img pt prog_len 0
      else panic

unfoldable pub map_user_stack : PageTable → Cmd (Unit {0})
map_user_stack pt = do
  frame ← alloc_frame
  stack_page ← expect frame
  done ← map pt user_stack stack_page (Flags.new true true false true)
  pure tt

unfoldable pub set_satp : ℕ → Cmd (Unit {0})
set_satp satp = modify (λ k. record k { satp = satp })

-- The memory of the first process: the page table of the kernel, with the device, the program and a
-- stack.
unfoldable pub first_table : Image → Cmd (PageTable × ℕ)
first_table img = do
  frame_init img.kernel_end
  (pt, satp) ← init_kernel ram_base
  done ← map pt 0x1000_0000 0x1000_0000 (Flags.new true true false false)
  load_user_code img pt
  map_user_stack pt
  pure (pt, satp)

-- The first interrupt of the timer. The registers `stvec`, `sscratch` and `sie` are not in the state.
unfoldable pub start_timer : Machine → Cmd (Unit {0})
start_timer m = do now ← m.read_time; next ← add_usize now 10000000; m.set_timer next

unfoldable pub first_stack : Cmd ℕ
first_stack = do
  frames ← alloc_contiguous_frames kernel_stack_pages
  kernel_stack ← expect frames
  write_zeros kernel_stack kernel_stack_size
  pure kernel_stack

-- `init`, the first process.
unfoldable pub first_process : PageTable → ℕ → ℕ → ℕ → Process
first_process pt kernel_stack kernel_sp pid = record {
  pid = pid;
  parent_pid = 0;
  state = running;
  page_table = pt;
  trap_frame = new_user user_code_base (user_stack + 0x1000);
  kernel_sp = kernel_sp;
  kernel_stack_frame = kernel_stack;
  heap_start = user_heap_start;
  heap_end = user_heap_start;
  mmap_areas = replicate max_mmap_areas empty_area;
}

-- The jump to `trap_exit_restore` with the frame of the first process on its stack.
unfoldable pub enter_first : PageTable → Cmd (Unit {0})
enter_first pt = do
  init ← current
  set_satp (satp_val pt)
  new_sp ← frame_base init
  write_to_stack init.trap_frame new_sp
  resume

-- The part of `rust_main` that makes the first process and enters it.
unfoldable pub start_first : PageTable → ℕ → Cmd (Unit {0})
start_first pt kernel_stack = do
  kernel_sp ← add_usize kernel_stack kernel_stack_size
  pid ← alloc_pid
  store_process 0 (first_process pt kernel_stack kernel_sp pid)
  modify (λ k. record k { current = 0 })
  enter_first pt

unfoldable pub rust_main : Machine → Image → Cmd (Unit {0})
rust_main m img = do
  puts (bytes "Unit00 booting...\n")
  (pt, satp) ← first_table img
  set_satp satp
  start_timer m
  kernel_stack ← first_stack
  start_first pt kernel_stack

-- The statics as they are linked, with any memory and any register.
abbrev pub powered_on : (ℕ → ℕ) → ℕ → Kernel
powered_on memory satp = record {
  memory = memory;
  next_frame = 0;
  frame_refs = λ i. 0;
  free_list_head = 0;
  process_list = replicate max_processes none;
  current = 0;
  next_pid = 1;
  satp = satp;
  output = List.[];
  tick_count = 0;
}
