-- ===== src/Boot/Steady.antt =====
-- The commands of `rust_main` (kernel/src/main.rs) before the first process end.
use unit.Base.{
  ℕ, zero, suc, ◌+◌, ◌-◌, ◌/◌, ◌<◌, arith, refl, ltb, leb, bit_and, bit_not, Bool-cases, inl, inr,
  ltb→lt,
}
use unit.Boot.{
  Image, page_size, user_code_base, copy_program, load_code_page, load_code, load_user_code,
  map_user_stack, first_table, start_timer, first_stack,
}
use unit.Frame.{ram_size, frame_init, store_next}
use unit.Frame.Steady.{alloc_frame-IsSteady, alloc_contiguous_frames-IsSteady}
use unit.Kernel.Steady.{
  IsSteady, steady, bind-IsSteady, seq-IsSteady, if-IsSteady, pure-IsSteady, panic-IsSteady,
  add_usize-IsSteady, expect-IsSteady, write_zeros-IsSteady,
}
use unit.PageTable.Defs.{PageTable}
use unit.PageTable.Steady.{map-IsSteady}
use unit.PageTable.Walk.{new, map_identity, init_kernel}
use unit.Task.Process.{user_heap_start}
use unit.Syscall.Steady.{step-IsSteady}
use unit.Syscall.Transfer.{Machine}
use unit.System.Transfers.{IsMachine}

map_identity-IsSteady :
    (n : ℕ) (pt : PageTable) (pa end : ℕ)
    → (end - pa + 4095) / 4096 < n
    → IsSteady (map_identity n pt pa end)
unfolding map_identity
map_identity-IsSteady zero pt pa end h = absurd (omega arith)
map_identity-IsSteady (suc n) pt pa end h = record {
  run = λ k. elim (Bool-cases (ltb pa end)) [
    | inr done ↦ rw done (refl, refl, refl, refl)
    | inl more ↦ rw more (
        (bind-IsSteady (map-IsSteady pt pa pa _) (λ done.
            step-IsSteady pa 4096 (λ next. map_identity n pt next end)
              (map_identity-IsSteady n pt (pa + 4096) end (fewer (ltb→lt pa end more))))).run
          k)
  ];
}
  where
    fewer : pa < end → (end - (pa + 4096) + 4095) / 4096 < n
    fewer l = omega arith

init_kernel-IsSteady : (start : ℕ) → IsSteady (init_kernel start)
unfolding init_kernel
init_kernel-IsSteady start = bind-IsSteady alloc_frame-IsSteady λ frame.
    bind-IsSteady (expect-IsSteady frame) λ root. seq-IsSteady (write_zeros-IsSteady root 4096) (
      step-IsSteady start ram_size _ (
        seq-IsSteady
          (map_identity-IsSteady (ram_size / 4096 + 1) (new root) start (start + ram_size)
            (omega arith))
          pure-IsSteady))

copy_program-IsSteady : (prog : ℕ → ℕ) (from to n : ℕ) → IsSteady (copy_program prog from to n)
unfolding copy_program
copy_program-IsSteady prog from to n = record { run = λ k. (refl, refl, refl, refl) }

load_code_page-IsSteady :
    (img : Image) (pt : PageTable) (prog_len copied : ℕ)
    → IsSteady (load_code_page img pt prog_len copied)
unfolding load_code_page
load_code_page-IsSteady img pt prog_len copied =
    search (steady, alloc_frame-IsSteady, map-IsSteady, copy_program-IsSteady) depth 20

load_code-IsSteady :
    (n : ℕ) (img : Image) (pt : PageTable) (prog_len copied : ℕ)
    → (prog_len - copied + 4095) / 4096 < n
    → IsSteady (load_code n img pt prog_len copied)
unfolding load_code
load_code-IsSteady zero img pt prog_len copied h = absurd (omega arith)
load_code-IsSteady (suc n) img pt prog_len copied h = record {
  run = λ k. elim (Bool-cases (ltb copied prog_len)) [
    | inr done ↦ rw done (refl, refl, refl, refl)
    | inl more ↦ rw more (
        (seq-IsSteady (load_code_page-IsSteady img pt prog_len copied) (
            step-IsSteady copied page_size (load_code n img pt prog_len) (
              load_code-IsSteady n img pt prog_len (copied + page_size)
                (fewer (ltb→lt copied prog_len more))))).run
          k)
  ];
}
  where
    fewer : copied < prog_len → (prog_len - (copied + 4096) + 4095) / 4096 < n
    fewer l = omega arith

load_user_code-IsSteady : (img : Image) (pt : PageTable) → IsSteady (load_user_code img pt)
unfolding load_user_code
load_user_code-IsSteady img pt =
    bind-IsSteady
      (if-IsSteady (ltb img.user_prog_end img.user_prog_start) panic-IsSteady pure-IsSteady)
      λ prog_len. bind-IsSteady (add_usize-IsSteady prog_len _) λ top.
        bind-IsSteady (add_usize-IsSteady user_code_base (bit_and top (bit_not (page_size - 1))))
          λ end.
            if-IsSteady (leb end user_heap_start)
              (load_code-IsSteady ((prog_len + 4095) / 4096 + 1) img pt prog_len 0 (omega arith))
              panic-IsSteady

map_user_stack-IsSteady : (pt : PageTable) → IsSteady (map_user_stack pt)
unfolding map_user_stack
map_user_stack-IsSteady pt = search (steady, alloc_frame-IsSteady, map-IsSteady) depth 20

mark-IsSteady : (top : ℕ) → IsSteady (store_next (bit_and top (bit_not 4095)))
mark-IsSteady top = record { run = λ k. (refl, refl, refl, refl) }

frame_init-IsSteady : (kernel_end : ℕ) → IsSteady (frame_init kernel_end)
unfolding frame_init
frame_init-IsSteady kernel_end = bind-IsSteady (add_usize-IsSteady kernel_end 4095) mark-IsSteady

pub first_table-IsSteady : (img : Image) → IsSteady (first_table img)
unfolding first_table
first_table-IsSteady img = seq-IsSteady (frame_init-IsSteady img.kernel_end) (
    bind-IsSteady (init_kernel-IsSteady _) λ made.
      bind-IsSteady (map-IsSteady made.0 0x1000_0000 0x1000_0000 _) λ done.
        seq-IsSteady (load_user_code-IsSteady img made.0)
          (seq-IsSteady (map_user_stack-IsSteady made.0) pure-IsSteady))

pub start_timer-IsSteady : (m : Machine) → IsMachine m → IsSteady (start_timer m)
unfolding start_timer
start_timer-IsSteady m h =
    bind-IsSteady h.read_time λ now. bind-IsSteady (add_usize-IsSteady now 10000000) h.set_timer

pub first_stack-IsSteady : IsSteady first_stack
unfolding first_stack
first_stack-IsSteady = search (steady, alloc_contiguous_frames-IsSteady) depth 20
