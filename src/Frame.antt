-- ===== src/Frame.antt =====
-- kernel/src/mm/frame.rs: the allocator of 4 KiB frames, by a free list that runs through the free
-- frames themselves and a mark above which no frame was handed out yet, and the reference counts.
pub mod FreeList
pub mod Alloc
pub mod Refs
pub mod Contiguous
pub mod Steady
use unit.Base.{
  ℕ, zero, suc, ◌+◌, ◌-◌, ◌*◌, ◌/◌, ◌%◌, ◌^◌, Bool, not, ◌&&◌, Option, none, some, ltb, leb, ◌==◌,
  if◌then◌else◌, usize_end, bit_and, bit_not, shr,
}
use unit.Kernel.{
  Kernel, Cmd, ◌>>=◌, ◌>>◌, pure, panic, gets, modify, add_usize, update, load, store,
}

abbrev pub ram_base : ℕ
ram_base = 0x8000_0000

abbrev pub ram_size : ℕ
ram_size = 128 * 1024 * 1024

abbrev pub ram_end : ℕ
ram_end = ram_base + ram_size

unfoldable pub is_managed : ℕ → Bool
is_managed pa = leb ram_base pa && ltb pa ram_end

unfoldable pub frame_index : ℕ → Cmd ℕ
unfolding is_managed
frame_index pa = if is_managed pa then pure (shr (pa - ram_base) 12) else panic

abbrev pub store_ref : ℕ → ℕ → Cmd (Unit {0})
store_ref idx v = modify (λ k. record k { frame_refs = update k.frame_refs idx v })

abbrev pub store_head : ℕ → Cmd (Unit {0})
store_head head = modify (λ k. record k { free_list_head = head })

abbrev pub store_next : ℕ → Cmd (Unit {0})
store_next next = modify (λ k. record k { next_frame = next })

unfoldable pub inc_ref : ℕ → Cmd (Unit {0})
unfolding frame_index
inc_ref pa = do
  idx ← frame_index pa
  refs ← gets (λ k. k.frame_refs idx)
  store_ref idx ((refs + 1) % 2 ^ 32)

unfoldable pub free_frame : ℕ → Cmd (Unit {0})
unfolding frame_index
free_frame pa = do
  head ← gets (λ k. k.free_list_head)
  store pa head
  store_head pa
  idx ← frame_index pa
  store_ref idx 0

-- `fetch_sub` wraps; `prev - 1` is checked.
unfoldable pub dec_ref : ℕ → Cmd ℕ
unfolding frame_index free_frame
dec_ref pa = do
  idx ← frame_index pa
  prev ← gets (λ k. k.frame_refs idx)
  store_ref idx ((prev + 2 ^ 32 - 1) % 2 ^ 32)
  if prev == 1 then free_frame pa else pure tt
  if prev == 0 then panic else pure (prev - 1)

unfoldable pub get_ref : ℕ → Cmd ℕ
unfolding frame_index
get_ref pa = do idx ← frame_index pa; gets (λ k. k.frame_refs idx)

unfoldable pub frame_init : ℕ → Cmd (Unit {0})
frame_init kernel_end = do top ← add_usize kernel_end 4095; store_next (bit_and top (bit_not 4095))

alloc_head : ℕ → Cmd (Option ℕ)
unfolding frame_index
alloc_head head = do
  next ← load head
  store_head next
  idx ← frame_index head
  store_ref idx 1
  pure (some head)

alloc_next : ℕ → Cmd (Option ℕ)
unfolding frame_index
alloc_next p = do store_next (p + 4096); idx ← frame_index p; store_ref idx 1; pure (some p)

unfoldable pub alloc_frame : Cmd (Option ℕ)
unfolding alloc_head alloc_next
alloc_frame = do
  head ← gets (λ k. k.free_list_head)
  p ← gets (λ k. k.next_frame)
  if not (head == 0) then alloc_head head else (if leb ram_end p then pure none else alloc_next p)

-- `for i in 0..pages`, from `i` on.
unfoldable pub store_refs : ℕ → ℕ → ℕ → Cmd (Unit {0})
unfolding frame_index
store_refs start zero i = pure tt
store_refs start (suc pages) i = do
  idx ← frame_index (start + i * 4096)
  store_ref idx 1
  store_refs start pages (i + 1)

claim_frames : ℕ → ℕ → ℕ → Cmd (Option ℕ)
unfolding store_refs
claim_frames pages start end = do store_next end; store_refs start pages 0; pure (some start)

-- `checked_mul` and `checked_add` give `none` on overflow.
unfoldable pub alloc_contiguous_frames : ℕ → Cmd (Option ℕ)
unfolding claim_frames
alloc_contiguous_frames pages =
    if pages == 0 then pure none else if leb usize_end (pages * 4096) then pure none else do
      start ← gets (λ k. k.next_frame)
      if leb usize_end (start + pages * 4096)
          then pure none
          else if ltb ram_end (start + pages * 4096)
          then pure none
          else claim_frames pages start (start + pages * 4096)
