-- ===== src/Syscall/Steady.antt =====
-- The parts of kernel/src/syscall.rs that act on the pages of the current process leave the processes
-- alone, and their loops end: the rounds that the model gives them are enough.
use unit.Base.{
  ℕ, zero, suc, ◌+◌, ◌-◌, ◌*◌, ◌/◌, ◌≤◌, ◌<◌, ◌≡◌, Bool, true, false, not, leb, ltb, ◌==◌, arith,
  if◌then◌else◌, usize_end, bit_and, bit_not, bit_and-page_mask, Bool-cases, inl, inr, refl, ltb→lt,
}
use unit.Kernel.{Kernel, Cmd, and_then, ◌>>=◌, pure, add_usize, panic}
use unit.Kernel.Steady.{
  IsSteady, Steady, steady, bind-IsSteady, elim-IsSteady, seq-IsSteady, if-IsSteady, pure-IsSteady,
}
use unit.Frame.Steady.{alloc_frame-IsSteady, dec_ref-IsSteady, free_frame-IsSteady}
use unit.PageTable.Steady.{lookup-IsSteady, map-IsSteady}
use unit.Syscall.Access.{check_page, check_loop, allow_write, ensure_user_range}
use unit.Syscall.Pages.{
  roll_back, unmap_user_page, unmap_loop, unmap_user_pages, page_rounds, map_zeroed_page, is_mapped,
  map_page, map_loop, map_zeroed_user_pages,
}
use unit.Task.Scheduler.{current}
use unit.Trap.Cow.Steady.{handle_cow_fault-IsSteady}

pub current-IsSteady : IsSteady current
unfolding current
current-IsSteady = search steady

unmap_user_page-IsSteady : (vaddr : ℕ) → IsSteady (unmap_user_page vaddr)
unfolding unmap_user_page
unmap_user_page-IsSteady vaddr = bind-IsSteady current-IsSteady λ proc.
    bind-IsSteady (lookup-IsSteady proc.page_table vaddr) λ found.
      elim-IsSteady found pure-IsSteady (λ entry. search (steady, dec_ref-IsSteady) depth 14)

-- A step of a loop by a page, and what follows from the next page on.
pub step-IsSteady :
    {A : Type 0} (a b : ℕ) (f : ℕ → Cmd A) → IsSteady (f (a + b)) → IsSteady (add_usize a b >>= f)
step-IsSteady {A} a b f h = record { run = λ k. go k (ltb (a + b) usize_end) }
  where
    go :
        (k : Kernel) (fits : Bool)
        → Steady k (and_then ((if fits then pure (a + b) else panic) k) f)
    go k true = h.run k
    go k false = tt

unmap_loop-IsSteady :
    (n end vaddr : ℕ) → (end - vaddr + 4095) / 4096 < n → IsSteady (unmap_loop n end vaddr)
unfolding unmap_loop
unmap_loop-IsSteady zero end vaddr h = absurd (omega arith)
unmap_loop-IsSteady (suc n) end vaddr h = record {
  run = λ k. elim (Bool-cases (ltb vaddr end)) [
    | inr done ↦ rw done (refl, refl, refl, refl)
    | inl more ↦ rw more (
        (seq-IsSteady (unmap_user_page-IsSteady vaddr) (
            step-IsSteady vaddr 4096 (unmap_loop n end)
              (unmap_loop-IsSteady n end (vaddr + 4096) (fewer (ltb→lt vaddr end more))))).run
          k)
  ];
}
  where
    fewer : vaddr < end → (end - (vaddr + 4096) + 4095) / 4096 < n
    fewer l = omega arith

pub unmap_user_pages-IsSteady : (start end : ℕ) → IsSteady (unmap_user_pages start end)
unfolding unmap_user_pages
unmap_user_pages-IsSteady start end =
    unmap_loop-IsSteady (page_rounds start end) end start (omega arith)

roll_back-IsSteady : (start vaddr : ℕ) → IsSteady (roll_back start vaddr)
roll_back-IsSteady start vaddr = seq-IsSteady (unmap_user_pages-IsSteady start vaddr) pure-IsSteady

map_zeroed_page-IsSteady : (start vaddr flags : ℕ) → IsSteady (map_zeroed_page start vaddr flags)
unfolding map_zeroed_page
map_zeroed_page-IsSteady start vaddr flags = bind-IsSteady alloc_frame-IsSteady λ page.
    elim-IsSteady page (roll_back-IsSteady start vaddr) (λ frame.
      search (steady, current-IsSteady, map-IsSteady, free_frame-IsSteady, roll_back-IsSteady) depth
        20)

is_mapped-IsSteady : (vaddr : ℕ) → IsSteady (is_mapped vaddr)
unfolding is_mapped
is_mapped-IsSteady vaddr = bind-IsSteady current-IsSteady λ proc.
    bind-IsSteady (lookup-IsSteady proc.page_table vaddr)
      λ found. elim-IsSteady found pure-IsSteady (λ entry. search steady)

map_page-IsSteady : (start vaddr flags : ℕ) → IsSteady (map_page start vaddr flags)
unfolding map_page
map_page-IsSteady start vaddr flags =
    search (steady, is_mapped-IsSteady, map_zeroed_page-IsSteady, roll_back-IsSteady)

map_loop-IsSteady :
    (n start end flags vaddr : ℕ)
    → (end - vaddr + 4095) / 4096 < n
    → IsSteady (map_loop n start end flags vaddr)
unfolding map_loop
map_loop-IsSteady zero start end flags vaddr h = absurd (omega arith)
map_loop-IsSteady (suc n) start end flags vaddr h = record {
  run = λ k. elim (Bool-cases (ltb vaddr end)) [
    | inr done ↦ rw done (refl, refl, refl, refl)
    | inl more ↦ rw more (
        (bind-IsSteady (map_page-IsSteady start vaddr flags) (λ done.
            if-IsSteady done
              (step-IsSteady vaddr 4096 (map_loop n start end flags) (
                map_loop-IsSteady n start end flags (vaddr + 4096) (fewer (ltb→lt vaddr end more))))
              pure-IsSteady)).run
          k)
  ];
}
  where
    fewer : vaddr < end → (end - (vaddr + 4096) + 4095) / 4096 < n
    fewer l = omega arith

-- `map_zeroed_user_pages` ends: it reports success or failure or panics, and leaves the list of processes
-- and the current one alone.
pub map_zeroed_user_pages-IsSteady :
    (start end flags : ℕ) → IsSteady (map_zeroed_user_pages start end flags)
unfolding map_zeroed_user_pages
map_zeroed_user_pages-IsSteady start end flags =
    map_loop-IsSteady (page_rounds start end) start end flags start (omega arith)

allow_write-IsSteady : (page entry : ℕ) → IsSteady (allow_write page entry)
unfolding allow_write
allow_write-IsSteady page entry = search (steady, handle_cow_fault-IsSteady) depth 14

check_page-IsSteady : (page : ℕ) (write : Bool) → IsSteady (check_page page write)
unfolding check_page
check_page-IsSteady page write = bind-IsSteady current-IsSteady λ cur.
    bind-IsSteady (lookup-IsSteady cur.page_table page) λ found.
      elim-IsSteady found pure-IsSteady (λ entry. search (steady, allow_write-IsSteady) depth 14)

check_loop-IsSteady :
    (n last : ℕ) (write : Bool) (page : ℕ)
    → 0 < n
    → last + 4096 ≤ page + n * 4096
    → IsSteady (check_loop n last write page)
unfolding check_loop
check_loop-IsSteady zero last write page pos h = absurd (omega arith)
check_loop-IsSteady (suc n) last write page pos h = record {
  run = λ k.
      (bind-IsSteady (check_page-IsSteady page write) λ allowed.
          if-IsSteady (not allowed) pure-IsSteady (elim (Bool-cases (leb last page)) [
            | inl end ↦ rw end pure-IsSteady
            | inr more ↦ rw more (
                step-IsSteady page 4096 (check_loop n last write)
                  (check_loop-IsSteady n last write (page + 4096) (left more) (omega arith)))
          ])).run
        k;
}
  where
    left : leb last page ≡ false → 0 < n
    left e = ground arith

-- `ensure_user_range` on an address of 64 bits ends: it grants, refuses or panics, and leaves the list of
-- processes and the current one alone.
pub ensure_user_range-IsSteady :
    (ptr len : ℕ) (write : Bool) → ptr < usize_end → IsSteady (ensure_user_range ptr len write)
unfolding ensure_user_range
ensure_user_range-IsSteady ptr len write bound = if-IsSteady (len == 0) pure-IsSteady (
    if-IsSteady (ptr == 0) pure-IsSteady (elim (Bool-cases (leb usize_end (ptr + (len - 1)))) [
      | inl over ↦ rw over pure-IsSteady
      | inr fits ↦ rw fits (
          check_loop-IsSteady
            ((bit_and (ptr + (len - 1)) (bit_not 0xfff) - bit_and ptr (bit_not 0xfff)) / 4096 + 1)
            (bit_and (ptr + (len - 1)) (bit_not 0xfff)) write (bit_and ptr (bit_not 0xfff))
            (omega arith) (rounds (below fits)))
    ]))
  where
    below : leb usize_end (ptr + (len - 1)) ≡ false → ptr + (len - 1) < usize_end
    below e = ground arith

    rounds :
        ptr + (len - 1) < usize_end
        → bit_and (ptr + (len - 1)) (bit_not 0xfff) + 4096
          ≤ bit_and ptr (bit_not 0xfff)
            + ((bit_and (ptr + (len - 1)) (bit_not 0xfff) - bit_and ptr (bit_not 0xfff)) / 4096 + 1)
              * 4096
    rounds b = omega (arith, bit_and-page_mask ptr bound, bit_and-page_mask (ptr + (len - 1)) b)
