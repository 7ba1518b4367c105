-- ===== src/Syscall/Grants.antt =====
-- Which user bytes `ensure_user_range` of kernel/src/syscall.rs lets the kernel read.
use unit.Base.{
  ℕ, zero, suc, ◌+◌, ◌-◌, ◌*◌, ◌/◌, ◌%◌, ◌≤◌, ◌<◌, ◌≡◌, ◌∙◌, ap, refl, true, false, not, Bool, ◌&&◌,
  Option, none, some, leb, ltb, ◌==◌, if◌then◌else◌, bit_and, bit_not, bit_and-page_mask, arith,
  usize_end, ◌⊎◌, inl, inr, Bool-cases,
}
use unit.Kernel.{Kernel, Cmd, Outcome, returns, try, pure, load, ◌>>=◌}
use unit.PageTable.Defs.{PageTable}
use unit.PageTable.Entry.{is_valid, is_u, is_r, ppn_to_addr}
use unit.PageTable.Walk.{entry_at, vpn0, vpn1, vpn2, follow, lookup}
use unit.Syscall.Access.{Access, granted, refused, check_page, check_loop, ensure_user_range}
use unit.Syscall.Break.{IsCurrent, current-IsCurrent}
use unit.Syscall.Errors.{linux_error, efault}
use unit.Task.Process.{Process}

-- The entry for a page, read off the memory: at each of the upper levels a valid entry leads on.
abbrev next_table : (ℕ → ℕ) → ℕ → ℕ → Option ℕ
next_table memory table idx =
    let e = memory (entry_at table idx) in if is_valid e then some (ppn_to_addr e) else none

abbrev leaf_behind : Option ℕ → ℕ → Option ℕ
leaf_behind none vaddr = none
leaf_behind (some table) vaddr = some (entry_at table (vpn0 vaddr))

abbrev middle_behind : (ℕ → ℕ) → Option ℕ → ℕ → Option ℕ
middle_behind memory none vaddr = none
middle_behind memory (some table) vaddr = leaf_behind (next_table memory table (vpn1 vaddr)) vaddr

abbrev pub leaf_entry : (ℕ → ℕ) → ℕ → ℕ → Option ℕ
leaf_entry memory root vaddr = middle_behind memory (next_table memory root (vpn2 vaddr)) vaddr

-- A leaf entry that lets user programs read its page.
abbrev readable : (ℕ → ℕ) → Option ℕ → Bool
readable memory none = false
readable memory (some entry) = is_u (memory entry) && is_r (memory entry)

abbrev pub may_read : (ℕ → ℕ) → ℕ → ℕ → Bool
may_read memory root vaddr = readable memory (leaf_entry memory root vaddr)

lookup-leaf_entry :
    (pt : PageTable) (vaddr : ℕ) (k : Kernel)
    → lookup pt vaddr k ≡ returns (leaf_entry k.memory pt.root vaddr) k
unfolding lookup
lookup-leaf_entry pt vaddr k = go (next_table k.memory pt.root (vpn2 vaddr))
  where
    low :
        (t0 : Option ℕ)
        → try t0 (λ table0. pure (some (entry_at table0 (vpn0 vaddr)))) k
          ≡ returns (leaf_behind t0 vaddr) k
    low none = refl
    low (some table0) = refl

    go :
        (t1 : Option ℕ)
        → try t1
            (λ table1. follow table1 (vpn1 vaddr) >>= λ t0.
              try t0 λ table0. pure (some (entry_at table0 (vpn0 vaddr))))
            k
          ≡ returns (middle_behind k.memory t1 vaddr) k
    go none = refl
    go (some table1) = low (next_table k.memory table1 (vpn1 vaddr))

-- The first page of a range of user bytes, and how many pages it touches.
abbrev pub first_page : ℕ → ℕ
first_page ptr = ptr - ptr % 4096

abbrev pub pages : ℕ → ℕ → ℕ
pages ptr len = (ptr % 4096 + len + 4095) / 4096

module _ (k : Kernel) (p : Process) (at : IsCurrent k p) where
  abbrev allowed : ℕ → Bool
  allowed page = may_read k.memory p.page_table.root page

  check_page-allowed : (page : ℕ) → check_page page false k ≡ returns (allowed page) k
  unfolding check_page
  check_page-allowed page =
      rw (current-IsCurrent k p at) (
        rw (lookup-leaf_entry p.page_table page k)
          (go (leaf_entry k.memory p.page_table.root page)))
    where
      go :
          (found : Option ℕ)
          → (elim found as (λ x. Cmd Bool) [
            | none ↦ pure false
            | some entry ↦ load entry >>= λ e. if not (is_u e) then pure false else pure (is_r e)
          ])
              k
            ≡ returns (readable k.memory found) k
      go none = refl
      go (some entry) = ground arith

  -- The pages from `page` on, `n` of them: all may be read and the range is granted, or one may not and
  -- it is refused.
  abbrev pub Checks : ℕ → ℕ → Outcome Access → Type 0
  Checks n page o =
      ((o ≡ returns granted k)
        × ((i : ℕ) → i < n → may_read k.memory p.page_table.root (page + i * 4096) ≡ true))
      ⊎ ((i : ℕ) × (i < n)
          × (may_read k.memory p.page_table.root (page + i * 4096) ≡ false)
          × (o ≡ returns (refused (linux_error efault)) k))

  Checks-more :
      (n page : ℕ) (o : Outcome Access)
      → allowed page ≡ true
      → Checks n (page + 4096) o
      → Checks (suc n) page o
  Checks-more n page o h (inl (e, all)) = inl (e, λ i. more i)
    where
      more : (i : ℕ) → i < suc n → allowed (page + i * 4096) ≡ true
      more zero l = ap allowed (omega arith) ∙ h
      more (suc i) l = ap allowed (omega arith) ∙ all i (omega arith)
  Checks-more n page o h (inr (i, l, no_access, e)) =
      inr (suc i, omega arith, ap allowed (omega arith) ∙ no_access, e)

  check_loop-Checks :
      (m page last : ℕ)
      → last ≡ page + m * 4096
      → last + 4096 ≤ usize_end
      → Checks (suc m) page (check_loop (suc m) last false page k)
  unfolding check_loop
  check_loop-Checks zero page last e h =
      rw (check_page-allowed page) (elim (Bool-cases (allowed page)) [
        | inr bad ↦ rw bad (inr (0, omega arith, ap allowed (omega arith) ∙ bad, refl))
        | inl good ↦ rw good (rw end (inl (refl, only good)))
      ])
    where
      end : leb last page ≡ true
      end = ground arith

      only : allowed page ≡ true → (i : ℕ) → i < 1 → allowed (page + i * 4096) ≡ true
      only good i l = ap allowed (omega arith) ∙ good
  check_loop-Checks (suc m) page last e h =
      let rest = check_loop-Checks m (page + 4096) last (omega arith) h in
      rw (check_page-allowed page) (elim (Bool-cases (allowed page)) [
        | inr bad ↦ rw bad (inr (0, omega arith, ap allowed (omega arith) ∙ bad, refl))
        | inl good ↦ rw good (rw more (rw fits (Checks-more (suc m) page _ good rest)))
      ])
    where
      more : leb last page ≡ false
      more = ground arith

      fits : ltb (page + 4096) usize_end ≡ true
      fits = ground arith

  -- The loop from the first to the last page.
  Checks-range :
      (m page last n : ℕ)
      → last ≡ page + m * 4096
      → n ≡ suc m
      → last + 4096 ≤ usize_end
      → Checks n page (check_loop ((last - page) / 4096 + 1) last false page k)
  Checks-range m page last n e size h =
      let fuel : (last - page) / 4096 + 1 ≡ suc m = omega arith in
      rw (fuel, size) (check_loop-Checks m page last e h)

  Checks-pages :
      (ptr len : ℕ)
      → ptr < usize_end
      → 0 < len
      → ptr + len ≤ usize_end
      → let page = bit_and ptr (bit_not 0xfff) in
        let last = bit_and (ptr + (len - 1)) (bit_not 0xfff) in
        Checks
          (pages ptr len)
          (first_page ptr)
          (check_loop ((last - page) / 4096 + 1) last false page k)
  Checks-pages ptr len bound pos end =
      let e = ptr + (len - 1) in
      rw (bit_and-page_mask ptr bound, bit_and-page_mask e (omega arith))
        (Checks-range ((e - e % 4096 - first_page ptr) / 4096) (first_page ptr) (e - e % 4096)
          (pages ptr len) (omega arith) (omega arith) (omega arith))

  -- A range of user bytes that the kernel is to read, on an address of 64 bits. The empty range is
  -- granted. Another range is refused with EFAULT if it starts at 0, runs past the end of the addresses,
  -- or one of its pages has no leaf entry with the user and the read permission in the page table
  -- of the current process; else it is granted. The state of the kernel does not change.
  pub ensure_user_range-Grants :
      (ptr len : ℕ)
      → ptr < usize_end
      → ((len ≡ 0) × (ensure_user_range ptr len false k ≡ returns granted k))
        ⊎ ((0 < len)
            × ((ptr ≡ 0) ⊎ (usize_end < ptr + len))
            × (ensure_user_range ptr len false k ≡ returns (refused (linux_error efault)) k))
        ⊎ ((0 < len)
            × (0 < ptr)
            × (ptr + len ≤ usize_end)
            × Checks (pages ptr len) (first_page ptr) (ensure_user_range ptr len false k))
  unfolding ensure_user_range
  ensure_user_range-Grants ptr len bound = elim (Bool-cases (len == 0)) [
    | inl empty ↦ rw empty (inl (ground arith, refl))
    | inr some_bytes ↦ rw some_bytes (elim (Bool-cases (ptr == 0)) [
      | inl null ↦ rw null (inr (inl (ground arith, inl (ground arith), refl)))
      | inr start ↦ rw start (elim (Bool-cases (leb usize_end (ptr + (len - 1)))) [
        | inl over ↦ rw over (inr (inl (ground arith, inr (ground arith), refl)))
        | inr fits ↦ rw fits (
            inr (
              inr (
                ground arith,
                ground arith,
                ground arith,
                Checks-pages ptr len bound (ground arith) (ground arith),
              )))
      ])
    ])
  ]
