-- ===== src/Syscall/Unmapping.antt =====
-- What `sys_munmap` of kernel/src/syscall.rs does to the table of areas of the current process.
use unit.Base.{
  ℕ, ◌+◌, ◌-◌, ◌%◌, ◌≤◌, ◌≡◌, Bool, true, false, ◌&&◌, ◌||◌, some, ltb, leb, arith, if◌then◌else◌,
  set, test, List, ◌⊎◌, inl, inr, Bool-cases, Option-cases, refl, usize_end,
}
use unit.Base.Bits.{bit_and-low}
use unit.Kernel.{
  Kernel, Outcome, returns, panics, resumes, shuts_down, diverges, and_then, pure, ◌>>◌, ◌>>=◌,
  expect,
}
use unit.Kernel.Steady.{Steady, SameTasks}
use unit.Mmap.{page_size, can_split_mmap_range, remove_mmap_range}
use unit.Mmap.Area.{ceil}
use unit.Mmap.Mapped.{mapped}
use unit.Mmap.Remove.{remove_mmap_range-mapped}
use unit.Mmap.Table.{IsTable, IsTable-removed}
use unit.Syscall.Break.{IsCurrent, current-IsCurrent}
use unit.Syscall.Errors.{linux_error, einval, enomem}
use unit.Syscall.Mapping.{HasTable, rounded_len-some}
use unit.Syscall.Memory.{rounded_len, remove_mapping, sys_munmap}
use unit.Syscall.Pages.{unmap_user_pages}
use unit.Syscall.Steady.{unmap_user_pages-IsSteady}
use unit.Task.Process.{Process, MmapArea, user_mmap_start, user_mmap_limit}
use unit.Task.Scheduler.{current, store_current}

-- How `munmap` of the addresses from `start` to `end` ends: with a panic, an error that changes
-- nothing, or 0 and a table without the range.
abbrev pub DropsMapping : Kernel → Process → ℕ → ℕ → Outcome ℕ → Type 0
DropsMapping k p start end o =
    (o ≡ panics)
    ⊎ ((errno : ℕ) × (o ≡ returns (linux_error errno) k) × ((errno ≡ einval) ⊎ (errno ≡ enomem)))
    ⊎ ((j : Kernel) × (areas : List MmapArea) × (o ≡ returns 0 j)
        × HasTable k p j areas
        × ((a : ℕ) (sel : ℕ → ℕ → Bool)
            → mapped a sel areas
              ≡ (if leb start a && ltb a end then 0 else mapped a sel p.mmap_areas)))

aligned_of_test : (a : ℕ) → test a (page_size - 1) ≡ false → a % 4096 ≡ 0
aligned_of_test a h = ground (arith, bit_and-low 12 a)

module _ (k : Kernel) (p : Process) (at : IsCurrent k p) (t : IsTable p.mmap_areas) where
  module _ (start end : ℕ) (als : start % 4096 ≡ 0) (ale : end % 4096 ≡ 0) (ordered : start ≤ end)
      (fits : can_split_mmap_range start end p.mmap_areas ≡ true) where
    DropsMapping-stored :
        (j : Kernel)
        → SameTasks k j
        → DropsMapping k p start end (
            and_then (current j) (λ cur.
              expect (remove_mmap_range start end cur.mmap_areas) >>= λ areas.
              store_current (record cur { mmap_areas = areas }) >> pure 0))
    DropsMapping-stored j s =
        let (out, e, len, same) = remove_mmap_range-mapped start end p.mmap_areas ordered fits in
        rw (current-IsCurrent j p (ground (arith, s))) (
          rw (and_then, e)
            (inr (
              inr (
                record j {
                  process_list =
                      set k.process_list k.current (some (record p { mmap_areas = out }));
                },
                out,
                ground (arith, s),
                (
                  refl,
                  s.1,
                  s.2,
                  IsTable-removed start end p.mmap_areas out als ale ordered t fits e,
                ),
                same,
              ))))

    DropsMapping-unmapped :
        (o : Outcome (Unit {0}))
        → Steady k o
        → DropsMapping k p start end (
            and_then o (λ _. current >>= λ cur.
            expect (remove_mmap_range start end cur.mmap_areas) >>= λ areas.
            store_current (record cur { mmap_areas = areas }) >> pure 0))
    DropsMapping-unmapped (returns u j) s = DropsMapping-stored j s
    DropsMapping-unmapped panics s = inl refl
    DropsMapping-unmapped (resumes j) s = absurd s
    DropsMapping-unmapped (shuts_down j) s = absurd s
    DropsMapping-unmapped diverges s = absurd s

    DropsMapping-remove_mapping : DropsMapping k p start end (remove_mapping start end k)
    unfolding remove_mapping
    DropsMapping-remove_mapping =
        DropsMapping-unmapped (unmap_user_pages start end k)
          ((unmap_user_pages-IsSteady start end).run k)

  -- The length as `sys_munmap` has it.
  DropsMapping-removed :
      (addr l len : ℕ)
      → addr % 4096 ≡ 0
      → l ≡ ceil len
      → can_split_mmap_range addr (addr + l) p.mmap_areas ≡ true
      → DropsMapping k p addr (addr + ceil len) (remove_mapping addr (addr + l) k)
  DropsMapping-removed addr l len al same fits =
      rw (← same)
        (DropsMapping-remove_mapping addr (addr + l) al (omega (arith, same)) (omega arith) fits)

  -- Where the table of areas of the current process is well formed, `sys_munmap` ends. It panics, reports EINVAL
  -- or ENOMEM and changes nothing, or gives 0; then the table of the current process records no address of the
  -- range, rounded up to whole pages, any more, and every other address as before with its protection and flags,
  -- is well formed, and is all that changed in the list of processes. What the page tables then hold is not
  -- stated here.
  pub sys_munmap-DropsMapping :
      (addr len : ℕ) → DropsMapping k p addr (addr + ceil len) (sys_munmap addr len k)
  unfolding sys_munmap
  sys_munmap-DropsMapping addr len = elim (Bool-cases (test addr (page_size - 1))) [
    | inl odd ↦ rw (sys_munmap, odd) (fails einval (inl refl))
    | inr even ↦ elim (Option-cases (rounded_len len)) [
      | inl e ↦ rw (sys_munmap, even, e) (fails einval (inl refl))
      | inr (l, e) ↦
          let (same, pos) = rounded_len-some len l e in
          let al = aligned_of_test addr even in
          rw (sys_munmap, even, e)
            (elim (Bool-cases (leb usize_end (addr + l))) [
              | inl over ↦ rw over (fails einval (inl refl))
              | inr fits ↦
                  rw fits
                    (elim (Bool-cases
                      (ltb addr user_mmap_start || ltb user_mmap_limit (addr + l))) [
                        | inl out ↦ rw out (fails einval (inl refl))
                        | inr inside ↦ rw inside (
                            rw (current-IsCurrent k p at)
                              (elim (Bool-cases
                                (can_split_mmap_range addr (addr + l) p.mmap_areas)) [
                                  | inr full ↦ rw (and_then, full) (fails enomem (inr refl))
                                  | inl room ↦
                                      rw (and_then, room)
                                        (DropsMapping-removed addr l len al same room)
                                ]))
                      ])
            ])
    ]
  ]
    where
      fails :
          (errno : ℕ)
          → (errno ≡ einval) ⊎ (errno ≡ enomem)
          → DropsMapping k p addr (addr + ceil len) (returns (linux_error errno) k)
      fails errno r = inr (inl (errno, refl, r))
