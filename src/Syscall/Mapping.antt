-- ===== src/Syscall/Mapping.antt =====
-- What `sys_mmap` of kernel/src/syscall.rs does to the table of areas of the current process.
use unit.Base.{
  ℕ, ◌+◌, ◌-◌, ◌%◌, ◌<◌, ◌≡◌, Bool, true, false, not, none, some, arith, if◌then◌else◌, set, test,
  List, ◌⊎◌, inl, inr, Bool-cases, Option-cases, refl, usize_end, dec_lt,
}
use unit.Kernel.{
  Kernel, Outcome, returns, panics, resumes, shuts_down, diverges, and_then, pure, ◌>>◌,
}
use unit.Kernel.Steady.{Steady, SameTasks}
use unit.Mmap.{page_size, pte_flags_from_prot, choose_mmap_addr, find_free_mmap_slot}
use unit.Mmap.Area.{ceil, checked_align_up-ceil}
use unit.Mmap.Hint.{IsPlace, Chooses, choose_mmap_addr-Chooses, choose_mmap_addr_overflow}
use unit.Mmap.Mapped.{mapped, weight}
use unit.Mmap.Table.{IsTable, added, IsTable-added, mapped-added}
use unit.Syscall.Break.{IsCurrent, current-IsCurrent}
use unit.Syscall.Errors.{linux_error, einval, enosys, enomem}
use unit.Syscall.Memory.{
  unsupported, store_area, place_mapping, choose_and_place, rounded_len, sys_mmap,
}
use unit.Syscall.Pages.{map_zeroed_user_pages}
use unit.Syscall.Steady.{map_zeroed_user_pages-IsSteady}
use unit.Task.Process.{Process, MmapArea}
use unit.Task.Scheduler.{current}

-- A length that is accepted is rounded up to whole pages.
pub rounded_len-some : (len l : ℕ) → rounded_len len ≡ some l → (l ≡ ceil len) × (0 < l)
unfolding rounded_len
rounded_len-some len l h = ground (arith, checked_align_up-ceil len)

-- The error numbers that `mmap` reports.
abbrev pub IsMmapError : ℕ → Type 0
IsMmapError errno = (errno ≡ einval) ⊎ (errno ≡ enosys) ⊎ (errno ≡ enomem)

-- The state `j` in which just the table of the current process is another: `areas`.
abbrev pub HasTable : Kernel → Process → Kernel → List MmapArea → Type 0
HasTable k p j areas =
    (j.process_list ≡ set k.process_list k.current (some (record p { mmap_areas = areas })))
    × (j.current ≡ k.current)
    × (j.next_pid ≡ k.next_pid)
    × IsTable areas

-- How a call for `len` bytes, a whole number of pages, ends: with a panic, an error that changes no
-- process, or the start of a free place of the region, which the new table records in addition, and a memory
-- of which `Holds` holds.
abbrev pub AddsMapping : Kernel → Process → ℕ → ℕ → ℕ → (ℕ → (ℕ → ℕ) → Type 0) → Outcome ℕ → Type 0
AddsMapping k p len prot flags Holds o =
    (o ≡ panics)
    ⊎ ((errno : ℕ) × (j : Kernel) × (o ≡ returns (linux_error errno) j)
        × IsMmapError errno
        × SameTasks k j)
    ⊎ ((start : ℕ) × (j : Kernel) × (areas : List MmapArea) × (o ≡ returns start j)
        × IsPlace p.mmap_areas len start
        × HasTable k p j areas
        × ((a : ℕ) (sel : ℕ → ℕ → Bool)
            → mapped a sel areas
              ≡ mapped a sel p.mmap_areas + weight a sel (added start len prot flags))
        × Holds start j.memory)

module _ (k : Kernel) (p : Process) (prot flags : ℕ) (at : IsCurrent k p)
    (t : IsTable p.mmap_areas) where
  module _ (len : ℕ) (al : len % 4096 ≡ 0) (pos : 0 < len) (pte : ℕ) (Holds : ℕ → (ℕ → ℕ) → Type 0)
      (holds : (start : ℕ) (j : Kernel)
        → IsPlace p.mmap_areas len start
        → map_zeroed_user_pages start (start + len) pte k ≡ returns true j
        → Holds start j.memory) where
    module _ (start : ℕ) (place : IsPlace p.mmap_areas len start) (slot : ℕ)
        (e : find_free_mmap_slot p.mmap_areas ≡ some slot) where
      abbrev new : MmapArea
      new = added start len prot flags

      AddsMapping-store_area :
          (j : Kernel)
          → SameTasks k j
          → Holds start j.memory
          → AddsMapping k p len prot flags Holds
              (and_then (store_area slot new j) (λ _. pure start))
      unfolding store_area current
      AddsMapping-store_area j s m = inr (
          inr (
            start,
            record j {
              process_list =
                  set k.process_list k.current
                    (some (record p { mmap_areas = set p.mmap_areas slot new }));
            },
            set p.mmap_areas slot new,
            ground (arith, s),
            place,
            (refl, s.1, s.2, IsTable-added p.mmap_areas slot start len prot flags t e place al pos),
            mapped-added p.mmap_areas slot start len prot flags t e place al pos,
            m,
          ))

      AddsMapping-pages :
          (o : Outcome Bool)
          → Steady k o
          → ((j : Kernel) → o ≡ returns true j → Holds start j.memory)
          → AddsMapping k p len prot flags Holds (
              and_then o (λ done.
                if not done
                then pure (linux_error enomem)
                else (store_area slot new >> pure start)))
      AddsMapping-pages (returns true j) s m = AddsMapping-store_area j s (m j refl)
      AddsMapping-pages (returns false j) s m = inr (inl (enomem, j, refl, inr (inr refl), s))
      AddsMapping-pages panics s m = inl refl
      AddsMapping-pages (resumes j) s m = absurd s
      AddsMapping-pages (shuts_down j) s m = absurd s
      AddsMapping-pages diverges s m = absurd s

    AddsMapping-place_mapping :
        (start : ℕ)
        → IsPlace p.mmap_areas len start
        → AddsMapping k p len prot flags Holds (place_mapping start len prot flags pte k)
    unfolding place_mapping
    AddsMapping-place_mapping start place =
        rw (current-IsCurrent k p at) (elim (Option-cases (find_free_mmap_slot p.mmap_areas)) [
          | inl full ↦
              rw (and_then, full)
                (inr (inl (enomem, k, refl, inr (inr refl), (refl, refl, refl, refl))))
          | inr (slot, e) ↦
              rw (and_then, e)
                (AddsMapping-pages start place slot e
                  (map_zeroed_user_pages start (start + len) pte k)
                  ((map_zeroed_user_pages-IsSteady start (start + len) pte).run k)
                  (λ j. holds start j place))
        ])

    AddsMapping-choose_and_place :
        (addr : ℕ)
        → AddsMapping k p len prot flags Holds (choose_and_place addr len prot flags pte k)
    unfolding choose_and_place current
    AddsMapping-choose_and_place addr = rw at (elim (dec_lt (addr + 4096) usize_end) [
      | yes h ↦
          go (choose_mmap_addr-Chooses p.mmap_areas addr len k t.each (omega (arith, t.size)) h)
      | no h ↦ rw (choose_mmap_addr_overflow p.mmap_areas addr len k (omega arith)) (inl refl)
    ])
      where
        go :
            Chooses p.mmap_areas len k (choose_mmap_addr p.mmap_areas addr len k)
            → AddsMapping k p len prot flags Holds (
                and_then (choose_mmap_addr p.mmap_areas addr len k) (λ chosen. elim chosen [
                  | none ↦ pure (linux_error enomem)
                  | some start ↦ place_mapping start len prot flags pte
                ]))
        go (inl (c, e, place)) = rw e (AddsMapping-place_mapping c place)
        go (inr e) = rw e (inr (inl (enomem, k, refl, inr (inr refl), (refl, refl, refl, refl))))

  module _ (len : ℕ) (Holds : ℕ → (ℕ → ℕ) → Type 0)
      (holds : (pte start : ℕ) (j : Kernel)
        → pte_flags_from_prot prot ≡ some pte
        → IsPlace p.mmap_areas (ceil len) start
        → map_zeroed_user_pages start (start + ceil len) pte k ≡ returns true j
        → Holds start j.memory) where
    pub sys_mmap-AddsAreas :
        (addr fd offset : ℕ)
        → AddsMapping k p (ceil len) prot flags Holds (sys_mmap addr len prot flags fd offset k)
    unfolding sys_mmap
    sys_mmap-AddsAreas addr fd offset = elim (Option-cases (rounded_len len)) [
      | inl e ↦ rw (sys_mmap, e) (fails einval (inl refl))
      | inr (l, e) ↦
          let (same, pos) = rounded_len-some len l e in
          rw (sys_mmap, e)
            (elim (Bool-cases (test offset (page_size - 1))) [
              | inl odd ↦ rw odd (fails einval (inl refl))
              | inr even ↦ rw even (elim (Bool-cases (unsupported flags)) [
                | inl bad ↦ rw bad (fails enosys (inr (inl refl)))
                | inr good ↦ rw good (elim (Option-cases (pte_flags_from_prot prot)) [
                  | inl wrong ↦ rw wrong (fails einval (inl refl))
                  | inr (pte, right) ↦
                      rw (right, same)
                        (AddsMapping-choose_and_place (ceil len) (omega arith) (omega arith) pte
                          Holds (λ start j. holds pte start j right) addr)
                ])
              ])
            ])
    ]
      where
        fails :
            (errno : ℕ)
            → IsMmapError errno
            → AddsMapping k p (ceil len) prot flags Holds (returns (linux_error errno) k)
        fails errno r = inr (inl (errno, k, refl, r, (refl, refl, refl, refl)))
