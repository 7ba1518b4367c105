-- ===== src/Examples/Areas.antt =====
-- The theorems on `mmap` and `munmap` (kernel/src/syscall.rs), on a small table of areas.
use unit.Base.{ℕ, ◌≡◌, Bool, true, ◌&&◌, leb, ltb, refl, some, List, if◌then◌else◌, arith, length}
use unit.Kernel.{panics}
use unit.Mmap.{
  remove_mmap_range, can_split_mmap_range, find_mmap_gap, choose_mmap_addr, ranges_overlap,
}
use unit.Mmap.Area.{AreAreas}
use unit.Mmap.Gap.{FindsGap, find_mmap_gap-FindsGap}
use unit.Mmap.Hint.{Chooses, choose_mmap_addr-Chooses, choose_mmap_addr_overflow}
use unit.Mmap.Mapped.{mapped}
use unit.Mmap.Remove.{remove_mmap_range-mapped}
use unit.Task.Process.{MmapArea}
use unit.Examples.Data.{sample, two_areas}

two_areas-AreAreas : AreAreas two_areas
two_areas-AreAreas = (
  λ h. record {
    start_aligned = refl;
    len_aligned = refl;
    nonempty = omega arith;
    above = omega arith;
    below = omega arith;
  },
  (λ h. absurd (cc), tt),
)

can_split_middle : can_split_mmap_range 0x3e00_1000 0x3e00_2000 two_areas ≡ true
unfolding can_split_mmap_range ranges_overlap
can_split_middle = refl

-- The middle page of three goes.
remove_mmap_range-mapped_example :
    (out : List MmapArea) × (remove_mmap_range 0x3e00_1000 0x3e00_2000 two_areas ≡ some out)
    × (length out ≡ 2)
    × ((a : ℕ) (sel : ℕ → ℕ → Bool)
        → mapped a sel out
          ≡ (if leb 0x3e00_1000 a && ltb a 0x3e00_2000 then 0 else mapped a sel two_areas))
remove_mmap_range-mapped_example =
    remove_mmap_range-mapped 0x3e00_1000 0x3e00_2000 two_areas (omega arith) can_split_middle

find_mmap_gap-FindsGap_example :
    FindsGap two_areas 0x1000 sample (find_mmap_gap two_areas 0x1000 sample)
find_mmap_gap-FindsGap_example =
    find_mmap_gap-FindsGap two_areas 0x1000 sample two_areas-AreAreas (omega arith)

choose_mmap_addr-Chooses_example :
    Chooses two_areas 0x1000 sample (choose_mmap_addr two_areas 0x3e00_0001 0x1000 sample)
choose_mmap_addr-Chooses_example =
    choose_mmap_addr-Chooses two_areas 0x3e00_0001 0x1000 sample two_areas-AreAreas (omega arith)
      (omega arith)

choose_mmap_addr_overflow_example :
    choose_mmap_addr two_areas 0xffff_ffff_ffff_f000 0x1000 sample ≡ panics
choose_mmap_addr_overflow_example =
    choose_mmap_addr_overflow two_areas 0xffff_ffff_ffff_f000 0x1000 sample (omega arith)
