-- ===== src/Mmap/Area.antt =====
-- Well-formed areas, page rounding, and tests on ranges.
use unit.Base.{
  ℕ, ◌+◌, ◌-◌, ◌*◌, ◌/◌, ◌%◌, ◌≤◌, ◌<◌, ◌≡◌, true, none, some, if◌then◌else◌, ltb, usize_end, List,
  [], ◌∷◌, arith, bit_and-page_mask, ◌↔◌,
}
use unit.Kernel.{Kernel, returns}
use unit.Mmap.{align_up, checked_align_up, ranges_overlap}
use unit.Task.Process.{MmapArea, end_of, user_mmap_start, user_mmap_limit}

-- Whole pages, at least one, inside the region for mappings.
pub record IsArea (area : MmapArea) : Type 0 where
  pub start_aligned : area.start % 4096 ≡ 0
  pub len_aligned : area.len % 4096 ≡ 0
  pub nonempty : 0 < area.len
  pub above : user_mmap_start ≤ area.start
  pub below : end_of area ≤ user_mmap_limit

-- Every used area of the table is one.
abbrev pub AreAreas : List MmapArea → Type 0
AreAreas [] = Unit
AreAreas (area ∷ areas) = (area.used ≡ true → IsArea area) × AreAreas areas

-- The next multiple of the page size.
abbrev pub ceil : ℕ → ℕ
ceil a = (a + 4095) / 4096 * 4096

pub align_up-ceil : (a : ℕ) (k : Kernel) → a + 4096 < usize_end → align_up a k ≡ returns (ceil a) k
unfolding align_up
align_up-ceil a k h = ground (arith, bit_and-page_mask (a + 4096 - 1))

pub checked_align_up-ceil :
    (a : ℕ) → checked_align_up a ≡ (if ltb (a + 4095) usize_end then some (ceil a) else none)
unfolding checked_align_up
checked_align_up-ceil a = ground (arith, bit_and-page_mask (a + 4095))

pub overlap_iff : (a b c d : ℕ) → (ranges_overlap a b c d ≡ true) ↔ ((a < d) × (c < b))
unfolding ranges_overlap
overlap_iff a b c d = ground arith
