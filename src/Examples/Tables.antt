-- ===== src/Examples/Tables.antt =====
-- The theorem on `map` (kernel/src/mm/page_table.rs), for a page whose tables are still missing.
use unit.Base.{
  ◌+◌, ◌*◌, ◌/◌, ◌%◌, ◌^◌, ◌∙◌, ap, sym, Bool-cases, inl, inr, ℕ, ◌<◌, ◌≡◌, ◌≢◌, ◌&&◌, ◌==◌,
  if◌then◌else◌, leb, true, false, refl, [], ◌∷◌, arith,
}
use unit.Frame.FreeList.{IsAllocator}
use unit.Kernel.{Kernel}
use unit.PageTable.Defs.{PageTable}
use unit.PageTable.Entry.{new_leaf, is_valid, ppn_to_addr}
use unit.PageTable.Walk.{map, map_leaf, init_kernel, unmap, lookup, walk, vpn1, vpn2}
use unit.PageTable.Walk.Canonical.{lookup-low}
use unit.PageTable.Walk.Mapping.{
  IsPath, MapsPage, root_entry, middle, map-MapsPage, vpn1-bound, vpn2-bound, zero_invalid,
}
use unit.PageTable.Entry
use unit.PageTable.Walk.Descend.{InUse}
use unit.PageTable.Walk.Tree.{HasTables, last, HasMiddle, IsTree}
use unit.PageTable.Walk.Pages.{same_page-floor}
use unit.PageTable.Walk.Translation.{
  same_page, Updates, leaf_entry, map_leaf-Updates, unmap-Updates,
}
use unit.PageTable.Walk.Init.{Inits, init_kernel-Inits}
use unit.Frame.{ram_base}
use unit.Examples.Data.{sample, sample-IsAllocator, page_free, page_shared, page_tables}

abbrev tables : PageTable
tables = record { root = page_tables }

-- The root entry of the page is 0.
root_missing : is_valid (sample.memory (root_entry tables 0x4000_0000)) ≡ false
unfolding is_valid vpn2
root_missing = refl

sample-IsPath : IsPath sample tables 0x4000_0000
sample-IsPath = record {
  root = ((omega arith, omega arith, refl), omega arith);
  second = λ h. absurd (ground (arith, root_missing));
  third = λ h. absurd (ground (arith, root_missing));
}

map-MapsPage_example :
    MapsPage sample tables 0x4000_0000
      (new_leaf page_shared 23)
      (map tables 0x4000_0000 page_shared 23 sample)
map-MapsPage_example =
    map-MapsPage sample tables 0x4000_0000 page_shared 23 sample-IsPath (page_free ∷ [])
      sample-IsAllocator

-- The page at 0 has an entry in force behind the tables at 0x8000_3000 and 0x8000_4000.
abbrev pub three_levels : Kernel
three_levels = record sample {
  memory = λ a.
      if a == page_tables
      then 0x2000_0c01
      else if a == 0x8000_3000
      then 0x2000_1001
      else if a == 0x8000_4000
      then 0x2000_0013
      else 0;
  next_frame = 0x8000_5000;
  frame_refs = λ i. if i == 0 then 2 else if leb 2 i && leb i 4 then 1 else 0;
}

pub three_levels-IsAllocator : IsAllocator three_levels (page_free ∷ [])
three_levels-IsAllocator = record {
  chain = (refl, (omega arith, omega arith, refl), omega arith, refl, refl, refl);
  aligned = refl;
  above = omega arith;
  below = omega arith;
  fresh = λ pa lo hi. ground arith;
}

-- Which pages have tables in `three_levels`.
root_words : (q : ℕ) → q < 512 → q ≢ 0 → three_levels.memory (page_tables + q * 8) ≡ 0
root_words q h ne = ground arith

middle_words : (q : ℕ) → q < 512 → q ≢ 0 → three_levels.memory (0x8000_3000 + q * 8) ≡ 0
middle_words q h ne = ground arith

first_gigabyte : (va : ℕ) → HasMiddle three_levels tables va → vpn2 va ≡ 0
first_gigabyte va h = elim (Bool-cases (vpn2 va == 0)) [
  | inl is ↦ ground arith
  | inr other ↦
      let word = root_words (vpn2 va) (vpn2-bound va) (λ e. ground (arith, e)) in
      let invalid = ap is_valid word ∙ zero_invalid in absurd (cc)
]

middle_at : (va : ℕ) → vpn2 va ≡ 0 → middle three_levels tables va ≡ 0x8000_3000
unfolding ppn_to_addr
middle_at va e = ap (λ (q : ℕ). ppn_to_addr (three_levels.memory (page_tables + q * 8))) e

first_table :
    (va : ℕ)
    → HasTables three_levels tables va
    → (vpn2 va ≡ 0) × (vpn1 va ≡ 0) × (last three_levels tables va ≡ 0x8000_4000)
unfolding ppn_to_addr
first_table va h = elim (Bool-cases (vpn1 va == 0)) [
  | inl is ↦
      let low = first_gigabyte va h.0 in
      let zero : vpn1 va ≡ 0 = ground arith in
      (
        low,
        zero,
        ap (λ (m : ℕ). ppn_to_addr (three_levels.memory (m + vpn1 va * 8))) (middle_at va low)
            ∙ ap (λ (q : ℕ). ppn_to_addr (three_levels.memory (0x8000_3000 + q * 8))) zero,
      )
  | inr other ↦
      let word = middle_words (vpn1 va) (vpn1-bound va) (λ e. ground (arith, e)) in
      let at =
        ap (λ (m : ℕ). three_levels.memory (m + vpn1 va * 8))
          (middle_at va (first_gigabyte va h.0)) in
      let invalid = ap is_valid (at ∙ word) ∙ zero_invalid in let there = h.1 in absurd (cc)
]

middle_in_use : (InUse three_levels 0x8000_3000) × (◌≢◌ {A = ℕ} 0x8000_3000 page_tables)
middle_in_use = (((omega arith, omega arith, refl), omega arith), omega arith)

pub three_levels-IsTree : IsTree three_levels tables
three_levels-IsTree = record {
  path = λ va. record {
    root = ((omega arith, omega arith, refl), omega arith);
    second = λ h. rw (middle_at va (first_gigabyte va h)) middle_in_use;
    third = λ h h'. third va (first_table va (h, h'));
  };
  middles = λ v w a b e. first_gigabyte v a ∙ sym (first_gigabyte w b);
  not_middle = λ v w a b e. omega (arith, e, (first_table v a).2, middle_at w (first_gigabyte w b));
  lasts = λ v w a b e.
      let p = first_table v a in let q = first_table w b in (p.0 ∙ sym q.0, p.1 ∙ sym q.1);
}
  where
    third :
        (va : ℕ)
        → (vpn2 va ≡ 0) × (vpn1 va ≡ 0) × (last three_levels tables va ≡ 0x8000_4000)
        → InUse three_levels (last three_levels tables va)
          × (last three_levels tables va ≢ page_tables)
          × (last three_levels tables va ≢ middle three_levels tables va)
    third va (low, zero, at) = rw at (
      ((omega arith, omega arith, refl), omega arith),
      omega arith,
      λ e. omega (arith, e, middle_at va low),
    )

map_leaf-Updates_example :
    Updates three_levels tables 0x20_1000
      (leaf_entry page_shared 23 true)
      false
      true
      (map_leaf tables 0x20_1000 page_shared 23 true three_levels)
map_leaf-Updates_example =
    map_leaf-Updates three_levels tables 0x20_1000 page_shared 23 true (page_free ∷ [])
      three_levels-IsTree three_levels-IsAllocator

unmap-Updates_example :
    Updates three_levels tables 0 Entry.empty tt tt (unmap tables 0 three_levels)
unmap-Updates_example =
    unmap-Updates three_levels tables 0 (page_free ∷ []) three_levels-IsTree
      three_levels-IsAllocator

-- The last word of one page, and the first word of the next.
same_page-floor_example :
    same_page 0x4020_1ff8 0x4020_2000 ≡ (0x4020_1ff8 % 2 ^ 39 / 4096 == 0x4020_2000 % 2 ^ 39 / 4096)
same_page-floor_example = same_page-floor 0x4020_1ff8 0x4020_2000

init_kernel-Inits_example : Inits sample (page_free ∷ []) (init_kernel ram_base sample)
init_kernel-Inits_example = init_kernel-Inits sample (page_free ∷ []) sample-IsAllocator

lookup-low_example :
    (lookup tables 0x8000_0000_4000_0000 sample ≡ lookup tables 0x4000_0000 sample)
    × (walk tables 0x8000_0000_4000_0000 sample ≡ walk tables 0x4000_0000 sample)
lookup-low_example = lookup-low tables 0x8000_0000_4000_0000 sample
