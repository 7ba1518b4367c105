-- ===== src/PageTable/Walk/Translation.antt =====
-- `map` and `map_cow` of kernel/src/mm/page_table.rs as updates of the function from pages to entries
-- that a page table stands for.
use unit.Base.{
  ℕ, ◌≤◌, ◌+◌, ◌*◌, ◌≡◌, ◌≢◌, ◌==◌, ◌&&◌, if◌then◌else◌, Bool, Bool-cases, inl, inr, ◌⊎◌, true,
  false, List, [], Option, none, some, arith, refl, ap, ◌∙◌,
}
use unit.Frame.{ram_end}
use unit.Frame.FreeList.{IsAllocator, IsAllocator-memory}
use unit.Kernel.{Kernel, Outcome, returns, update, and_then, pure, store, ◌>>◌}
use unit.PageTable.Defs.{PageTable}
use unit.PageTable.Entry.{new_leaf, set_cow}
use unit.PageTable.Entry
use unit.PageTable.Walk.{vpn0, vpn1, vpn2, walk, write_leaf, map_leaf, unmap}
use unit.PageTable.Walk.Descend.{InUse}
use unit.PageTable.Walk.Mapping.{root_entry, middle_entry, vpn0-bound, vpn1-bound, vpn2-bound}
use unit.PageTable.Walk.Tree.{
  last, leaf, HasTables, SamePage, IsTree, in_force, translate, translate-HasTables, SameTables,
  SameLeaf, translate-SameTables, after-HasTables, same_last, IsTree-SameTables,
}
use unit.PageTable.Walk.Walking.{Walks, walk-Walks}

-- Two addresses of one page, as far as the three levels can tell.
abbrev pub same_page : ℕ → ℕ → Bool
same_page va vb = (vpn2 va == vpn2 vb) && (vpn1 va == vpn1 vb) && (vpn0 va == vpn0 vb)

pub translate-SamePage :
    (k : Kernel) (pt : PageTable) (va vb : ℕ)
    → SamePage va vb
    → translate k pt vb ≡ translate k pt va
unfolding translate
translate-SamePage k pt va vb (e2, e1, e0) = rw (e2, e1, e0) refl

-- The entry `e` is written for a page whose tables are there.
module _ (k : Kernel) (pt : PageTable) (va e : ℕ) (mem : ℕ → ℕ) (t : IsTree k pt)
    (h : HasTables k pt va) (here : mem (leaf k pt va) ≡ e)
    (elsewhere : (b : ℕ) → b ≢ leaf k pt va → mem b ≡ k.memory b) where
  abbrev written : Kernel
  written = record k { memory = mem }

  home : InUse k (last k pt va)
  home = ((t.path va).third h.0 h.1).0

  written-SameTables : (vb : ℕ) → SameTables k written pt vb
  written-SameTables vb =
      let p = t.path vb in
      record {
        root_word = elsewhere (root_entry pt vb) λ d.
            ((t.path va).third h.0 h.1).1
              (omega (arith, d, home.0, p.root.0, vpn0-bound va, vpn2-bound vb));
        middle_word = λ m. elsewhere (middle_entry k pt vb) λ d.
            t.not_middle va vb h m
              (omega (arith, d, home.0, (p.second m).0.0, vpn0-bound va, vpn1-bound vb));
      }

  written-SameLeaf : (vb : ℕ) → ¬ SamePage va vb → SameLeaf k written pt vb
  written-SameLeaf vb differ g = elsewhere (leaf k pt vb) λ d.
      let there = ((t.path vb).third g.0 g.1).0 in
      let table : last k pt va ≡ last k pt vb =
        omega (arith, d, home.0, there.0, vpn0-bound va, vpn0-bound vb) in
      let way = t.lasts va vb h g table in differ (way.0, way.1, omega (arith, d, table))

  written-IsTree : IsTree written pt
  written-IsTree = IsTree-SameTables k written pt written-SameTables (λ s u. u) t

  written-IsAllocator : (free : List ℕ) → IsAllocator k free → IsAllocator written free
  written-IsAllocator free v =
      IsAllocator-memory k mem free v
        (λ f hf unused. elsewhere f λ d. ground (arith, d, home, vpn0-bound va))

  written_here : translate written pt va ≡ in_force e
  written_here =
      let w = written-SameTables va in
      translate-HasTables written pt va (after-HasTables k written pt va w h)
      ∙ ap (λ (s : ℕ). in_force (mem (s + vpn0 va * 8))) (same_last k written pt va w h.0)
      ∙ ap in_force here

  written-translate :
      (vb : ℕ)
      → translate written pt vb ≡ (if same_page va vb then in_force e else translate k pt vb)
  written-translate vb = elim (Bool-cases (same_page va vb)) [
    | inl same ↦ rw same (
        translate-SamePage written pt va vb (ground arith, ground arith, ground arith)
        ∙ written_here)
    | inr other ↦ rw other (
        translate-SameTables k written pt vb (written-SameTables vb)
          (written-SameLeaf vb (λ s. ground (arith, s.0, s.1, s.2))))
  ]

-- How a change of a page's entry ends: with `done`, and the page has the entry `e`, and every other page
-- the entry that it had; or with `failed`, as no frame was left for a table, and every page has the entry that
-- it had. The tables stay a tree and the allocator well formed.
abbrev pub Updates : {A : Type 0} → Kernel → PageTable → ℕ → ℕ → A → A → Outcome A → Type 0
Updates k pt va e failed done o =
    ((j : Kernel) × (o ≡ returns failed j)
      × IsAllocator j []
      × (ram_end ≤ j.next_frame)
      × IsTree j pt
      × ((vb : ℕ) → translate j pt vb ≡ translate k pt vb))
    ⊎ ((j : Kernel) × (free : List ℕ) × (o ≡ returns done j)
        × IsAllocator j free
        × IsTree j pt
        × ((vb : ℕ)
            → translate j pt vb ≡ (if same_page va vb then in_force e else translate k pt vb)))

-- The entry that `map_leaf` writes.
abbrev pub leaf_entry : ℕ → ℕ → Bool → ℕ
leaf_entry pa f cow = if cow then set_cow (new_leaf pa f) else new_leaf pa f

Updates-written :
    (k j : Kernel) (pt : PageTable) (va e : ℕ) (mem : ℕ → ℕ) (free : List ℕ) {A : Type 0}
    (failed done : A) (o : Outcome A)
    → o ≡ returns done (record j { memory = mem })
    → IsAllocator j free
    → IsTree j pt
    → HasTables j pt va
    → mem (leaf j pt va) ≡ e
    → ((b : ℕ) → b ≢ leaf j pt va → mem b ≡ j.memory b)
    → ((vb : ℕ) → translate j pt vb ≡ translate k pt vb)
    → Updates k pt va e failed done o
Updates-written k j pt va e mem free failed done o out v t h here elsewhere same = inr (
  written j pt va e mem t h here elsewhere,
  free,
  out,
  written-IsAllocator j pt va e mem t h here elsewhere free v,
  written-IsTree j pt va e mem t h here elsewhere,
  λ vb.
      written-translate j pt va e mem t h here elsewhere vb
      ∙ ap (λ (r : Option ℕ). if same_page va vb then in_force e else r) (same vb),
)

Updates-write_leaf :
    (k : Kernel) (pt : PageTable) (va pa f : ℕ) (cow : Bool) (o : Outcome (Option ℕ))
    → Walks k pt va o
    → Updates k pt va (leaf_entry pa f cow) false true (
        and_then o (λ found. elim found [
          | none ↦ pure false
          | some entry ↦ do write_leaf entry pa f cow; pure true
        ]))
unfolding write_leaf
Updates-write_leaf k pt va pa f cow o (inl (j, e, v, full, t, same)) =
    inl (j, rw e refl, v, full, t, same)
Updates-write_leaf k pt va pa f false o (inr (j, free, e, v, t, h, same)) =
    let at = leaf j pt va in
    Updates-written k j pt va (new_leaf pa f) (update j.memory at (new_leaf pa f)) free false true _
      (rw e refl) v t h (ground arith) (λ b d. ground (arith, d)) same
Updates-write_leaf k pt va pa f true o (inr (j, free, e, v, t, h, same)) =
    let at = leaf j pt va in
    let plain = update j.memory at (new_leaf pa f) in
    let once : plain at ≡ new_leaf pa f = ground arith in
    Updates-written k j pt va (set_cow (new_leaf pa f)) (update plain at (set_cow (plain at))) free
      false true _ (rw e refl) v t h (ground (arith, ap set_cow once)) (λ b d. ground (arith, d))
      same

-- Take a page table whose tables are different frames in use, each of which hangs under a single entry, and
-- a well-formed allocator. `map` (with `cow` false) and `map_cow` (with `cow` true) of a page end without a
-- panic, and all this holds again. They report success, and then the page has the new entry, if it is in force, and every
-- other page the entry that it had or none as before; or they report failure, no free frame is left, and
-- every page has the entry that it had or none as before.
pub map_leaf-Updates :
    (k : Kernel) (pt : PageTable) (va pa f : ℕ) (cow : Bool) (free : List ℕ)
    → IsTree k pt
    → IsAllocator k free
    → Updates k pt va (leaf_entry pa f cow) false true (map_leaf pt va pa f cow k)
unfolding map_leaf
map_leaf-Updates k pt va pa f cow free t v =
    Updates-write_leaf k pt va pa f cow (walk pt va k) (walk-Walks k pt va free t v)

Updates-store :
    (k : Kernel) (pt : PageTable) (va : ℕ) (o : Outcome (Option ℕ))
    → Walks k pt va o
    → Updates k pt va Entry.empty tt tt (
        and_then o
          (λ found. elim found [ none ↦ pure (tt {0}) | some entry ↦ store entry Entry.empty ]))
Updates-store k pt va o (inl (j, e, v, full, t, same)) = inl (j, rw e refl, v, full, t, same)
Updates-store k pt va o (inr (j, free, e, v, t, h, same)) =
    Updates-written k j pt va Entry.empty (update j.memory (leaf j pt va) Entry.empty) free tt tt _
      (rw e refl) v t h (ground arith) (λ b d. ground (arith, d)) same

-- On such a page table and allocator `unmap` of a page ends without a panic, and all this holds again. The page
-- has no entry in force then, and every other page the entry that it had or none as before; or no
-- free frame is left, and every page has the entry that it had or none as before.
pub unmap-Updates :
    (k : Kernel) (pt : PageTable) (va : ℕ) (free : List ℕ)
    → IsTree k pt
    → IsAllocator k free
    → Updates k pt va Entry.empty tt tt (unmap pt va k)
unfolding unmap
unmap-Updates k pt va free t v = Updates-store k pt va (walk pt va k) (walk-Walks k pt va free t v)
