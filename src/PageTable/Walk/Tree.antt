-- ===== src/PageTable/Walk/Tree.antt =====
-- The tables of kernel/src/mm/page_table.rs as a tree, and the entries that they give to pages.
use unit.Base.{
  arith, Bool-cases, inl, inr, ℕ, ◌+◌, ◌*◌, ◌≡◌, ◌≢◌, true, false, Option, none, some,
  if◌then◌else◌, refl, ap, ◌∙◌, sym,
}
use unit.Kernel.{Kernel}
use unit.PageTable.Defs.{PageTable}
use unit.PageTable.Entry.{is_valid, ppn_to_addr}
use unit.PageTable.Walk.{vpn0, vpn1, vpn2}
use unit.PageTable.Walk.Descend.{InUse}
use unit.PageTable.Walk.Mapping.{IsPath, root_entry, middle, middle_entry}

-- The last table on the way to a page, and the page's entry in it.
abbrev pub last : Kernel → PageTable → ℕ → ℕ
last k pt va = ppn_to_addr (k.memory (middle_entry k pt va))

abbrev pub leaf : Kernel → PageTable → ℕ → ℕ
leaf k pt va = last k pt va + vpn0 va * 8

-- The tables of a page are there.
abbrev pub HasTables : Kernel → PageTable → ℕ → Type 0
HasTables k pt va =
    (is_valid (k.memory (root_entry pt va)) ≡ true)
    × (is_valid (k.memory (middle_entry k pt va)) ≡ true)

-- The same entries on every level.
abbrev pub SamePage : ℕ → ℕ → Type 0
SamePage va vb = (vpn2 va ≡ vpn2 vb) × (vpn1 va ≡ vpn1 vb) × (vpn0 va ≡ vpn0 vb)

-- Whether the root table has an entry for a page, and the middle one behind it.
abbrev pub HasMiddle : Kernel → PageTable → ℕ → Type 0
HasMiddle k pt va = is_valid (k.memory (root_entry pt va)) ≡ true

-- The tables are different frames in use, and each one hangs under a single entry.
pub record IsTree (k : Kernel) (pt : PageTable) : Type 0 where
  pub path : (va : ℕ) → IsPath k pt va
  pub middles :
      (va vb : ℕ)
      → HasMiddle k pt va
      → HasMiddle k pt vb
      → middle k pt va ≡ middle k pt vb
      → vpn2 va ≡ vpn2 vb
  pub not_middle :
      (va vb : ℕ) → HasTables k pt va → HasMiddle k pt vb → last k pt va ≢ middle k pt vb
  pub lasts :
      (va vb : ℕ)
      → HasTables k pt va
      → HasTables k pt vb
      → last k pt va ≡ last k pt vb
      → (vpn2 va ≡ vpn2 vb) × (vpn1 va ≡ vpn1 vb)

-- An entry, if it is in force.
abbrev pub in_force : ℕ → Option ℕ
in_force e = if is_valid e then some e else none

-- The entry in force for a page: what the page table means.
unfoldable pub translate : Kernel → PageTable → ℕ → Option ℕ
translate k pt va =
    if is_valid (k.memory (root_entry pt va))
    then if is_valid (k.memory (middle_entry k pt va))
      then in_force (k.memory (leaf k pt va))
      else none
    else none

pub translate-HasTables :
    (k : Kernel) (pt : PageTable) (va : ℕ)
    → HasTables k pt va
    → translate k pt va ≡ in_force (k.memory (leaf k pt va))
unfolding translate
translate-HasTables k pt va h = rw (h.0, h.1) refl

pub translate_no_middle :
    (k : Kernel) (pt : PageTable) (va : ℕ)
    → is_valid (k.memory (root_entry pt va)) ≡ false
    → translate k pt va ≡ none
unfolding translate
translate_no_middle k pt va h = rw h refl

pub translate_no_last :
    (k : Kernel) (pt : PageTable) (va : ℕ)
    → is_valid (k.memory (middle_entry k pt va)) ≡ false
    → translate k pt va ≡ none
unfolding translate
translate_no_last k pt va h = rw h (ground arith)

-- The entries that lead to a page are the same in `j`.
pub record SameTables (k j : Kernel) (pt : PageTable) (vb : ℕ) : Type 0 where
  pub root_word : j.memory (root_entry pt vb) ≡ k.memory (root_entry pt vb)
  pub middle_word :
      HasMiddle k pt vb → j.memory (middle_entry k pt vb) ≡ k.memory (middle_entry k pt vb)

abbrev pub SameLeaf : Kernel → Kernel → PageTable → ℕ → Type 0
SameLeaf k j pt vb = HasTables k pt vb → j.memory (leaf k pt vb) ≡ k.memory (leaf k pt vb)

module _ (k j : Kernel) (pt : PageTable) (vb : ℕ) (w : SameTables k j pt vb) where
  pub same_middle : middle j pt vb ≡ middle k pt vb
  same_middle = ap ppn_to_addr w.root_word

  pub before-HasMiddle : HasMiddle j pt vb → HasMiddle k pt vb
  before-HasMiddle h = ap is_valid (sym w.root_word) ∙ h

  words : HasMiddle k pt vb → j.memory (middle_entry j pt vb) ≡ k.memory (middle_entry k pt vb)
  words h = ap (λ (t : ℕ). j.memory (t + vpn1 vb * 8)) same_middle ∙ w.middle_word h

  pub before-HasTables : HasTables j pt vb → HasTables k pt vb
  before-HasTables h = let m = before-HasMiddle h.0 in (m, ap is_valid (sym (words m)) ∙ h.1)

  pub after-HasTables : HasTables k pt vb → HasTables j pt vb
  after-HasTables h = (ap is_valid w.root_word ∙ h.0, ap is_valid (words h.0) ∙ h.1)

  pub same_last : HasMiddle k pt vb → last j pt vb ≡ last k pt vb
  same_last h = ap ppn_to_addr (words h)

  same_leaf : HasMiddle k pt vb → leaf j pt vb ≡ leaf k pt vb
  same_leaf h = ap (λ (t : ℕ). t + vpn0 vb * 8) (same_last h)

  pub translate-SameTables : SameLeaf k j pt vb → translate j pt vb ≡ translate k pt vb
  translate-SameTables leaf_word = elim (Bool-cases (is_valid (k.memory (root_entry pt vb)))) [
    | inr no_middle ↦
        translate_no_middle j pt vb (ap is_valid w.root_word ∙ no_middle)
        ∙ sym (translate_no_middle k pt vb no_middle)
    | inl m ↦ elim (Bool-cases (is_valid (k.memory (middle_entry k pt vb)))) [
      | inr no_last ↦
          translate_no_last j pt vb (ap is_valid (words m) ∙ no_last)
          ∙ sym (translate_no_last k pt vb no_last)
      | inl l ↦
          translate-HasTables j pt vb (after-HasTables (m, l))
          ∙ ap in_force (ap j.memory (same_leaf m) ∙ leaf_word (m, l))
          ∙ sym (translate-HasTables k pt vb (m, l))
    ]
  ]

-- A table that stays in use stays another one.
pub carried :
    (k j : Kernel) (m m' r : ℕ)
    → ((t : ℕ) → InUse k t → InUse j t)
    → m' ≡ m
    → InUse k m × (m ≢ r)
    → InUse j m' × (m' ≢ r)
carried k j m m' r used e h = rw e (used m h.0, h.1)

-- The tables of a page stay as they are where the entries that lead to it do.
pub IsPath-SameTables :
    (k j : Kernel) (pt : PageTable) (vb : ℕ)
    → SameTables k j pt vb
    → ((t : ℕ) → InUse k t → InUse j t)
    → IsPath k pt vb
    → IsPath j pt vb
IsPath-SameTables k j pt vb w used p = record {
  root = used pt.root p.root;
  second = λ h.
      carried k j _ _ pt.root used (same_middle k j pt vb w)
        (p.second (before-HasMiddle k j pt vb w h));
  third = λ h h'. third (before-HasTables k j pt vb w (h, h'));
}
  where
    third :
        HasTables k pt vb
        → InUse j (last j pt vb) × (last j pt vb ≢ pt.root) × (last j pt vb ≢ middle j pt vb)
    third h =
        let q = p.third h.0 h.1 in
        let e = same_last k j pt vb w h.0 in
        let there = carried k j _ _ pt.root used e (q.0, q.1) in
        (there.0, there.1, λ d. q.2 (sym e ∙ d ∙ same_middle k j pt vb w))

-- So does the tree, where they do for all pages.
pub IsTree-SameTables :
    (k j : Kernel) (pt : PageTable)
    → ((vb : ℕ) → SameTables k j pt vb)
    → ((t : ℕ) → InUse k t → InUse j t)
    → IsTree k pt
    → IsTree j pt
IsTree-SameTables k j pt same used t = record {
  path = λ va. IsPath-SameTables k j pt va (same va) used (t.path va);
  middles = λ va vb a b e.
      t.middles va vb (before_middle va a) (before_middle vb b)
        (sym (same_middle k j pt va (same va)) ∙ e ∙ same_middle k j pt vb (same vb));
  not_middle = λ va vb a b e. t.not_middle va vb (before_tables va a) (before_middle vb b) (
      sym (same_last k j pt va (same va) (before_tables va a).0)
      ∙ e
      ∙ same_middle k j pt vb (same vb));
  lasts = λ va vb a b e. t.lasts va vb (before_tables va a) (before_tables vb b) (
      sym (same_last k j pt va (same va) (before_tables va a).0)
      ∙ e
      ∙ same_last k j pt vb (same vb) (before_tables vb b).0);
}
  where
    before_middle : (v : ℕ) → HasMiddle j pt v → HasMiddle k pt v
    before_middle v = before-HasMiddle k j pt v (same v)

    before_tables : (v : ℕ) → HasTables j pt v → HasTables k pt v
    before_tables v = before-HasTables k j pt v (same v)
