-- ===== src/PageTable/Walk/NewLast.antt =====
-- A new table of the last level (`walk` of kernel/src/mm/page_table.rs) leaves the entries of all pages as
-- they are.
use unit.Base.{
  ℕ, ◌+◌, ◌*◌, ◌<◌, ◌≡◌, ◌≢◌, ◌==◌, ◌&&◌, Bool-cases, inl, inr, ◌⊎◌, true, false, none, arith, refl,
  ap, ◌∙◌, sym,
}
use unit.Frame.FreeList.{index}
use unit.Kernel.{Kernel}
use unit.PageTable.Defs.{PageTable}
use unit.PageTable.Entry.{is_valid, ppn_to_addr}
use unit.PageTable.Walk.{vpn0, vpn1, vpn2}
use unit.PageTable.Walk.Descend.{InUse, Extends}
use unit.PageTable.Walk.Mapping.{
  IsPath, root_entry, middle, middle_entry, vpn0-bound, vpn1-bound, vpn2-bound, different,
  zero_invalid,
}
use unit.PageTable.Walk.Tree.{
  last, leaf, HasTables, HasMiddle, IsTree, in_force, translate, translate-HasTables,
  translate_no_middle, translate_no_last, SameTables, SameLeaf, translate-SameTables, same_last,
  before-HasTables, IsPath-SameTables, carried,
}

-- A page whose entry is 0 has no entry in force.
translate_zero :
    (k : Kernel) (pt : PageTable) (va : ℕ) → k.memory (leaf k pt va) ≡ 0 → translate k pt va ≡ none
translate_zero k pt va zero_entry = elim (Bool-cases (is_valid (k.memory (root_entry pt va)))) [
  | inr no_middle ↦ translate_no_middle k pt va no_middle
  | inl m ↦ elim (Bool-cases (is_valid (k.memory (middle_entry k pt va)))) [
    | inr no_last ↦ translate_no_last k pt va no_last
    | inl l ↦ translate-HasTables k pt va (m, l) ∙ ap in_force zero_entry ∙ rw zero_invalid refl
  ]
]

module _ (k j : Kernel) (pt : PageTable) (va n : ℕ) (t : IsTree k pt) (has : HasMiddle k pt va)
    (x : Extends k j (middle_entry k pt va))
    (missing : is_valid (k.memory (middle_entry k pt va)) ≡ false)
    (leads : ppn_to_addr (j.memory (middle_entry k pt va)) ≡ n)
    (unused : k.frame_refs (index n) ≡ 0) (zeroed : (o : ℕ) → o < 4096 → j.memory (n + o) ≡ 0)
    (in_use : InUse j n) where
  fresh : (s : ℕ) → InUse k s → n ≢ s
  fresh s u = different k s n u unused

  parent : InUse k (middle k pt va) × (middle k pt va ≢ pt.root)
  parent = (t.path va).second has

  root_word : (vb : ℕ) → j.memory (root_entry pt vb) ≡ k.memory (root_entry pt vb)
  root_word vb =
      let p = (t.path vb).root in
      x.same pt.root (root_entry pt vb) p (ground (arith, vpn2-bound vb))
        (inl λ e. parent.1 (omega (arith, e, parent.0.0, p.0, vpn1-bound va, vpn2-bound vb)))

  middle_kept : (vb : ℕ) → middle j pt vb ≡ middle k pt vb
  middle_kept vb = ap ppn_to_addr (root_word vb)

  before_middle : (vb : ℕ) → HasMiddle j pt vb → HasMiddle k pt vb
  before_middle vb h = ap is_valid (sym (root_word vb)) ∙ h

  Below : ℕ → Type 0
  Below vb = (vpn2 vb ≡ vpn2 va) × (vpn1 vb ≡ vpn1 va)

  -- A page below the new table, or one whose entries are as they were.
  View : ℕ → Type 0
  View vb = Below vb ⊎ (SameTables k j pt vb × SameLeaf k j pt vb)

  elsewhere : (vb : ℕ) → ¬ Below vb → SameTables k j pt vb × SameLeaf k j pt vb
  unfolding Below
  elsewhere vb ne =
      let p = t.path vb in
      (
        record {
          root_word = root_word vb;
          middle_word = λ h.
              let s = p.second h in
              x.same (middle k pt vb) (middle_entry k pt vb) s.0 (ground (arith, vpn1-bound vb)) (
                inl λ e.
                  let same_table : middle k pt vb ≡ middle k pt va =
                    omega (arith, e, s.0.0, parent.0.0, vpn1-bound vb, vpn1-bound va) in
                  ne (t.middles vb va h has same_table, omega (arith, e, same_table)));
        },
        λ h.
            let s = p.third h.0 h.1 in
            x.same (last k pt vb) (leaf k pt vb) s.0 (ground (arith, vpn0-bound vb)) (
              inl λ e.
                t.not_middle vb va h has
                  (omega (arith, e, s.0.0, parent.0.0, vpn0-bound vb, vpn1-bound va))),
      )

  view : (vb : ℕ) → View vb
  unfolding View Below
  view vb = elim (Bool-cases ((vpn2 vb == vpn2 va) && (vpn1 vb == vpn1 va))) [
    | inl same ↦ inl (ground arith, ground arith)
    | inr other ↦ inr (elsewhere vb (λ e. ground (arith, e.0, e.1)))
  ]

  -- The entry that leads to the new table.
  above : (vb : ℕ) → Below vb → middle_entry k pt vb ≡ middle_entry k pt va
  unfolding Below
  above vb (e2, e1) =
      ap (λ (q : ℕ). ppn_to_addr (k.memory (pt.root + q * 8)) + vpn1 vb * 8) e2
      ∙ ap (λ (q : ℕ). middle k pt va + q * 8) e1

  last-Below : (vb : ℕ) → Below vb → last j pt vb ≡ n
  last-Below vb e =
      ap (λ (m : ℕ). ppn_to_addr (j.memory (m + vpn1 vb * 8))) (middle_kept vb)
      ∙ ap (λ (a : ℕ). ppn_to_addr (j.memory a)) (above vb e)
      ∙ leads

  NewLast-IsPath : (vb : ℕ) → View vb → IsPath j pt vb
  unfolding View Below
  NewLast-IsPath vb (inl e) = record {
    root = x.used pt.root (t.path vb).root;
    second = λ h.
        carried k j _ _ pt.root x.used (middle_kept vb) ((t.path vb).second (before_middle vb h));
    third = λ h h'. third (before_middle vb h);
  }
    where
      third :
          HasMiddle k pt vb
          → InUse j (last j pt vb) × (last j pt vb ≢ pt.root) × (last j pt vb ≢ middle j pt vb)
      third h = rw (last-Below vb e) (
        in_use,
        fresh pt.root (t.path vb).root,
        λ d. fresh (middle k pt vb) ((t.path vb).second h).0 (d ∙ middle_kept vb),
      )
  NewLast-IsPath vb (inr w) = IsPath-SameTables k j pt vb w.0 x.used (t.path vb)

  NewLast-not_middle :
      (v w : ℕ) → View v → HasTables j pt v → HasMiddle j pt w → last j pt v ≢ middle j pt w
  unfolding View
  NewLast-not_middle v w (inl p) a b e =
      fresh (middle k pt w) ((t.path w).second (before_middle w b)).0
        (sym (last-Below v p) ∙ e ∙ middle_kept w)
  NewLast-not_middle v w (inr p) a b e =
      let h = before-HasTables k j pt v p.0 a in
      t.not_middle v w h (before_middle w b) (sym (same_last k j pt v p.0 h.0) ∙ e ∙ middle_kept w)

  old_last :
      (v w : ℕ) → Below v → SameTables k j pt w → HasTables j pt w → last j pt v ≢ last j pt w
  old_last v w p q b e =
      let h = before-HasTables k j pt w q b in
      fresh (last k pt w) ((t.path w).third h.0 h.1).0
        (sym (last-Below v p) ∙ e ∙ same_last k j pt w q h.0)

  NewLast-lasts :
      (v w : ℕ)
      → View v
      → View w
      → HasTables j pt v
      → HasTables j pt w
      → last j pt v ≡ last j pt w
      → (vpn2 v ≡ vpn2 w) × (vpn1 v ≡ vpn1 w)
  unfolding View Below
  NewLast-lasts v w (inl p) (inl q) a b e = (p.0 ∙ sym q.0, p.1 ∙ sym q.1)
  NewLast-lasts v w (inl p) (inr q) a b e = absurd (old_last v w p q.0 b e)
  NewLast-lasts v w (inr p) (inl q) a b e = absurd (old_last w v q p.0 a (sym e))
  NewLast-lasts v w (inr p) (inr q) a b e =
      let hv = before-HasTables k j pt v p.0 a in
      let hw = before-HasTables k j pt w q.0 b in
      t.lasts v w hv hw (sym (same_last k j pt v p.0 hv.0) ∙ e ∙ same_last k j pt w q.0 hw.0)

  pub NewLast-IsTree : IsTree j pt
  NewLast-IsTree = record {
    path = λ v. NewLast-IsPath v (view v);
    middles = λ v w a b e.
        t.middles v w (before_middle v a) (before_middle w b)
          (sym (middle_kept v) ∙ e ∙ middle_kept w);
    not_middle = λ v w. NewLast-not_middle v w (view v);
    lasts = λ v w. NewLast-lasts v w (view v) (view w);
  }

  viewed-translate : (vb : ℕ) → View vb → translate j pt vb ≡ translate k pt vb
  unfolding View Below
  viewed-translate vb (inl e) =
      translate_zero j pt vb (
        ap (λ (m : ℕ). j.memory (m + vpn0 vb * 8)) (last-Below vb e)
        ∙ zeroed (vpn0 vb * 8) (omega (arith, vpn0-bound vb)))
      ∙ sym
          (translate_no_last k pt vb (ap (λ (a : ℕ). is_valid (k.memory a)) (above vb e) ∙ missing))
  viewed-translate vb (inr w) = translate-SameTables k j pt vb w.0 w.1

  pub NewLast-translate : (vb : ℕ) → translate j pt vb ≡ translate k pt vb
  NewLast-translate vb = viewed-translate vb (view vb)

  pub NewLast-HasTables :
      is_valid (j.memory (middle_entry k pt va)) ≡ true → HasTables j pt va × (last j pt va ≡ n)
  NewLast-HasTables v = (
    (
      ap is_valid (root_word va) ∙ has,
      ap (λ (m : ℕ). is_valid (j.memory (m + vpn1 va * 8))) (middle_kept va) ∙ v,
    ),
    ap (λ (m : ℕ). ppn_to_addr (j.memory (m + vpn1 va * 8))) (middle_kept va) ∙ leads,
  )
