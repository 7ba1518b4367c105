-- ===== src/PageTable/Walk/NewMiddle.antt =====
-- A new table under the root (`walk` of kernel/src/mm/page_table.rs) leaves the entries of all pages as they
-- are.
use unit.Base.{
  ℕ, ◌+◌, ◌*◌, ◌<◌, ◌≡◌, ◌≢◌, ◌==◌, Bool-cases, inl, inr, ◌⊎◌, false, arith, ap, ◌∙◌, sym,
}
use unit.Frame.FreeList.{index}
use unit.Kernel.{Kernel}
use unit.PageTable.Defs.{PageTable}
use unit.PageTable.Entry.{is_valid, ppn_to_addr}
use unit.PageTable.Walk.{vpn1, vpn2}
use unit.PageTable.Walk.Descend.{InUse, Extends}
use unit.PageTable.Walk.Mapping.{
  IsPath, root_entry, middle, middle_entry, vpn0-bound, vpn1-bound, vpn2-bound, different,
  zero_invalid,
}
use unit.PageTable.Walk.Tree.{
  last, leaf, HasTables, HasMiddle, IsTree, translate, translate_no_middle, translate_no_last,
  SameTables, SameLeaf, translate-SameTables, same_middle, same_last, before-HasMiddle,
  before-HasTables, IsPath-SameTables,
}

module _ (k j : Kernel) (pt : PageTable) (va n : ℕ) (t : IsTree k pt)
    (x : Extends k j (root_entry pt va)) (missing : is_valid (k.memory (root_entry pt va)) ≡ false)
    (leads : ppn_to_addr (j.memory (root_entry pt va)) ≡ n) (unused : k.frame_refs (index n) ≡ 0)
    (zeroed : (o : ℕ) → o < 4096 → j.memory (n + o) ≡ 0) (in_use : InUse j n) where
  fresh : (s : ℕ) → InUse k s → n ≢ s
  fresh s u = different k s n u unused

  -- A page below the new table, or one whose entries are as they were.
  View : ℕ → Type 0
  View vb = (vpn2 vb ≡ vpn2 va) ⊎ (SameTables k j pt vb × SameLeaf k j pt vb)

  elsewhere : (vb : ℕ) → vpn2 vb ≢ vpn2 va → SameTables k j pt vb × SameLeaf k j pt vb
  elsewhere vb ne =
      let p = t.path vb in
      let top = p.root.0 in
      (
        record {
          root_word =
              x.same pt.root (root_entry pt vb) p.root (ground (arith, vpn2-bound vb))
                (inl λ e. ne (omega (arith, e)));
          middle_word = λ h.
              let s = p.second h in
              x.same (middle k pt vb) (middle_entry k pt vb) s.0 (ground (arith, vpn1-bound vb))
                (inl λ e. s.1 (omega (arith, e, s.0.0, top, vpn1-bound vb, vpn2-bound va)));
        },
        λ h.
            let s = p.third h.0 h.1 in
            x.same (last k pt vb) (leaf k pt vb) s.0 (ground (arith, vpn0-bound vb))
              (inl λ e. s.1 (omega (arith, e, s.0.0, top, vpn0-bound vb, vpn2-bound va))),
      )

  view : (vb : ℕ) → View vb
  unfolding View
  view vb = elim (Bool-cases (vpn2 vb == vpn2 va)) [
    | inl same ↦ inl (ground arith)
    | inr other ↦ inr (elsewhere vb (λ e. ground arith))
  ]

  fresh_middle : (vb : ℕ) → vpn2 vb ≡ vpn2 va → middle j pt vb ≡ n
  fresh_middle vb e = ap (λ (q : ℕ). ppn_to_addr (j.memory (pt.root + q * 8))) e ∙ leads

  no_last : (vb : ℕ) → vpn2 vb ≡ vpn2 va → is_valid (j.memory (middle_entry j pt vb)) ≡ false
  no_last vb e =
      ap is_valid (
        ap (λ (m : ℕ). j.memory (m + vpn1 vb * 8)) (fresh_middle vb e)
        ∙ zeroed (vpn1 vb * 8) (omega (arith, vpn1-bound vb)))
      ∙ zero_invalid

  no_tables : (vb : ℕ) → vpn2 vb ≡ vpn2 va → HasTables j pt vb → ⊥
  no_tables vb e h = let none_there = no_last vb e in let there = h.1 in cc

  NewMiddle-IsPath : (vb : ℕ) → View vb → IsPath j pt vb
  unfolding View
  NewMiddle-IsPath vb (inl e) = record {
    root = x.used pt.root (t.path vb).root;
    second = λ h. rw (fresh_middle vb e) (in_use, fresh pt.root (t.path vb).root);
    third = λ h h'. absurd (no_tables vb e (h, h'));
  }
  NewMiddle-IsPath vb (inr w) = IsPath-SameTables k j pt vb w.0 x.used (t.path vb)

  old_middle : (vb : ℕ) → SameTables k j pt vb → HasMiddle j pt vb → n ≢ middle j pt vb
  old_middle vb w h e =
      fresh (middle k pt vb) ((t.path vb).second (before-HasMiddle k j pt vb w h)).0
        (e ∙ same_middle k j pt vb w)

  NewMiddle-middles :
      (v w : ℕ)
      → View v
      → View w
      → HasMiddle j pt v
      → HasMiddle j pt w
      → middle j pt v ≡ middle j pt w
      → vpn2 v ≡ vpn2 w
  unfolding View
  NewMiddle-middles v w (inl p) (inl q) a b e = p ∙ sym q
  NewMiddle-middles v w (inl p) (inr q) a b e =
      absurd (old_middle w q.0 b (sym (fresh_middle v p) ∙ e))
  NewMiddle-middles v w (inr p) (inl q) a b e =
      absurd (old_middle v p.0 a (sym (fresh_middle w q) ∙ sym e))
  NewMiddle-middles v w (inr p) (inr q) a b e =
      t.middles v w (before-HasMiddle k j pt v p.0 a) (before-HasMiddle k j pt w q.0 b)
        (sym (same_middle k j pt v p.0) ∙ e ∙ same_middle k j pt w q.0)

  NewMiddle-not_middle :
      (v w : ℕ)
      → View v
      → View w
      → HasTables j pt v
      → HasMiddle j pt w
      → last j pt v ≢ middle j pt w
  unfolding View
  NewMiddle-not_middle v w (inl p) q a b e = no_tables v p a
  NewMiddle-not_middle v w (inr p) q a b e =
      let h = before-HasTables k j pt v p.0 a in
      let old = same_last k j pt v p.0 h.0 in
      elim q [
        | inl below ↦
            fresh (last k pt v) ((t.path v).third h.0 h.1).0
              (sym (fresh_middle w below) ∙ sym e ∙ old)
        | inr same ↦
            t.not_middle v w h (before-HasMiddle k j pt w same.0 b)
              (sym old ∙ e ∙ same_middle k j pt w same.0)
      ]

  NewMiddle-lasts :
      (v w : ℕ)
      → View v
      → View w
      → HasTables j pt v
      → HasTables j pt w
      → last j pt v ≡ last j pt w
      → (vpn2 v ≡ vpn2 w) × (vpn1 v ≡ vpn1 w)
  unfolding View
  NewMiddle-lasts v w (inl p) q a b e = absurd (no_tables v p a)
  NewMiddle-lasts v w (inr p) (inl q) a b e = absurd (no_tables w q b)
  NewMiddle-lasts v w (inr p) (inr q) a b e =
      let hv = before-HasTables k j pt v p.0 a in
      let hw = before-HasTables k j pt w q.0 b in
      t.lasts v w hv hw (sym (same_last k j pt v p.0 hv.0) ∙ e ∙ same_last k j pt w q.0 hw.0)

  pub NewMiddle-IsTree : IsTree j pt
  NewMiddle-IsTree = record {
    path = λ v. NewMiddle-IsPath v (view v);
    middles = λ v w. NewMiddle-middles v w (view v) (view w);
    not_middle = λ v w. NewMiddle-not_middle v w (view v) (view w);
    lasts = λ v w. NewMiddle-lasts v w (view v) (view w);
  }

  viewed-translate : (vb : ℕ) → View vb → translate j pt vb ≡ translate k pt vb
  unfolding View
  viewed-translate vb (inl e) =
      translate_no_last j pt vb (no_last vb e)
      ∙ sym (
          translate_no_middle k pt vb
            (ap (λ (q : ℕ). is_valid (k.memory (pt.root + q * 8))) e ∙ missing))
  viewed-translate vb (inr w) = translate-SameTables k j pt vb w.0 w.1

  pub NewMiddle-translate : (vb : ℕ) → translate j pt vb ≡ translate k pt vb
  NewMiddle-translate vb = viewed-translate vb (view vb)
