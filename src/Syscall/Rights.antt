-- ===== src/Syscall/Rights.antt =====
-- What the entries that `pte_flags_from_prot` of kernel/src/syscall.rs makes allow a user to do.
use unit.Base.{test, ◌||◌, ℕ, ◌/◌, ◌%◌, ◌<◌, ◌≡◌, Bool, true, false, some, arith, ap, ◌∙◌}
use mathlib.Core.Path.{subst}
use unit.Frame.FreeList.{IsFrame}
use unit.PageTable.Entry.{new_leaf, is_valid}
use unit.PageTable.Flags
use unit.PageTable.Entry.Fields.{
  new_leaf-eq, is_valid-eq, is_r-eq, is_w-eq, is_x-eq, is_u-eq, ppn_to_addr-eq,
}
use unit.PageTable.Entry.{is_r, is_w, is_x, is_u, ppn_to_addr}
use unit.PageTable.Entry.Laws.{is_one}
use unit.Mmap.{pte_flags_from_prot, prot_read, prot_write, prot_exec}

-- The fields of an entry that leads to a frame, from its flags.
leaf-fields :
    (frame f : ℕ)
    → IsFrame frame
    → f < 32
    → (ppn_to_addr (new_leaf frame f) ≡ frame)
      × (is_valid (new_leaf frame f) ≡ is_one (f % 2))
      × (is_r (new_leaf frame f) ≡ is_one (f / 2 % 2))
      × (is_w (new_leaf frame f) ≡ is_one (f / 4 % 2))
      × (is_x (new_leaf frame f) ≡ is_one (f / 8 % 2))
      × (is_u (new_leaf frame f) ≡ is_one (f / 16 % 2))
leaf-fields frame f h small =
    let e = new_leaf frame f in
    let q = new_leaf-eq frame f (omega (arith, h)) small in
    (
      ppn_to_addr-eq e ∙ omega (arith, q, h),
      is_valid-eq e ∙ ap is_one (omega (arith, q, h)),
      is_r-eq e ∙ ap is_one (omega (arith, q, h)),
      is_w-eq e ∙ ap is_one (omega (arith, q, h)),
      is_x-eq e ∙ ap is_one (omega (arith, q, h)),
      is_u-eq e ∙ ap is_one (omega (arith, q, h)),
    )

-- The entry `e` leads to `frame` and gives a user the rights to read, write and execute as said.
abbrev pub IsUserPage : ℕ → ℕ → Bool → Bool → Bool → Type 0
IsUserPage e frame r w x =
    (ppn_to_addr e ≡ frame)
    × (is_valid e ≡ true)
    × (is_r e ≡ r)
    × (is_w e ≡ w)
    × (is_x e ≡ x)
    × (is_u e ≡ true)

new-IsUserPage :
    (frame : ℕ) (r w x : Bool)
    → IsFrame frame
    → IsUserPage (new_leaf frame (Flags.new r w x true)) frame r w x
unfolding Flags.new
new-IsUserPage frame true true true h = leaf-fields frame 31 h (omega arith)
new-IsUserPage frame true true false h = leaf-fields frame 23 h (omega arith)
new-IsUserPage frame true false true h = leaf-fields frame 27 h (omega arith)
new-IsUserPage frame true false false h = leaf-fields frame 19 h (omega arith)
new-IsUserPage frame false true true h = leaf-fields frame 29 h (omega arith)
new-IsUserPage frame false true false h = leaf-fields frame 21 h (omega arith)
new-IsUserPage frame false false true h = leaf-fields frame 25 h (omega arith)
new-IsUserPage frame false false false h = leaf-fields frame 17 h (omega arith)

-- The flags of a protection. What may be written may be read.
pub pte-IsUserPage :
    (prot pte frame : ℕ)
    → pte_flags_from_prot prot ≡ some pte
    → IsFrame frame
    → IsUserPage
        (new_leaf frame pte)
        frame
        (test prot prot_read || test prot prot_write)
        (test prot prot_write)
        (test prot prot_exec)
unfolding pte_flags_from_prot
pte-IsUserPage prot pte frame h f =
    let same : Flags.new (test prot prot_read || test prot prot_write) (test prot prot_write)
          (test prot prot_exec) true
        ≡ pte =
      ground arith in
    subst
      (λ (t : ℕ).
        IsUserPage (new_leaf frame t) frame (test prot prot_read || test prot prot_write)
          (test prot prot_write) (test prot prot_exec))
      same
      (new-IsUserPage frame (test prot prot_read || test prot prot_write) (test prot prot_write)
        (test prot prot_exec) f)
