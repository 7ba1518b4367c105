-- ===== src/PageTable/Walk/Init.antt =====
-- How `init_kernel` of kernel/src/mm/page_table.rs ends.
use unit.Base.{
  ℕ, ◌+◌, ◌/◌, ◌≤◌, ◌≡◌, if◌then◌else◌, inl, inr, ◌⊎◌, false, List, [], Option, arith, refl, ap,
  ◌∙◌,
}
use unit.Frame.{ram_base, ram_size, ram_end, alloc_frame}
use unit.Frame.FreeList.{IsAllocator, IsAllocator-memory, index}
use unit.Frame.Alloc.{Allocates, alloc_frame-Allocates}
use unit.Kernel.{
  Kernel, Outcome, returns, add_usize, ◌>>=◌, and_then, panics, within, pure, ◌>>◌, write_zeros,
  expect,
}
use unit.PageTable.Defs.{PageTable}
use unit.PageTable.Entry.{is_valid}
use unit.PageTable.Walk.{new, satp_val, map_identity, init_kernel}
use unit.PageTable.Walk.Descend.{InUse}
use unit.PageTable.Walk.Mapping.{root_entry, vpn2-bound, zero_invalid}
use unit.PageTable.Walk.Tree.{HasMiddle, IsTree, translate_no_middle}
use unit.PageTable.Walk.Identity.{IsIdentity, map_identity-IsIdentity}

-- How `init_kernel` ends.
abbrev pub Inits : Kernel → List ℕ → Outcome (PageTable × ℕ) → Type 0
Inits k free o =
    ((free ≡ []) × (ram_end ≤ k.next_frame) × (o ≡ panics))
    ⊎ ((pt : PageTable) × (j : Kernel) × (o ≡ returns (pt, satp_val pt) j) × IsIdentity j pt 32768)

-- A table of zeros stands for the function without any entry.
module _ (k : Kernel) (free : List ℕ) (root : ℕ) (v : IsAllocator k free) (u : InUse k root) where
  abbrev cleared : Kernel
  cleared = record k { memory = λ a. if within root 4096 a then 0 else k.memory a }

  no_middle : (va : ℕ) → is_valid (cleared.memory (root_entry (new root) va)) ≡ false
  no_middle va =
      let word : cleared.memory (root_entry (new root) va) ≡ 0 = ground (arith, vpn2-bound va) in
      ap is_valid word ∙ zero_invalid

  absent : (va : ℕ) → HasMiddle cleared (new root) va → ⊥
  absent va h = let gone = no_middle va in cc

  cleared-IsTree : IsTree cleared (new root)
  cleared-IsTree = record {
    path = λ va. record {
      root = u;
      second = λ h. absurd (absent va h);
      third = λ h h'. absurd (absent va h);
    };
    middles = λ va vb a b e. absurd (absent va a);
    not_middle = λ va vb a b e. absent va a.0;
    lasts = λ va vb a b e. absurd (absent va a.0);
  }

  cleared-IsIdentity : IsIdentity cleared (new root) 0
  cleared-IsIdentity = record {
    free = free;
    allocator = IsAllocator-memory k cleared.memory free v (λ f hf unused. ground (arith, u));
    tree = cleared-IsTree;
    own = λ vb. inl (translate_no_middle cleared (new root) vb (no_middle vb));
    complete = inl λ n h. absurd (omega arith);
  }

Inits-alloc :
    (k : Kernel) (free : List ℕ) (o : Outcome (Option ℕ))
    → Allocates k free o
    → Inits k free (
        and_then o (λ frame. do
          root ← expect frame
          write_zeros root 4096
          end ← add_usize ram_base ram_size
          map_identity (ram_size / 4096 + 1) (new root) ram_base end
          pure (new root, satp_val (new root))))
Inits-alloc k free o (inl (empty, full, e)) = inl (empty, full, rw e refl)
Inits-alloc k free o (inr (root, rest, j, e, unused, handed, v, out, up)) =
    let count : j.frame_refs (index root) ≡ 1 =
      ground (arith, ap (λ (r : ℕ → ℕ). r (index root)) handed.0) in
    let u : InUse j root = (unused.0, omega (arith, count)) in
    let (last, run, z) =
      map_identity-IsIdentity 32768 0 (cleared j rest root v u) (new root) refl
        (cleared-IsIdentity j rest root v u) in
    inr (new root, last, rw (e, run) refl, z)

-- On a well-formed allocator `init_kernel` of the start of RAM panics if no frame is left for the root. Else
-- it ends with a page table and its value for `satp`; the allocator is well formed, and the tables are
-- different frames in use, each of which hangs under a single entry. Each page that has an entry is
-- a page of RAM and its entry leads to the page itself, with the flags R, W and X and without U. And all
-- 32768 pages of RAM have such an entry, or no frame is left.
pub init_kernel-Inits :
    (k : Kernel) (free : List ℕ) → IsAllocator k free → Inits k free (init_kernel ram_base k)
unfolding init_kernel
init_kernel-Inits k free v = Inits-alloc k free (alloc_frame k) (alloc_frame-Allocates k free v)
