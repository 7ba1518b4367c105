-- ===== src/PageTable/Walk/Mapping.antt =====
-- `map` of kernel/src/mm/page_table.rs, and what `lookup` then finds.
use unit.Base.{
  ℕ, ◌+◌, ◌*◌, ◌<◌, ◌≤◌, ◌≡◌, ◌≢◌, Bool, true, false, List, [], Option, none, some, arith, inl, inr,
  ◌⊎◌, refl, ap, shr, ◌∙◌,
}
use unit.Base.Bits.{bit_and-low}
use unit.Kernel.{Kernel, Outcome, returns, update, within, and_then, pure, try, ◌>>=◌, ◌>>◌}
use unit.Frame.{ram_end}
use unit.Frame.FreeList.{index, IsAllocator, IsAllocator-memory}
use unit.PageTable.Defs.{PageTable}
use unit.PageTable.Entry.{is_valid, ppn_to_addr, new_leaf}
use unit.PageTable.Walk.{
  entry_at, vpn0, vpn1, vpn2, descend, follow, walk, lookup, write_leaf, map_leaf, map,
}
use unit.PageTable.Walk.Descend.{InUse, Extends, LeadsTo, Descends, descend-Descends}

pub vpn2-bound : (va : ℕ) → vpn2 va < 512
unfolding vpn2
vpn2-bound va = omega (arith, bit_and-low 9 (shr va 30))

pub vpn1-bound : (va : ℕ) → vpn1 va < 512
unfolding vpn1
vpn1-bound va = omega (arith, bit_and-low 9 (shr va 21))

pub vpn0-bound : (va : ℕ) → vpn0 va < 512
unfolding vpn0
vpn0-bound va = omega (arith, bit_and-low 9 (shr va 12))

-- The entries on the way from the root to a page, and the tables that they lead to.
abbrev pub root_entry : PageTable → ℕ → ℕ
root_entry pt va = pt.root + vpn2 va * 8

abbrev pub middle : Kernel → PageTable → ℕ → ℕ
middle k pt va = ppn_to_addr (k.memory (root_entry pt va))

abbrev pub middle_entry : Kernel → PageTable → ℕ → ℕ
middle_entry k pt va = middle k pt va + vpn1 va * 8

-- The tables on the way, as far as they are there, are different frames in use.
pub record IsPath (k : Kernel) (pt : PageTable) (va : ℕ) : Type 0 where
  pub root : InUse k pt.root
  pub second :
      is_valid (k.memory (root_entry pt va)) ≡ true
      → InUse k (middle k pt va) × (middle k pt va ≢ pt.root)
  pub third :
      is_valid (k.memory (root_entry pt va)) ≡ true
      → is_valid (k.memory (middle_entry k pt va)) ≡ true
      → InUse k (ppn_to_addr (k.memory (middle_entry k pt va)))
        × (ppn_to_addr (k.memory (middle_entry k pt va)) ≢ pt.root)
        × (ppn_to_addr (k.memory (middle_entry k pt va)) ≢ middle k pt va)

pub zero_invalid : is_valid 0 ≡ false
unfolding is_valid
zero_invalid = refl

pub different : (k : Kernel) (s n : ℕ) → InUse k s → k.frame_refs (index n) ≡ 0 → n ≢ s
different k s n u h e = absurd (ground (arith, ap (λ t. k.frame_refs (index t)) e))

-- If the entry of the page's middle level in `n` is in force, its table is in use and another one.
abbrev OldTable : Kernel → PageTable → ℕ → ℕ → Type 0
OldTable j pt va n =
    is_valid (j.memory (n + vpn1 va * 8)) ≡ true
    → InUse j (ppn_to_addr (j.memory (n + vpn1 va * 8)))
      × (ppn_to_addr (j.memory (n + vpn1 va * 8)) ≢ pt.root)
      × (ppn_to_addr (j.memory (n + vpn1 va * 8)) ≢ n)

-- The root level was passed: the table `n1` in the state `j1`.
module _ (k : Kernel) (pt : PageTable) (va : ℕ) (path : IsPath k pt va) (n1 : ℕ) (j1 : Kernel)
    (x1 : Extends k j1 (root_entry pt va)) (l1 : LeadsTo k j1 (root_entry pt va) n1) where
  n1_apart : n1 ≢ pt.root
  n1_apart = elim l1.origin [
    | inl (there, leads, same) ↦ rw (← leads) (path.second there).1
    | inr (missing, unused, zeroed) ↦ different k pt.root n1 path.root unused.1
  ]

  empty : is_valid (j1.memory (n1 + vpn1 va * 8)) ≡ true → j1.memory (n1 + vpn1 va * 8) ≡ 0 → ⊥
  empty h e = absurd (ground (arith, ap is_valid e, zero_invalid))

  n1-OldTable : OldTable j1 pt va n1
  n1-OldTable = elim l1.origin [
    | inl (there, leads, same) ↦ rw same (rw (← leads) (path.third there))
    | inr (missing, unused, zeroed) ↦
        λ h. absurd (empty h (zeroed (vpn1 va * 8) (omega (arith, vpn1-bound va))))
  ]

  -- The middle level was passed: the table `n0` in the state `j0`.
  module _ (n0 : ℕ) (j0 : Kernel) (x0 : Extends j1 j0 (n1 + vpn1 va * 8))
      (l0 : LeadsTo j1 j0 (n1 + vpn1 va * 8) n0) where
    abbrev entry : ℕ
    entry = n0 + vpn0 va * 8

    n0_apart : (n0 ≢ pt.root) × (n0 ≢ n1)
    n0_apart = elim l0.origin [
      | inl (there, leads, same) ↦ let old = n1-OldTable there in rw (← leads) (old.1, old.2)
      | inr (missing, unused, zeroed) ↦ (
        different j1 pt.root n0 (x1.used pt.root path.root) unused.1,
        different j1 n1 n0 l1.in_use unused.1,
      )
    ]

    -- The three entries are different words.
    entries :
        (entry ≢ root_entry pt va)
        × (entry ≢ n1 + vpn1 va * 8)
        × (root_entry pt va ≢ n1 + vpn1 va * 8)
    entries = (
      λ e. n0_apart.0 (omega (arith, vpn0-bound va, vpn2-bound va, path.root.0, l0.in_use.0)),
      λ e. n0_apart.1 (omega (arith, vpn0-bound va, vpn1-bound va, l1.in_use.0, l0.in_use.0)),
      λ e. n1_apart (omega (arith, vpn2-bound va, vpn1-bound va, path.root.0, l1.in_use.0)),
    )

    module _ (leaf : ℕ) where
      abbrev mapped : Kernel
      mapped = record j0 { memory = update j0.memory entry leaf }

      root_kept : mapped.memory (root_entry pt va) ≡ j1.memory (root_entry pt va)
      root_kept = ground (
        arith,
        entries,
        x0.same pt.root (root_entry pt va) (x1.used pt.root path.root)
            (ground (arith, vpn2-bound va)) (inl entries.2),
      )

      middle_kept : mapped.memory (n1 + vpn1 va * 8) ≡ j0.memory (n1 + vpn1 va * 8)
      middle_kept = ground (arith, entries)

      pub lookup-mapped : lookup pt va mapped ≡ returns (some entry) mapped
      unfolding lookup follow entry_at
      lookup-mapped = rw (root_kept, l1.valid, l1.leads) (rw (middle_kept, l0.valid, l0.leads) refl)

      only :
          (t b : ℕ)
          → InUse k t
          → within t 4096 b ≡ true
          → b ≢ entry
          → ((b ≢ root_entry pt va) × (b ≢ n1 + vpn1 va * 8)) ⊎ (is_valid (k.memory b) ≡ true)
          → mapped.memory b ≡ k.memory b
      only t b u inside other (inl (h2, h1)) =
          ground (arith, x0.same t b (x1.used t u) inside (inl h1), x1.same t b u inside (inl h2))
      only t b u inside other (inr there) =
          let same = x1.same t b u inside (inr there) in
          ground (arith, x0.same t b (x1.used t u) inside (inr (ap is_valid same ∙ there)), same)

      mapped_tables :
          (ppn_to_addr (mapped.memory (root_entry pt va)) ≡ n1)
          × (ppn_to_addr (mapped.memory (n1 + vpn1 va * 8)) ≡ n0)
      mapped_tables = (ap ppn_to_addr root_kept ∙ l1.leads, ap ppn_to_addr middle_kept ∙ l0.leads)

      mapped-IsAllocator : (free : List ℕ) → IsAllocator j0 free → IsAllocator mapped free
      mapped-IsAllocator free w =
          IsAllocator-memory j0 mapped.memory free w
            (λ f hf h. ground (arith, l0.in_use, vpn0-bound va))

-- How `map` of a page ends, with `n1` and `n0` the tables of the middle and of the last level: with true, and `lookup` finds the entry, which leads to the page with the flags
-- asked for; or with false, as no frame was left for a table. The allocator stays well formed. Of
-- the frames in use no word changes but the entry of the page, and of the two entries that lead to it
-- those that were not valid.
abbrev pub MapsPage : Kernel → PageTable → ℕ → ℕ → Outcome Bool → Type 0
MapsPage k pt va leaf o =
    ((j : Kernel) × (o ≡ returns false j)
      × IsAllocator j []
      × (ram_end ≤ j.next_frame)
      × ((t b : ℕ)
          → InUse k t
          → within t 4096 b ≡ true
          → (b ≢ root_entry pt va) ⊎ (is_valid (k.memory b) ≡ true)
          → j.memory b ≡ k.memory b))
    ⊎ ((n1 n0 : ℕ) × (j : Kernel) × (free : List ℕ) × (o ≡ returns true j)
        × (lookup pt va j ≡ returns (some (n0 + vpn0 va * 8)) j)
        × (j.memory (n0 + vpn0 va * 8) ≡ leaf)
        × (middle j pt va ≡ n1)
        × (ppn_to_addr (j.memory (n1 + vpn1 va * 8)) ≡ n0)
        × IsAllocator j free
        × ((t b : ℕ)
            → InUse k t
            → within t 4096 b ≡ true
            → b ≢ n0 + vpn0 va * 8
            → ((b ≢ root_entry pt va) × (b ≢ n1 + vpn1 va * 8)) ⊎ (is_valid (k.memory b) ≡ true)
            → j.memory b ≡ k.memory b))

module _ (k : Kernel) (pt : PageTable) (va pa f : ℕ) (path : IsPath k pt va) where
  MapsPage-third :
      (n1 : ℕ) (j1 : Kernel) (x1 : Extends k j1 (root_entry pt va))
      (l1 : LeadsTo k j1 (root_entry pt va) n1) (free : List ℕ) (o : Outcome (Option ℕ))
      → IsAllocator j1 free
      → Descends j1 free (n1 + vpn1 va * 8) o
      → MapsPage k pt va (new_leaf pa f) (
          and_then
            (and_then o (λ t0. try t0 (λ table0. pure (some (entry_at table0 (vpn0 va))))))
            (λ found. elim found [
              | none ↦ pure false
              | some entry ↦ do write_leaf entry pa f false; pure true
            ]))
  unfolding write_leaf entry_at
  MapsPage-third n1 j1 x1 l1 free o v (inl (empty, full, e)) =
      inl (j1, rw e refl, rw (← empty) v, full, x1.same)
  MapsPage-third n1 j1 x1 l1 free o v (inr (n0, j0, rest, e, w, x0, l0)) = inr (
    n1,
    n0,
    mapped k pt va path n1 j1 x1 l1 n0 j0 x0 l0 (new_leaf pa f),
    rest,
    rw e refl,
    lookup-mapped k pt va path n1 j1 x1 l1 n0 j0 x0 l0 (new_leaf pa f),
    ground arith,
    (mapped_tables k pt va path n1 j1 x1 l1 n0 j0 x0 l0 (new_leaf pa f)).0,
    (mapped_tables k pt va path n1 j1 x1 l1 n0 j0 x0 l0 (new_leaf pa f)).1,
    mapped-IsAllocator k pt va path n1 j1 x1 l1 n0 j0 x0 l0 (new_leaf pa f) rest w,
    only k pt va path n1 j1 x1 l1 n0 j0 x0 l0 (new_leaf pa f),
  )

  MapsPage-second :
      (free : List ℕ) (o : Outcome (Option ℕ))
      → Descends k free (root_entry pt va) o
      → IsAllocator k free
      → MapsPage k pt va (new_leaf pa f) (
          and_then
            (and_then o (λ t1. try t1 (λ table1. descend table1 (vpn1 va) >>= λ t0.
              try t0 (λ table0. pure (some (entry_at table0 (vpn0 va)))))))
            (λ found. elim found [
              | none ↦ pure false
              | some entry ↦ do write_leaf entry pa f false; pure true
            ]))
  MapsPage-second free o (inl (empty, full, e)) v =
      inl (k, rw e refl, rw (← empty) v, full, λ t b u inside h. refl)
  MapsPage-second free o (inr (n1, j1, rest, e, w, x1, l1)) v = rw e (
      MapsPage-third n1 j1 x1 l1 rest (descend n1 (vpn1 va) j1) w (
        descend-Descends j1 rest w n1 (vpn1 va) l1.in_use (vpn1-bound va)
          (λ h. (n1-OldTable k pt va path n1 j1 x1 l1 h).0)))

  -- On a well-formed allocator, where the tables on the way to a page are different frames in use as far as
  -- they are there, `map` ends without a panic. It reports success, and then `lookup` finds the entry of
  -- the page, which holds the address and flags asked for; or it reports failure, and no free frame is
  -- left. The allocator stays well formed, and of the words of the frames in use none changes but the entry
  -- of the page, on success, and those of the two entries that lead to it that were not valid.
  pub map-MapsPage :
      (free : List ℕ) → IsAllocator k free → MapsPage k pt va (new_leaf pa f) (map pt va pa f k)
  unfolding map map_leaf walk
  map-MapsPage free v =
      MapsPage-second free (descend pt.root (vpn2 va) k)
        (descend-Descends k free v pt.root (vpn2 va) path.root (vpn2-bound va)
          (λ h. (path.second h).0))
        v
