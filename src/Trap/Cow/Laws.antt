-- ===== src/Trap/Cow/Laws.antt =====
-- What `handle_cow_fault` of kernel/src/trap.rs does to a page with one user and to a shared page.
use mathlib.Core.Path.{fun_ext}
use unit.Base.{
  ℕ, ◌^◌, ◌<◌, ◌≤◌, ◌+◌, ◌-◌, ◌*◌, ◌/◌, ◌%◌, refl, usize_end, ◌≡◌, ◌≢◌, true, false, arith, ap,
  if◌then◌else◌, List, [], some, ◌⊎◌, inl, inr, lt→ltb, ◌∙◌,
}
use unit.Kernel.{Kernel, Outcome, returns, panics, update, within}
use unit.Frame.{ram_end, get_ref, dec_ref, alloc_frame}
use unit.Frame.FreeList.{
  index, IsFrame, IsAllocator, frame_index-IsFrame, IsAllocator-memory, index_inj,
}
use unit.Frame.Alloc.{IsUnused, Handed, Allocates, alloc_frame-Allocates}
use unit.Frame.Refs.{IsUsed, released, dec_ref-more, released-IsAllocator}
use unit.PageTable.Flags
use unit.PageTable.Entry.{ppn_to_addr, flags, new_leaf, clear_cow, set_w, is_w, is_cow}
use unit.PageTable.Entry.Fields.{set_w-true-eq, clear_cow-eq}
use unit.PageTable.Entry.Laws.{SamePage, SamePage-trans, set_w-true-fields, clear_cow-fields}
use unit.PageTable.Entry.Sharing.{owned, IsPrivate, copied-IsPrivate}
use unit.Trap.Cow.{handle_cow_fault, claim_page, copy_page}

-- The state with one entry replaced.
abbrev pub with_entry : Kernel → ℕ → ℕ → Kernel
with_entry k entry e = record k { memory = update k.memory entry e }

update_twice : (m : ℕ → ℕ) (p v w : ℕ) → update (update m p v) p w ≡ update m p w
update_twice m p v w = fun_ext λ q. ground arith

update_self : (m : ℕ → ℕ) (p v : ℕ) → update m p v p ≡ v
update_self m p v = ground arith

with_memory : Kernel → (ℕ → ℕ) → Kernel
with_memory k m = record k { memory = m }

-- Two writes to one entry, the second computed from the first.
rewrite_entry :
    (k : Kernel) (entry v : ℕ) (f : ℕ → ℕ)
    → returns tt (record k {
      memory = update (update k.memory entry v) entry (f (update k.memory entry v entry));
    })
      ≡ returns tt (with_entry k entry (f v))
unfolding with_memory
rewrite_entry k entry v f =
    ap (λ m. returns tt (with_memory k m))
      (ap (λ t. update (update k.memory entry v) entry (f t)) (update_self k.memory entry v)
        ∙ update_twice k.memory entry v (f v))

get_ref-IsFrame :
    (pa : ℕ) (k : Kernel) → IsFrame pa → get_ref pa k ≡ returns (k.frame_refs (index pa)) k
unfolding get_ref
get_ref-IsFrame pa k h = rw (frame_index-IsFrame pa k h.0 h.1)

claim_page-owned :
    (entry : ℕ) (k : Kernel)
    → claim_page entry k ≡ returns tt (with_entry k entry (owned (k.memory entry)))
unfolding claim_page
claim_page-owned entry k = rewrite_entry k entry (set_w (k.memory entry) true) clear_cow

-- The entry `f` is `e` with the bit of the right to write set and the mark for copying clear, and every other
-- bit as in `e`.
abbrev pub IsClaimed : ℕ → ℕ → Type 0
IsClaimed e f =
    (f + e / 2 ^ 62 % 2 * 2 ^ 62 ≡ e + (1 - e / 4 % 2) * 4)
    × SamePage f e
    × (is_w f ≡ true)
    × (is_cow f ≡ false)

owned-IsClaimed : (e : ℕ) → e < usize_end → IsClaimed e (owned e)
owned-IsClaimed e h =
    let a = set_w-true-fields e h in
    let b = clear_cow-fields (set_w e true) a.0 in
    (
      omega (arith, set_w-true-eq e, clear_cow-eq (set_w e true) a.0),
      SamePage-trans (owned e) (set_w e true) e b.1 a.1,
      b.2 ∙ a.2,
      b.3,
    )

-- The state `j` differs from `k` in the word at `entry` alone.
abbrev pub OneWord : Kernel → ℕ → Kernel → Type 0
OneWord k entry j =
    (j ≡ record k { memory = j.memory }) × ((a : ℕ) → a ≢ entry → j.memory a ≡ k.memory a)

-- On a 64-bit entry that leads to a frame with at most one reference, the fault ends without a panic. The
-- entry then has the right to write, is not marked for copying, and leads to the same page with the same bits
-- otherwise; no other word of the memory, no count of references and nothing else has changed.
pub handle_cow_fault_unique :
    (vaddr entry : ℕ) (k : Kernel)
    → k.memory entry < usize_end
    → IsFrame (ppn_to_addr (k.memory entry))
    → k.frame_refs (index (ppn_to_addr (k.memory entry))) ≤ 1
    → (j : Kernel) × (handle_cow_fault vaddr entry k ≡ returns tt j)
      × IsClaimed (k.memory entry) (j.memory entry)
      × OneWord k entry j
unfolding handle_cow_fault
handle_cow_fault_unique vaddr entry k w h r =
    let e = k.memory entry in
    (
      with_entry k entry (owned e),
      rw (get_ref-IsFrame (ppn_to_addr e) k h) (ground (arith, claim_page-owned entry k)),
      rw (update_self k.memory entry (owned e)) (owned-IsClaimed e w),
      (refl, λ a ne. ground arith),
    )

-- The page that the entry at `entry` leads to, and the frame `pa` with a copy of it.
abbrev copied : Kernel → ℕ → ℕ → Kernel
copied k pa page = record k {
  memory = λ a. if within pa 4096 a then k.memory (page + (a - pa)) else k.memory a;
}

-- The new entry.
abbrev fresh_entry : ℕ → ℕ → ℕ
fresh_entry pa e = clear_cow (new_leaf pa (Flags.new true true (Flags.is_x (flags e)) true))

-- The entry does not lie in a frame that nobody references.
abbrev pub OutsideUnused : Kernel → ℕ → Type 0
OutsideUnused k entry = (pa : ℕ) → IsUnused k pa → within pa 4096 entry ≡ false

-- The state `j` after the copy into `pa`.
pub record IsCopied (k : Kernel) (entry pa : ℕ) (j : Kernel) : Type 0 where
  pub unused : IsUnused k pa
  pub entry_new : j.memory entry ≡ fresh_entry pa (k.memory entry)
  pub content : (o : ℕ) → o < 4096 → j.memory (pa + o) ≡ k.memory (ppn_to_addr (k.memory entry) + o)
  pub rest : (a : ℕ) → a ≢ entry → within pa 4096 a ≡ false → j.memory a ≡ k.memory a
  pub ref_new : j.frame_refs (index pa) ≡ 1
  pub ref_old :
      j.frame_refs (index (ppn_to_addr (k.memory entry))) + 1
      ≡ k.frame_refs (index (ppn_to_addr (k.memory entry)))

module _ (entry : ℕ) (k : Kernel) (free : List ℕ) (v : IsAllocator k free) where
  abbrev e : ℕ
  e = k.memory entry

  abbrev page : ℕ
  page = ppn_to_addr e

  module _ (u : IsUsed k page) (many : 1 < k.frame_refs (index page))
      (few : k.frame_refs (index page) < 2 ^ 32) (apart : OutsideUnused k entry) where
    -- What follows the allocation, from the state `i` that it leaves.
    module _ (pa : ℕ) (i : Kernel) (unused : IsUnused k pa) (handed : Handed k pa i) where
      abbrev before : Kernel
      before = released (copied i pa page) page

      abbrev final : Kernel
      final = with_entry before entry (fresh_entry pa e)

      ne : index page ≢ index pa
      ne h = absurd (ground (arith, index_inj page pa u.0 unused.0 h))

      refs_page : i.frame_refs (index page) ≡ k.frame_refs (index page)
      refs_page = ap (λ (r : ℕ → ℕ). r (index page)) handed.0 ∙ ground (arith, ne)

      entry_same : before.memory entry ≡ e
      entry_same = ground (arith, apart pa unused, ap (λ (m : ℕ → ℕ). m entry) handed.1)

      dec_ref-page :
          dec_ref page (copied i pa page) ≡ returns (i.frame_refs (index page) - 1) before
      dec_ref-page =
          dec_ref-more (copied i pa page) page u.0 (omega (arith, refs_page))
            (omega (arith, refs_page))

      copy_page-final :
          alloc_frame k ≡ returns (some pa) i → copy_page entry page k ≡ returns tt final
      unfolding copy_page
      copy_page-final e1 =
          rw (e1, dec_ref-page)
            (rewrite_entry before entry
                (new_leaf pa (Flags.new true true (Flags.is_x (flags (before.memory entry))) true))
                clear_cow
              ∙ ap (λ t. returns tt (with_entry before entry (fresh_entry pa t))) entry_same)

      final-IsCopied : IsCopied k entry pa final
      final-IsCopied = record {
        unused = unused;
        entry_new = update_self before.memory entry (fresh_entry pa e);
        content = λ o lt.
            ground
              (arith, apart pa unused, ap (λ (m : ℕ → ℕ). m (page + o)) handed.1, within_back o lt);
        rest = λ a h out. ground (arith, ap (λ (m : ℕ → ℕ). m a) handed.1);
        ref_new =
            ap (λ (r : ℕ → ℕ). update r (index page) (r (index page) - 1) (index pa)) handed.0
            ∙ ground (arith, ne);
        ref_old = ground (arith, refs_page);
      }
        where
          within_back : (o : ℕ) → o < 4096 → i.memory (page + (pa + o - pa)) ≡ i.memory (page + o)
          within_back o lt = ap (λ (t : ℕ). i.memory (page + t)) (omega arith)

      still_unused : (f : ℕ) → final.frame_refs (index f) ≡ 0 → i.frame_refs (index f) ≡ 0
      still_unused f h = ground (arith, refs_page)

      -- The links of the free frames are not touched.
      links : (f : ℕ) → IsFrame f → i.frame_refs (index f) ≡ 0 → final.memory f ≡ i.memory f
      links f hf h = ground (arith, elsewhere, apart f (hf, unreferenced), handed.0)
        where
          other : index f ≢ index pa
          other s = absurd (ground (arith, ap (λ (r : ℕ → ℕ). r (index f)) handed.0))

          unreferenced : k.frame_refs (index f) ≡ 0
          unreferenced = ground (arith, other, ap (λ (r : ℕ → ℕ). r (index f)) handed.0)

          elsewhere : within pa 4096 f ≡ false
          elsewhere = ground (arith, other)

      final-IsAllocator :
          (rest : List ℕ)
          → IsAllocator i rest
          → k.next_frame ≤ i.next_frame
          → IsAllocator final rest
      final-IsAllocator rest w up =
          IsAllocator-memory (released i page) final.memory rest
            (released-IsAllocator i page rest w (u.0, omega (arith, u.1), omega (arith, refs_page)))
            (λ f hf h. links f hf (still_unused f h))

    -- How the fault on a shared page ends: with a panic because no frame is left, or with a private copy.
    abbrev pub Unshares : Outcome (Unit {0}) → Type 0
    Unshares o =
        ((free ≡ []) × (ram_end ≤ k.next_frame) × (o ≡ panics))
        ⊎ ((pa : ℕ) × (j : Kernel) × (rest : List ℕ) × (o ≡ returns tt j)
            × IsCopied k entry pa j
            × IsPrivate (j.memory entry) pa (Flags.is_x (flags e))
            × IsAllocator j rest)

    Unshares-alloc : Allocates k free (alloc_frame k) → Unshares (copy_page entry page k)
    Unshares-alloc (inl (none_free, full, e1)) = inl (none_free, full, unfold copy_page in rw e1)
    Unshares-alloc (inr (pa, rest, i, e1, unused, handed, w, out, up)) = inr (
      pa,
      final pa i unused handed,
      rest,
      copy_page-final pa i unused handed e1,
      final-IsCopied pa i unused handed,
      rw (final-IsCopied pa i unused handed).entry_new
          (copied-IsPrivate pa (Flags.is_x (flags e)) (omega arith) unused.0.2),
      final-IsAllocator pa i unused handed rest w up,
    )

    -- On a well-formed allocator, where the entry leads to a frame in use with more than one and
    -- fewer than 2^32 references and does not itself lie in a frame that nobody references: the
    -- fault panics if no frame is left, and else makes the entry lead to a new frame with the
    -- same contents, which a user may read and write and, as before, execute or not. The old page
    -- loses one reference, no other memory changes and the allocator stays well formed.
    pub handle_cow_fault-Unshares : (vaddr : ℕ) → Unshares (handle_cow_fault vaddr entry k)
    unfolding handle_cow_fault
    handle_cow_fault-Unshares vaddr =
        rw (get_ref-IsFrame page k u.0, lt→ltb 1 (k.frame_refs (index page)) many)
          (Unshares-alloc (alloc_frame-Allocates k free v))
