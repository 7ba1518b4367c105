-- ===== src/Frame/Refs.antt =====
-- `free_frame`, `inc_ref` and `dec_ref` of kernel/src/mm/frame.rs.
use unit.Base.{
  ℕ, ◌+◌, ◌-◌, ◌^◌, ◌<◌, ◌≡◌, ◌≢◌, refl, false, List, ◌∷◌, some, ◌==◌, arith, Bool-cases, inl, inr,
  if◌then◌else◌,
}
use unit.Kernel.{Kernel, returns, panics, update}
use unit.Frame.{frame_index, alloc_frame, free_frame, dec_ref, inc_ref, get_ref}
use unit.Frame.FreeList.{
  index, IsFrame, has, IsAllocator, index_inj, FreeList-frame, not-has_of_ref,
}
use unit.Frame.Alloc.{alloc_frame-cons}

-- A frame below the mark, with a count of at least 1.
abbrev pub IsUsed : Kernel → ℕ → Type 0
IsUsed k pa = IsFrame pa × (pa < k.next_frame) × (0 < k.frame_refs (index pa))

-- The state after `pa` went back to the free list.
abbrev pub freed : Kernel → ℕ → Kernel
freed k pa = record k {
  memory = update k.memory pa k.free_list_head;
  free_list_head = pa;
  frame_refs = update k.frame_refs (index pa) 0;
}

pub free_frame-eq : (k : Kernel) (pa : ℕ) → IsFrame pa → free_frame pa k ≡ returns tt (freed k pa)
unfolding free_frame frame_index
free_frame-eq k pa h = ground arith

pub freed-IsAllocator :
    (k : Kernel) (pa : ℕ) (free : List ℕ)
    → IsAllocator k free
    → IsFrame pa
    → pa < k.next_frame
    → has pa free ≡ false
    → IsAllocator (freed k pa) (pa ∷ free)
freed-IsAllocator k pa free v h below out = record {
  chain = (
    refl,
    h,
    below,
    ground arith,
    out,
    ground (
      arith,
      FreeList-frame (freed k pa) k k.free_list_head free (omega arith)
          (λ g hg i. ground (arith, index_inj g pa hg h)) v.chain,
    ),
  );
  aligned = v.aligned;
  above = v.above;
  below = v.below;
  fresh = λ p lo hi. ground (arith, v.fresh p);
}

-- On a well-formed state, freeing a frame in use puts it in front of the free list and keeps the
-- state well formed, and the next `alloc_frame` gives the same frame out again and restores the
-- head of the list.
pub free_frame-alloc_frame :
    (k : Kernel) (pa : ℕ) (free : List ℕ)
    → IsAllocator k free
    → IsUsed k pa
    → (free_frame pa k ≡ returns tt (freed k pa))
      × IsAllocator (freed k pa) (pa ∷ free)
      × (j : Kernel) × (alloc_frame (freed k pa) ≡ returns (some pa) j)
      × (j.free_list_head ≡ k.free_list_head)
free_frame-alloc_frame k pa free v u =
    let out = not-has_of_ref k k.free_list_head pa free v.chain u.2 in
    let w = freed-IsAllocator k pa free v u.0 u.1 out in
    (free_frame-eq k pa u.0, w, _, alloc_frame-cons (freed k pa) pa free w, ground arith)

-- The state after one reference to `pa` was given up and others are left.
abbrev pub released : Kernel → ℕ → Kernel
released k pa = record k {
  frame_refs = update k.frame_refs (index pa) (k.frame_refs (index pa) - 1);
}

dec_ref-last :
    (k : Kernel) (pa : ℕ)
    → IsFrame pa
    → k.frame_refs (index pa) ≡ 1
    → dec_ref pa k ≡ returns 0 (freed (released k pa) pa)
unfolding dec_ref frame_index free_frame
dec_ref-last k pa h e = ground arith

pub dec_ref-more :
    (k : Kernel) (pa : ℕ)
    → IsFrame pa
    → 1 < k.frame_refs (index pa)
    → k.frame_refs (index pa) < 2 ^ 32
    → dec_ref pa k ≡ returns (k.frame_refs (index pa) - 1) (released k pa)
unfolding dec_ref frame_index free_frame
dec_ref-more k pa h e b = ground arith

pub released-IsAllocator :
    (k : Kernel) (pa : ℕ) (free : List ℕ)
    → IsAllocator k free
    → IsUsed k pa
    → IsAllocator (released k pa) free
released-IsAllocator k pa free v u = record {
  chain =
      FreeList-frame (released k pa) k k.free_list_head free (omega arith)
        (λ g hg i.
          ground (arith, index_inj g pa hg u.0, not-has_of_ref k k.free_list_head pa free v.chain))
        v.chain;
  aligned = v.aligned;
  above = v.above;
  below = v.below;
  fresh = λ p lo hi. ground (arith, v.fresh p);
}

-- On a well-formed state, for a frame in use with a count below 2^32: `dec_ref` lowers the count
-- by one and frees the frame exactly when that was the last reference; the state stays well
-- formed, and no other count changes.
pub dec_ref-IsAllocator :
    (k : Kernel) (pa : ℕ) (free : List ℕ)
    → IsAllocator k free
    → IsUsed k pa
    → k.frame_refs (index pa) < 2 ^ 32
    → (j : Kernel) × (dec_ref pa k ≡ returns (k.frame_refs (index pa) - 1) j)
      × IsAllocator j (if k.frame_refs (index pa) == 1 then pa ∷ free else free)
      × (j.frame_refs (index pa) ≡ k.frame_refs (index pa) - 1)
      × ((q : ℕ) → q ≢ index pa → j.frame_refs q ≡ k.frame_refs q)
dec_ref-IsAllocator k pa free v u b = elim (Bool-cases (k.frame_refs (index pa) == 1)) [
  | inl last ↦
      let out = not-has_of_ref k k.free_list_head pa free v.chain u.2 in
      let w = released-IsAllocator k pa free v u in
      (
        freed (released k pa) pa,
        ground (arith, dec_ref-last k pa u.0),
        rw last (freed-IsAllocator (released k pa) pa free w u.0 u.1 out),
        ground arith,
        λ q h. ground arith,
      )
  | inr more ↦ (
    released k pa,
    dec_ref-more k pa u.0 (ground arith) b,
    rw more (released-IsAllocator k pa free v u),
    ground arith,
    λ q h. ground arith,
  )
]

-- For a frame with a count that is neither 0 nor 2^32 - 1: `inc_ref` raises the count by one, as
-- `get_ref` then reports, and `dec_ref` behind it gives the old count, restores all counts and
-- leaves the free list as it was.
dec_ref-inc_ref :
    (k : Kernel) (pa : ℕ)
    → IsFrame pa
    → 0 < k.frame_refs (index pa)
    → k.frame_refs (index pa) + 1 < 2 ^ 32
    → (i j : Kernel) × (inc_ref pa k ≡ returns tt i)
      × (get_ref pa i ≡ returns (k.frame_refs (index pa) + 1) i)
      × (dec_ref pa i ≡ returns (k.frame_refs (index pa)) j)
      × ((q : ℕ) → j.frame_refs q ≡ k.frame_refs q)
      × (j.free_list_head ≡ k.free_list_head)
unfolding inc_ref get_ref frame_index
dec_ref-inc_ref k pa h pos b =
    let i : Kernel = record k {
      frame_refs = update k.frame_refs (index pa) (k.frame_refs (index pa) + 1);
    } in
    (
      i,
      released i pa,
      ground arith,
      ground arith,
      ground (arith, dec_ref-more i pa h),
      λ q. ground arith,
      refl,
    )

-- Giving up a reference that nobody holds panics: `prev - 1` overflows.
pub dec_ref_underflow :
    (k : Kernel) (pa : ℕ) → IsFrame pa → k.frame_refs (index pa) ≡ 0 → dec_ref pa k ≡ panics
unfolding dec_ref frame_index
dec_ref_underflow k pa h e = ground arith
