-- ===== src/Frame/Alloc.antt =====
-- `alloc_frame` of kernel/src/mm/frame.rs on every well-formed state.
use unit.Base.{
  ℕ, ◌+◌, ◌≤◌, ◌<◌, ◌≡◌, refl, false, List, [], ◌∷◌, Option, none, some, arith, ◌⊎◌, inl, inr,
  dec_lt,
}
use unit.Kernel.{Kernel, Outcome, returns, update}
use unit.Frame.{ram_end, frame_index, alloc_frame}
use unit.Frame.FreeList.{index, IsFrame, has, IsAllocator, index_inj, FreeList-frame}

-- The state after `pa` was handed out: its count is 1, and nothing but the allocator's statics
-- changed.
abbrev pub Handed : Kernel → ℕ → Kernel → Type 0
Handed k pa j =
    (j.frame_refs ≡ update k.frame_refs (index pa) 1)
    × (j.memory ≡ k.memory)
    × (j.process_list ≡ k.process_list)
    × (j.current ≡ k.current)
    × (j.next_pid ≡ k.next_pid)

-- `pa` is a frame that nobody referenced.
abbrev pub IsUnused : Kernel → ℕ → Type 0
IsUnused k pa = IsFrame pa × (k.frame_refs (index pa) ≡ 0)

abbrev taken : Kernel → ℕ → ℕ → Kernel
taken k f next = record k { free_list_head = next; frame_refs = update k.frame_refs (index f) 1 }

abbrev raised : Kernel → Kernel
raised k = record k {
  next_frame = k.next_frame + 4096;
  frame_refs = update k.frame_refs (index k.next_frame) 1;
}

-- A frame from the free list.
pub alloc_frame-cons :
    (k : Kernel) (f : ℕ) (fs : List ℕ)
    → IsAllocator k (f ∷ fs)
    → alloc_frame k ≡ returns (some f) (taken k f (k.memory f))
unfolding alloc_frame frame_index
alloc_frame-cons k f fs v = ground (arith, v.chain)

-- With an empty list, the frame at the mark.
pub alloc_frame-nil :
    (k : Kernel)
    → IsAllocator k []
    → k.next_frame < ram_end
    → alloc_frame k ≡ returns (some k.next_frame) (raised k)
unfolding alloc_frame frame_index
alloc_frame-nil k v h = ground (arith, v.chain, v.above)

pub alloc_frame-full :
    (k : Kernel) → IsAllocator k [] → ram_end ≤ k.next_frame → alloc_frame k ≡ returns none k
unfolding alloc_frame
alloc_frame-full k v h = ground (arith, v.chain)

taken-IsAllocator :
    (k : Kernel) (f : ℕ) (fs : List ℕ)
    → IsAllocator k (f ∷ fs)
    → IsAllocator (taken k f (k.memory f)) fs
taken-IsAllocator k f fs v = record {
  chain =
      FreeList-frame (taken k f (k.memory f)) k (k.memory f) fs (omega arith)
        (λ g hg i. ground (arith, v.chain, index_inj g f hg v.chain.1)) v.chain.5;
  aligned = v.aligned;
  above = v.above;
  below = v.below;
  fresh = λ pa lo hi. ground (arith, v.fresh pa, v.chain);
}

raised-IsAllocator :
    (k : Kernel) → IsAllocator k [] → k.next_frame < ram_end → IsAllocator (raised k) []
raised-IsAllocator k v h = record {
  chain = v.chain;
  aligned = omega (arith, v.aligned);
  above = omega (arith, v.above);
  below = omega (arith, v.below, v.aligned);
  fresh = λ pa lo hi. ground (arith, v.fresh pa, v.aligned, v.above);
}

-- What `alloc_frame` does on a well-formed state whose free frames are `free`.
abbrev pub Allocates : Kernel → List ℕ → Outcome (Option ℕ) → Type 0
Allocates k free o =
    ((free ≡ []) × (ram_end ≤ k.next_frame) × (o ≡ returns none k))
    ⊎ ((pa : ℕ) × (rest : List ℕ) × (j : Kernel) × (o ≡ returns (some pa) j)
        × IsUnused k pa
        × Handed k pa j
        × IsAllocator j rest
        × (has pa rest ≡ false)
        × (k.next_frame ≤ j.next_frame))

-- On a well-formed state `alloc_frame` hands out a frame that nobody references and keeps the
-- state well formed, or, exactly when no frame is left, gives `None` and changes nothing; it
-- never panics.
pub alloc_frame-Allocates :
    (k : Kernel) (free : List ℕ) → IsAllocator k free → Allocates k free (alloc_frame k)
alloc_frame-Allocates k (f ∷ fs) v = inr (
  f,
  fs,
  taken k f (k.memory f),
  alloc_frame-cons k f fs v,
  (v.chain.1, v.chain.3),
  (refl, refl, refl, refl, refl),
  taken-IsAllocator k f fs v,
  v.chain.4,
  omega arith,
)
alloc_frame-Allocates k [] v = elim (dec_lt k.next_frame ram_end) [
  | no h ↦ inl (refl, omega arith, alloc_frame-full k v (omega arith))
  | yes h ↦ inr (
    k.next_frame,
    [],
    raised k,
    alloc_frame-nil k v h,
    ((v.above, h, v.aligned), v.fresh k.next_frame (omega arith) h),
    (refl, refl, refl, refl, refl),
    raised-IsAllocator k v h,
    refl,
    omega arith,
  )
]
