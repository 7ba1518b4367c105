-- ===== src/Frame/Contiguous.antt =====
-- `alloc_contiguous_frames` of kernel/src/mm/frame.rs, and the memory it never gets back.
use unit.Base.{
  ℕ, zero, suc, ◌+◌, ◌*◌, ◌%◌, ◌≤◌, ◌<◌, ◌≡◌, List, none, some, ltb, leb, arith, Bool-cases, ◌⊎◌,
  inl, inr, if◌then◌else◌, ◌&&◌, ap, ◌∙◌,
}
use mathlib.Core.Path.{fun_ext}
use unit.Kernel.{Kernel, returns, update}
use unit.Frame.{ram_base, ram_end, store_refs, alloc_contiguous_frames}
use unit.Frame.FreeList.{index, IsAllocator, frame_index-IsFrame, FreeList-below}

-- The counts after the frames from number `from` on, `pages` of them, were set to 1.
abbrev pub ones : (ℕ → ℕ) → ℕ → ℕ → ℕ → ℕ
ones refs from pages q = if leb from q && ltb q (from + pages) then 1 else refs q

with_refs : Kernel → (ℕ → ℕ) → Kernel
with_refs k refs = record k { frame_refs = refs }

ones-zero : (refs : ℕ → ℕ) (from : ℕ) → refs ≡ ones refs from 0
ones-zero refs from = fun_ext λ q. ground arith

ones-suc :
    (refs : ℕ → ℕ) (from pages idx : ℕ)
    → idx ≡ from
    → ones (update refs idx 1) (from + 1) pages ≡ ones refs from (suc pages)
ones-suc refs from pages idx e = fun_ext λ q. ground arith

module _ (start : ℕ) (al : start % 4096 ≡ 0) (lo : ram_base ≤ start) where
  -- The loop sets the count of each frame to 1, and never meets an address out of RAM.
  store_refs-ones :
      (pages i from : ℕ) (k : Kernel)
      → from ≡ index start + i
      → start + (i + pages) * 4096 ≤ ram_end
      → store_refs start pages i k ≡ returns tt (with_refs k (ones k.frame_refs from pages))
  unfolding store_refs with_refs
  store_refs-ones zero i from k e h =
      ap (λ r. returns tt (with_refs k r)) (ones-zero k.frame_refs from)
  store_refs-ones (suc pages) i from k e h =
      let here = start + i * 4096 in
      let k1 = with_refs k (update k.frame_refs (index here) 1) in
      rw (frame_index-IsFrame here k (omega arith) (omega arith)) (
        store_refs-ones pages (i + 1) (from + 1) k1 (omega arith) (omega arith)
        ∙ ap (λ r. returns tt (with_refs k r))
            (ones-suc k.frame_refs from pages (index here) (omega arith)))

-- The state after `pages` frames at the mark were handed out.
abbrev pub claimed : Kernel → ℕ → Kernel
claimed k pages = record k {
  next_frame = k.next_frame + pages * 4096;
  frame_refs = ones k.frame_refs (index k.next_frame) pages;
}

alloc_contiguous_frames-fits :
    (k : Kernel) (pages : ℕ) (free : List ℕ)
    → IsAllocator k free
    → 0 < pages
    → k.next_frame + pages * 4096 ≤ ram_end
    → alloc_contiguous_frames pages k ≡ returns (some k.next_frame) (claimed k pages)
unfolding alloc_contiguous_frames with_refs
alloc_contiguous_frames-fits k pages free v pos h =
    let k1 : Kernel = record k { next_frame = k.next_frame + pages * 4096 } in
    ground (
      arith,
      store_refs-ones k.next_frame v.aligned v.above pages 0 (index k.next_frame) k1 (omega arith)
          (omega arith),
    )

alloc_contiguous_frames-none :
    (k : Kernel) (pages : ℕ)
    → (pages ≡ 0) ⊎ (ram_end < k.next_frame + pages * 4096)
    → alloc_contiguous_frames pages k ≡ returns none k
unfolding alloc_contiguous_frames
alloc_contiguous_frames-none k pages h = ground arith

claimed-IsAllocator :
    (k : Kernel) (pages : ℕ) (free : List ℕ)
    → IsAllocator k free
    → k.next_frame + pages * 4096 ≤ ram_end
    → IsAllocator (claimed k pages) free
claimed-IsAllocator k pages free v h = record {
  chain =
      FreeList-below (claimed k pages) k k.free_list_head free (omega arith)
        (λ g hg b. ground (arith, v.aligned, v.above)) v.chain;
  aligned = omega (arith, v.aligned);
  above = omega (arith, v.above);
  below = h;
  fresh = λ p lo hi. ground (arith, v.fresh p, v.aligned, v.above);
}

-- On a well-formed state `alloc_contiguous_frames` gives the frames from the mark on, raises the mark
-- past them and sets their counts to 1, if there are as many below the end of RAM; otherwise, and
-- for no pages, it gives `None` and changes nothing. The free list is never used, and kept.
pub alloc_contiguous_frames_lem :
    (k : Kernel) (pages : ℕ) (free : List ℕ)
    → IsAllocator k free
    → alloc_contiguous_frames pages k ≡ (
        if leb 1 pages && leb (k.next_frame + pages * 4096) ram_end
        then returns (some k.next_frame) (claimed k pages)
        else returns none k)
      × IsAllocator
          (if leb 1 pages && leb (k.next_frame + pages * 4096) ram_end then claimed k pages else k)
          free
alloc_contiguous_frames_lem k pages free v =
    elim (Bool-cases (leb 1 pages && leb (k.next_frame + pages * 4096) ram_end)) [
      | inl fits ↦ rw fits (
        alloc_contiguous_frames-fits k pages free v (ground arith) (ground arith),
        claimed-IsAllocator k pages free v (ground arith),
      )
      | inr full ↦ rw full (alloc_contiguous_frames-none k pages (ground arith), v)
    ]
