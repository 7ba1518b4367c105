-- ===== src/Examples/Frames.antt =====
-- The theorems on kernel/src/mm/frame.rs, on the sample state.
use unit.Base.{ℕ, ◌≡◌, ◌≢◌, some, [], ◌∷◌, arith}
use unit.Kernel.{Kernel, returns}
use unit.Frame.{alloc_frame, alloc_contiguous_frames, dec_ref, free_frame}
use unit.Frame.FreeList.{IsAllocator}
use unit.Frame.Alloc.{Allocates, alloc_frame-Allocates}
use unit.Frame.Refs.{freed, free_frame-alloc_frame, dec_ref-IsAllocator}
use unit.Frame.Contiguous.{claimed, alloc_contiguous_frames_lem}
use unit.Examples.Data.{sample, sample-IsAllocator, page_free, page_shared, page_shared-IsUsed}

alloc_frame-Allocates_example : Allocates sample (page_free ∷ []) (alloc_frame sample)
alloc_frame-Allocates_example = alloc_frame-Allocates sample (page_free ∷ []) sample-IsAllocator

dec_ref-IsAllocator_example :
    (j : Kernel) × (dec_ref page_shared sample ≡ returns 1 j)
    × IsAllocator j (page_free ∷ [])
    × (j.frame_refs 0 ≡ 1)
    × ((q : ℕ) → q ≢ 0 → j.frame_refs q ≡ sample.frame_refs q)
dec_ref-IsAllocator_example =
    dec_ref-IsAllocator sample page_shared (page_free ∷ []) sample-IsAllocator page_shared-IsUsed
      (omega arith)

free_frame-alloc_frame_example :
    (free_frame page_shared sample ≡ returns tt (freed sample page_shared))
    × IsAllocator (freed sample page_shared) (page_shared ∷ page_free ∷ [])
    × (j : Kernel) × (alloc_frame (freed sample page_shared) ≡ returns (some page_shared) j)
    × (j.free_list_head ≡ page_free)
free_frame-alloc_frame_example =
    free_frame-alloc_frame sample page_shared (page_free ∷ []) sample-IsAllocator page_shared-IsUsed

alloc_contiguous_frames_example :
    (alloc_contiguous_frames 8 sample ≡ returns (some 0x8000_3000) (claimed sample 8))
    × IsAllocator (claimed sample 8) (page_free ∷ [])
alloc_contiguous_frames_example =
    alloc_contiguous_frames_lem sample 8 (page_free ∷ []) sample-IsAllocator
