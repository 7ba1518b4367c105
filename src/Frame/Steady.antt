-- ===== src/Frame/Steady.antt =====
-- The operations of kernel/src/mm/frame.rs leave the processes alone.
use unit.Base.{ℕ, zero, suc, ◌+◌, ◌*◌, refl}
use unit.Kernel.Steady.{IsSteady, steady, bind-IsSteady, seq-IsSteady, pure-IsSteady}
use unit.Frame.{
  frame_index, store_ref, store_head, store_next, inc_ref, free_frame, dec_ref, get_ref, alloc_head,
  alloc_next, alloc_frame, store_refs, claim_frames, alloc_contiguous_frames,
}

store_ref-IsSteady : (idx v : ℕ) → IsSteady (store_ref idx v)
store_ref-IsSteady idx v = record { run = λ k. (refl, refl, refl, refl) }

store_head-IsSteady : (head : ℕ) → IsSteady (store_head head)
store_head-IsSteady head = record { run = λ k. (refl, refl, refl, refl) }

store_next-IsSteady : (next : ℕ) → IsSteady (store_next next)
store_next-IsSteady next = record { run = λ k. (refl, refl, refl, refl) }

frame_index-IsSteady : (pa : ℕ) → IsSteady (frame_index pa)
unfolding frame_index
frame_index-IsSteady pa = search steady

ruleset statics =
    (steady, store_ref-IsSteady, store_head-IsSteady, store_next-IsSteady, frame_index-IsSteady)

pub inc_ref-IsSteady : (pa : ℕ) → IsSteady (inc_ref pa)
unfolding inc_ref
inc_ref-IsSteady pa = search statics

pub free_frame-IsSteady : (pa : ℕ) → IsSteady (free_frame pa)
unfolding free_frame
free_frame-IsSteady pa = search statics depth 14

pub dec_ref-IsSteady : (pa : ℕ) → IsSteady (dec_ref pa)
unfolding dec_ref
dec_ref-IsSteady pa = search (statics, free_frame-IsSteady) depth 14

pub get_ref-IsSteady : (pa : ℕ) → IsSteady (get_ref pa)
unfolding get_ref
get_ref-IsSteady pa = search statics

alloc_head-IsSteady : (head : ℕ) → IsSteady (alloc_head head)
unfolding alloc_head
alloc_head-IsSteady head = search statics depth 14

alloc_next-IsSteady : (p : ℕ) → IsSteady (alloc_next p)
unfolding alloc_next
alloc_next-IsSteady p = search statics depth 14

pub alloc_frame-IsSteady : IsSteady alloc_frame
unfolding alloc_frame
alloc_frame-IsSteady = search (statics, alloc_head-IsSteady, alloc_next-IsSteady) depth 14

store_refs-IsSteady : (start pages i : ℕ) → IsSteady (store_refs start pages i)
unfolding store_refs
store_refs-IsSteady start zero i = pure-IsSteady
store_refs-IsSteady start (suc pages) i =
    bind-IsSteady (frame_index-IsSteady (start + i * 4096))
      (λ idx. seq-IsSteady (store_ref-IsSteady idx 1) (store_refs-IsSteady start pages (i + 1)))

claim_frames-IsSteady : (pages start end : ℕ) → IsSteady (claim_frames pages start end)
unfolding claim_frames
claim_frames-IsSteady pages start end = search (statics, store_refs-IsSteady) depth 14

pub alloc_contiguous_frames-IsSteady : (pages : ℕ) → IsSteady (alloc_contiguous_frames pages)
unfolding alloc_contiguous_frames
alloc_contiguous_frames-IsSteady pages = search (statics, claim_frames-IsSteady) depth 14
