-- ===== src/Frame/FreeList.antt =====
-- The well-formed states of the allocator of kernel/src/mm/frame.rs.
use unit.Base.{
  ℕ, ◌-◌, ◌/◌, ◌%◌, ◌≤◌, ◌<◌, ◌≡◌, refl, Bool, true, false, ◌||◌, List, [], ◌∷◌, ◌==◌, arith, ◌⊎◌,
  inl, inr, Bool-cases,
}
use unit.Kernel.{Kernel, returns, panics}
use unit.Frame.{ram_base, ram_end, frame_index}

-- The number of a frame, from its address.
abbrev pub index : ℕ → ℕ
index pa = (pa - ram_base) / 4096

-- The address of a 4 KiB frame of RAM.
abbrev pub IsFrame : ℕ → Type 0
IsFrame pa = (ram_base ≤ pa) × (pa < ram_end) × (pa % 4096 ≡ 0)

abbrev pub has : ℕ → List ℕ → Bool
has a [] = false
has a (x ∷ xs) = (a == x) || has a xs

-- The free list from `head` on: distinct frames below the mark that nobody references, each of which
-- holds the address of the next in its first word, and the last of which holds 0.
abbrev pub FreeList : Kernel → ℕ → List ℕ → Type 0
FreeList k head [] = head ≡ 0
FreeList k head (f ∷ fs) =
    (head ≡ f)
    × IsFrame f
    × (f < k.next_frame)
    × (k.frame_refs (index f) ≡ 0)
    × (has f fs ≡ false)
    × FreeList k (k.memory f) fs

-- The allocator is well formed, and its free frames are `free`.
pub record IsAllocator (k : Kernel) (free : List ℕ) : Type 0 where
  pub chain : FreeList k k.free_list_head free
  pub aligned : k.next_frame % 4096 ≡ 0
  pub above : ram_base ≤ k.next_frame
  pub below : k.next_frame ≤ ram_end
  -- What lies above the mark was never handed out.
  pub fresh : (pa : ℕ) → k.next_frame ≤ pa → pa < ram_end → k.frame_refs (index pa) ≡ 0

-- A frame has the index that `index` gives it.
pub frame_index-IsFrame :
    (pa : ℕ) (k : Kernel) → ram_base ≤ pa → pa < ram_end → frame_index pa k ≡ returns (index pa) k
unfolding frame_index
frame_index-IsFrame pa k lo hi = ground arith

pub frame_index-panics :
    (pa : ℕ) (k : Kernel) → (pa < ram_base) ⊎ (ram_end ≤ pa) → frame_index pa k ≡ panics
unfolding frame_index
frame_index-panics pa k h = ground arith

pub index_inj : (a b : ℕ) → IsFrame a → IsFrame b → index a ≡ index b → a ≡ b
index_inj a b ha hb e = omega arith

-- A frame in use is not on the free list.
pub not-has_of_ref :
    (k : Kernel) (head pa : ℕ) (fs : List ℕ)
    → FreeList k head fs
    → 0 < k.frame_refs (index pa)
    → has pa fs ≡ false
not-has_of_ref k head pa [] c h = refl
not-has_of_ref k head pa (f ∷ fs) c h = ground (arith, not-has_of_ref k (k.memory f) pa fs c.5 h)

-- A frame above the mark is not on the free list either.
pub not-has_of_mark :
    (k : Kernel) (head pa : ℕ) (fs : List ℕ)
    → FreeList k head fs
    → k.next_frame ≤ pa
    → has pa fs ≡ false
not-has_of_mark k head pa [] c h = refl
not-has_of_mark k head pa (f ∷ fs) c h = ground (arith, not-has_of_mark k (k.memory f) pa fs c.5 h)

-- `j` agrees with `k` on the frame `f` as far as the free list is concerned.
abbrev pub Agrees : Kernel → Kernel → ℕ → Type 0
Agrees j k f = (j.memory f ≡ k.memory f) × (j.frame_refs (index f) ≡ k.frame_refs (index f))

-- The list survives what leaves its own frames alone.
pub FreeList-frame :
    (j k : Kernel) (head : ℕ) (fs : List ℕ)
    → k.next_frame ≤ j.next_frame
    → ((f : ℕ) → IsFrame f → has f fs ≡ true → Agrees j k f)
    → FreeList k head fs
    → FreeList j head fs
FreeList-frame j k head [] up same c = c
FreeList-frame j k head (f ∷ fs) up same c =
    ground
      (arith, same f, FreeList-frame j k (k.memory f) fs up (λ g h i. same g h (ground arith)) c.5)

-- The same, where what changes lies above the mark.
pub FreeList-below :
    (j k : Kernel) (head : ℕ) (fs : List ℕ)
    → k.next_frame ≤ j.next_frame
    → ((f : ℕ) → IsFrame f → f < k.next_frame → Agrees j k f)
    → FreeList k head fs
    → FreeList j head fs
FreeList-below j k head [] up same c = c
FreeList-below j k head (f ∷ fs) up same c =
    ground (arith, same f, FreeList-below j k (k.memory f) fs up same c.5)

-- The frames of the list are frames that nobody references.
pub FreeList-unused :
    (k : Kernel) (head f : ℕ) (fs : List ℕ)
    → FreeList k head fs
    → has f fs ≡ true
    → IsFrame f × (k.frame_refs (index f) ≡ 0)
FreeList-unused k head f [] c h = absurd (cc)
FreeList-unused k head f (g ∷ fs) c h = elim (Bool-cases (f == g)) [
  | inl hit ↦ let same : f ≡ g = ground arith in rw same (c.1, c.3)
  | inr miss ↦ FreeList-unused k (k.memory g) f fs c.5 (ground arith)
]

-- Memory may change wherever no free frame has its link.
pub IsAllocator-memory :
    (k : Kernel) (m : ℕ → ℕ) (free : List ℕ)
    → IsAllocator k free
    → ((f : ℕ) → IsFrame f → k.frame_refs (index f) ≡ 0 → m f ≡ k.memory f)
    → IsAllocator (record k { memory = m }) free
IsAllocator-memory k m free v same = record {
  chain =
      FreeList-frame (record k { memory = m }) k k.free_list_head free (omega arith)
        (λ f hf i. (same f hf (FreeList-unused k k.free_list_head f free v.chain i).1, refl))
        v.chain;
  aligned = v.aligned;
  above = v.above;
  below = v.below;
  fresh = v.fresh;
}
