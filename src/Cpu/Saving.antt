-- ===== src/Cpu/Saving.antt =====
-- What `trap_entry` of kernel/src/main.rs leaves on the kernel stack.
use unit.Base.{
  ℕ, zero, suc, ◌+◌, ◌-◌, ◌*◌, ◌%◌, ◌≤◌, ◌<◌, ◌≡◌, ◌≢◌, ◌⊎◌, inl, inr, refl, ap, ◌∙◌, sym, List, [],
  ◌∷◌, arith, usize_end,
}
use unit.Kernel.{update}
use unit.Cpu.{Cpu, jumps, calls, exec, minus, from_user, trap_handler}
use unit.Cpu.Registers.{a0, a6, t0, sp, sscratch, sstatus, sepc, scause, stval}
use unit.Cpu.TrapEntry.{entry_head, entry_save, entry_return, trap_entry}
use unit.Task.Stack.{words_at}
use unit.Task.Scheduler.Switch.{stack_frame}
use unit.Task.TrapFrame.{TrapFrame, size}

-- Stores at offsets from a base, in their order.
abbrev store_all : (ℕ → ℕ) → ℕ → List (ℕ × ℕ) → ℕ → ℕ
store_all m x [] = m
store_all m x ((o, v) ∷ ps) = store_all (update m ((x + o) % usize_end) v) x ps

-- The same on a memory that is seen from the base.
abbrev store_seen : (ℕ → ℕ) → List (ℕ × ℕ) → ℕ → ℕ
store_seen f [] = f
store_seen f ((o, v) ∷ ps) = store_seen (update f o v) ps

abbrev Offsets : List (ℕ × ℕ) → Type 0
Offsets [] = Unit
Offsets ((o, v) ∷ ps) = (o < size) × Offsets ps

-- `f` is `m` seen from `x`, over the bytes of a trap frame.
abbrev pub Sees : (ℕ → ℕ) → ℕ → (ℕ → ℕ) → Type 0
Sees m x f = (q : ℕ) → q < size → m (x + q) ≡ f q

module _ (x : ℕ) (fits : x + size ≤ usize_end) where
  Sees-update :
      (m f : ℕ → ℕ) (o v : ℕ)
      → o < size
      → Sees m x f
      → Sees (update m ((x + o) % usize_end) v) x (update f o v)
  Sees-update m f o v h s q l = ground (arith, s q l)

  Sees-store_all :
      (ps : List (ℕ × ℕ)) (m f : ℕ → ℕ)
      → Offsets ps
      → Sees m x f
      → Sees (store_all m x ps) x (store_seen f ps)
  Sees-store_all [] m f h s = s
  Sees-store_all ((o, v) ∷ ps) m f h s =
      Sees-store_all ps (update m ((x + o) % usize_end) v) (update f o v) h.1
        (Sees-update m f o v h.0 s)

  store_all-outside :
      (ps : List (ℕ × ℕ)) (m : ℕ → ℕ) (a : ℕ)
      → Offsets ps
      → (a < x) ⊎ (x + size ≤ a)
      → store_all m x ps a ≡ m a
  store_all-outside [] m a h o = refl
  store_all-outside ((o, v) ∷ ps) m a h out =
      store_all-outside ps (update m ((x + o) % usize_end) v) a h.1 out ∙ ground (arith, out)

pub words_at-Sees :
    (m : ℕ → ℕ) (x : ℕ) (f : ℕ → ℕ) (n q : ℕ)
    → q + n * 8 ≤ size
    → Sees m x f
    → words_at m (x + q) n ≡ words_at f q n
unfolding words_at
words_at-Sees m x f zero q h s = refl
words_at-Sees m x f (suc n) q h s = λ i.
    s q (omega arith) i
    ∷ (ap (λ (t : ℕ). words_at m t n) next ∙ words_at-Sees m x f n (q + 8) (omega arith) s) i
  where
    next : x + q + 8 ≡ x + (q + 8)
    next = omega arith

-- `n` registers from `i` on.
abbrev pub registers : (ℕ → ℕ) → ℕ → ℕ → List ℕ
registers regs i zero = []
registers regs i (suc n) = regs i ∷ registers regs (i + 1) n

-- The trap frame of a user program that was stopped in this state: x0 is 0.
abbrev pub frame_of : Cpu → TrapFrame
frame_of u = record {
  regs = 0 ∷ registers u.regs 1 31;
  sstatus = u.csrs sstatus;
  sepc = u.csrs sepc;
  scause = u.csrs scause;
  stval = u.csrs stval;
}

module _ (u : Cpu) where
  abbrev base : ℕ
  base = u.csrs sscratch - size

  -- The words that the code stores, by their offsets.
  abbrev words : List (ℕ × ℕ)
  words =
      (0, 0)
      ∷ (8, u.regs 1)
      ∷ (16, u.regs 2)
      ∷ (24, u.regs 3)
      ∷ (32, u.regs 4)
      ∷ (48, u.regs 6)
      ∷ (40, u.regs t0)
      ∷ (56, u.regs 7)
      ∷ (64, u.regs 8)
      ∷ (72, u.regs 9)
      ∷ (80, u.regs 10)
      ∷ (88, u.regs 11)
      ∷ (96, u.regs 12)
      ∷ (104, u.regs 13)
      ∷ (112, u.regs 14)
      ∷ (120, u.regs 15)
      ∷ (128, u.regs 16)
      ∷ (136, u.regs 17)
      ∷ (144, u.regs 18)
      ∷ (152, u.regs 19)
      ∷ (160, u.regs 20)
      ∷ (168, u.regs 21)
      ∷ (176, u.regs 22)
      ∷ (184, u.regs 23)
      ∷ (192, u.regs 24)
      ∷ (200, u.regs 25)
      ∷ (208, u.regs 26)
      ∷ (216, u.regs 27)
      ∷ (224, u.regs 28)
      ∷ (232, u.regs 29)
      ∷ (240, u.regs 30)
      ∷ (248, u.regs 31)
      ∷ (256, u.csrs sstatus)
      ∷ (264, u.csrs sepc)
      ∷ (272, u.csrs scause)
      ∷ (280, u.csrs stval)
      ∷ []

  -- The processor at the label `1`.
  abbrev entered : Cpu
  entered = record u {
    regs = update u.regs t0 (u.csrs sscratch);
    csrs = update u.csrs sscratch (u.regs t0);
  }

  entry_head-entered : u.csrs sscratch ≢ 0 → exec entry_head u ≡ jumps from_user entered
  unfolding exec entry_head
  entry_head-entered h = ground arith

  -- The memory behind the stores.
  abbrev stored : ℕ → ℕ
  stored = store_all u.memory ((u.csrs sscratch + minus 288) % usize_end) words

  -- The processor at the call of `trap_handler`.
  abbrev called : Cpu
  called = elim (exec entry_save entered) [ calls label d code ↦ d | _ ↦ u ]

  module _ (room : size ≤ u.csrs sscratch) (top : u.csrs sscratch < usize_end) where
    base_at : (u.csrs sscratch + minus 288) % usize_end ≡ base
    base_at = omega arith

    seen : Sees stored base (store_seen (λ o. u.memory (base + o)) words)
    seen = rw base_at (
        Sees-store_all base (omega arith) words u.memory (λ o. u.memory (base + o)) (omega arith)
          (λ q l. refl))

    frame_stored : stack_frame stored (u.csrs sscratch) ≡ frame_of u
    unfolding words_at
    frame_stored = λ i. record {
      regs = regs_stored i;
      sstatus = seen 256 (omega arith) i;
      sepc = seen 264 (omega arith) i;
      scause = seen 272 (omega arith) i;
      stval = seen 280 (omega arith) i;
    }
      where
        start : ◌≡◌ {A = ℕ} (base + 0) base
        start = omega arith

        list :
            words_at (store_seen (λ o. u.memory (base + o)) words) 0 32 ≡ 0 ∷ registers u.regs 1 31
        list = refl

        regs_stored : words_at stored base 32 ≡ 0 ∷ registers u.regs 1 31
        regs_stored =
            ap (λ (t : ℕ). words_at stored t 32) (sym start)
            ∙ words_at-Sees stored base (store_seen (λ o. u.memory (base + o)) words) 32 0
                (omega arith) seen
            ∙ list

    argument :
        (q : ℕ)
        → q < size
        → stored ((base + q) % usize_end) ≡ store_seen (λ o. u.memory (base + o)) words q
    argument q l = ap stored (omega arith) ∙ seen q l

    -- A trap from user mode, with the top of a kernel stack in `sscratch` that can hold a trap frame:
    -- the code calls `trap_handler` with `sp` at the frame, `sscratch` 0, and `scause` and `stval` in
    -- the registers of its first and last argument. The frame on the stack has all registers of the
    -- user as they were, 0 for x0, and the four control registers, and no word outside of it changes.
    pub trap_entry-Saves :
        (d : Cpu) × (trap_entry u ≡ calls trap_handler d entry_return)
        × (d.regs sp ≡ base)
        × (d.csrs sscratch ≡ 0)
        × (d.regs a0 ≡ u.csrs scause)
        × (d.regs a6 ≡ u.csrs stval)
        × (stack_frame d.memory (u.csrs sscratch) ≡ frame_of u)
        × ((a : ℕ) → (a < base) ⊎ (u.csrs sscratch ≤ a) → d.memory a ≡ u.memory a)
    unfolding trap_entry exec entry_save
    trap_entry-Saves = (
      called,
      rw (entry_head-entered (omega arith)) refl,
      base_at,
      refl,
      ap (λ (t : ℕ). stored ((t + 272) % usize_end)) base_at ∙ argument 272 (omega arith),
      ap (λ (t : ℕ). stored ((t + 280) % usize_end)) base_at ∙ argument 280 (omega arith),
      frame_stored,
      λ a out.
          rw base_at
            (store_all-outside base (omega arith) words u.memory a (omega arith) (outside a out)),
    )
      where
        outside : (a : ℕ) → (a < base) ⊎ (u.csrs sscratch ≤ a) → (a < base) ⊎ (base + size ≤ a)
        outside a (inl l) = inl l
        outside a (inr l) = inr (omega arith)
