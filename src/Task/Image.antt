-- ===== src/Task/Image.antt =====
-- Writing a trap frame to a kernel stack and reading it back.
use unit.Base.{
  ℕ, zero, suc, ◌+◌, ◌*◌, List, [], ◌∷◌, ◌++◌, arith, ◌≡◌, refl, ◌<◌, ◌≤◌, length, length-append,
  ap, ◌∙◌, ◌⊎◌, inl, inr, sym,
}
use unit.Kernel.{Kernel, returns, update}
use unit.Task.TrapFrame.{TrapFrame, size}
use unit.Task.Stack.{words_at, put_words, image, read_from_stack, write_to_stack}

pub words_at-update :
    (m : ℕ → ℕ) (p v base n : ℕ) → p < base → words_at (update m p v) base n ≡ words_at m base n
unfolding words_at
words_at-update m p v base zero h = refl
words_at-update m p v base (suc n) h =
    ground (arith, words_at-update m p v (base + 8) n (omega arith))

words_at-put_words :
    (m : ℕ → ℕ) (base : ℕ) (xs ys : List ℕ)
    → words_at (put_words m base (xs ++ ys)) base (length xs) ≡ xs
unfolding words_at put_words
words_at-put_words m base [] ys = refl
words_at-put_words m base (x ∷ xs) ys =
    let inner = put_words m (base + 8) (xs ++ ys) in
    ground (
      arith,
      words_at-update inner base x (base + 8) (length xs) (omega arith),
      words_at-put_words m (base + 8) xs ys,
    )

put_words-append :
    (m : ℕ → ℕ) (base a : ℕ) (xs ys : List ℕ)
    → base + length xs * 8 ≤ a
    → put_words m base (xs ++ ys) a ≡ put_words m (base + length xs * 8) ys a
unfolding put_words
put_words-append m base a [] ys h = rw base_zero
  where
    base_zero : base + 0 * 8 ≡ base
    base_zero = omega arith
put_words-append m base a (x ∷ xs) ys h = ground (
  arith,
  put_words-append m (base + 8) a xs ys (omega arith),
  ap (λ (t : ℕ). put_words m t ys a) shift,
)
  where
    shift : base + 8 + length xs * 8 ≡ base + suc (length xs) * 8
    shift = omega arith

-- Nothing outside of the words written changes.
pub put_words-outside :
    (m : ℕ → ℕ) (base a : ℕ) (ws : List ℕ)
    → (a < base) ⊎ (base + length ws * 8 ≤ a)
    → put_words m base ws a ≡ m a
unfolding put_words
put_words-outside m base a [] h = refl
put_words-outside m base a (w ∷ ws) h =
    ground (arith, put_words-outside m (base + 8) a ws (outside h))
  where
    outside :
        (a < base) ⊎ (base + suc (length ws) * 8 ≤ a)
        → (a < base + 8) ⊎ (base + 8 + length ws * 8 ≤ a)
    outside (inl p) = inl (omega arith)
    outside (inr p) = inr (omega arith)

put_words_four :
    (m : ℕ → ℕ) (base a b c d : ℕ)
    → (put_words m base (a ∷ b ∷ c ∷ d ∷ []) base ≡ a)
      × (put_words m base (a ∷ b ∷ c ∷ d ∷ []) (base + 8) ≡ b)
      × (put_words m base (a ∷ b ∷ c ∷ d ∷ []) (base + 16) ≡ c)
      × (put_words m base (a ∷ b ∷ c ∷ d ∷ []) (base + 24) ≡ d)
unfolding put_words
put_words_four m base a b c d = ground arith

module _ (tf : TrapFrame) (base : ℕ) (k : Kernel) (h : length tf.regs ≡ 32) where
  abbrev pub rest : List ℕ
  rest = tf.sstatus ∷ tf.sepc ∷ tf.scause ∷ tf.stval ∷ []

  abbrev pub written : ℕ → ℕ
  written = put_words k.memory base (image tf)

  regs_back : words_at written base 32 ≡ tf.regs
  regs_back = ap (words_at written base) (sym h) ∙ words_at-put_words k.memory base tf.regs rest

  word_back :
      (i : ℕ) → written (base + 256 + i) ≡ put_words k.memory (base + 256) rest (base + 256 + i)
  word_back i =
      put_words-append k.memory base (base + 256 + i) tf.regs rest (omega arith)
      ∙ ap (λ (t : ℕ). put_words k.memory t rest (base + 256 + i)) (omega arith)

  offset :
      (i j : ℕ)
      → j ≡ 256 + i
      → written (base + j) ≡ put_words k.memory (base + 256) rest (base + 256 + i)
  offset i j e = ap written (omega arith) ∙ word_back i

  size_image : length (image tf) ≡ 36
  size_image = omega (arith, length-append tf.regs rest)

  abbrev pub found : TrapFrame
  found = record {
    regs = words_at written base 32;
    sstatus = written (base + 256);
    sepc = written (base + 264);
    scause = written (base + 272);
    stval = written (base + 280);
  }

  pub frame_back : found ≡ tf
  frame_back = λ i. record {
    regs = regs_back i;
    sstatus =
        (offset 0 256 refl ∙ ap (put_words k.memory (base + 256) rest) (omega arith) ∙ four.0) i;
    sepc = (offset 8 264 refl ∙ four.1) i;
    scause = (offset 16 272 refl ∙ four.2) i;
    stval = (offset 24 280 refl ∙ four.3) i;
  }
    where
      four :
          let m = put_words k.memory (base + 256) rest in
          (m (base + 256) ≡ tf.sstatus)
          × (m (base + 256 + 8) ≡ tf.sepc)
          × (m (base + 256 + 16) ≡ tf.scause)
          × (m (base + 256 + 24) ≡ tf.stval)
      four = put_words_four k.memory (base + 256) tf.sstatus tf.sepc tf.scause tf.stval

  outside :
      (a : ℕ) → (a < base) ⊎ (base + size ≤ a) → (a < base) ⊎ (base + length (image tf) * 8 ≤ a)
  outside a (inl p) = inl p
  outside a (inr p) = inr (omega (arith, size_image))

  -- A trap frame of 32 registers that was written to a stack is read back as it was, and no word
  -- outside of its 288 bytes changes.
  pub read_from_stack-write_to_stack :
      (j : Kernel) × (write_to_stack tf base k ≡ returns tt j)
      × (read_from_stack base j ≡ returns tf j)
      × ((a : ℕ) → (a < base) ⊎ (base + size ≤ a) → j.memory a ≡ k.memory a)
  read_from_stack-write_to_stack =
      let j : Kernel = record k { memory = written } in
      (
        j,
        unfold write_to_stack in refl,
        unfold read_from_stack in ap (λ t. returns t j) frame_back,
        λ a o. put_words-outside k.memory base a (image tf) (outside a o),
      )
