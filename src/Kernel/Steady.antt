-- ===== src/Kernel/Steady.antt =====
-- Commands of kernel/src that leave the processes alone: they return, with the same list of processes,
-- or panic, and no loop of theirs runs out of rounds.
use unit.Base.{
  ltb, arith, usize_end, ℕ, zero, suc, ◌+◌, ◌≤◌, ◌<◌, ◌≡◌, refl, ◌∙◌, Bool, true, false, Option,
  none, some, if◌then◌else◌,
}
use unit.Kernel.{
  Kernel, Outcome, returns, panics, resumes, shuts_down, diverges, Cmd, and_then, ◌>>=◌, ◌>>◌, pure,
  panic, gets, expect, try, add_usize, store, write_zeros, copy_words, for_range, modify,
}

-- The statics of the scheduler and `satp` are the same.
abbrev pub SameTasks : Kernel → Kernel → Type 0
SameTasks k j =
    (j.process_list ≡ k.process_list)
    × (j.current ≡ k.current)
    × (j.next_pid ≡ k.next_pid)
    × (j.satp ≡ k.satp)

abbrev pub Steady : {A : Type 0} → Kernel → Outcome A → Type 0
Steady k (returns a j) = SameTasks k j
Steady k panics = Unit
Steady k (resumes j) = ⊥
Steady k (shuts_down j) = ⊥
Steady k diverges = ⊥

pub record IsSteady {A : Type 0} (m : Cmd A) : Type 0 where
  pub run : (k : Kernel) → Steady k (m k)

pub Steady-trans :
    {A : Type 0} (k j : Kernel) (o : Outcome A) → SameTasks k j → Steady j o → Steady k o
Steady-trans k j (returns a i) s t = (t.0 ∙ s.0, t.1 ∙ s.1, t.2 ∙ s.2, t.3 ∙ s.3)
Steady-trans k j panics s t = tt
Steady-trans k j (resumes i) s t = t
Steady-trans k j (shuts_down i) s t = t
Steady-trans k j diverges s t = t

pub Steady-and_then :
    {A B : Type 0} (k : Kernel) (o : Outcome A) (f : A → Cmd B)
    → Steady k o
    → ((a : A) → IsSteady (f a))
    → Steady k (and_then o f)
Steady-and_then k (returns a j) f s h = Steady-trans k j (f a j) s ((h a).run j)
Steady-and_then k panics f s h = tt
Steady-and_then k (resumes j) f s h = s
Steady-and_then k (shuts_down j) f s h = s
Steady-and_then k diverges f s h = s

pub bind-IsSteady :
    {A B : Type 0} {m : Cmd A} {f : A → Cmd B}
    → IsSteady m
    → ((a : A) → IsSteady (f a))
    → IsSteady (m >>= f)
bind-IsSteady {A} {B} {m} {f} s h = record { run = λ k. Steady-and_then k (m k) f (s.run k) h }

pub seq-IsSteady :
    {B : Type 0} {m : Cmd (Unit {0})} {n : Cmd B} → IsSteady m → IsSteady n → IsSteady (m >> n)
seq-IsSteady {B} {m} {n} s h = record {
  run = λ k. Steady-and_then k (m k) (λ _. n) (s.run k) (λ _. h);
}

pub if-IsSteady :
    {A : Type 0} {m n : Cmd A} (b : Bool) → IsSteady m → IsSteady n → IsSteady (if b then m else n)
if-IsSteady true s t = s
if-IsSteady false s t = t

pub elim-IsSteady :
    {A B : Type 0} {n : Cmd B} {f : A → Cmd B} (o : Option A)
    → IsSteady n
    → ((a : A) → IsSteady (f a))
    → IsSteady (elim o [ none ↦ n | some a ↦ f a ])
elim-IsSteady none s t = s
elim-IsSteady (some a) s t = t a

pub pure-IsSteady : {A : Type 0} {a : A} → IsSteady (pure a)
pure-IsSteady = record { run = λ k. (refl, refl, refl, refl) }

pub panic-IsSteady : {A : Type 0} → IsSteady (panic {A = A})
panic-IsSteady = record { run = λ k. tt }

pub try-IsSteady :
    {A B : Type 0} {f : A → Cmd (Option B)} (o : Option A)
    → ((a : A) → IsSteady (f a))
    → IsSteady (try o f)
try-IsSteady none t = pure-IsSteady
try-IsSteady (some a) t = t a

pub expect-IsSteady : {A : Type 0} (o : Option A) → IsSteady (expect o)
expect-IsSteady none = panic-IsSteady
expect-IsSteady (some a) = pure-IsSteady

pub gets-IsSteady : {A : Type 0} {f : Kernel → A} → IsSteady (gets f)
gets-IsSteady = record { run = λ k. (refl, refl, refl, refl) }

pub add_usize-IsSteady : (a b : ℕ) → IsSteady (add_usize a b)
add_usize-IsSteady a b = if-IsSteady (ltb (a + b) usize_end) pure-IsSteady panic-IsSteady

pub store-IsSteady : (a v : ℕ) → IsSteady (store a v)
store-IsSteady a v = record { run = λ k. (refl, refl, refl, refl) }

pub write_zeros-IsSteady : (a n : ℕ) → IsSteady (write_zeros a n)
write_zeros-IsSteady a n = record { run = λ k. (refl, refl, refl, refl) }

pub copy_words-IsSteady : (a b n : ℕ) → IsSteady (copy_words a b n)
copy_words-IsSteady a b n = record { run = λ k. (refl, refl, refl, refl) }

pub for_range-IsSteady :
    {f : ℕ → Cmd (Unit {0})} (n i : ℕ) → ((j : ℕ) → IsSteady (f j)) → IsSteady (for_range n i f)
unfolding for_range
for_range-IsSteady zero i h = pure-IsSteady
for_range-IsSteady (suc n) i h = bind-IsSteady (h i) (λ _. for_range-IsSteady n (i + 1) h)

pub for_range-within :
    {f : ℕ → Cmd (Unit {0})} (n i : ℕ)
    → ((j : ℕ) → i ≤ j → j < i + n → IsSteady (f j))
    → IsSteady (for_range n i f)
unfolding for_range
for_range-within zero i h = pure-IsSteady
for_range-within (suc n) i h =
    bind-IsSteady (h i (omega arith) (omega arith))
      (λ _. for_range-within n (i + 1) (λ j lo hi. h j (omega arith) (omega arith)))

pub modify_memory : {f : Kernel → Kernel} → ((k : Kernel) → SameTasks k (f k)) → IsSteady (modify f)
modify_memory h = record { run = h }

pub ruleset steady = (
  bind-IsSteady, seq-IsSteady, if-IsSteady, elim-IsSteady, pure-IsSteady, panic-IsSteady,
  try-IsSteady, expect-IsSteady, gets-IsSteady, add_usize-IsSteady, store-IsSteady,
  write_zeros-IsSteady, copy_words-IsSteady, for_range-IsSteady,
)

-- What holds of a panic, and of what follows from every state with the same processes, holds of the whole.
pub Steady-next :
    {A B : Type 0} (P : Outcome B → Type 0) (k : Kernel) (o : Outcome A) (f : A → Cmd B)
    → Steady k o
    → P panics
    → ((a : A) (j : Kernel) → SameTasks k j → P (f a j))
    → P (and_then o f)
Steady-next P k (returns a j) f s h next = next a j s
Steady-next P k panics f s h next = h
Steady-next P k (resumes j) f s h next = absurd s
Steady-next P k (shuts_down j) f s h next = absurd s
Steady-next P k diverges f s h next = absurd s

pub SameTasks-trans : (k j i : Kernel) → SameTasks k j → SameTasks j i → SameTasks k i
SameTasks-trans k j i s t = (t.0 ∙ s.0, t.1 ∙ s.1, t.2 ∙ s.2, t.3 ∙ s.3)
