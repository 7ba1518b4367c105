-- ===== src/Kernel.antt =====
-- The state of the whole kernel, its statics and the physical memory, and the commands that act on it.
pub mod Steady
use unit.Base.{
  ℕ, zero, suc, ◌+◌, ◌-◌, Bool, ◌&&◌, List, Option, none, some, ltb, leb, ◌==◌, if◌then◌else◌,
  usize_end,
}
use unit.Task.Process.{Process}

-- `memory a` is the 64-bit word at byte address `a`, a multiple of 8. The kernel maps all of RAM at
-- its physical address, so one map serves the page tables, the free list and the frames' contents.
pub record Kernel : Type 0 where
  pub memory : ℕ → ℕ
  pub next_frame : ℕ
  pub frame_refs : ℕ → ℕ
  pub free_list_head : ℕ
  pub process_list : List (Option Process)
  pub current : ℕ
  pub next_pid : ℕ
  -- The register that holds the page table in force.
  pub satp : ℕ
  -- The bytes that the console was given, the first one first.
  pub output : List ℕ
  -- `TICK_COUNT`.
  pub tick_count : ℕ

-- How a run of kernel code ends: it returns, it panics (the handler prints and shuts down), it
-- leaves for the user program of the process `current` through `trap_exit_restore`, or it shuts
-- the machine down. `diverges` is a loop that used up the rounds that the model gives it.
pub data Outcome (A : Type 0) : Type 0 where
  returns : A → Kernel → Outcome A
  panics : Outcome A
  resumes : Kernel → Outcome A
  shuts_down : Kernel → Outcome A
  diverges : Outcome A

abbrev pub Cmd : Type 0 → Type 0
Cmd A = Kernel → Outcome A

abbrev pub and_then : {A B : Type 0} → Outcome A → (A → Cmd B) → Outcome B
and_then (returns a k) f = f a k
and_then panics f = panics
and_then (resumes k) f = resumes k
and_then (shuts_down k) f = shuts_down k
and_then diverges f = diverges

infixl 5 ◌>>=◌ ◌>>◌
abbrev pub ◌>>=◌ : {A B : Type 0} → Cmd A → (A → Cmd B) → Cmd B
◌>>=◌ m f k = and_then (m k) f

abbrev pub ◌>>◌ : {B : Type 0} → Cmd (Unit {0}) → Cmd B → Cmd B
◌>>◌ m n k = and_then (m k) (λ _. n)

abbrev pub pure : {A : Type 0} → A → Cmd A
pure a k = returns a k

abbrev pub panic : {A : Type 0} → Cmd A
panic k = panics

abbrev pub gets : {A : Type 0} → (Kernel → A) → Cmd A
gets f k = returns (f k) k

abbrev pub modify : (Kernel → Kernel) → Cmd (Unit {0})
modify f k = returns tt (f k)

-- `expect`.
abbrev pub expect : {A : Type 0} → Option A → Cmd A
expect none = panic
expect (some a) = pure a

-- `a + b` on `usize` in the build that the Makefile makes by default, which checks for overflow.
abbrev pub add_usize : ℕ → ℕ → Cmd ℕ
add_usize a b = if ltb (a + b) usize_end then pure (a + b) else panic

-- One value of a map replaced.
abbrev pub update : (ℕ → ℕ) → ℕ → ℕ → ℕ → ℕ
update f p v q = if q == p then v else f q

abbrev pub load : ℕ → Cmd ℕ
load a = gets (λ k. k.memory a)

abbrev pub store : ℕ → ℕ → Cmd (Unit {0})
store a v = modify (λ k. record k { memory = update k.memory a v })

-- `a` is one of the `n` bytes from `base` on.
abbrev pub within : ℕ → ℕ → ℕ → Bool
within base n a = leb base a && ltb a (base + n)

-- `ptr::write_bytes(base, 0, n)`.
abbrev pub write_zeros : ℕ → ℕ → Cmd (Unit {0})
write_zeros base n =
    modify (λ k. record k { memory = λ a. if within base n a then 0 else k.memory a })

-- `ptr::copy_nonoverlapping(from, to, n)`.
abbrev pub copy_words : ℕ → ℕ → ℕ → Cmd (Unit {0})
copy_words from to n = modify (λ k. record k {
  memory = λ a. if within to n a then k.memory (from + (a - to)) else k.memory a;
})

-- `?` on an `Option`.
abbrev pub try : {A B : Type 0} → Option A → (A → Cmd (Option B)) → Cmd (Option B)
try none f = pure none
try (some a) f = f a

-- `for j in i..i + n`.
unfoldable pub for_range : ℕ → ℕ → (ℕ → Cmd (Unit {0})) → Cmd (Unit {0})
for_range zero i body k = returns tt k
for_range (suc n) i body k = and_then (body i k) (λ _. for_range n (i + 1) body)
