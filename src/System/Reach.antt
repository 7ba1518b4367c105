-- ===== src/System/Reach.antt =====
-- The states that traps (kernel/src/trap.rs) lead to, with the user programs that run between them.
use unit.Base.{ℕ, ◌<◌, ◌≡◌, ap, usize_end}
use unit.Kernel.{Kernel, Outcome, returns, panics, resumes, shuts_down, diverges}
use unit.Syscall.Transfer.{Machine}
use unit.System.{IsSystem, Keeps}
use unit.System.Moves.{IsSystem-same}
use unit.System.Transfers.{IsMachine}
use unit.System.Traps.{AsksInHalf, user_trap-Keeps}
use unit.Trap.Handler.{user_trap}

abbrev pub AreWords : (ℕ → ℕ) → Type 0
AreWords memory = (a : ℕ) → memory a < usize_end

-- What a user program may do up to its next trap: it changes the memory, in words of 64 bits, and the
-- trap saves its registers there. If they ask for a call, what the kernel may store to for it lies in
-- the user's half of the addresses.
abbrev pub RunsTo : Kernel → Kernel → Type 0
RunsTo i l = (l ≡ record i { memory = l.memory }) × AreWords l.memory × AsksInHalf l

-- The states at a trap, from the one at the first trap on.
pub data Reach (m : Machine) (k : Kernel) : Kernel → Type 0 where
  here : Reach m k k
  next : {j i l : Kernel} → Reach m k j → user_trap m j ≡ resumes i → RunsTo i l → Reach m k l

RunsTo-IsSystem : (i l : Kernel) → RunsTo i l → IsSystem i → IsSystem l
RunsTo-IsSystem i l r v =
    IsSystem-same i l
      (
        ap Kernel.process_list r.0,
        ap Kernel.current r.0,
        ap Kernel.next_pid r.0,
        ap Kernel.satp r.0,
      )
      v

Keeps-resumes : (o : Outcome (Unit {0})) (i : Kernel) → o ≡ resumes i → Keeps o → IsSystem i
Keeps-resumes (returns u j) i e h = absurd (cc)
Keeps-resumes panics i e h = absurd (cc)
Keeps-resumes (resumes j) i e h = let same : j ≡ i = cc in rw (← same) h
Keeps-resumes (shuts_down j) i e h = absurd (cc)
Keeps-resumes diverges i e h = absurd (cc)

module _ (m : Machine) (k : Kernel) (h : IsMachine m) (v : IsSystem k) (words : AreWords k.memory)
    (half : AsksInHalf k) where
  Reach-words : {j : Kernel} → Reach m k j → AreWords j.memory
  Reach-words here = words
  Reach-words (next before e r) = r.1

  Reach-half : {j : Kernel} → Reach m k j → AsksInHalf j
  Reach-half here = half
  Reach-half (next before e r) = r.2

  reached-IsSystem : {j : Kernel} → Reach m k j → IsSystem j
  reached-IsSystem here = v
  reached-IsSystem (next {j} {i} {l} before e r) = RunsTo-IsSystem i l r (
      Keeps-resumes (user_trap m j) i e
        (user_trap-Keeps m h j (reached-IsSystem before) (Reach-words before) (Reach-half before)))

  -- Take a state in which the process list has 32 slots, just the current process is marked as running, no
  -- two processes have one number, each number is below the next one, and each process has a kernel stack
  -- that can hold a trap frame, a well-formed table of areas and a heap in bounds, on a machine whose
  -- stores to the user's half of the addresses, loads and devices leave the processes alone. After any
  -- number of traps, whatever user programs do to the words of the memory between them, all this
  -- holds again, and the next trap ends: it panics, shuts the machine down, or a user program goes on in a
  -- state of which all this holds. That is as long as each buffer that a program names for `getcwd`, `read`
  -- and `uname`, and the word that it names for `wait`, lie in the user's half: `wait` checks no pointer, and
  -- a store of the kernel to its own half may change the process list.
  pub Reach-IsSystem : {j : Kernel} → Reach m k j → IsSystem j × Keeps (user_trap m j)
  Reach-IsSystem {j} r = (
    reached-IsSystem r,
    user_trap-Keeps m h j (reached-IsSystem r) (Reach-words r) (Reach-half r),
  )
