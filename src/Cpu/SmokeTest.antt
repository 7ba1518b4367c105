-- ===== src/Cpu/SmokeTest.antt =====
-- What the register test of the user program in kernel/src/main.rs finds out.
use unit.Base.{
  ℕ, ◌%◌, ◌≡◌, ◌≢◌, ◌∙◌, refl, List, [], ◌∷◌, Bool-cases, inl, inr, ◌⊎◌, ◌==◌, if◌then◌else◌, arith,
  usize_end,
}
use unit.Cpu.{Cpu, Instr, operand, li, addi, bne, exec, traps, jumps, reg_fail, put}
use unit.Cpu.Registers.{
  a0, a1, a2, a3, a4, a5, a6, a7, gp, s0, s1, s10, s11, s2, s3, s4, s5, s6, s7, s8, s9, sp, t0, t1,
  t2, t3, t4, t5, t6, tp,
}
use unit.Cpu.Smoke.{register_test, register_check, print_ok}

-- The registers that are compared, with the values that they had before the call.
abbrev pub expected : List (ℕ × ℕ)
expected =
    (gp, 0x3333)
    ∷ (tp, 0x4444)
    ∷ (t0, 0x1005)
    ∷ (t1, 0x1006)
    ∷ (t2, 0x1007)
    ∷ (s0, 0x1008)
    ∷ (s1, 0x1009)
    ∷ (a1, 0x200b)
    ∷ (a2, 0x200c)
    ∷ (a3, 0x200d)
    ∷ (a4, 0x200e)
    ∷ (a5, 0x200f)
    ∷ (a6, 0x2010)
    ∷ (s2, 0x1012)
    ∷ (s3, 0x1013)
    ∷ (s4, 0x1014)
    ∷ (s5, 0x1015)
    ∷ (s6, 0x1016)
    ∷ (s7, 0x1017)
    ∷ (s8, 0x1018)
    ∷ (s9, 0x1019)
    ∷ (s10, 0x101a)
    ∷ (s11, 0x101b)
    ∷ (t3, 0x101c)
    ∷ (t4, 0x101d)
    ∷ (t5, 0x101e)
    ∷ (t6, 0x101f)
    ∷ []

-- All of these registers have their values.
abbrev pub Have : (ℕ → ℕ) → List (ℕ × ℕ) → Type 0
Have regs [] = Unit
Have regs ((r, v) ∷ rest) = (regs r ≡ v) × Have regs rest

-- One of them has another.
abbrev pub Lost : (ℕ → ℕ) → List (ℕ × ℕ) → Type 0
Lost regs [] = ⊥
Lost regs ((r, v) ∷ rest) = (regs r ≢ v) ⊎ Lost regs rest

-- The code for a list of comparisons.
abbrev compare_all : List (ℕ × ℕ) → List Instr → List Instr
compare_all [] code = code
compare_all ((r, v) ∷ rest) code = li a0 v ∷ bne r a0 reg_fail ∷ compare_all rest code

-- Registers other than x0 and a0.
abbrev Others : List (ℕ × ℕ) → Type 0
Others [] = Unit
Others ((r, v) ∷ rest) = (r ≢ 0) × (r ≢ a0) × Others rest

-- The registers but a0 are those of `regs`.
abbrev pub SameBut : (ℕ → ℕ) → Cpu → Type 0
SameBut regs c = (r : ℕ) → r ≢ a0 → c.regs r ≡ regs r

-- How a list of comparisons ends: all hold and the code goes on, or one fails.
abbrev Compares : (ℕ → ℕ) → List (ℕ × ℕ) → List Instr → Cpu → Type 0
Compares regs ps code c =
    (Have regs ps
      × ((d : Cpu) × (exec (compare_all ps code) c ≡ exec code d)
          × SameBut regs d
          × (d.memory ≡ c.memory)))
    ⊎ (Lost regs ps × ((d : Cpu) × (exec (compare_all ps code) c ≡ jumps reg_fail d)))

step :
    (r v : ℕ) (code : List Instr) (c : Cpu)
    → r ≢ 0
    → r ≢ a0
    → exec (li a0 v ∷ bne r a0 reg_fail ∷ code) c
      ≡ (if c.regs r == v then exec code (put c a0 v) else jumps reg_fail (put c a0 v))
unfolding exec
step r v code c h0 ha = let e : operand (put c a0 v) r ≡ c.regs r = ground arith in rw e refl

compare_all-Compares :
    (regs : ℕ → ℕ) (ps : List (ℕ × ℕ)) (code : List Instr) (c : Cpu)
    → Others ps
    → SameBut regs c
    → Compares regs ps code c
compare_all-Compares regs [] code c o same = inl (tt, (c, refl, same, refl))
compare_all-Compares regs ((r, v) ∷ rest) code c o same =
    rw (step r v (compare_all rest code) c o.0 o.1) (elim (Bool-cases (c.regs r == v)) [
      | inr differs ↦ rw differs (inr (inl (λ e. ground (arith, same r o.1)), (put c a0 v, refl)))
      | inl holds ↦ rw holds (
          go (ground (arith, same r o.1))
            (compare_all-Compares regs rest code (put c a0 v) o.2 after))
    ])
  where
    after : SameBut regs (put c a0 v)
    after q ne = ground (arith, same q ne)

    go :
        regs r ≡ v
        → Compares regs rest code (put c a0 v)
        → (Have regs ((r, v) ∷ rest)
            × ((d : Cpu) × (exec (compare_all rest code) (put c a0 v) ≡ exec code d)
                × SameBut regs d
                × (d.memory ≡ c.memory)))
          ⊎ (Lost regs ((r, v) ∷ rest)
              × ((d : Cpu) × (exec (compare_all rest code) (put c a0 v) ≡ jumps reg_fail d)))
    go e (inl (have, on)) = inl ((e, have), on)
    go e (inr (lost, off)) = inr (inr lost, off)

-- The code of the test is such a list.
register_check-compare_all : register_check ≡ compare_all expected print_ok
unfolding register_check
register_check-compare_all = refl

-- The call `write(1, sp, 3)` with the text at `sp`.
abbrev pub WritesOk : Cpu → Type 0
WritesOk f =
    (f.regs a7 ≡ 64)
    × (f.regs a0 ≡ 1)
    × (f.regs a1 ≡ f.regs sp)
    × (f.regs a2 ≡ 3)
    × (f.memory (f.regs sp % usize_end) ≡ 0x0a4b4f)

print_ok-WritesOk :
    (d : Cpu) → (f : Cpu) × (exec print_ok d ≡ traps f (addi sp sp 16 ∷ [])) × WritesOk f
unfolding exec print_ok
print_ok-WritesOk d = (_, refl, (refl, refl, refl, refl, ground arith))

-- The test ends in the state `f`: at the call that writes `OK` or at `reg_fail`.
abbrev pub Detects : Cpu → Type 0
Detects e =
    (Have e.regs expected
      × ((f : Cpu) × (exec register_check e ≡ traps f (addi sp sp 16 ∷ [])) × WritesOk f))
    ⊎ (Lost e.regs expected × ((f : Cpu) × (exec register_check e ≡ jumps reg_fail f)))

register_check-Detects : (e : Cpu) → Detects e
register_check-Detects e =
    rw register_check-compare_all
      (go (compare_all-Compares e.regs expected print_ok e (omega arith) (λ r ne. refl)))
  where
    go :
        Compares e.regs expected print_ok e
        → (Have e.regs expected
            × ((f : Cpu) × (exec (compare_all expected print_ok) e ≡ traps f (addi sp sp 16 ∷ []))
                × WritesOk f))
          ⊎ (Lost e.regs expected
              × ((f : Cpu) × (exec (compare_all expected print_ok) e ≡ jumps reg_fail f)))
    go (inl (have, on)) =
        let (f, out, writes) = print_ok-WritesOk on.0 in inl (have, (f, on.1 ∙ out, writes))
    go (inr lost) = inr lost

-- From any state the register test of the user program calls `getpid` with the 27 registers that it
-- compares at the values `expected`. From any state `e` in which the call comes back, it writes `OK` and a
-- line feed from its stack to the console if all of them have these values still, and goes on at
-- `reg_fail` if one has not.
pub register_test-Detects :
    (c e : Cpu)
    → (d : Cpu) × (exec register_test c ≡ traps d register_check)
      × (d.regs a7 ≡ 172)
      × Have d.regs expected
      × Detects e
unfolding exec register_test
register_test-Detects c e = (_, refl, refl, (omega arith), register_check-Detects e)
