-- ===== src/Console/Uart.antt =====
-- The driver in kernel/src/console.rs, on a device that is a parameter: a state, with the effect of a
-- read and of a write of a register. Each wait has `fuel` rounds, and `none` is a wait that goes on.
use unit.Base.{ℕ, zero, suc, Option, none, some, List, [], ◌∷◌, ◌==◌, if◌then◌else◌, bit_and}

pub record Device (S : Type 0) : Type 0 where
  pub read_reg : ℕ → S → ℕ × S
  pub write_reg : ℕ → ℕ → S → S

module _ {S : Type 0} (d : Device S) where
  -- Register 5 is read until it has a bit of `mask`.
  unfoldable pub spin : ℕ → ℕ → S → Option S
  spin zero mask s = none
  spin (suc fuel) mask s =
      let (status, s') = d.read_reg 5 s in
      let rest = spin fuel mask s' in if bit_and status mask == 0 then rest else some s'

  unfoldable pub putchar : ℕ → ℕ → S → Option S
  unfolding spin
  putchar fuel c s = elim (spin fuel 0x20 s) [ none ↦ none | some s' ↦ some (d.write_reg 0 c s') ]

  -- A carriage return for a line feed, then the byte.
  unfoldable pub put_byte : ℕ → ℕ → S → Option S
  unfolding putchar
  put_byte fuel c s =
      if c == b'\n'
      then elim (putchar fuel b'\r' s) [ none ↦ none | some s' ↦ putchar fuel c s' ]
      else putchar fuel c s

  unfoldable pub putstr : ℕ → List ℕ → S → Option S
  unfolding put_byte
  putstr fuel [] s = some s
  putstr fuel (c ∷ cs) s = elim (put_byte fuel c s) [ none ↦ none | some s' ↦ putstr fuel cs s' ]

  unfoldable pub read_char : ℕ → S → Option (ℕ × S)
  unfolding spin
  read_char fuel s = elim (spin fuel 1 s) [ none ↦ none | some s' ↦ some (d.read_reg 0 s') ]
