-- ===== src/Base/Words.antt =====
-- Machine words: `usize` and `u64` of the 64-bit target, their complement, and masks of them.
use Prim.Native.Nat.{ℕ, ◌-◌, ◌*◌, ◌/◌, ◌%◌, ◌^◌, ◌<◌, bit_and}
use mathlib.Core.Bool.{Bool, not}
use unit.Base.Tests.{◌==◌}
use mathlib.Core.Path.{◌≡◌}
use native.Mathlib.Omega.{arith}
use unit.Base.Bits.{bit_and-low, bit_and-bit, bit_and_complement}

-- One more than `usize::MAX`.
abbrev pub usize_end : ℕ
usize_end = 2 ^ 64

-- `!x` of a 64-bit word.
abbrev pub bit_not : ℕ → ℕ
bit_not x = 2 ^ 64 - 1 - x

-- `x >> k`, and `x << k` with the bits that leave the word dropped.
abbrev pub shr : ℕ → ℕ → ℕ
shr x k = x / 2 ^ k

abbrev pub shl : ℕ → ℕ → ℕ
shl x k = x * 2 ^ k % usize_end

-- `x & m != 0`.
abbrev pub test : ℕ → ℕ → Bool
test x m = not (bit_and x m == 0)

-- `x & !(2 ^ k - 1)` rounds down.
pub bit_and-page_mask : (x : ℕ) → x < usize_end → bit_and x (bit_not 4095) ≡ x - x % 4096
bit_and-page_mask x h =
    omega (arith, bit_and_complement 64 x 4095 h (omega arith), bit_and-low 12 x)

-- `x & !(1 << k)` clears one bit.
pub bit_and-clear :
    (k x : ℕ)
    → x < usize_end
    → 2 ^ k < usize_end
    → bit_and x (bit_not (2 ^ k)) ≡ x - x / 2 ^ k % 2 * 2 ^ k
bit_and-clear k x h p = omega (arith, bit_and_complement 64 x (2 ^ k) h p, bit_and-bit k x)
