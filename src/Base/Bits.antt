-- ===== src/Base/Bits.antt =====
-- The native `bit_and` and `bit_or` as arithmetic: masks, single bits, complements, disjoint fields.
use Prim.Native.Nat.{
  ℕ, zero, suc, ◌+◌, ◌-◌, ◌*◌, ◌/◌, ◌%◌, ◌^◌, ◌≤◌, ◌<◌, min, max, bit_and, bit_or, digits,
  bit_and-bitwise, bit_or-bitwise,
}
use mathlib.Core.Path.{◌≡◌, refl, sym, ap, ◌∙◌}
use native.Mathlib.Nat.{
  pow-suc, one-le-pow, div-div-eq-div-mul, mul_comm, div-add-mod, mod-lt, mod-eq_of_lt,
  mul-add-mod_self_left,
}
use native.Mathlib.Omega.{arith}

-- The digit recursion does not depend on its fuel, once that is at least the first number.
module _ (z : ℕ → ℕ) (f : ℕ → ℕ → ℕ) where
  enough : (n m a b : ℕ) → a ≤ n → a ≤ m → digits z f n a b ≡ digits z f m a b
  enough zero zero a b p q = refl
  enough zero (suc m) zero b p q = refl
  enough zero (suc m) (suc a) b p q = absurd (omega arith)
  enough (suc n) zero zero b p q = refl
  enough (suc n) zero (suc a) b p q = absurd (omega arith)
  enough (suc n) (suc m) zero b p q = refl
  enough (suc n) (suc m) (suc a) b p q =
      ap (λ (t : ℕ). t * 2 + f (suc a % 2) (b % 2))
        (enough n m (suc a / 2) (b / 2) (omega arith) (omega arith))

-- The lowest digit and the rest.
pub bit_and-halves : (a b : ℕ) → bit_and a b ≡ bit_and (a / 2) (b / 2) * 2 + min (a % 2) (b % 2)
bit_and-halves zero b = omega (arith, bit_and-bitwise 0 b, bit_and-bitwise (0 / 2) (b / 2))
bit_and-halves (suc a) b = omega (
  arith,
  bit_and-bitwise (suc a) b,
  bit_and-bitwise (suc a / 2) (b / 2),
  enough (λ _. zero) min a (suc a / 2) (suc a / 2) (b / 2) (omega arith) (omega arith),
)

pub bit_or-halves : (a b : ℕ) → bit_or a b ≡ bit_or (a / 2) (b / 2) * 2 + max (a % 2) (b % 2)
bit_or-halves zero b = omega (arith, bit_or-bitwise 0 b, bit_or-bitwise (0 / 2) (b / 2))
bit_or-halves (suc a) b = omega (
  arith,
  bit_or-bitwise (suc a) b,
  bit_or-bitwise (suc a / 2) (b / 2),
  enough (λ y. y) max a (suc a / 2) (suc a / 2) (b / 2) (omega arith) (omega arith),
)

zero-bit_and : (b : ℕ) → bit_and 0 b ≡ 0
zero-bit_and b = bit_and-bitwise 0 b

zero-bit_or : (b : ℕ) → bit_or 0 b ≡ b
zero-bit_or b = bit_or-bitwise 0 b

-- By induction on a bound of the first number.
bit_and-zero : (n a : ℕ) → a ≤ n → bit_and a 0 ≡ 0
bit_and-zero n zero h = zero-bit_and 0
bit_and-zero zero (suc a) h = absurd (omega arith)
bit_and-zero (suc n) (suc a) h =
    omega (arith, bit_and-halves (suc a) 0, bit_and-zero n (suc a / 2) (omega arith))

bit_or-zero : (n a : ℕ) → a ≤ n → bit_or a 0 ≡ a
bit_or-zero n zero h = zero-bit_or 0
bit_or-zero zero (suc a) h = absurd (omega arith)
bit_or-zero (suc n) (suc a) h =
    omega (arith, bit_or-halves (suc a) 0, bit_or-zero n (suc a / 2) (omega arith))

mod_double : (p a : ℕ) → 0 < p → a % (p * 2) ≡ a / 2 % p * 2 + a % 2
mod_double p a pos =
    ap (λ (t : ℕ). t % (p * 2)) split
    ∙ mul-add-mod_self_left (p * 2) (a / 2 / p) (a / 2 % p * 2 + a % 2)
    ∙ mod-eq_of_lt (omega (arith, mod-lt (a / 2) pos))
  where
    split : a ≡ p * 2 * (a / 2 / p) + (a / 2 % p * 2 + a % 2)
    split = omega (arith, div-add-mod (a / 2) p)

div_double : (p a : ℕ) → a / (p * 2) ≡ a / 2 / p
div_double p a = rw (mul_comm p 2) (sym (div-div-eq-div-mul a 2 p))

-- A mask of `k` ones is the remainder by `2 ^ k`.
pub bit_and-low : (k a : ℕ) → bit_and a (2 ^ k - 1) ≡ a % 2 ^ k
bit_and-low zero a = omega (arith, bit_and-zero a a (omega arith))
bit_and-low (suc k) a =
    rw (pow-suc 2 k, mod_double (2 ^ k) a (one-le-pow k 2 (omega arith)))
      (omega (
        arith,
        pos,
        bit_and-halves a (2 ^ k * 2 - 1),
        bit_and-low k (a / 2),
        ap (λ (t : ℕ). bit_and (a / 2) t) half,
      ))
  where
    pos : 0 < 2 ^ k
    pos = one-le-pow k 2 (omega arith)

    half : (2 ^ k * 2 - 1) / 2 ≡ 2 ^ k - 1
    half = omega (arith, pos)

-- One bit, in place.
pub bit_and-bit : (k a : ℕ) → bit_and a (2 ^ k) ≡ a / 2 ^ k % 2 * 2 ^ k
bit_and-bit zero a = omega (arith, bit_and-halves a 1, bit_and-zero (a / 2) (a / 2) (omega arith))
bit_and-bit (suc k) a =
    rw (pow-suc 2 k, div_double (2 ^ k) a)
      (omega (
        arith,
        bit_and-halves a (2 ^ k * 2),
        bit_and-bit k (a / 2),
        ap (λ (t : ℕ). bit_and (a / 2) t) half,
      ))
  where
    half : 2 ^ k * 2 / 2 ≡ 2 ^ k
    half = omega arith

-- Setting one bit adds it, unless it is there.
pub bit_or-bit : (k a : ℕ) → bit_or a (2 ^ k) ≡ a + (1 - a / 2 ^ k % 2) * 2 ^ k
bit_or-bit zero a = omega (arith, bit_or-halves a 1, bit_or-zero (a / 2) (a / 2) (omega arith))
bit_or-bit (suc k) a =
    rw (pow-suc 2 k, div_double (2 ^ k) a)
      (omega (
        arith,
        bit_or-halves a (2 ^ k * 2),
        bit_or-bit k (a / 2),
        ap (λ (t : ℕ). bit_or (a / 2) t) half,
      ))
  where
    half : 2 ^ k * 2 / 2 ≡ 2 ^ k
    half = omega arith

-- Fields that do not overlap are added.
pub bit_or_fields : (k q r : ℕ) → r < 2 ^ k → bit_or (q * 2 ^ k) r ≡ q * 2 ^ k + r
bit_or_fields zero q r h =
    rw (← r_zero) (omega (arith, bit_or-zero (q * 2 ^ 0) (q * 2 ^ 0) (omega arith)))
  where
    r_zero : 0 ≡ r
    r_zero = omega arith
bit_or_fields (suc k) q r h = omega (
  arith,
  bit_or-halves (q * 2 ^ suc k) r,
  bit_or_fields k q (r / 2) (omega (arith, pow-suc 2 k)),
  ap (λ (t : ℕ). bit_or t (r / 2)) half,
  double,
)
  where
    double : q * 2 ^ suc k ≡ q * 2 ^ k * 2
    double = omega (arith, ap (λ (t : ℕ). q * t) (pow-suc 2 k))

    half : q * 2 ^ suc k / 2 ≡ q * 2 ^ k
    half = omega (arith, double)

-- The complement of a mask within `k` bits keeps what the mask drops.
pub bit_and_complement :
    (k a m : ℕ) → a < 2 ^ k → m < 2 ^ k → bit_and a (2 ^ k - 1 - m) + bit_and a m ≡ a
bit_and_complement zero a m p q =
    rw (← a_zero) (omega (arith, zero-bit_and (2 ^ 0 - 1 - m), zero-bit_and m))
  where
    a_zero : 0 ≡ a
    a_zero = omega arith
bit_and_complement (suc k) a m p q = omega (
  arith,
  bit_and-halves a (2 ^ suc k - 1 - m),
  bit_and-halves a m,
  bit_and_complement k (a / 2) (m / 2) (omega (arith, pow-suc 2 k)) (omega (arith, pow-suc 2 k)),
  ap (λ (t : ℕ). bit_and (a / 2) t) half,
  pow-suc 2 k,
)
  where
    half : (2 ^ suc k - 1 - m) / 2 ≡ 2 ^ k - 1 - m / 2
    half = omega (arith, pow-suc 2 k)
