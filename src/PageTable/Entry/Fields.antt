-- ===== src/PageTable/Entry/Fields.antt =====
-- The operations of `PTEntry` as arithmetic on its fields.
use unit.Base.Bits.{bit_and-low, bit_and-bit, bit_or-bit, bit_or_fields}
use unit.Base.{
  ℕ, ◌^◌, ◌%◌, ◌<◌, ◌/◌, ◌*◌, ◌+◌, ◌-◌, ◌≡◌, true, bit_or, arith, ◌==◌, ap, bit_and-clear, test,
  usize_end,
}
use unit.PageTable.Entry.{
  is_cow, set_cow, clear_cow, is_r, is_w, is_x, is_u, is_valid, set_w, clear_w, flags, new_table,
  new_leaf, ppn_to_addr,
}

-- One bit of an entry, and the test of it.
pub test-bit : (k e : ℕ) → 0 < 2 ^ k → test e (2 ^ k) ≡ (e / 2 ^ k % 2 == 1)
test-bit k e pos = ground (arith, bit_and-bit k e)

pub is_cow-eq : (e : ℕ) → is_cow e ≡ (e / 2 ^ 62 % 2 == 1)
unfolding is_cow
is_cow-eq e = test-bit 62 e (omega arith)

pub is_r-eq : (e : ℕ) → is_r e ≡ (e / 2 % 2 == 1)
unfolding is_r
is_r-eq e = test-bit 1 e (omega arith)

pub is_w-eq : (e : ℕ) → is_w e ≡ (e / 4 % 2 == 1)
unfolding is_w
is_w-eq e = test-bit 2 e (omega arith)

pub is_x-eq : (e : ℕ) → is_x e ≡ (e / 8 % 2 == 1)
unfolding is_x
is_x-eq e = test-bit 3 e (omega arith)

pub is_u-eq : (e : ℕ) → is_u e ≡ (e / 16 % 2 == 1)
unfolding is_u
is_u-eq e = test-bit 4 e (omega arith)

pub is_valid-eq : (e : ℕ) → is_valid e ≡ (e % 2 == 1)
unfolding is_valid
is_valid-eq e = ground (arith, test-bit 0 e (omega arith))

pub set_cow-eq : (e : ℕ) → set_cow e ≡ e + (1 - e / 2 ^ 62 % 2) * 2 ^ 62
unfolding set_cow
set_cow-eq e = bit_or-bit 62 e

pub clear_cow-eq : (e : ℕ) → e < usize_end → clear_cow e ≡ e - e / 2 ^ 62 % 2 * 2 ^ 62
unfolding clear_cow
clear_cow-eq e h = bit_and-clear 62 e h (omega arith)

pub set_w-true-eq : (e : ℕ) → set_w e true ≡ e + (1 - e / 4 % 2) * 4
unfolding set_w
set_w-true-eq e = bit_or-bit 2 e

pub clear_w-eq : (e : ℕ) → e < usize_end → clear_w e ≡ e - e / 4 % 2 * 4
unfolding clear_w
clear_w-eq e h = bit_and-clear 2 e h (omega arith)

pub flags-eq : (e : ℕ) → flags e ≡ e % 32
unfolding flags
flags-eq e = omega (arith, bit_and-low 5 e)

pub ppn_to_addr-eq : (e : ℕ) → ppn_to_addr e ≡ e / 1024 % 2 ^ 48 * 4096
unfolding ppn_to_addr
ppn_to_addr-eq e = omega (arith, bit_and-low 48 (e / 2 ^ 10))

pub new_leaf-eq :
    (paddr f : ℕ) → paddr < 2 ^ 56 → f < 32 → new_leaf paddr f ≡ paddr / 4096 * 1024 + f
unfolding new_leaf
new_leaf-eq paddr f h hf =
    omega (arith, bit_or_fields 10 (paddr / 4096) f (omega arith), ap (λ (t : ℕ). bit_or t f) fits)
  where
    fits : paddr / 2 ^ 12 * 2 ^ 10 % usize_end ≡ paddr / 4096 * 2 ^ 10
    fits = omega arith

pub new_table-eq : (paddr : ℕ) → paddr < 2 ^ 56 → new_table paddr ≡ paddr / 4096 * 1024 + 1
unfolding new_table
new_table-eq paddr h =
    omega (arith, bit_or_fields 10 (paddr / 4096) 1 (omega arith), ap (λ (t : ℕ). bit_or t 1) fits)
  where
    fits : paddr / 2 ^ 12 * 2 ^ 10 % usize_end ≡ paddr / 4096 * 2 ^ 10
    fits = omega arith
