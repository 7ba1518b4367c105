-- ===== src/PageTable/Entry.antt =====
-- `PTEntry` of kernel/src/mm/page_table.rs: a 64-bit entry, and its operations.
pub mod Fields
pub mod Laws
pub mod Sharing
use unit.Base.{
  ℕ, ◌^◌, ◌%◌, ◌<◌, ◌/◌, ◌*◌, ◌≡◌, Bool, bit_and, bit_or, if◌then◌else◌, bit_not, shl, shr, test,
}

abbrev pub bit_v : ℕ
bit_v = 2 ^ 0

abbrev pub bit_r : ℕ
bit_r = 2 ^ 1

abbrev pub bit_w : ℕ
bit_w = 2 ^ 2

abbrev pub bit_x : ℕ
bit_x = 2 ^ 3

abbrev pub bit_u : ℕ
bit_u = 2 ^ 4

abbrev pub bit_cow : ℕ
bit_cow = 2 ^ 62

unfoldable pub is_cow : ℕ → Bool
is_cow e = test e bit_cow

unfoldable pub set_cow : ℕ → ℕ
set_cow e = bit_or e bit_cow

unfoldable pub clear_cow : ℕ → ℕ
clear_cow e = bit_and e (bit_not bit_cow)

unfoldable pub is_r : ℕ → Bool
is_r e = test e bit_r

unfoldable pub is_w : ℕ → Bool
is_w e = test e bit_w

unfoldable pub is_x : ℕ → Bool
is_x e = test e bit_x

unfoldable pub is_u : ℕ → Bool
is_u e = test e bit_u

unfoldable pub is_valid : ℕ → Bool
is_valid e = test e bit_v

unfoldable pub set_w : ℕ → Bool → ℕ
set_w e w = if w then bit_or e bit_w else bit_and e (bit_not bit_w)

unfoldable pub clear_w : ℕ → ℕ
clear_w e = bit_and e (bit_not bit_w)

-- The low five bits, as a `u8`.
unfoldable pub flags : ℕ → ℕ
flags e = bit_and e 0x1f % 2 ^ 8

unfoldable pub empty : ℕ
empty = 0

unfoldable pub new_table : ℕ → ℕ
new_table paddr = let ppn = shr paddr 12 in bit_or (shl ppn 10) bit_v

unfoldable pub new_leaf : ℕ → ℕ → ℕ
new_leaf paddr f = let ppn = shr paddr 12 in bit_or (shl ppn 10) f

unfoldable pub ppn_to_addr : ℕ → ℕ
ppn_to_addr e = shl (bit_and (shr e 10) 0xffff_ffff_ffff) 12
