-- ===== src/PageTable/Flags.antt =====
-- `PTEFlags` of kernel/src/mm/page_table.rs: the low five bits of a page-table entry, as a `u8`.
use unit.Base.{ℕ, ◌+◌, ◌*◌, ◌^◌, ◌≡◌, Bool, true, false, bit_or, if◌then◌else◌, test, refl}

abbrev pub v_bit : ℕ
v_bit = 0

abbrev pub r_bit : ℕ
r_bit = 1

abbrev pub w_bit : ℕ
w_bit = 2

abbrev pub x_bit : ℕ
x_bit = 3

abbrev pub u_bit : ℕ
u_bit = 4

-- `PTEFlags::new`: V is always set.
unfoldable pub new : Bool → Bool → Bool → Bool → ℕ
new r w x u =
    let f = 2 ^ v_bit in
    let f = if r then bit_or f (2 ^ r_bit) else f in
    let f = if w then bit_or f (2 ^ w_bit) else f in
    let f = if x then bit_or f (2 ^ x_bit) else f in if u then bit_or f (2 ^ u_bit) else f

-- `PTEFlags::is_x` and `PTEFlags::is_u`.
unfoldable pub is_x : ℕ → Bool
is_x f = test f (2 ^ x_bit)

unfoldable pub is_u : ℕ → Bool
is_u f = test f (2 ^ u_bit)

abbrev digit : Bool → ℕ
digit true = 1
digit false = 0

-- The flags as a number, and so below 32.
pub new-eq :
    (r w x u : Bool) → new r w x u ≡ 1 + digit r * 2 + digit w * 4 + digit x * 8 + digit u * 16
unfolding new
new-eq true true true true = refl
new-eq true true true false = refl
new-eq true true false true = refl
new-eq true true false false = refl
new-eq true false true true = refl
new-eq true false true false = refl
new-eq true false false true = refl
new-eq true false false false = refl
new-eq false true true true = refl
new-eq false true true false = refl
new-eq false true false true = refl
new-eq false true false false = refl
new-eq false false true true = refl
new-eq false false true false = refl
new-eq false false false true = refl
new-eq false false false false = refl
