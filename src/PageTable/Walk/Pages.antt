-- ===== src/PageTable/Walk/Pages.antt =====
-- Which addresses the three levels of kernel/src/mm/page_table.rs take to one page.
use unit.Base.{ℕ, ◌+◌, ◌*◌, ◌/◌, ◌%◌, ◌^◌, ◌≡◌, ◌==◌, arith, shr}
use unit.Base.Bits.{bit_and-low}
use unit.PageTable.Walk.{vpn0, vpn1, vpn2}
use unit.PageTable.Walk.Mapping.{vpn0-bound, vpn1-bound}
use unit.PageTable.Walk.Translation.{same_page}

-- The three indices are the digits, to the base 512, of the number of the page.
digits : (va : ℕ) → vpn2 va * 2 ^ 18 + vpn1 va * 2 ^ 9 + vpn0 va ≡ va % 2 ^ 39 / 4096
unfolding vpn0 vpn1 vpn2
digits va =
    omega (arith, bit_and-low 9 (shr va 12), bit_and-low 9 (shr va 21), bit_and-low 9 (shr va 30))

-- The levels take two addresses to the same entry of the same tables exactly if their low 39 bits lie in one
-- page of 4096 bytes.
pub same_page-floor : (va vb : ℕ) → same_page va vb ≡ (va % 2 ^ 39 / 4096 == vb % 2 ^ 39 / 4096)
same_page-floor va vb =
    ground (arith, digits va, digits vb, vpn0-bound va, vpn0-bound vb, vpn1-bound va, vpn1-bound vb)
