-- ===== src/PageTable/Walk/Canonical.antt =====
-- Which bits of an address `lookup` and `walk` of kernel/src/mm/page_table.rs read.
use unit.Base.{ℕ, ◌%◌, ◌^◌, ◌≡◌, arith, refl, shr}
use unit.Base.Bits.{bit_and-low}
use unit.Kernel.{Kernel}
use unit.PageTable.Defs.{PageTable}
use unit.PageTable.Walk.{vpn0, vpn1, vpn2, walk, lookup}

vpn0-low : (va : ℕ) → vpn0 va ≡ vpn0 (va % 2 ^ 39)
unfolding vpn0
vpn0-low va = omega (arith, bit_and-low 9 (shr va 12), bit_and-low 9 (shr (va % 2 ^ 39) 12))

vpn1-low : (va : ℕ) → vpn1 va ≡ vpn1 (va % 2 ^ 39)
unfolding vpn1
vpn1-low va = omega (arith, bit_and-low 9 (shr va 21), bit_and-low 9 (shr (va % 2 ^ 39) 21))

vpn2-low : (va : ℕ) → vpn2 va ≡ vpn2 (va % 2 ^ 39)
unfolding vpn2
vpn2-low va = omega (arith, bit_and-low 9 (shr va 30), bit_and-low 9 (shr (va % 2 ^ 39) 30))

-- `lookup` and `walk` read the low 39 bits of an address only, so that an address whose upper bits are no
-- copy of bit 38, which the processor refuses to translate, leads to the entry of another page.
pub lookup-low :
    (pt : PageTable) (va : ℕ) (k : Kernel)
    → (lookup pt va k ≡ lookup pt (va % 2 ^ 39) k) × (walk pt va k ≡ walk pt (va % 2 ^ 39) k)
unfolding lookup walk
lookup-low pt va k = rw (vpn0-low va, vpn1-low va, vpn2-low va) (refl, refl)
