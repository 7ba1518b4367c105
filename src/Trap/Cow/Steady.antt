-- ===== src/Trap/Cow/Steady.antt =====
-- `handle_cow_fault` of kernel/src/trap.rs leaves the processes alone.
use unit.Base.{ℕ}
use unit.Kernel.Steady.{IsSteady, steady}
use unit.Frame.Steady.{alloc_frame-IsSteady, dec_ref-IsSteady, get_ref-IsSteady}
use unit.Trap.Cow.{copy_page, claim_page, handle_cow_fault}

copy_page-IsSteady : (entry ppn : ℕ) → IsSteady (copy_page entry ppn)
unfolding copy_page
copy_page-IsSteady entry ppn = search (steady, alloc_frame-IsSteady, dec_ref-IsSteady) depth 20

claim_page-IsSteady : (entry : ℕ) → IsSteady (claim_page entry)
unfolding claim_page
claim_page-IsSteady entry = search steady depth 14

pub handle_cow_fault-IsSteady : (vaddr entry : ℕ) → IsSteady (handle_cow_fault vaddr entry)
unfolding handle_cow_fault
handle_cow_fault-IsSteady vaddr entry =
    search (steady, get_ref-IsSteady, copy_page-IsSteady, claim_page-IsSteady) depth 14
