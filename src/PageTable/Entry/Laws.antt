-- ===== src/PageTable/Entry/Laws.antt =====
-- What the operations of `PTEntry` keep, and how sharing a page by `fork` is undone by a fault.
use unit.Base.{
  ℕ, ◌^◌, ◌%◌, ◌<◌, ◌/◌, ◌*◌, ◌≡◌, Bool, true, false, arith, ◌==◌, ap, ◌∙◌, sym, usize_end,
}
use unit.PageTable.Entry.{
  is_cow, set_cow, clear_cow, is_r, is_w, is_x, is_u, is_valid, set_w, clear_w, flags, new_table,
  new_leaf, ppn_to_addr,
}
use unit.PageTable.Entry.Fields.{
  is_cow-eq, is_r-eq, is_w-eq, is_x-eq, is_u-eq, is_valid-eq, set_cow-eq, clear_cow-eq,
  set_w-true-eq, clear_w-eq, flags-eq, ppn_to_addr-eq, new_leaf-eq, new_table-eq,
}

-- A leaf entry for a page-aligned address below 2^56 and flags below 32 gives back the address
-- and the flags, and is not marked for copying.
new_leaf-fields :
    (paddr f : ℕ)
    → paddr < 2 ^ 56
    → paddr % 4096 ≡ 0
    → f < 32
    → (ppn_to_addr (new_leaf paddr f) ≡ paddr)
      × (flags (new_leaf paddr f) ≡ f)
      × (is_cow (new_leaf paddr f) ≡ false)
new_leaf-fields paddr f h al hf = ground (
  arith,
  new_leaf-eq paddr f h hf,
  ppn_to_addr-eq (new_leaf paddr f),
  flags-eq (new_leaf paddr f),
  is_cow-eq (new_leaf paddr f),
)

-- A table entry for a page-aligned address below 2^56 is valid, leads to that address and is no
-- leaf.
pub new_table-fields :
    (paddr : ℕ)
    → paddr < 2 ^ 56
    → paddr % 4096 ≡ 0
    → (ppn_to_addr (new_table paddr) ≡ paddr)
      × (is_valid (new_table paddr) ≡ true)
      × (is_r (new_table paddr) ≡ false)
      × (is_w (new_table paddr) ≡ false)
      × (is_x (new_table paddr) ≡ false)
new_table-fields paddr h al = ground (
  arith,
  new_table-eq paddr h,
  ppn_to_addr-eq (new_table paddr),
  is_valid-eq (new_table paddr),
  is_r-eq (new_table paddr),
  is_w-eq (new_table paddr),
  is_x-eq (new_table paddr),
)

-- The two entries lead to the same page, with the same rights except to write.
abbrev pub SamePage : ℕ → ℕ → Type 0
SamePage a b =
    (ppn_to_addr a ≡ ppn_to_addr b)
    × (is_valid a ≡ is_valid b)
    × (is_r a ≡ is_r b)
    × (is_x a ≡ is_x b)
    × (is_u a ≡ is_u b)

abbrev pub is_one : ℕ → Bool
is_one t = t == 1

-- Equal fields of two entries, from their numbers.
module _ (a b : ℕ) where
  SamePage-bits :
      a / 1024 % 2 ^ 48 ≡ b / 1024 % 2 ^ 48
      → a % 2 ≡ b % 2
      → a / 2 % 2 ≡ b / 2 % 2
      → a / 8 % 2 ≡ b / 8 % 2
      → a / 16 % 2 ≡ b / 16 % 2
      → SamePage a b
  SamePage-bits p v r x u = (
    ppn_to_addr-eq a ∙ ap (λ (t : ℕ). t * 4096) p ∙ sym (ppn_to_addr-eq b),
    is_valid-eq a ∙ ap is_one v ∙ sym (is_valid-eq b),
    is_r-eq a ∙ ap is_one r ∙ sym (is_r-eq b),
    is_x-eq a ∙ ap is_one x ∙ sym (is_x-eq b),
    is_u-eq a ∙ ap is_one u ∙ sym (is_u-eq b),
  )

  is_w-bits : a / 4 % 2 ≡ b / 4 % 2 → is_w a ≡ is_w b
  is_w-bits w = is_w-eq a ∙ ap is_one w ∙ sym (is_w-eq b)

  is_cow-bits : a / 2 ^ 62 % 2 ≡ b / 2 ^ 62 % 2 → is_cow a ≡ is_cow b
  is_cow-bits c = is_cow-eq a ∙ ap is_one c ∙ sym (is_cow-eq b)

pub is_w-digit : (a d : ℕ) → a / 4 % 2 ≡ d → is_w a ≡ is_one d
is_w-digit a d e = is_w-eq a ∙ ap is_one e

pub is_cow-digit : (a d : ℕ) → a / 2 ^ 62 % 2 ≡ d → is_cow a ≡ is_one d
is_cow-digit a d e = is_cow-eq a ∙ ap is_one e

pub digit_w : (a : ℕ) → is_w a ≡ true → a / 4 % 2 ≡ 1
digit_w a h = ground (arith, is_w-eq a)

pub digit_cow : (a : ℕ) → is_cow a ≡ false → a / 2 ^ 62 % 2 ≡ 0
digit_cow a h = ground (arith, is_cow-eq a)

pub SamePage-trans : (a b c : ℕ) → SamePage a b → SamePage b c → SamePage a c
SamePage-trans a b c p q = (p.0 ∙ q.0, p.1 ∙ q.1, p.2 ∙ q.2, p.3 ∙ q.3, p.4 ∙ q.4)

-- Each operation changes one field.
pub clear_w-fields :
    (e : ℕ)
    → e < usize_end
    → (clear_w e < usize_end)
      × SamePage (clear_w e) e
      × (is_w (clear_w e) ≡ false)
      × (is_cow (clear_w e) ≡ is_cow e)
clear_w-fields e h =
    let q = clear_w-eq e h in
    (
      omega (arith, q),
      SamePage-bits (clear_w e) e (omega (arith, q)) (omega (arith, q)) (omega (arith, q))
          (omega (arith, q)) (omega (arith, q)),
      is_w-digit (clear_w e) 0 (omega (arith, q)),
      is_cow-bits (clear_w e) e (omega (arith, q)),
    )

pub set_w-true-fields :
    (e : ℕ)
    → e < usize_end
    → (set_w e true < usize_end)
      × SamePage (set_w e true) e
      × (is_w (set_w e true) ≡ true)
      × (is_cow (set_w e true) ≡ is_cow e)
set_w-true-fields e h =
    let q = set_w-true-eq e in
    (
      omega (arith, q),
      SamePage-bits (set_w e true) e (omega (arith, q)) (omega (arith, q)) (omega (arith, q))
          (omega (arith, q)) (omega (arith, q)),
      is_w-digit (set_w e true) 1 (omega (arith, q)),
      is_cow-bits (set_w e true) e (omega (arith, q)),
    )

pub set_cow-fields :
    (e : ℕ)
    → e < usize_end
    → (set_cow e < usize_end)
      × SamePage (set_cow e) e
      × (is_w (set_cow e) ≡ is_w e)
      × (is_cow (set_cow e) ≡ true)
set_cow-fields e h =
    let q = set_cow-eq e in
    (
      omega (arith, q),
      SamePage-bits (set_cow e) e (omega (arith, q)) (omega (arith, q)) (omega (arith, q))
          (omega (arith, q)) (omega (arith, q)),
      is_w-bits (set_cow e) e (omega (arith, q)),
      is_cow-digit (set_cow e) 1 (omega (arith, q)),
    )

pub clear_cow-fields :
    (e : ℕ)
    → e < usize_end
    → (clear_cow e < usize_end)
      × SamePage (clear_cow e) e
      × (is_w (clear_cow e) ≡ is_w e)
      × (is_cow (clear_cow e) ≡ false)
clear_cow-fields e h =
    let q = clear_cow-eq e h in
    (
      omega (arith, q),
      SamePage-bits (clear_cow e) e (omega (arith, q)) (omega (arith, q)) (omega (arith, q))
          (omega (arith, q)) (omega (arith, q)),
      is_w-bits (clear_cow e) e (omega (arith, q)),
      is_cow-digit (clear_cow e) 0 (omega (arith, q)),
    )
