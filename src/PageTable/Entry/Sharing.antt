-- ===== src/PageTable/Entry/Sharing.antt =====
-- How `fork` shares a page by its entry, and how a write fault undoes that.
use unit.Base.{ℕ, ◌^◌, ◌%◌, ◌<◌, ◌≤◌, ◌/◌, ◌*◌, ◌+◌, ◌≡◌, Bool, true, false, arith, ap, ◌∙◌, refl}
use unit.PageTable.Flags
use unit.PageTable.Entry.{
  is_cow, set_cow, clear_cow, is_r, is_w, is_x, is_u, is_valid, set_w, clear_w, new_leaf,
  ppn_to_addr,
}
use unit.PageTable.Entry.Fields.{
  is_r-eq, is_x-eq, is_u-eq, is_valid-eq, clear_cow-eq, ppn_to_addr-eq, new_leaf-eq,
}
use unit.PageTable.Entry.Laws.{is_one, is_w-digit, is_cow-digit}

-- The entry that `fork` leaves for a writable page of the parent.
abbrev pub shared : ℕ → ℕ
shared e = set_cow (clear_w e)

-- The entry that a write fault leaves for a page with one user.
abbrev pub owned : ℕ → ℕ
owned e = clear_cow (set_w e true)

-- What a user may do with a page through an entry in force that is not marked.
abbrev pub IsPrivate : ℕ → ℕ → Bool → Type 0
IsPrivate e page x =
    (ppn_to_addr e ≡ page)
    × (is_valid e ≡ true)
    × (is_r e ≡ true)
    × (is_w e ≡ true)
    × (is_u e ≡ true)
    × (is_x e ≡ x)
    × (is_cow e ≡ false)

abbrev digit : Bool → ℕ
digit true = 1
digit false = 0

is_one-digit : (x : Bool) → is_one (digit x) ≡ x
is_one-digit true = refl
is_one-digit false = refl

digit-le : (x : Bool) → digit x ≤ 1
digit-le true = omega arith
digit-le false = omega arith

flag_value : (x : Bool) → Flags.new true true x true ≡ 23 + digit x * 8
unfolding Flags.new
flag_value true = refl
flag_value false = refl

-- The entry that a write fault makes for the copy of a shared page.
pub copied-IsPrivate :
    (page : ℕ) (x : Bool)
    → page < 2 ^ 56
    → page % 4096 ≡ 0
    → IsPrivate (clear_cow (new_leaf page (Flags.new true true x true))) page x
copied-IsPrivate page x h al = (
  ppn_to_addr-eq e ∙ omega (arith, q, dx),
  is_valid-eq e ∙ ap is_one v,
  is_r-eq e ∙ ap is_one r,
  is_w-digit e 1 (omega (arith, q, dx)),
  is_u-eq e ∙ ap is_one u,
  is_x-eq e ∙ ap is_one xx ∙ is_one-digit x,
  is_cow-digit e 0 (omega (arith, q, dx)),
)
  where
    f : ℕ
    f = Flags.new true true x true

    e : ℕ
    e = clear_cow (new_leaf page f)

    fq : f ≡ 23 + digit x * 8
    fq = flag_value x

    dx : digit x ≤ 1
    dx = digit-le x

    q : e ≡ page / 4096 * 1024 + 23 + digit x * 8
    q = omega (
      arith,
      fq,
      dx,
      new_leaf-eq page f h (omega (arith, fq, dx)),
      clear_cow-eq (new_leaf page f)
          (omega (arith, fq, dx, new_leaf-eq page f h (omega (arith, fq, dx)))),
    )

    v : e % 2 ≡ 1
    v = omega (arith, q, dx)

    r : e / 2 % 2 ≡ 1
    r = omega (arith, q, dx)

    u : e / 16 % 2 ≡ 1
    u = omega (arith, q, dx)

    xx : e / 8 % 2 ≡ digit x
    xx = omega (arith, q, dx)
