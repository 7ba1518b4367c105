-- ===== src/PageTable/Walk/Identity.antt =====
-- The loop of `init_kernel` in kernel/src/mm/page_table.rs maps RAM to itself.
use unit.Base.{
  usize_end, ℕ, zero, suc, ◌+◌, ◌*◌, ◌<◌, ◌≡◌, ◌==◌, if◌then◌else◌, ltb, shr, Bool, Bool-cases, inl,
  inr, ◌⊎◌, true, false, List, [], Option, none, arith, refl, ap, ◌∙◌, sym,
}
use unit.Base.Bits.{bit_and-low}
use unit.Frame.{ram_base, ram_end}
use unit.Frame.FreeList.{IsAllocator}
use unit.Kernel.{Kernel, Cmd, Outcome, returns, add_usize, ◌>>=◌}
use unit.PageTable.Defs.{PageTable}
use unit.PageTable.Entry.{new_leaf}
use unit.PageTable.Flags
use unit.PageTable.Walk.{vpn0, vpn1, vpn2, map, map_identity}
use unit.PageTable.Walk.Full.{IsFull, map_full}
use unit.PageTable.Walk.Translation.{same_page, Updates, map_leaf-Updates}
use unit.PageTable.Walk.Tree.{IsTree, in_force, translate}

-- Page number `n` of RAM, and its entry in the table of the kernel.
abbrev pub ram_page : ℕ → ℕ
ram_page n = ram_base + n * 4096

abbrev pub identity : ℕ → Option ℕ
identity n = in_force (new_leaf (ram_page n) (Flags.new true true true false))

-- A page has no entry, or it is one of the first `m` pages of RAM and has the entry that leads to it.
abbrev pub IsOwn : Kernel → PageTable → ℕ → ℕ → Type 0
IsOwn k pt m vb =
    (translate k pt vb ≡ none)
    ⊎ ((n : ℕ) × (n < m) × (same_page (ram_page n) vb ≡ true) × (translate k pt vb ≡ identity n))

abbrev pub AreMapped : Kernel → PageTable → ℕ → Type 0
AreMapped k pt m = (n : ℕ) → n < m → translate k pt (ram_page n) ≡ identity n

-- The first `m` pages of RAM were mapped, as long as there were frames for tables.
pub record IsIdentity (k : Kernel) (pt : PageTable) (m : ℕ) : Type 0 where
  pub free : List ℕ
  pub allocator : IsAllocator k free
  pub tree : IsTree k pt
  pub own : (vb : ℕ) → IsOwn k pt m vb
  pub complete : AreMapped k pt m ⊎ IsFull k

-- Pages of RAM are told apart by the three levels.
ram_page-apart : (n i : ℕ) → n < 32768 → i < 32768 → same_page (ram_page i) (ram_page n) ≡ (i == n)
unfolding vpn0 vpn1 vpn2
ram_page-apart n i hn hi = ground (
  arith,
  bit_and-low 9 (shr (ram_page n) 12),
  bit_and-low 9 (shr (ram_page n) 21),
  bit_and-low 9 (shr (ram_page i) 12),
  bit_and-low 9 (shr (ram_page i) 21),
  bit_and-low 9 (shr (ram_page n) 30),
  bit_and-low 9 (shr (ram_page i) 30),
)

IsOwn-more :
    (k j : Kernel) (pt : PageTable) (m vb : ℕ)
    → translate j pt vb ≡ translate k pt vb
    → IsOwn k pt m vb
    → IsOwn j pt (suc m) vb
IsOwn-more k j pt m vb e (inl gone) = inl (e ∙ gone)
IsOwn-more k j pt m vb e (inr (n, h, same, leads)) = inr (n, omega arith, same, e ∙ leads)

module _ (k : Kernel) (pt : PageTable) (i : ℕ) (bound : i < 32768) (v : IsIdentity k pt i) where
  abbrev page : ℕ
  page = ram_page i

  module _ (j : Kernel)
      (update : (vb : ℕ)
        → translate j pt vb ≡ (
            if same_page page vb
            then in_force (new_leaf page (Flags.new true true true false))
            else translate k pt vb)) where
    updated-IsOwn : (vb : ℕ) → IsOwn j pt (suc i) vb
    updated-IsOwn vb = elim (Bool-cases (same_page page vb)) [
      | inl same ↦ inr (i, omega arith, same, update vb ∙ rw same refl)
      | inr other ↦ IsOwn-more k j pt i vb (update vb ∙ rw other refl) (v.own vb)
    ]

    updated-AreMapped : AreMapped k pt i → AreMapped j pt (suc i)
    updated-AreMapped all n h = elim (Bool-cases (i == n)) [
      | inl same ↦
          let e : i ≡ n = ground arith in
          ap (λ (t : ℕ). translate j pt (ram_page t)) (sym e)
          ∙ update page
          ∙ rw (ram_page-apart i i bound bound) (ground (arith, ap identity e))
      | inr other ↦
          update (ram_page n)
          ∙ rw (ram_page-apart n i (omega arith) bound, other) (all n (ground arith))
    ]

  still-IsFull :
      (j : Kernel) (o : Outcome Bool) (free : List ℕ)
      → o ≡ returns true j
      → IsAllocator j free
      → IsFull k
      → ((done : Bool) × (memory : ℕ → ℕ) × (o ≡ returns done (record k { memory = memory })))
      → IsFull j
  still-IsFull j o free e w full (done, memory, e') =
      let same : j ≡ record k { memory = memory } = cc in
      let a = full.0 in
      rw same (
        record {
          chain = a.chain;
          aligned = a.aligned;
          above = a.above;
          below = a.below;
          fresh = a.fresh;
        },
        full.1,
      )

  Updates-IsIdentity :
      (o : Outcome Bool)
      → (IsFull k
          → (done : Bool) × (memory : ℕ → ℕ) × (o ≡ returns done (record k { memory = memory })))
      → Updates k pt page (new_leaf page (Flags.new true true true false)) false true o
      → (done : Bool) × (j : Kernel) × (o ≡ returns done j) × IsIdentity j pt (suc i)
  Updates-IsIdentity o stays (inl (j, e, w, full, t, same)) = (
    false,
    j,
    e,
    record {
      free = [];
      allocator = w;
      tree = t;
      own = λ vb. IsOwn-more k j pt i vb (same vb) (v.own vb);
      complete = inr (w, full);
    },
  )
  Updates-IsIdentity o stays (inr (j, free, e, w, t, update)) = (
    true,
    j,
    e,
    record {
      free = free;
      allocator = w;
      tree = t;
      own = updated-IsOwn j update;
      complete = elim v.complete [
        | inl all ↦ inl (updated-AreMapped j update all)
        | inr full ↦ inr (still-IsFull j o free e w full (stays full))
      ];
    },
  )

  map-IsIdentity :
      (done : Bool) × (j : Kernel) × (map pt page page (Flags.new true true true false) k
        ≡ returns done j)
      × IsIdentity j pt (suc i)
  unfolding map
  map-IsIdentity =
      Updates-IsIdentity (map pt page page (Flags.new true true true false) k)
        (λ full. map_full k full pt page page (Flags.new true true true false))
        (map_leaf-Updates k pt page page (Flags.new true true true false) false v.free v.tree
          v.allocator)

next_round :
    (pa next : ℕ) (rest : ℕ → Cmd (Unit {0})) (k j : Kernel)
    → pa + 4096 ≡ next
    → next < usize_end
    → rest next k ≡ returns tt j
    → (add_usize pa 4096 >>= rest) k ≡ returns tt j
next_round pa next rest k j e h run =
    let fits : ltb (pa + 4096) usize_end ≡ true = ground arith in rw (fits, e) run

-- The loop, from page `i` on.
pub map_identity-IsIdentity :
    (m i : ℕ) (k : Kernel) (pt : PageTable)
    → i + m ≡ 32768
    → IsIdentity k pt i
    → (j : Kernel) × (map_identity (suc m) pt (ram_page i) ram_end k ≡ returns tt j)
      × IsIdentity j pt 32768
unfolding map_identity
map_identity-IsIdentity zero i k pt e v =
    let out : ltb (ram_page i) ram_end ≡ false = ground arith in
    let all : i ≡ 32768 = omega arith in (k, rw out refl, rw (← all) v)
map_identity-IsIdentity (suc m) i k pt e v =
    let (done, j, out, w) = map-IsIdentity k pt i (omega arith) v in
    let (last, rest, z) = map_identity-IsIdentity m (suc i) j pt (omega arith) w in
    let more : ltb (ram_page i) ram_end ≡ true = ground arith in
    (
      last,
      rw (more, out)
          (next_round (ram_page i) (ram_page (suc i)) (λ next. map_identity (suc m) pt next ram_end)
            j last (omega arith) (omega arith) rest),
      z,
    )
