-- ===== src/Console/Sends.antt =====
-- The driver of kernel/src/console.rs sends what the kernel's view of the console records.
use unit.Base.{
  ℕ, zero, suc, ◌<◌, ◌≡◌, refl, ap, ◌∙◌, Bool-cases, inl, inr, some, List, [], ◌∷◌, ◌++◌, ◌==◌,
  bit_and, arith, true, false,
}
use unit.Kernel.{Kernel, returns}
use unit.Console
use unit.Console.{puts}
use unit.Console.Steady.{printed}
use unit.Console.Uart.{Device, spin, putchar, put_byte, putstr}

-- What the data sheet of the 16550 says of the parts that the driver uses: `sent` is what went out,
-- `rounds` the reads of register 5 after which its transmitter is empty. Reading register 5 sends nothing,
-- and a byte written to register 0 while the transmitter is empty is sent.
pub record IsUart {S : Type 0} (d : Device S) (sent : S → List ℕ) (rounds : S → ℕ) : Type 0 where
  pub polled : (s : S) → sent (d.read_reg 5 s).1 ≡ sent s
  pub busy :
      (s : S) → (bit_and (d.read_reg 5 s).0 0x20 == 0) ≡ true → rounds (d.read_reg 5 s).1 < rounds s
  pub written :
      (s : S) (c : ℕ)
      → (bit_and (d.read_reg 5 s).0 0x20 == 0) ≡ false
      → sent (d.write_reg 0 c (d.read_reg 5 s).1) ≡ sent s ++ c ∷ []

module _ {S : Type 0} (d : Device S) (sent : S → List ℕ) (rounds : S → ℕ)
    (u : IsUart d sent rounds) where
  -- A wait ends at a state that was just read as ready, with nothing sent.
  spin-ready :
      (fuel : ℕ) (s : S)
      → rounds s < fuel
      → (t : S) × (spin d fuel 0x20 s ≡ some (d.read_reg 5 t).1)
        × ((bit_and (d.read_reg 5 t).0 0x20 == 0) ≡ false)
        × (sent t ≡ sent s)
  unfolding spin
  spin-ready zero s h = absurd (omega arith)
  spin-ready (suc fuel) s h = elim (Bool-cases (bit_and (d.read_reg 5 s).0 0x20 == 0)) [
    | inr ready ↦ (s, rw ready refl, ready, refl)
    | inl wait ↦
        let (t, e, ready, same) =
          spin-ready fuel (d.read_reg 5 s).1 (omega (arith, u.busy s wait)) in
        (t, rw wait e, ready, same ∙ u.polled s)
  ]

  module _ (fuel : ℕ) (bound : (s : S) → rounds s < fuel) where
    putchar-sent :
        (c : ℕ) (s : S) → (t : S) × (putchar d fuel c s ≡ some t) × (sent t ≡ sent s ++ c ∷ [])
    unfolding putchar
    putchar-sent c s =
        let (r, e, ready, same) = spin-ready fuel s (bound s) in
        (
          d.write_reg 0 c (d.read_reg 5 r).1,
          rw (e, putchar) refl,
          u.written r c ready ∙ ap (λ l. l ++ c ∷ []) same,
        )

    -- The byte as the kernel's view of the console records it.
    put_byte-sent :
        (c : ℕ) (s : S) (k : Kernel)
        → sent s ≡ k.output
        → (t : S) × (j : Kernel) × (put_byte d fuel c s ≡ some t)
          × ((rest : List ℕ) → puts (c ∷ rest) k ≡ puts rest j)
          × (sent t ≡ j.output)
    unfolding put_byte puts Console.putchar
    put_byte-sent c s k h = elim (Bool-cases (c == b'\n')) [
      | inr other ↦
          let (t, e, out) = putchar-sent c s in
          (
            t,
            printed k (k.output ++ c ∷ []),
            rw other e,
            λ rest. rw other refl,
            out ∙ ap (λ l. l ++ c ∷ []) h,
          )
      | inl line ↦
          let (t, e, out) = putchar-sent b'\r' s in
          let (t', e', out') = putchar-sent c t in
          (
            t',
            printed k ((k.output ++ b'\r' ∷ []) ++ c ∷ []),
            rw line (rw e e'),
            λ rest. rw line refl,
            out' ∙ ap (λ l. l ++ c ∷ []) (out ∙ ap (λ l. l ++ b'\r' ∷ []) h),
          )
    ]

    -- On a 16550 whose transmitter is never busy for `fuel` reads of its status, `putstr` ends, and
    -- where the bytes sent before are the output recorded before, those sent behind it are the output
    -- that `puts` records.
    pub putstr-Sends :
        (text : List ℕ) (s : S) (k : Kernel)
        → sent s ≡ k.output
        → (t : S) × (j : Kernel) × (putstr d fuel text s ≡ some t)
          × (puts text k ≡ returns tt j)
          × (sent t ≡ j.output)
    unfolding putstr puts
    putstr-Sends [] s k h = (s, k, refl, refl, h)
    putstr-Sends (c ∷ text) s k h =
        let (t, j, e, view, same) = put_byte-sent c s k h in
        let (t', j', e', view', same') = putstr-Sends text t j same in
        (t', j', rw (e, putstr) e', view text ∙ view', same')
