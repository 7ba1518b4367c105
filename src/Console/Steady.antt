-- ===== src/Console/Steady.antt =====
-- Printing (kernel/src/console.rs) changes nothing but the output.
use unit.Base.{
  ℕ, zero, suc, ◌*◌, ◌%◌, ◌≡◌, Bool, true, false, List, [], ◌∷◌, ◌++◌, refl, ◌∙◌, ap, usize_end,
  if◌then◌else◌,
}
use unit.Kernel.{Kernel, Cmd, returns, and_then, ◌>>◌, pure}
use unit.Kernel.Steady.{IsSteady}
use unit.Console.{putchar, puts, print_digits, print_hex}

abbrev pub printed : Kernel → List ℕ → Kernel
printed k out = record k { output = out }

pub record Prints (m : Cmd (Unit {0})) : Type 0 where
  pub run : (k : Kernel) → (out : List ℕ) × (m k ≡ returns tt (printed k out))

pub seq-Prints : {m n : Cmd (Unit {0})} → Prints m → Prints n → Prints (m >> n)
seq-Prints {m} {n} p q = record {
  run = λ k.
      let (out, e) = p.run k in
      let (out', e') = q.run (printed k out) in (out', ap (λ o. and_then o (λ _. n)) e ∙ e');
}

pub pure-Prints : Prints (pure tt)
pure-Prints = record { run = λ k. (k.output, refl) }

pub if-Prints :
    {m n : Cmd (Unit {0})} (b : Bool) → Prints m → Prints n → Prints (if b then m else n)
if-Prints true p q = p
if-Prints false p q = q

pub putchar-Prints : (c : ℕ) → Prints (putchar c)
unfolding putchar
putchar-Prints c = record { run = λ k. (k.output ++ c ∷ [], refl) }

pub puts-Prints : (s : List ℕ) → Prints (puts s)
unfolding puts
puts-Prints [] = pure-Prints
puts-Prints (c ∷ s) =
    seq-Prints (if-Prints _ (putchar-Prints _) pure-Prints)
      (seq-Prints (putchar-Prints c) (puts-Prints s))

print_digits-Prints : (n val : ℕ) → Prints (print_digits n val)
unfolding print_digits
print_digits-Prints zero val = pure-Prints
print_digits-Prints (suc n) val =
    seq-Prints (putchar-Prints _) (print_digits-Prints n ((val * 16) % usize_end))

pub print_hex-Prints : (val : ℕ) → Prints (print_hex val)
unfolding print_hex
print_hex-Prints val = print_digits-Prints 16 val

pub Prints-IsSteady : {m : Cmd (Unit {0})} → Prints m → IsSteady m
Prints-IsSteady {m} p = record {
  run = λ k. let (out, e) = p.run k in rw e (refl, refl, refl, refl);
}

pub ruleset prints = (seq-Prints, pure-Prints, puts-Prints, print_hex-Prints)
