-- ===== src/Console/Digits.antt =====
-- What `print_hex` of kernel/src/trap.rs prints.
use unit.Base.{
  ℕ, zero, suc, ◌+◌, ◌-◌, ◌*◌, ◌/◌, ◌%◌, ◌^◌, ◌<◌, ◌≡◌, refl, ap, ◌∙◌, sym, Option, none, some,
  List, [], ◌∷◌, ◌++◌, length, leb, if◌then◌else◌, ◌&&◌, arith, usize_end, bit_and, shr,
}
use native.Mathlib.Nat.{
  add-mul, mul_assoc, mul_comm, mul-lt-mul_of_pos_right, zero-add, suc-add, div-add-mod', mod-lt,
  div-lt_iff_lt-mul,
}
use unit.Base.Bits.{bit_and-low}
use mathlib.Core.List.{append-nil, append_assoc}
use unit.Kernel.{Kernel, returns}
use unit.Console.{hex_digit, print_digits, print_hex}
use unit.Console.Steady.{printed}

-- The value of a digit, in lower case.
unfoldable pub digit_value : ℕ → Option ℕ
digit_value c =
    if leb b'0' c && leb c b'9'
    then some (c - b'0')
    else if leb b'a' c && leb c b'f'
    then some (c - b'a' + 10)
    else none

-- The number that a text of digits stands for, behind a number that was read before.
unfoldable pub read_from : ℕ → List ℕ → Option ℕ
read_from acc [] = some acc
read_from acc (c ∷ cs) = elim (digit_value c) [ none ↦ none | some v ↦ read_from (acc * 16 + v) cs ]

unfoldable pub read_hex : List ℕ → Option ℕ
unfolding read_from
read_hex = read_from 0

digit_value-hex_digit : (v : ℕ) → v < 16 → digit_value (hex_digit v) ≡ some v
unfolding hex_digit digit_value
digit_value-hex_digit v h = ground arith

-- The text of the loop.
digits : ℕ → ℕ → List ℕ
digits zero val = []
digits (suc n) val = hex_digit (bit_and (shr val 60) 0xf) ∷ digits n ((val * 16) % usize_end)

-- A power of 16.
sixteen : ℕ → ℕ
sixteen zero = 1
sixteen (suc n) = 16 * sixteen n

sixteen-mul : (n m : ℕ) → sixteen n * sixteen m ≡ sixteen (n + m)
unfolding sixteen
sixteen-mul zero m = rw (zero-add m) (omega arith)
sixteen-mul (suc n) m =
    rw (suc-add n m)
      (mul_assoc 16 (sixteen n) (sixteen m) ∙ ap (λ (t : ℕ). 16 * t) (sixteen-mul n m))

factor_pos : (p q : ℕ) → p * q ≡ 2 ^ 60 → 0 < q
factor_pos p zero e = absurd (omega arith)
factor_pos p (suc q) e = omega arith

-- A number cut at its top digit, moved up by the digits that were printed before.
cut_top :
    (a s p q : ℕ)
    → a < 16
    → s < p
    → p * q ≡ 2 ^ 60
    → (((a * p + s) * q / 2 ^ 60 ≡ a) × (((a * p + s) * q * 16) % usize_end ≡ s * (16 * q)))
cut_top a s p q ha hs e =
    let whole : (a * p + s) * q ≡ a * 2 ^ 60 + s * q =
      add-mul (a * p) s q ∙ ap (λ (t : ℕ). t + s * q) (mul_assoc a p q ∙ ap (λ (t : ℕ). a * t) e) in
    let low : s * q < 2 ^ 60 = rw (← e) (mul-lt-mul_of_pos_right hs (factor_pos p q e)) in
    let moved : s * (16 * q) ≡ s * q * 16 =
      ap (λ (t : ℕ). s * t) (mul_comm 16 q) ∙ sym (mul_assoc s q 16) in
    (rw whole (omega arith), rw (whole, moved) (omega arith))

sixteen-pos : (n : ℕ) → 0 < sixteen n
unfolding sixteen
sixteen-pos zero = omega arith
sixteen-pos (suc n) = omega (arith, sixteen-pos n)

power_60 : (n m : ℕ) → n + m ≡ 15 → sixteen n * sixteen m ≡ 2 ^ 60
unfolding sixteen
power_60 n m e = sixteen-mul n m ∙ ap sixteen e

sum_up : (acc a p s r : ℕ) → a * p + s ≡ r → (acc * 16 + a) * p + s ≡ acc * (16 * p) + r
sum_up acc a p s r e = omega (arith, add-mul (acc * 16) a p, mul_assoc acc 16 p)

-- One digit is printed and read.
read_step :
    (a acc n val next : ℕ)
    → a < 16
    → val / 2 ^ 60 ≡ a
    → (val * 16) % usize_end ≡ next
    → read_from acc (digits (suc n) val) ≡ read_from (acc * 16 + a) (digits n next)
unfolding digits read_from
read_step a acc n val next h top rest =
    let nibble : bit_and (val / 2 ^ 60) 0xf ≡ a = bit_and-low 4 (val / 2 ^ 60) ∙ omega arith in
    rw (nibble, rest) (rw (digit_value-hex_digit a h, read_from) refl)

read_from-digits :
    (n m r acc : ℕ)
    → n + m ≡ 16
    → r < sixteen n
    → read_from acc (digits n (r * sixteen m)) ≡ some (acc * sixteen n + r)
unfolding digits sixteen read_from
read_from-digits zero m r acc e h = ap some (omega arith)
read_from-digits (suc n) m r acc e h =
    let p = sixteen n in
    let pos : 0 < p = sixteen-pos n in
    let a = r / p in
    let s = r % p in
    let whole : a * p + s ≡ r = div-add-mod' r p in
    let small : a < 16 = (div-lt_iff_lt-mul pos).1 h in
    let below : s < p = mod-lt r pos in
    let power : p * sixteen m ≡ 2 ^ 60 = power_60 n m (omega arith) in
    let cut = cut_top a s p (sixteen m) small below power in
    let here = ap (λ (t : ℕ). t * sixteen m) (sym whole) in
    let rest : read_from (acc * 16 + a) (digits n (s * sixteen (suc m)))
        ≡ some ((acc * 16 + a) * p + s) =
      read_from-digits n (suc m) s (acc * 16 + a) (omega arith) below in
    ap (λ (t : ℕ). read_from acc (digits (suc n) t)) here
    ∙ read_step a acc n ((a * p + s) * sixteen m) (s * (16 * sixteen m)) small cut.0 cut.1
    ∙ rest
    ∙ ap some (sum_up acc a p s r whole)

length-digits : (n val : ℕ) → length (digits n val) ≡ n
unfolding digits
length-digits zero val = refl
length-digits (suc n) val = ap suc (length-digits n ((val * 16) % usize_end))

print_digits-digits :
    (n val : ℕ) (k : Kernel)
    → print_digits n val k ≡ returns tt (printed k (k.output ++ digits n val))
unfolding print_digits digits
print_digits-digits zero val k = ap (λ o. returns tt (printed k o)) (sym (append-nil k.output))
print_digits-digits (suc n) val k =
    let c = hex_digit (bit_and (shr val 60) 0xf) in
    let rest = (val * 16) % usize_end in
    print_digits-digits n rest (printed k (k.output ++ c ∷ []))
    ∙ ap (λ o. returns tt (printed k o)) (append_assoc k.output (c ∷ []) (digits n rest))

-- `print_hex` of a value of 64 bits appends 16 hexadecimal digits to the output that read back as the
-- value, and changes nothing else.
pub print_hex-read_hex :
    (val : ℕ) (k : Kernel)
    → val < usize_end
    → (text : List ℕ) × (print_hex val k ≡ returns tt (record k { output = k.output ++ text }))
      × (length text ≡ 16)
      × (read_hex text ≡ some val)
unfolding print_hex read_hex sixteen
print_hex-read_hex val k h = (
  digits 16 val,
  print_digits-digits 16 val k,
  length-digits 16 val,
  ap (λ (t : ℕ). read_from 0 (digits 16 t)) (omega arith)
      ∙ read_from-digits 16 0 val 0 refl h
      ∙ ap some (omega arith),
)
