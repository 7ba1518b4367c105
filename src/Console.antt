-- ===== src/Console.antt =====
-- kernel/src/console.rs as the rest of the kernel sees it, and `print_hex` of kernel/src/trap.rs.
pub mod Uart
pub mod Sends
pub mod Digits
pub mod Steady
use Prim.Native.Char.{code}
use Prim.Native.String.{String}
use unit.Base.{
  ℕ, zero, suc, ◌+◌, ◌-◌, ◌*◌, ◌%◌, List, [], ◌∷◌, ◌++◌, ltb, ◌==◌, if◌then◌else◌, usize_end, shr,
  bit_and,
}
use unit.Kernel.{Cmd, ◌>>◌, pure, modify}

-- The bytes of an ASCII text.
abbrev pub bytes : String → List ℕ
bytes String.[] = []
bytes (String.◌∷◌ c s) = code c ∷ bytes s

-- `putchar` once the device has taken the byte.
unfoldable pub putchar : ℕ → Cmd (Unit {0})
putchar c = modify (λ k. record k { output = k.output ++ c ∷ [] })

-- `putstr`: a line feed is preceded by a carriage return.
unfoldable pub puts : List ℕ → Cmd (Unit {0})
unfolding putchar
puts [] = pure tt
puts (c ∷ s) = do if c == b'\n' then putchar b'\r' else pure tt; putchar c; puts s

unfoldable pub hex_digit : ℕ → ℕ
hex_digit nibble = if ltb nibble 10 then b'0' + nibble else b'a' + nibble - 10

-- The rounds of `print_hex`; the shift drops the digit that was printed.
unfoldable pub print_digits : ℕ → ℕ → Cmd (Unit {0})
unfolding putchar
print_digits zero val = pure tt
print_digits (suc n) val = do
  putchar (hex_digit (bit_and (shr val 60) 0xf))
  print_digits n ((val * 16) % usize_end)

unfoldable pub print_hex : ℕ → Cmd (Unit {0})
unfolding print_digits
print_hex val = print_digits 16 val
