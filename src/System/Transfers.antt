-- ===== src/System/Transfers.antt =====
-- The transfers between the kernel and user memory in kernel/src/syscall.rs leave the processes alone.
use unit.Base.{
  arith, ap, refl, ◌≡◌, ◌≤◌, ◌*◌, zero, suc, length, replicate, ℕ, ◌+◌, ◌<◌, Bool, true, false,
  List, [], ◌∷◌, usize_end,
}
use unit.Console.{bytes}
use unit.Console.Steady.{putchar-Prints, Prints-IsSteady}
use unit.Kernel.{Cmd, pure}
use unit.Kernel.Steady.{
  IsSteady, bind-IsSteady, seq-IsSteady, if-IsSteady, pure-IsSteady, for_range-IsSteady,
  for_range-within,
}
use unit.Syscall.Access.{Access, granted, refused}
use unit.Syscall.Steady.{ensure_user_range-IsSteady}
use unit.Syscall.Wait.{user_half}
use unit.Syscall.Transfer.{
  Machine, checked, copy_out, take, write_uts_field, sys_read, sys_write, sys_getcwd, sys_uname,
}

-- The machine's part of the console and the timer, of a load, and of a store to the user's half of the
-- addresses, ends and does not touch the processes of the kernel. A fault of an access is a panic. Of
-- a store to the other half, where the kernel and its statics are mapped, nothing is said.
pub record IsMachine (m : Machine) : Type 0 where
  pub load_byte : (a : ℕ) → IsSteady (m.load_byte a)
  pub store_byte : (a b : ℕ) → a < user_half → IsSteady (m.store_byte a b)
  pub store_word : (a w : ℕ) → a + 8 ≤ user_half → IsSteady (m.store_word a w)
  pub read_char : IsSteady m.read_char
  pub read_time : IsSteady m.read_time
  pub set_timer : (t : ℕ) → IsSteady (m.set_timer t)

checked-IsSteady :
    (buf len : ℕ) (write : Bool) {body : Cmd ℕ}
    → buf < usize_end
    → IsSteady body
    → IsSteady (checked buf len write body)
checked-IsSteady buf len write {body} h s =
    bind-IsSteady (ensure_user_range-IsSteady buf len write h) by_access
  where
    by_access :
        (access : Access) → IsSteady (elim access [ granted ↦ body | refused errno ↦ pure errno ])
    by_access granted = s
    by_access (refused errno) = pure-IsSteady

length-take : (n : ℕ) (xs : List ℕ) → length (take n xs) ≤ n
length-take zero xs = omega arith
length-take (suc n) [] = omega arith
length-take (suc n) (x ∷ xs) = omega (arith, length-take n xs)

length-zeros : (n : ℕ) → length {A = ℕ} (replicate n 0) ≡ n
length-zeros zero = refl
length-zeros (suc n) = ap suc (length-zeros n)

module _ (m : Machine) (h : IsMachine m) where
  copy_out-IsSteady :
      (bs : List ℕ) (buf : ℕ) → buf + length bs ≤ user_half → IsSteady (copy_out m bs buf)
  unfolding copy_out
  copy_out-IsSteady [] buf end = pure-IsSteady
  copy_out-IsSteady (b ∷ bs) buf end =
      seq-IsSteady (h.store_byte buf b (omega (arith, end)))
        (copy_out-IsSteady bs (buf + 1) (omega (arith, end)))

  pub sys_read-IsSteady :
      (fd buf len : ℕ) → buf < usize_end → buf + len ≤ user_half → IsSteady (sys_read m fd buf len)
  unfolding sys_read
  sys_read-IsSteady fd buf len bound half = if-IsSteady _ pure-IsSteady (
      checked-IsSteady buf len true bound (
        seq-IsSteady
          (for_range-within len 0
            (λ i lo hi. bind-IsSteady h.read_char (λ c. h.store_byte (buf + i) c (omega arith))))
          pure-IsSteady))

  pub sys_write-IsSteady : (fd buf len : ℕ) → buf < usize_end → IsSteady (sys_write m fd buf len)
  unfolding sys_write
  sys_write-IsSteady fd buf len bound = if-IsSteady _ pure-IsSteady (
      checked-IsSteady buf len false bound (
        seq-IsSteady
          (for_range-IsSteady len 0
            (λ i. bind-IsSteady (h.load_byte (buf + i)) (λ c. Prints-IsSteady (putchar-Prints c))))
          pure-IsSteady))

  pub sys_getcwd-IsSteady :
      (buf size : ℕ) → buf < usize_end → buf + 2 ≤ user_half → IsSteady (sys_getcwd m buf size)
  unfolding sys_getcwd
  sys_getcwd-IsSteady buf size bound half = if-IsSteady _ pure-IsSteady (
      checked-IsSteady buf 2 true bound
        (seq-IsSteady (copy_out-IsSteady (b'/' ∷ 0 ∷ []) buf half) (pure-IsSteady {a = 2})))

  field-IsSteady :
      (buf index : ℕ) (value : List ℕ)
      → buf + index * 65 + 64 ≤ user_half
      → IsSteady (write_uts_field m buf index value)
  unfolding write_uts_field
  field-IsSteady buf index value half =
      copy_out-IsSteady (take 64 value) (buf + index * 65)
        (omega (arith, half, length-take 64 value))

  pub sys_uname-IsSteady :
      (buf : ℕ) → buf < usize_end → buf + 390 ≤ user_half → IsSteady (sys_uname m buf)
  unfolding sys_uname
  sys_uname-IsSteady buf bound half = checked-IsSteady buf 390 true bound (
      seq-IsSteady (copy_out-IsSteady (replicate 390 0) buf (omega (arith, half, length-zeros 390)))
        (seq-IsSteady (field-IsSteady buf 0 (bytes "Unit00") (omega arith)) (
          seq-IsSteady (field-IsSteady buf 1 (bytes "unit00") (omega arith)) (
            seq-IsSteady (field-IsSteady buf 2 (bytes "0.1.0") (omega arith)) (
              seq-IsSteady (field-IsSteady buf 3 (bytes "oskernel-2026 stage-1") (omega arith)) (
                seq-IsSteady (field-IsSteady buf 4 (bytes "riscv64") (omega arith)) (
                  seq-IsSteady (field-IsSteady buf 5 (bytes "localdomain") (omega arith))
                    (pure-IsSteady {a = 0}))))))))
