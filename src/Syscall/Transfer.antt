-- ===== src/Syscall/Transfer.antt =====
-- The system calls of kernel/src/syscall.rs that move bytes between the console or the kernel and
-- user memory. The processor's accesses with SUM set, and what the devices answer, are parameters.
use unit.Base.{
  ℕ, zero, suc, ◌+◌, ◌-◌, ◌*◌, Bool, true, false, not, ◌&&◌, List, [], ◌∷◌, ltb, ◌==◌,
  if◌then◌else◌, replicate,
}
use unit.Console.{bytes, putchar}
use unit.Kernel.{Cmd, ◌>>=◌, ◌>>◌, pure, for_range}
use unit.Syscall.Access.{granted, refused, ensure_user_range}
use unit.Syscall.Errors.{linux_error, ebadf, erange}

-- What the kernel asks of the machine: a user byte or word at a virtual address, a byte of input, the
-- time and the next interrupt of the timer.
pub record Machine : Type 0 where
  pub load_byte : ℕ → Cmd ℕ
  pub store_byte : ℕ → ℕ → Cmd (Unit {0})
  pub store_word : ℕ → ℕ → Cmd (Unit {0})
  pub read_char : Cmd ℕ
  pub read_time : Cmd ℕ
  pub set_timer : ℕ → Cmd (Unit {0})

abbrev pub uts_field_len : ℕ
uts_field_len = 65

abbrev pub uts_size : ℕ
uts_size = uts_field_len * 6

abbrev pub take : ℕ → List ℕ → List ℕ
take zero xs = []
take (suc n) [] = []
take (suc n) (x ∷ xs) = x ∷ take n xs

-- The call behind a check of the range, whose error is the result.
abbrev pub checked : ℕ → ℕ → Bool → Cmd ℕ → Cmd ℕ
checked buf len write body = do
  access ← ensure_user_range buf len write
  elim access [ granted ↦ body | refused errno ↦ pure errno ]

module _ (m : Machine) where
  -- `copy_nonoverlapping` to user memory.
  unfoldable pub copy_out : List ℕ → ℕ → Cmd (Unit {0})
  copy_out [] buf = pure tt
  copy_out (b ∷ bs) buf = do m.store_byte buf b; copy_out bs (buf + 1)

  unfoldable pub sys_read : ℕ → ℕ → ℕ → Cmd ℕ
  sys_read fd buf len =
      if not (fd == 0)
      then pure (linux_error ebadf)
      else checked buf len true
          do for_range len 0 (λ i. do c ← m.read_char; m.store_byte (buf + i) c); pure len

  unfoldable pub sys_write : ℕ → ℕ → ℕ → Cmd ℕ
  sys_write fd buf len =
      if not (fd == 1) && not (fd == 2)
      then pure (linux_error ebadf)
      else checked buf len false
          do for_range len 0 (λ i. do c ← m.load_byte (buf + i); putchar c); pure len

  -- The only directory is the root: `b"/\0"`.
  unfoldable pub sys_getcwd : ℕ → ℕ → Cmd ℕ
  unfolding copy_out
  sys_getcwd buf size =
      if ltb size 2
      then pure (linux_error erange)
      else checked buf 2 true do copy_out (b'/' ∷ 0 ∷ []) buf; pure 2

  unfoldable pub write_uts_field : ℕ → ℕ → List ℕ → Cmd (Unit {0})
  unfolding copy_out
  write_uts_field buf index value =
      copy_out (take (uts_field_len - 1) value) (buf + index * uts_field_len)

  unfoldable pub sys_uname : ℕ → Cmd ℕ
  unfolding write_uts_field
  sys_uname buf = checked buf uts_size true do
    copy_out (replicate uts_size 0) buf
    write_uts_field buf 0 (bytes "Unit00")
    write_uts_field buf 1 (bytes "unit00")
    write_uts_field buf 2 (bytes "0.1.0")
    write_uts_field buf 3 (bytes "oskernel-2026 stage-1")
    write_uts_field buf 4 (bytes "riscv64")
    write_uts_field buf 5 (bytes "localdomain")
    pure 0
