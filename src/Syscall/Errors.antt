-- ===== src/Syscall/Errors.antt =====
-- Error numbers of kernel/src/syscall.rs.
use unit.Base.{ℕ, ◌-◌, usize_end}

abbrev pub eagain : ℕ
eagain = 11

abbrev pub ebadf : ℕ
ebadf = 9

abbrev pub echild : ℕ
echild = 10

abbrev pub efault : ℕ
efault = 14

abbrev pub einval : ℕ
einval = 22

abbrev pub enomem : ℕ
enomem = 12

abbrev pub erange : ℕ
erange = 34

abbrev pub enosys : ℕ
enosys = 38

-- `(-errno) as usize`.
abbrev pub linux_error : ℕ → ℕ
linux_error errno = usize_end - errno
