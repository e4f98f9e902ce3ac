-- ===== src/Kernel/Errno.antt =====
-- Error numbers as the sources return them, and the pointers that `IS_ERR` tells apart.
use utsavbalar_linux_kernel.Base.{ℕ, ℤ, pos, negsuc, Bool, true, false}

-- -ENOMEM, -EFAULT, -EINVAL and -ENOSPC.
abbrev pub enomem : ℤ
enomem = negsuc 11

abbrev pub efault : ℤ
efault = negsuc 13

abbrev pub einval : ℤ
einval = negsuc 21

abbrev pub enospc : ℤ
enospc = negsuc 27

-- A pointer that may encode an error: `err e` is the pointer whose `PTR_ERR` is -(e + 1).
pub data ErrPtr : Type 0 where
  ptr : ℕ → ErrPtr
  err : ℕ → ErrPtr

-- The answer of a call with a signed result: a handle, or -(e + 1).
abbrev pub is_err : ErrPtr → Bool
is_err (ptr _) = false
is_err (err _) = true

abbrev pub ptr_err : ErrPtr → ℤ
ptr_err (ptr p) = pos p
ptr_err (err e) = negsuc e

abbrev pub address : ErrPtr → ℕ
address (ptr p) = p
address (err e) = e
