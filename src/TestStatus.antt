-- ===== src/TestStatus.antt =====
-- What tutorial-04/test_sync.c and tutorial-05/test_irq.c have in common: the display of a status
-- device and of a proc file, and the writing of a command. What is printed of the data is kept.
use utsavbalar_linux_kernel.Base.{
  Bool, not, Option, none, some, List, if◌then◌else◌, is_neg, ℕ, ◌-◌, false,
}
use utsavbalar_linux_kernel.Process.{◌>>=◌, Syscalls, M, pure, rdonly, wronly}
use utsavbalar_linux_kernel.TestChar.{text_of}

-- The proc file as `fopen` and `fgets` give it, line by line; and the passing of so many
-- microseconds.
pub record Around (W : Type 0) : Type 0 where
  pub proc_lines : M W (Option (List (List ℕ)))
  pub pause : ℕ → M W (Unit {0})

-- BUFFER_SIZE.
abbrev pub buffer_size : ℕ
buffer_size = 1024

module _ {W : Type 0} (sys : Syscalls W) (around : Around W) where
  open sys use {sys_open, sys_read, sys_write, sys_close}

  -- The text that is printed; `none` if the device cannot be opened or read.
  unfoldable pub display_device_info : M W (Option (List ℕ))
  display_device_info = do
    fd ← sys_open rdonly
    if is_neg fd then pure none else (do
      (n, bytes) ← sys_read fd (buffer_size - 1)
      _ ← sys_close fd
      pure (if is_neg n then none else some (text_of bytes)))

  -- The lines that are printed.
  unfoldable pub display_proc_info : M W (Option (List (List ℕ)))
  display_proc_info = around.proc_lines

  -- The result says whether the success is reported.
  unfoldable pub send_command : List ℕ → M W Bool
  send_command word = do
    fd ← sys_open wronly
    if is_neg fd
        then pure false
        else (do n ← sys_write fd word; _ ← sys_close fd; pure (not (is_neg n)))
