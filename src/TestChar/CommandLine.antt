-- ===== src/TestChar/CommandLine.antt =====
-- `main` of tutorial-02/test_char.c: the exit code of a command line. What the program prints besides
-- the data that it read is left out.
use utsavbalar_linux_kernel.Base.{ℕ, zero, suc, List, [], ◌∷◌, if◌then◌else◌, ℤ, pos}
use utsavbalar_linux_kernel.Text.{codes}
use utsavbalar_linux_kernel.Process.{Shell, M, ◌>>=◌, pure, Syscalls}
use utsavbalar_linux_kernel.Loader.{char_load_module, char_unload_module}
use utsavbalar_linux_kernel.TestChar.{read_device, write_device}
use utsavbalar_linux_kernel.TestChar.Suite.{run_tests}
use Prim.Native.String.{String}
use text.Mathlib.Text.{◌==◌ as str_eq}

-- An argument as a number, 0 where it is missing; `atoi` is the C library's.
abbrev pub number : (String → ℤ) → List String → ℕ → ℤ
number atoi [] i = pos 0
number atoi (arg ∷ args) zero = atoi arg
number atoi (arg ∷ args) (suc i) = number atoi args i

module _ {W : Type 0} (atoi : String → ℤ) (sh : Shell W) (sys : Syscalls W) where
  unfoldable pub write_command : List String → M W ℤ
  write_command [] = pure (pos 1)
  write_command (data_arg ∷ args) = write_device sys (codes data_arg)

  -- The command line after the name of the program; an unknown command is an error.
  unfoldable pub char_main : List String → M W ℤ
  unfolding write_command
  char_main [] = pure (pos 1)
  char_main (command ∷ args) =
      if str_eq command "read"
      then (do report ← read_device sys (number atoi args 0) (number atoi args 1); pure report.code)
      else if str_eq command "write"
      then write_command args
      else if str_eq command "test"
      then (do outcome ← run_tests sys sh; pure outcome.code)
      else if str_eq command "load"
      then char_load_module sh
      else if str_eq command "unload"
      then char_unload_module sh
      else if str_eq command "help"
      then pure (pos 0)
      else pure (pos 1)
