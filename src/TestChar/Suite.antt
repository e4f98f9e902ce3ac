-- ===== src/TestChar/Suite.antt =====
-- `run_tests` of tutorial-02/test_char.c: the same steps as a list of writes and reads, with the
-- displays in order.
pub mod Pass
use utsavbalar_linux_kernel.Base.{
  ℕ, zero, suc, ◌+◌, List, [], ◌∷◌, if◌then◌else◌, length, is_neg, eq_zero, ℤ, pos,
}
use utsavbalar_linux_kernel.Text.{codes}
use utsavbalar_linux_kernel.Process.{Shell, M, ◌>>=◌, pure, Syscalls, wronly}
use utsavbalar_linux_kernel.Loader.{char_names, load_module_of}
use utsavbalar_linux_kernel.TestChar.{Display, Report, read_device, write_device}

pub record Outcome : Type 0 where
  pub code : ℤ
  pub shown : List Display

abbrev pub gave_up : Outcome
gave_up = record { code = pos 1; shown = [] }

abbrev pub test_string : List ℕ
test_string = codes "Hello, Character Device Driver!"

abbrev pub offset_string : List ℕ
offset_string = codes "OFFSET WRITE"

abbrev pub numbers_from : ℕ → ℕ → List ℕ
numbers_from i zero = []
numbers_from i (suc n) = i ∷ numbers_from (i + 1) n

abbrev pub binary_data : List ℕ
binary_data = numbers_from 0 50

module _ {W : Type 0} where
  -- A step whose code is not 0 ends the run.
  unfoldable pub then_write : M W ℤ → M W Outcome → M W Outcome
  then_write step rest = do ret ← step; if eq_zero ret then rest else pure gave_up

  unfoldable pub then_show : M W Report → M W Outcome → M W Outcome
  then_show step rest = do
    report ← step
    if eq_zero report.code
        then (do
          outcome ← rest
          pure (record { code = outcome.code; shown = report.shown ∷ outcome.shown }))
        else pure gave_up

module _ {W : Type 0} (sys : Syscalls W) where
  open sys use {sys_open, sys_lseek, sys_write, sys_close}

  -- Test 3.
  unfoldable pub write_at : ℤ → List ℕ → M W ℤ
  write_at offset bytes = do
    fd ← sys_open wronly
    if is_neg fd then pure (pos 1) else (do
      at ← sys_lseek fd offset
      if is_neg at then (do _ ← sys_close fd; pure (pos 1)) else (do
        n ← sys_write fd bytes
        _ ← sys_close fd
        pure (if is_neg n then pos 1 else pos 0)))

  -- The tests once the module is loaded. Test 6 makes the calls of `write_device`.
  unfoldable pub seven_tests : M W Outcome
  unfolding then_write then_show write_at
  seven_tests = then_write (write_device sys test_string) (
      then_show (read_device sys (pos 0) (pos (length test_string))) (
        then_write (write_at (pos 10) offset_string) (
          then_show (read_device sys (pos 0) (pos 50)) (
            then_show (read_device sys (pos 10) (pos 20)) (
              then_write (write_device sys binary_data) (
                then_show (read_device sys (pos 0) (pos 50))
                  (pure (record { code = pos 0; shown = [] }))))))))

  unfoldable pub run_tests : Shell W → M W Outcome
  unfolding seven_tests
  run_tests sh = do
    ret ← sh.system char_names.lsmod
    if eq_zero ret then seven_tests else (do
      loaded ← load_module_of sh char_names
      if eq_zero loaded then seven_tests else pure gave_up)
