-- ===== src/TestSync.antt =====
-- tutorial-04/test_sync.c: the reset, the stress test and `main`. The displays are those of
-- TestStatus, which this program and the next one have in common.
pub mod StatusText
pub mod OverDriver
mod Tests
use utsavbalar_linux_kernel.Base.{
  ℕ, zero, suc, ◌||◌, Option, none, some, List, [], ◌∷◌, ◌==◌, if◌then◌else◌, Bool, pos_part, ℤ,
}
use utsavbalar_linux_kernel.Process.{Syscalls, M, ◌>>=◌, pure}
use utsavbalar_linux_kernel.Text.{codes}
use utsavbalar_linux_kernel.TestStatus.{
  Around, display_device_info, display_proc_info, send_command,
}

-- `choice == 'y' || choice == 'Y'`
abbrev pub says_yes : ℕ → Bool
says_yes choice = choice == b'y' || choice == b'Y'

-- The texts that a stress test prints of the device, one for each of its displays.
abbrev pub Texts : Type 0
Texts = List (Option (List ℕ))

-- What `main` prints of the device: before and after its reset, and in the stress test.
pub record Shown : Type 0 where
  pub at_start : Option (List ℕ)
  pub after_reset : Option (List ℕ)
  pub in_test : Option Texts

module _ {W : Type 0} (sys : Syscalls W) (around : Around W) where
  unfoldable pub reset_counters : M W Bool
  reset_counters = send_command sys around (codes "reset")

  -- The loop of the stress test, with so many iterations left.
  unfoldable pub stress_rounds : ℕ → M W Texts
  stress_rounds zero = pure []
  stress_rounds (suc left) = do
    _ ← reset_counters
    _ ← around.pause 10_000
    text ← display_device_info sys around
    rest ← stress_rounds left
    pure (text ∷ rest)

  -- The stress test, over what `scanf` stored in `iterations`. The result is `none` if nothing was
  -- stored there: the loop then reads a variable that has no value.
  unfoldable pub stress_test : Option ℤ → M W (Option Texts)
  stress_test none = pure none
  stress_test (some iterations) = do texts ← stress_rounds (pos_part iterations); pure (some texts)

  -- The rest of `main` after the question, over what `scanf` stored in `choice`.
  unfoldable pub answered : Option ℕ → Option ℤ → M W (Option Texts)
  answered none iterations = pure none
  answered (some choice) iterations =
      if says_yes choice then stress_test iterations else pure (some [])

  unfoldable pub main : Option ℕ → Option ℤ → M W Shown
  main choice iterations = do
    text ← display_device_info sys around
    _ ← display_proc_info sys around
    _ ← reset_counters
    _ ← around.pause 3_000_000
    text' ← display_device_info sys around
    _ ← display_proc_info sys around
    texts ← answered choice iterations
    pure (record { at_start = text; after_reset = text'; in_test = texts })
