-- ===== src/TestKmem.antt =====
-- tutorial-03/test_kmem.c: the display, the monitor and `main`. Loading and unloading are in Loader.
-- The texts around the lines of the proc file, and the usage text, are left out.
pub mod Monitor
mod Tests
use utsavbalar_linux_kernel.Base.{
  ℕ, zero, suc, Option, none, some, List, [], ◌∷◌, eq_zero, if◌then◌else◌, ℤ, pos,
}
use utsavbalar_linux_kernel.Process.{Shell, M, ◌>>=◌, pure}
use utsavbalar_linux_kernel.Loader.{kmem_names, kmem_load_module, kmem_unload_module}
use utsavbalar_linux_kernel.TestStatus.{Around}
use Prim.Native.String.{String}
use text.Mathlib.Text.{◌==◌ as str_eq}

-- What a display prints of the proc file; `none` if the file cannot be opened.
abbrev pub Lines : Type 0
Lines = Option (List (List ℕ))

abbrev pub free_command : String
free_command = "free -m"

abbrev pub symbols_command : String
symbols_command = "grep kmem_demo /proc/kallsyms | grep -v module_layout | head -10"

module _ {W : Type 0} (sh : Shell W) (around : Around W) where
  open sh use {system}

  -- What follows the `fopen`.
  unfoldable pub show_lines : Lines → M W (ℤ × Lines)
  show_lines none = pure (pos 1, none)
  show_lines (some text) = do _ ← system free_command; pure (pos 0, some text)

  -- The exit code, with what is printed.
  unfoldable pub display_memory_info : M W (ℤ × Lines)
  display_memory_info = do lines ← around.proc_lines; show_lines lines

  -- The loop of the monitor, with so many iterations left; there is no wait after the last.
  unfoldable pub monitor_rounds : ℕ → M W (List Lines)
  monitor_rounds zero = pure []
  monitor_rounds (suc left) = do
    _ ← system "clear"
    (code, lines) ← display_memory_info
    _ ← system symbols_command
    _ ← elim left [ zero ↦ pure tt | suc more ↦ around.pause 2_000_000 ]
    rest ← monitor_rounds left
    pure (lines ∷ rest)

  unfoldable pub monitor_memory : M W (ℤ × List Lines)
  monitor_memory = do
    ret ← system kmem_names.lsmod
    code ← if eq_zero ret then pure (pos 0) else kmem_load_module sh
    if eq_zero code then (do shown ← monitor_rounds 10; pure (pos 0, shown)) else pure (pos 1, [])

  -- The command line after the name of the program, and the exit code.
  pub main : List String → M W ℤ
  main [] = pure (pos 1)
  main (command ∷ args) =
      if str_eq command "display"
      then (do (code, lines) ← display_memory_info; pure code)
      else if str_eq command "load"
      then kmem_load_module sh
      else if str_eq command "unload"
      then kmem_unload_module sh
      else if str_eq command "monitor"
      then (do (code, shown) ← monitor_memory; pure code)
      else if str_eq command "help"
      then pure (pos 0)
      else pure (pos 1)
