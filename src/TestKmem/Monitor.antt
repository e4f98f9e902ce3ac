-- ===== src/TestKmem/Monitor.antt =====
-- What the monitor of tutorial-03/test_kmem.c shows, over the commands as their manuals describe them.
use utsavbalar_linux_kernel.Base.{ℕ, zero, suc, ◌≡◌, true, some, List}
use utsavbalar_linux_kernel.Process.{Shell, M, pure}
use utsavbalar_linux_kernel.Loader.{kmem_names}
use utsavbalar_linux_kernel.Loader.Outcome.{IsShell}
use utsavbalar_linux_kernel.TestStatus.{Around}
use utsavbalar_linux_kernel.TestKmem.{free_command, symbols_command}

-- Nobody else loads or unloads the module meanwhile: the other commands leave it, and so the lines of
-- its proc file, as they are, and the file can be opened while the module is loaded.
pub record IsUndisturbed {W : Type 0} (sh : Shell W) (around : Around W)
    (lawful : IsShell sh kmem_names) : Type 0 where
  pub content : W → List (List ℕ)  -- the lines of the proc file
  pub clear_keeps :
      (w : W)
      → let w' = (sh.system "clear" w).1 in
        (lawful.loaded w' ≡ lawful.loaded w) × (content w' ≡ content w)
  pub free_keeps :
      (w : W)
      → let w' = (sh.system free_command w).1 in
        (lawful.loaded w' ≡ lawful.loaded w) × (content w' ≡ content w)
  pub symbols_keep :
      (w : W)
      → let w' = (sh.system symbols_command w).1 in
        (lawful.loaded w' ≡ lawful.loaded w) × (content w' ≡ content w)
  pub pause_keeps :
      (n : ℕ) (w : W)
      → let w' = (around.pause n w).1 in
        (lawful.loaded w' ≡ lawful.loaded w) × (content w' ≡ content w)
  pub lines_keep :
      (w : W)
      → let w' = (around.proc_lines w).1 in
        (lawful.loaded w' ≡ lawful.loaded w) × (content w' ≡ content w)
  pub opens : (w : W) → lawful.loaded w ≡ true → (around.proc_lines w).0 ≡ some (content w)

module _ {W : Type 0} (sh : Shell W) (around : Around W) (lawful : IsShell sh kmem_names)
    (quiet : IsUndisturbed sh around lawful) where
  open lawful use {loaded, lsmod-loaded, lsmod_keeps}
  open quiet use {content, clear_keeps, free_keeps, symbols_keep, pause_keeps, lines_keep, opens}

  -- The module is loaded, with these lines in its proc file.
  abbrev Has : List (List ℕ) → W → Type 0
  Has text w = (loaded w ≡ true) × (content w ≡ text)

  wait : ℕ → M W (Unit {0})
  wait left = elim left [ zero ↦ pure tt | suc more ↦ around.pause 2_000_000 ]
