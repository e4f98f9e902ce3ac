-- ===== src/TestKmem/Tests.antt =====
-- The monitor over the small world of the loading programs.
use utsavbalar_linux_kernel.Base.{
  ℕ, List, ◌∷◌, refl, true, false, none, some, [], arith, if◌then◌else◌,
}
use utsavbalar_linux_kernel.TestStatus.{Around}
use utsavbalar_linux_kernel.Loader.{kmem_names}
use utsavbalar_linux_kernel.Loader.Sample.{World, shell}
use utsavbalar_linux_kernel.Loader.Outcome.{IsShell}
use utsavbalar_linux_kernel.TestKmem.Monitor.{IsUndisturbed}

shell-IsShell : IsShell (shell kmem_names) kmem_names
shell-IsShell = record {
  loaded = λ w. w.loaded;
  built = λ w. w.built;
  provided = λ w. w.loaded;
  lsmod-loaded = λ w. ground arith;
  lsmod_keeps = λ w. ground arith;
  rmmod-loaded = λ w. ground arith;
  make-loaded = λ w. ground arith;
  make-built = λ w h. ground arith;
  ko-built = λ w. ground arith;
  ko_keeps = λ w. ground arith;
  insmod-loaded = λ w. ground arith;
  node-provided = λ w. ground arith;
  node_keeps = λ w. ground arith;
}

-- The file can be opened while the module is loaded, and has two lines.
abbrev lines : List (List ℕ)
lines = (72 ∷ 10 ∷ []) ∷ (73 ∷ 10 ∷ []) ∷ []

abbrev around : Around World
around = record {
  proc_lines = λ w. (if w.loaded then some lines else none, w);
  pause = λ n w. (tt, w);
}

around-IsUndisturbed : IsUndisturbed (shell kmem_names) around shell-IsShell
unfolding shell-IsShell
around-IsUndisturbed = record {
  content = λ w. lines;
  clear_keeps = λ w. (ground arith, refl);
  free_keeps = λ w. (ground arith, refl);
  symbols_keep = λ w. (ground arith, refl);
  pause_keeps = λ n w. (refl, refl);
  lines_keep = λ w. (refl, refl);
  opens = λ w up. ground arith;
}

-- The module is built and not loaded.
abbrev built_only : World
built_only = record { loaded = false; built = true }
