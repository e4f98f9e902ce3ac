-- ===== src/Loader/Tests.antt =====
-- The loading programs over a small world: is the module loaded, and is it built?
use utsavbalar_linux_kernel.Base.{◌≡◌, refl, ◌⊎◌, true, false, arith, pos}
use utsavbalar_linux_kernel.Loader.{
  char_names, hello_main, hello_names, load_module_of, unload_module_of, insert, unload_first,
  build_if_missing,
}
use utsavbalar_linux_kernel.Loader.Sample.{World, shell}
use utsavbalar_linux_kernel.Loader.Outcome.{
  IsShell, IsQuiet, before_insmod, unload_module_lem, load_module_works, hello_main_lem,
  load_module_lem,
}

char_shell-IsShell : IsShell (shell char_names) char_names
char_shell-IsShell = record {
  loaded = λ w. w.loaded;
  built = λ w. w.built;
  provided = λ w. w.loaded;
  lsmod-loaded = λ w. ground arith;
  lsmod_keeps = λ w. ground arith;
  rmmod-loaded = λ w. ground arith;
  make-loaded = λ w. ground arith;
  make-built = λ w h. ground arith;
  ko-built = λ w. ground arith;
  ko_keeps = λ w. ground arith;
  insmod-loaded = λ w. ground arith;
  node-provided = λ w. ground arith;
  node_keeps = λ w. ground arith;
}

hello_shell-IsShell : IsShell (shell hello_names) hello_names
hello_shell-IsShell = record {
  loaded = λ w. w.loaded;
  built = λ w. w.built;
  provided = λ w. w.loaded;
  lsmod-loaded = λ w. ground arith;
  lsmod_keeps = λ w. ground arith;
  rmmod-loaded = λ w. ground arith;
  make-loaded = λ w. ground arith;
  make-built = λ w h. ground arith;
  ko-built = λ w. ground arith;
  ko_keeps = λ w. ground arith;
  insmod-loaded = λ w. ground arith;
  node-provided = λ w. ground arith;
  node_keeps = λ w. ground arith;
}

hello_shell-IsQuiet : IsQuiet (shell hello_names) hello_shell-IsShell
unfolding hello_shell-IsShell
hello_shell-IsQuiet = record { show_keeps = λ w. refl; log_keeps = λ w. refl }

-- The module is loaded, and its file was removed after it was built.
abbrev stale : World
stale = record { loaded = true; built = false }

load_stale :
    load_module_of (shell char_names) char_names stale
    ≡ (pos 0, record { loaded = true; built = true })
unfolding load_module_of insert unload_first build_if_missing
load_stale = refl

load_stale_outcome :
    let (code, w') = load_module_of (shell char_names) char_names stale in
    ((code ≡ pos 0)
      × (char_shell-IsShell.loaded w' ≡ true)
      × (char_shell-IsShell.provided w' ≡ true)
      × (char_shell-IsShell.loaded
            (before_insmod (shell char_names) char_names char_shell-IsShell stale)
          ≡ false)
      × (char_shell-IsShell.built
            (before_insmod (shell char_names) char_names char_shell-IsShell stale)
          ≡ true))
    ⊎ (code ≡ pos 1)
load_stale_outcome = load_module_lem (shell char_names) char_names char_shell-IsShell stale

unload_stale :
    let (code, w') = unload_module_of (shell char_names) char_names stale in
    (code ≡ pos 0) × (char_shell-IsShell.loaded w' ≡ false)
unfolding char_shell-IsShell
unload_stale = unload_module_lem (shell char_names) char_names char_shell-IsShell stale

hello_stale :
    let (code, w') = hello_main (shell hello_names) stale in
    ((code ≡ pos 0)
      × (hello_shell-IsShell.loaded w' ≡ false)
      × (hello_shell-IsShell.loaded
            (before_insmod (shell hello_names) hello_names hello_shell-IsShell stale)
          ≡ false)
      × (hello_shell-IsShell.built
            (before_insmod (shell hello_names) hello_names hello_shell-IsShell stale)
          ≡ true))
    ⊎ (code ≡ pos 1)
hello_stale = hello_main_lem (shell hello_names) hello_shell-IsShell hello_shell-IsQuiet stale

load_module_works_example :
    let (code, w') = load_module_of (shell char_names) char_names stale in
    (code ≡ pos 0) × (char_shell-IsShell.loaded w' ≡ true)
unfolding char_shell-IsShell
load_module_works_example =
    load_module_works (shell char_names) char_names char_shell-IsShell
      (λ w h. ground arith, λ w. refl, λ w h h'. ground arith, λ w h. ground arith) stale
