-- ===== src/Loader.antt =====
-- The part of the user-space test programs that loads and unloads a module: `main` of
-- tutorial-01/test_hello.c, and `load_module` and `unload_module` of tutorial-02/test_char.c and
-- tutorial-03/test_kmem.c. What the programs print is left out.
pub mod Outcome
pub mod Sample
mod Tests
use utsavbalar_linux_kernel.Base.{Bool, true, false, not, if◌then◌else◌, eq_zero, ℤ, pos}
use Prim.Native.String.{String}
use utsavbalar_linux_kernel.Process.{Shell, M, ◌>>=◌, pure}

-- The texts that differ between the programs.
pub record Names : Type 0 where
  pub lsmod : String  -- finds the module among the loaded ones
  pub rmmod : String
  pub insmod : String
  pub ko : String  -- the built module
  pub node : String  -- the file that the loaded module provides

abbrev pub char_names : Names
char_names = record {
  lsmod = "lsmod | grep simple_char > /dev/null";
  rmmod = "sudo rmmod simple_char";
  insmod = "sudo insmod simple_char.ko";
  ko = "simple_char.ko";
  node = "/dev/simple_char";
}

abbrev pub kmem_names : Names
kmem_names = record {
  lsmod = "lsmod | grep kmem_demo > /dev/null";
  rmmod = "sudo rmmod kmem_demo";
  insmod = "sudo insmod kmem_demo.ko";
  ko = "kmem_demo.ko";
  node = "/proc/kmem_demo";
}

-- The first program looks for no file of the module.
abbrev pub hello_names : Names
hello_names = record {
  lsmod = "lsmod | grep hello > /dev/null";
  rmmod = "sudo rmmod hello";
  insmod = "sudo insmod hello.ko";
  ko = "hello.ko";
  node = "";
}

module _ {W : Type 0} (sh : Shell W) where
  open sh use {system, access}

  -- Unload the module if it is loaded; the result says whether to go on.
  unfoldable pub unload_first : Names → M W Bool
  unload_first n = do
    ret ← system n.lsmod
    if eq_zero ret then (do ret' ← system n.rmmod; pure (eq_zero ret')) else pure true

  -- Build the module if it is not there.
  unfoldable pub build_if_missing : Names → M W Bool
  build_if_missing n = do
    found ← access n.ko
    if eq_zero found then pure true else (do ret ← system "make"; pure (eq_zero ret))

  -- Up to the insertion of the module, which the three programs share.
  unfoldable pub insert : Names → M W Bool
  insert n = do
    unloaded ← unload_first n
    if not unloaded then pure false else (do
      built ← build_if_missing n
      if not built then pure false else (do ret ← system n.insmod; pure (eq_zero ret)))

  -- `load_module`; the result is the exit code.
  unfoldable pub load_module_of : Names → M W ℤ
  load_module_of n = do
    inserted ← insert n
    if not inserted
        then pure (pos 1)
        else (do found ← access n.node; pure (if eq_zero found then pos 0 else pos 1))

  unfoldable pub unload_module_of : Names → M W ℤ
  unload_module_of n = do
    ret ← system n.lsmod
    if not (eq_zero ret)
        then pure (pos 1)
        else (do ret' ← system n.rmmod; pure (if eq_zero ret' then pos 0 else pos 1))

  -- tutorial-01/test_hello.c, without the wait.
  unfoldable pub hello_main : M W ℤ
  hello_main = do
    inserted ← insert hello_names
    if not inserted then pure (pos 1) else (do
      _ ← system "lsmod | grep hello"
      _ ← system "sudo dmesg | tail -n 5"
      ret ← system (hello_names.rmmod)
      if not (eq_zero ret)
          then pure (pos 1)
          else (do _ ← system "sudo dmesg | tail -n 5"; pure (pos 0)))

  -- tutorial-02/test_char.c.
  pub char_load_module : M W ℤ
  unfolding load_module_of
  char_load_module = load_module_of char_names

  pub char_unload_module : M W ℤ
  unfolding unload_module_of
  char_unload_module = unload_module_of char_names

  -- tutorial-03/test_kmem.c.
  unfoldable pub kmem_load_module : M W ℤ
  unfolding load_module_of
  kmem_load_module = load_module_of kmem_names

  pub kmem_unload_module : M W ℤ
  unfolding unload_module_of
  kmem_unload_module = unload_module_of kmem_names
