-- ===== src/Loader/Outcome.antt =====
-- What the exit codes of the loading programs say about the module.
use utsavbalar_linux_kernel.Base.{
  ◌≡◌, ◌⊎◌, inl, inr, Bool, true, false, ◌&&◌, arith, if◌then◌else◌, Bool-cases, eq_zero, pos,
}
use utsavbalar_linux_kernel.Process.{Shell}
use utsavbalar_linux_kernel.Loader.{
  Names, hello_names, unload_first, build_if_missing, insert, load_module_of, unload_module_of,
  hello_main,
}

-- What the commands do, as their manuals say, to the three things that matter here: whether the
-- module is loaded, whether it is built, and whether its file is there. A command with status 0 has
-- done its work, and one with another status has left the module as it was.
pub record IsShell {W : Type 0} (sh : Shell W) (n : Names) : Type 0 where
  pub loaded : W → Bool
  pub built : W → Bool
  pub provided : W → Bool
  pub lsmod-loaded : (w : W) → eq_zero (sh.system n.lsmod w).0 ≡ loaded w
  pub lsmod_keeps : (w : W) → loaded (sh.system n.lsmod w).1 ≡ loaded w
  pub rmmod-loaded :
      (w : W)
      → loaded (sh.system n.rmmod w).1
        ≡ (if eq_zero (sh.system n.rmmod w).0 then false else loaded w)
  pub make-loaded : (w : W) → loaded (sh.system "make" w).1 ≡ loaded w
  pub make-built :
      (w : W) → eq_zero (sh.system "make" w).0 ≡ true → built (sh.system "make" w).1 ≡ true
  pub ko-built : (w : W) → eq_zero (sh.access n.ko w).0 ≡ built w
  pub ko_keeps :
      (w : W) → (loaded (sh.access n.ko w).1 ≡ loaded w) × (built (sh.access n.ko w).1 ≡ built w)
  pub insmod-loaded :
      (w : W)
      → loaded (sh.system n.insmod w).1
        ≡ (if eq_zero (sh.system n.insmod w).0 then true else loaded w)
  pub node-provided : (w : W) → eq_zero (sh.access n.node w).0 ≡ provided (sh.access n.node w).1
  pub node_keeps : (w : W) → loaded (sh.access n.node w).1 ≡ loaded w

module _ {W : Type 0} (sh : Shell W) (n : Names) (lawful : IsShell sh n) where
  open lawful use {
    loaded, built, provided, lsmod-loaded, lsmod_keeps, rmmod-loaded, make-loaded, make-built,
    ko-built, ko_keeps, insmod-loaded, node-provided, node_keeps,
  }

  -- After the first step the module is not loaded, or the program gives up.
  unload_first_lem :
      (w : W) → (unload_first sh n w).0 ≡ true → loaded (unload_first sh n w).1 ≡ false
  unfolding unload_first
  unload_first_lem w h =
      let w1 = (sh.system n.lsmod w).1 in
      ground (arith, lsmod-loaded w, lsmod_keeps w, rmmod-loaded w1)

  build_if_missing_lem :
      (w : W)
      → (loaded (build_if_missing sh n w).1 ≡ loaded w)
        × ((build_if_missing sh n w).0 ≡ true → built (build_if_missing sh n w).1 ≡ true)
  unfolding build_if_missing
  build_if_missing_lem w =
      let w1 = (sh.access n.ko w).1 in
      ground (arith, ko-built w, ko_keeps w, make-loaded w1, make-built w1)

  -- The world in which `insmod` runs, if the program comes to it.
  abbrev pub before_insmod : W → W
  before_insmod w = (build_if_missing sh n (unload_first sh n w).1).1

  -- A program that inserts the module does so when it is built and not loaded.
  insert_lem :
      (w : W)
      → (insert sh n w).0 ≡ true
      → (loaded (before_insmod w) ≡ false)
        × (built (before_insmod w) ≡ true)
        × ((insert sh n w).1 ≡ (sh.system n.insmod (before_insmod w)).1)
        × (loaded (insert sh n w).1 ≡ true)
  unfolding insert
  insert_lem w h =
      let w1 = (unload_first sh n w).1 in
      ground (arith, unload_first_lem w, build_if_missing_lem w1, insmod-loaded (before_insmod w))

  -- If `load_module` returns 0, it has run `insmod` on a module that was built and not loaded at that
  -- moment, and leaves the module loaded and its file in place; otherwise it returns 1.
  pub load_module_lem :
      (w : W)
      → let (code, w') = load_module_of sh n w in
        ((code ≡ pos 0)
          × (loaded w' ≡ true)
          × (provided w' ≡ true)
          × (loaded (before_insmod w) ≡ false)
          × (built (before_insmod w) ≡ true))
        ⊎ (code ≡ pos 1)
  unfolding load_module_of
  load_module_lem w = elim (Bool-cases (insert sh n w).0) [
    | inl done ↦
        ground
          (arith, insert_lem w done, node-provided (insert sh n w).1, node_keeps (insert sh n w).1)
    | inr failed ↦ inr (rw failed)
  ]

  -- The commands work where they can.
  abbrev pub IsWorking : Type 0
  IsWorking =
      ((w : W) → loaded w ≡ true → eq_zero (sh.system n.rmmod w).0 ≡ true)
      × ((w : W) → eq_zero (sh.system "make" w).0 ≡ true)
      × ((w : W) → loaded w ≡ false → built w ≡ true → eq_zero (sh.system n.insmod w).0 ≡ true)
      × ((w : W) → loaded w ≡ true → eq_zero (sh.access n.node w).0 ≡ true)

  insert_works : IsWorking → (w : W) → (insert sh n w).0 ≡ true
  unfolding insert unload_first build_if_missing
  insert_works works w =
      let w1 = (sh.system n.lsmod w).1 in
      let w2 = (unload_first sh n w).1 in
      let w3 = (sh.access n.ko w2).1 in
      ground (
        arith,
        lsmod-loaded w,
        lsmod_keeps w,
        works.0 w1,
        works.1 w3,
        works.2 (before_insmod w),
        unload_first_lem w,
        build_if_missing_lem w2,
      )

  -- Where every command works, `load_module` returns 0 from every state, whether the module is loaded
  -- or not and built or not, and the module is loaded then.
  pub load_module_works :
      IsWorking
      → (w : W) → let (code, w') = load_module_of sh n w in (code ≡ pos 0) × (loaded w' ≡ true)
  unfolding load_module_of
  load_module_works works w =
      let w1 = (insert sh n w).1 in
      let done = insert_works works w in
      ground (arith, insert_lem w done, works.3 w1, node_keeps w1)

  -- `unload_module` returns 0 exactly when the module was loaded and `rmmod` succeeded, and then the
  -- module is not loaded; otherwise it returns 1 and the module is as it was.
  pub unload_module_lem :
      (w : W)
      → let w1 = (sh.system n.lsmod w).1 in
        let (code, w') = unload_module_of sh n w in
        if loaded w && eq_zero (sh.system n.rmmod w1).0
        then (code ≡ pos 0) × (loaded w' ≡ false)
        else (code ≡ pos 1) × (loaded w' ≡ loaded w)
  unfolding unload_module_of
  unload_module_lem w =
      let w1 = (sh.system n.lsmod w).1 in
      ground (arith, lsmod-loaded w, lsmod_keeps w, rmmod-loaded w1)

-- The program of tutorial-01 looks at the module and at the log before it unloads: commands that
-- change nothing here.
pub record IsQuiet {W : Type 0} (sh : Shell W) (lawful : IsShell sh hello_names) : Type 0 where
  pub show_keeps : (w : W) → lawful.loaded (sh.system "lsmod | grep hello" w).1 ≡ lawful.loaded w
  pub log_keeps : (w : W) → lawful.loaded (sh.system "sudo dmesg | tail -n 5" w).1 ≡ lawful.loaded w

-- A run of the program of tutorial-01 that returns 0 has inserted the module while it was built and
-- not loaded, and leaves it unloaded; every other run returns 1.
pub hello_main_lem :
    {W : Type 0} (sh : Shell W) (lawful : IsShell sh hello_names)
    → IsQuiet sh lawful
    → (w : W)
    → let (code, w') = hello_main sh w in
      ((code ≡ pos 0)
        × (lawful.loaded w' ≡ false)
        × (lawful.loaded (before_insmod sh hello_names lawful w) ≡ false)
        × (lawful.built (before_insmod sh hello_names lawful w) ≡ true))
      ⊎ (code ≡ pos 1)
unfolding hello_main
hello_main_lem sh lawful quiet w = elim (Bool-cases (insert sh hello_names w).0) [
  | inl done ↦
      let w1 = (insert sh hello_names w).1 in
      let w2 = (sh.system "lsmod | grep hello" w1).1 in
      let w3 = (sh.system "sudo dmesg | tail -n 5" w2).1 in
      let w4 = (sh.system hello_names.rmmod w3).1 in
      ground
        (arith, insert_lem sh hello_names lawful w done, lawful.rmmod-loaded w3, quiet.log_keeps w4)
  | inr failed ↦ inr (rw failed)
]
