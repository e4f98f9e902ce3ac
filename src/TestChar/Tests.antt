-- ===== src/TestChar/Tests.antt =====
-- The test program over a device file that is open once.
use utsavbalar_linux_kernel.Base.{
  ℕ, ◌*◌, ◌/◌, ◌≤◌, ◌<◌, ◌≡◌, refl, ◌⊎◌, Bool, true, none, some, List, [], ◌∷◌, arith, ◌==◌,
  if◌then◌else◌, length, take, drop, replicate, ℤ, pos, negsuc,
}
use utsavbalar_linux_kernel.Kernel.Sample.{memory_of, memory_of-IsUserAccess}
use utsavbalar_linux_kernel.SimpleChar.{seek_set, char_read, char_write, char_llseek}
use utsavbalar_linux_kernel.TestChar.{
  clamp_length, display, as_text, hex_dump, hex, dump_from, text_of, count_printable, read_device,
  write_device,
}
use utsavbalar_linux_kernel.Process.{Syscalls, Shell}
use utsavbalar_linux_kernel.TestChar.Output.{dumped, newlines, display_lem}
use utsavbalar_linux_kernel.Loader.{
  char_names, load_module_of, insert, unload_first, build_if_missing,
}
use utsavbalar_linux_kernel.Loader.Outcome.{IsShell}
use utsavbalar_linux_kernel.TestChar.Suite.{run_tests}
use utsavbalar_linux_kernel.TestChar.Suite.Pass.{second, passed, run_tests_lem}
use utsavbalar_linux_kernel.Text.{codes}
use utsavbalar_linux_kernel.TestChar.CommandLine.{write_command, char_main}
use Prim.Native.String.{String}
use text.Mathlib.Text.{◌==◌ as str_eq}
use utsavbalar_linux_kernel.TestChar.OverDriver.{
  IsDevice, read_device_lem, read_device-write_device,
}

pub record World : Type 0 where
  pub device_buffer : List ℕ
  pub position : ℤ

-- The module is loaded when the world has its buffer.
abbrev has_buffer : World → Bool
has_buffer w = length w.device_buffer == 1024

abbrev sys_read : ℤ → ℕ → World → (ℤ × List ℕ) × World
sys_read fd n w = elim (char_read (memory_of []) w.device_buffer 0 n w.position) [
  | none ↦ ((negsuc 0, []), w)
  | some r ↦ ((r.ret, r.delivered), record w { position = r.offset })
]

abbrev sys_write : ℤ → List ℕ → World → ℤ × World
sys_write fd bytes w =
    elim (char_write (memory_of bytes) w.device_buffer 0 (length bytes) w.position) [
      | none ↦ (negsuc 0, w)
      | some r ↦ (r.ret, record { device_buffer = r.device_buffer; position = r.offset })
    ]

abbrev sys_lseek : ℤ → ℤ → World → ℤ × World
sys_lseek fd offset w =
    let (position, ret) = char_llseek w.position offset seek_set in
    (ret, record w { position = position })

abbrev device : Syscalls World
device = record {
  sys_open = λ m w. if has_buffer w then (pos 3, record w { position = pos 0 }) else (negsuc 1, w);
  sys_lseek = sys_lseek;
  sys_read = sys_read;
  sys_write = sys_write;
  sys_close = λ fd w. (tt, w);
}

device-IsDevice : IsDevice device
device-IsDevice = record {
  device_buffer = λ w. w.device_buffer;
  position = λ w. w.position;
  memory = memory_of;
  memory-IsUserAccess = λ bytes. memory_of-IsUserAccess bytes;
  holds = λ bytes i. refl;
  no_fault_in = λ bytes n h. omega arith;
  no_fault_out = λ bytes sent. refl;
  opens = λ m w size. ground arith;
  closes = λ fd w. refl;
  seeks = λ fd offset w. (refl, refl);
  reads = λ fd n w r e. ground arith;
  writes = λ fd bytes w r e. ground arith;
}

-- The device after a load.
abbrev cleared : World
cleared = record { device_buffer = replicate 1024 0; position = pos 0 }

abbrev hello : List ℕ
hello = 72 ∷ 101 ∷ 108 ∷ 108 ∷ 111 ∷ []

shown_as_text : display hello ≡ as_text hello
unfolding display text_of count_printable
shown_as_text = refl

-- A byte that is not printable among three makes a dump.
shown_as_dump : display (72 ∷ 0 ∷ 73 ∷ []) ≡ hex_dump (hex 72 ∷ hex 0 ∷ hex 73 ∷ [])
unfolding display text_of count_printable dump_from
shown_as_dump = refl

read_device-write_device_example :
    let (code, w') = write_device device hello cleared in
    (code ≡ pos 0)
    × ((read_device device (pos 0) (pos 5) w').0 ≡ record { code = pos 0; shown = display hello })
unfolding device-IsDevice
read_device-write_device_example =
    read_device-write_device device device-IsDevice hello cleared refl (omega arith) (omega arith)

read_device_lem_example :
    (read_device device (pos 1020) (pos 0) cleared).0
    ≡ record { code = pos 0; shown = display (0 ∷ 0 ∷ 0 ∷ 0 ∷ []) }
unfolding device-IsDevice clamp_length
read_device_lem_example = read_device_lem device device-IsDevice (pos 1020) (pos 0) cleared refl

-- Of the two sides of the sum, the display of these bytes is the second.
dumped_bytes :
    let bytes : List ℕ = 72 ∷ 0 ∷ 73 ∷ [] in
    ((display bytes ≡ as_text (text_of bytes)) × (4 * length bytes < 5 * count_printable bytes))
    ⊎ ((display bytes ≡ hex_dump (dump_from 0 bytes))
        × (5 * count_printable bytes ≤ 4 * length bytes)
        × (dumped (dump_from 0 bytes) ≡ bytes)
        × (newlines (dump_from 0 bytes) ≡ length bytes / 16))
dumped_bytes = display_lem (72 ∷ 0 ∷ 73 ∷ [])

-- A load clears the buffer, and an unload takes it away.
abbrev system : String → World → ℤ × World
system command w =
    if str_eq command char_names.lsmod
    then (if has_buffer w then pos 0 else pos 256, w)
    else if str_eq command char_names.rmmod
    then (if has_buffer w then pos 0 else pos 256, record w { device_buffer = [] })
    else if str_eq command char_names.insmod
    then (
      if has_buffer w then pos 256 else pos 0,
      if has_buffer w then w else record w { device_buffer = replicate 1024 0 },
    )
    else if str_eq command "make"
    then (pos 0, w)
    else (pos 256, w)

abbrev access : String → World → ℤ × World
access path w =
    if str_eq path char_names.node
    then (if has_buffer w then pos 0 else negsuc 0, w)
    else (pos 0, w)

abbrev shell : Shell World
shell = record { system = system; access = access }

shell-IsShell : IsShell shell char_names
shell-IsShell = record {
  loaded = has_buffer;
  built = λ w. true;
  provided = has_buffer;
  lsmod-loaded = λ w. ground arith;
  lsmod_keeps = λ w. refl;
  rmmod-loaded = λ w. ground arith;
  make-loaded = λ w. refl;
  make-built = λ w h. refl;
  ko-built = λ w. refl;
  ko_keeps = λ w. (refl, refl);
  insmod-loaded = λ w. ground arith;
  node-provided = λ w. ground arith;
  node_keeps = λ w. refl;
}

-- The module is not loaded; the run loads it.
abbrev unloaded : World
unloaded = record { device_buffer = []; position = pos 0 }

run_tests_lem_example :
    (run_tests device shell unloaded).0 ≡ passed device device-IsDevice (replicate 1024 0)
unfolding device-IsDevice shell-IsShell load_module_of insert unload_first build_if_missing
run_tests_lem_example =
    run_tests_lem device device-IsDevice shell shell-IsShell (λ w h. ground arith) unloaded

-- The modified bytes that test 5 prints are text.
test_5 :
    display (take 20 (drop 10 (second device device-IsDevice (replicate 1024 0))))
    ≡ as_text (codes "OFFSET WRITEe Driver")
unfolding display text_of count_printable
test_5 = refl

-- `write` without data is an error, and so is an unknown command.
missing_data : (char_main (λ arg. pos 0) shell device ("write" ∷ []) cleared).0 ≡ pos 1
unfolding char_main write_command
missing_data = refl

unknown_command : (char_main (λ arg. pos 0) shell device ("erase" ∷ []) cleared).0 ≡ pos 1
unfolding char_main
unknown_command = refl
