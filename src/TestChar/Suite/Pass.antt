-- ===== src/TestChar/Suite/Pass.antt =====
-- `run_tests` of tutorial-02/test_char.c over the driver.
use utsavbalar_linux_kernel.Base.{
  ℕ, ◌+◌, ◌-◌, ◌≤◌, ◌<◌, min, ◌≡◌, refl, ap, ◌∙◌, true, List, [], ◌∷◌, arith, if◌then◌else◌, length,
  take, drop, eq_zero, pos,
}
use utsavbalar_linux_kernel.Kernel.{splice, length-splice}
use utsavbalar_linux_kernel.SimpleChar.{buffer_size as driver_size, WriteResult}
use utsavbalar_linux_kernel.SimpleChar.Seek.{char_llseek_set}
use utsavbalar_linux_kernel.TestChar.{display, clamp_length, read_device, M, write_device}
use utsavbalar_linux_kernel.Process.{Syscalls, wronly, Shell}
use utsavbalar_linux_kernel.TestChar.OverDriver.{
  IsDevice, driver_write, read_device_lem, device_buffer-read_device, write_device_lem,
}
use utsavbalar_linux_kernel.Loader.{char_names, load_module_of}
use utsavbalar_linux_kernel.Loader.Outcome.{IsShell, load_module_lem}
use utsavbalar_linux_kernel.TestChar.Suite.{
  run_tests, gave_up, Outcome, then_write, then_show, write_at, test_string, offset_string,
  seven_tests, binary_data,
}

module _ {W : Type 0} (sys : Syscalls W) (lawful : IsDevice sys) where
  open lawful use {device_buffer, position, opens, closes, seeks, writes}

  write_at_lem :
      (bytes : List ℕ) (o : ℕ) (w : W)
      → length (device_buffer w) ≡ driver_size
      → 0 < length bytes
      → o + length bytes ≤ driver_size
      → let (code, w') = write_at sys (pos o) bytes w in
        (code ≡ pos 0) × (device_buffer w' ≡ splice (device_buffer w) o bytes)
  unfolding write_at
  write_at_lem bytes o w size some_bytes fits =
      let (fd, w1) = sys.sys_open wronly w in
      let (at, w2) = sys.sys_lseek fd (pos o) w1 in
      let n = length bytes in
      let r : WriteResult = record {
        device_buffer = splice (device_buffer w2) o bytes;
        offset = pos (o + n);
        ret = pos n;
      } in
      ground (
        arith,
        opens wronly w size,
        seeks fd (pos o) w1,
        char_llseek_set (position w1) o,
        driver_write sys lawful bytes o w2,
        writes fd bytes w2 r,
        closes fd (sys.sys_write fd bytes w2).1,
      )

  -- The rest of a run after a write, and after a read, in terms of the driver's buffer.
  after_write_device :
      (bytes b : List ℕ) (rest : M W Outcome) (o : Outcome) (w : W)
      → 0 < length bytes
      → length bytes ≤ driver_size
      → length b ≡ driver_size
      → device_buffer w ≡ b
      → ((w' : W) → device_buffer w' ≡ splice b 0 bytes → (rest w').0 ≡ o)
      → (then_write (write_device sys bytes) rest w).0 ≡ o
  unfolding then_write
  after_write_device bytes b rest o w some_bytes fits size at go_on =
      let size_w : length (device_buffer w) ≡ driver_size = ap length at ∙ size in
      let (ok, left) = write_device_lem sys lawful bytes w size_w some_bytes fits in
      rw ok (go_on (write_device sys bytes w).1 (left ∙ ap (λ c. splice c 0 bytes) at))

  after_write_at :
      (bytes : List ℕ) (o : ℕ) (b : List ℕ) (rest : M W Outcome) (result : Outcome) (w : W)
      → 0 < length bytes
      → o + length bytes ≤ driver_size
      → length b ≡ driver_size
      → device_buffer w ≡ b
      → ((w' : W) → device_buffer w' ≡ splice b o bytes → (rest w').0 ≡ result)
      → (then_write (write_at sys (pos o) bytes) rest w).0 ≡ result
  unfolding then_write
  after_write_at bytes o b rest result w some_bytes fits size at go_on =
      let size_w : length (device_buffer w) ≡ driver_size = ap length at ∙ size in
      let (ok, left) = write_at_lem bytes o w size_w some_bytes fits in
      rw ok (go_on (write_at sys (pos o) bytes w).1 (left ∙ ap (λ c. splice c o bytes) at))

  after_show :
      (offset len : ℕ) (b : List ℕ) (rest : M W Outcome) (o : Outcome) (w : W)
      → offset ≤ driver_size
      → length b ≡ driver_size
      → device_buffer w ≡ b
      → ((w' : W) → device_buffer w' ≡ b → (rest w').0 ≡ o)
      → let bytes = take (min (driver_size - offset) (clamp_length (pos len))) (drop offset b) in
        (then_show (read_device sys (pos offset) (pos len)) rest w).0
        ≡ record { code = o.code; shown = display bytes ∷ o.shown }
  unfolding then_show
  after_show offset len b rest o w h size at go_on =
      let w' = (read_device sys (pos offset) (pos len) w).1 in
      let size_w : length (device_buffer w) ≡ driver_size = ap length at ∙ size in
      let kept = device_buffer-read_device sys lawful (pos offset) (pos len) w size_w in
      ground
        (arith, read_device_lem sys lawful (pos offset) (pos len) w size_w, go_on w' (kept ∙ at))

  -- The buffer after test 1, and after test 3.
  abbrev pub first : List ℕ → List ℕ
  first b = splice b 0 test_string

  abbrev pub second : List ℕ → List ℕ
  second b = splice (first b) 10 offset_string

  -- What the tests show over a buffer b: the test string, the first 50 bytes with the second string
  -- written over the first from position 10 on, the 20 bytes from there on, and the binary data.
  abbrev pub passed : List ℕ → Outcome
  passed b = record {
    code = pos 0;
    shown =
        display test_string
        ∷ display (take 50 (second b))
        ∷ display (take 20 (drop 10 (second b)))
        ∷ display binary_data
        ∷ [];
  }

  -- Over the driver the seven tests come to their end with code 0, whatever its buffer of 1024 bytes
  -- holds, and show what was written.
  seven_tests_lem :
      (w : W)
      → length (device_buffer w) ≡ driver_size
      → (seven_tests sys w).0 ≡ passed (device_buffer w)
  unfolding seven_tests clamp_length
  seven_tests_lem w size =
      let b = device_buffer w in
      let size1 : length (first b) ≡ driver_size =
        length-splice b 0 test_string (omega arith) ∙ size in
      let size2 : length (second b) ≡ driver_size =
        length-splice (first b) 10 offset_string (omega arith) ∙ size1 in
      let size3 : length (splice (second b) 0 binary_data) ≡ driver_size =
        length-splice (second b) 0 binary_data (omega arith) ∙ size2 in
      after_write_device test_string b _ _ w (omega arith) (omega arith) size refl (λ w1 at1.
        after_show 0 (length test_string) (first b) _ _ w1 (omega arith) size1 at1 (λ w2 at2.
          after_write_at offset_string 10 (first b) _ _ w2 (omega arith) (omega arith) size1 at2
            (λ w3 at3. after_show 0 50 (second b) _ _ w3 (omega arith) size2 at3 (λ w4 at4.
              after_show 10 20 (second b) _ _ w4 (omega arith) size2 at4 (λ w5 at5.
                after_write_device binary_data (second b) _ _ w5 (omega arith) (omega arith) size2
                  at5
                  (λ w6 at6.
                    after_show 0 50 (splice (second b) 0 binary_data) _ _ w6 (omega arith) size3 at6
                      (λ w7 at7. refl)))))))

  -- Over the driver and a shell that does what its manual says, where a loaded module has its buffer
  -- of 1024 bytes: `run_tests` passes with all displays if the module was loaded, or if loading it
  -- succeeds, and otherwise gives up with code 1 before it shows anything.
  pub run_tests_lem :
      (sh : Shell W) (shell : IsShell sh char_names)
      → ((w : W) → shell.loaded w ≡ true → length (device_buffer w) ≡ driver_size)
      → (w : W)
      → let w1 = (sh.system char_names.lsmod w).1 in
        let (code, w2) = load_module_of sh char_names w1 in
        (run_tests sys sh w).0 ≡ (
          if shell.loaded w
          then passed (device_buffer w1)
          else if eq_zero code
          then passed (device_buffer w2)
          else gave_up)
  unfolding run_tests
  run_tests_lem sh shell sized w =
      let w1 = (sh.system char_names.lsmod w).1 in
      let w2 = (load_module_of sh char_names w1).1 in
      ground (
        arith,
        shell.lsmod-loaded w,
        shell.lsmod_keeps w,
        load_module_lem sh char_names shell w1,
        sized w1,
        sized w2,
        seven_tests_lem w1,
        seven_tests_lem w2,
      )
