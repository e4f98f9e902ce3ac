-- ===== src/TestChar/OverDriver.antt =====
-- `read_device` and `write_device` of tutorial-02/test_char.c over the driver of
-- tutorial-02/simple_char.c: what comes out of the program and of the driver together.
use utsavbalar_linux_kernel.Base.{
  ℕ, ◌+◌, ◌-◌, ◌≤◌, ◌<◌, min, ◌≡◌, ◌∙◌, false, some, List, [], arith, leb, if◌then◌else◌, length,
  get_or, take, drop, pos_part, is_neg, ℤ, pos,
}
use utsavbalar_linux_kernel.Kernel.{
  user_bytes_of, copy_from_user_all, UserAccess, IsUserAccess, splice, length-splice,
  take-drop-splice,
}
use utsavbalar_linux_kernel.SimpleChar.{
  buffer_size as driver_size, ReadResult, WriteResult, seek_set, char_read, char_write, char_llseek,
}
use utsavbalar_linux_kernel.SimpleChar.Seek.{char_llseek_set}
use utsavbalar_linux_kernel.SimpleChar.Bounds.{char_read_lem, char_write_lem}
use utsavbalar_linux_kernel.TestChar.{
  failed, display, clamp_length, read_and_show, read_device, write_device,
}
use utsavbalar_linux_kernel.Process.{Syscalls, Mode, wronly, rdonly}

-- What the kernel's file layer does with the calls of a process that has one file open, the device:
-- it hands them to the driver, and the process's memory, which holds the bytes that it writes, does
-- not fault. An open of the device succeeds while the driver has its buffer of 1024 bytes, that is,
-- while the module is loaded; of an open at other times nothing is asked.
pub record IsDevice {W : Type 0} (sys : Syscalls W) : Type 0 where
  pub device_buffer : W → List ℕ
  pub position : W → ℤ
  pub memory : List ℕ → UserAccess
  pub memory-IsUserAccess : (bytes : List ℕ) → IsUserAccess (memory bytes)
  pub holds : (bytes : List ℕ) (i : ℕ) → (memory bytes).user_byte i ≡ get_or bytes i 0
  pub no_fault_in :
      (bytes : List ℕ) (n : ℕ) → n ≤ length bytes → ((memory bytes).copy_from_user 0 n).1 ≡ 0
  pub no_fault_out : (bytes sent : List ℕ) → (memory bytes).copy_to_user 0 sent ≡ 0
  pub opens :
      (m : Mode) (w : W)
      → length (device_buffer w) ≡ driver_size
      → let (fd, w') = sys.sys_open m w in
        (is_neg fd ≡ false) × (position w' ≡ pos 0) × (device_buffer w' ≡ device_buffer w)
  pub closes : (fd : ℤ) (w : W) → device_buffer (sys.sys_close fd w).1 ≡ device_buffer w
  pub seeks :
      (fd offset : ℤ) (w : W)
      → let (ret, w') = sys.sys_lseek fd offset w in
        ((position w', ret) ≡ char_llseek (position w) offset seek_set)
        × (device_buffer w' ≡ device_buffer w)
  pub reads :
      (fd : ℤ) (n : ℕ) (w : W) (r : ReadResult)
      → char_read (memory []) (device_buffer w) 0 n (position w) ≡ some r
      → let (answer, w') = sys.sys_read fd n w in
        (answer ≡ (r.ret, r.delivered)) × (device_buffer w' ≡ device_buffer w)
  pub writes :
      (fd : ℤ) (bytes : List ℕ) (w : W) (r : WriteResult)
      → char_write (memory bytes) (device_buffer w) 0 (length bytes) (position w) ≡ some r
      → let (ret, w') = sys.sys_write fd bytes w in
        (ret ≡ r.ret) × (device_buffer w' ≡ r.device_buffer)

module _ {W : Type 0} (sys : Syscalls W) (lawful : IsDevice sys) where
  open lawful use {
    device_buffer, position, memory, memory-IsUserAccess, holds, no_fault_in, no_fault_out, opens,
    closes, seeks, reads, writes,
  }

  -- What the program finds from position o on.
  abbrev pub found : W → ℕ → ℤ → List ℕ
  found w o len = take (min (driver_size - o) (clamp_length len)) (drop o (device_buffer w))

  driver_read :
      (len : ℤ) (o : ℕ) (w : W)
      → length (device_buffer w) ≡ driver_size
      → o ≤ driver_size
      → position w ≡ pos o
      → let m = min (driver_size - o) (clamp_length len) in
        char_read (memory []) (device_buffer w) 0 (clamp_length len) (position w)
        ≡ some (record { delivered = found w o len; offset = pos (o + m); ret = pos m })
  driver_read len o w size h at =
      let n = clamp_length len in
      let bytes = take (min (driver_size - o) n) (drop o (device_buffer w)) in
      ground
        (arith, no_fault_out [] bytes, char_read_lem (memory []) (device_buffer w) 0 n o size h)

  read_and_show_lem :
      (fd len : ℤ) (o : ℕ) (w : W)
      → length (device_buffer w) ≡ driver_size
      → o ≤ driver_size
      → position w ≡ pos o
      → (read_and_show sys fd len w).0 ≡ record { code = pos 0; shown = display (found w o len) }
  unfolding read_and_show
  read_and_show_lem fd len o w size h at =
      let m = min (driver_size - o) (clamp_length len) in
      let r : ReadResult = record {
        delivered = found w o len;
        offset = pos (o + m);
        ret = pos m;
      } in
      ground (arith, (reads fd (clamp_length len) w r (driver_read len o w size h at)).0)

  device_buffer-read_and_show :
      (fd len : ℤ) (o : ℕ) (w : W)
      → length (device_buffer w) ≡ driver_size
      → o ≤ driver_size
      → position w ≡ pos o
      → device_buffer (read_and_show sys fd len w).1 ≡ device_buffer w
  unfolding read_and_show
  device_buffer-read_and_show fd len o w size h at =
      let m = min (driver_size - o) (clamp_length len) in
      let r : ReadResult = record {
        delivered = found w o len;
        offset = pos (o + m);
        ret = pos m;
      } in
      closes fd (sys.sys_read fd (clamp_length len) w).1
      ∙ (reads fd (clamp_length len) w r (driver_read len o w size h at)).1

  pub device_buffer-read_device :
      (offset len : ℤ) (w : W)
      → length (device_buffer w) ≡ driver_size
      → device_buffer (read_device sys offset len w).1 ≡ device_buffer w
  unfolding read_device
  device_buffer-read_device offset len w size =
      let (fd, w1) = sys.sys_open rdonly w in
      let o = pos_part offset in
      let (at, w2) = sys.sys_lseek fd offset w1 in
      ground (
        arith,
        opens rdonly w size,
        seeks fd offset w1,
        closes fd w2,
        char_llseek_set (position w1) o,
        device_buffer-read_and_show fd len 0 w1,
        device_buffer-read_and_show fd len o w2,
      )

  -- For every `int` offset and length, `read_device` over the driver with a buffer of 1024 bytes
  -- refuses an offset beyond 1024 with code 1 and shows nothing; otherwise it returns 0 and shows
  -- the bytes of the driver's buffer from the offset on, from its start where the offset is
  -- negative, as many as the length asks for and as there are, but 1023 where the length is 0 or
  -- negative or greater.
  pub read_device_lem :
      (offset len : ℤ) (w : W)
      → length (device_buffer w) ≡ driver_size
      → (read_device sys offset len w).0 ≡ (
          if leb (pos_part offset) driver_size
          then record { code = pos 0; shown = display (found w (pos_part offset) len) }
          else failed)
  unfolding read_device
  read_device_lem offset len w size =
      let (fd, w1) = sys.sys_open rdonly w in
      let o = pos_part offset in
      let (at, w2) = sys.sys_lseek fd offset w1 in
      ground (
        arith,
        opens rdonly w size,
        seeks fd offset w1,
        char_llseek_set (position w1) o,
        read_and_show_lem fd len 0 w1,
        read_and_show_lem fd len o w2,
      )

  pub driver_write :
      (bytes : List ℕ) (o : ℕ) (w : W)
      → length (device_buffer w) ≡ driver_size
      → position w ≡ pos o
      → 0 < length bytes
      → o + length bytes ≤ driver_size
      → char_write (memory bytes) (device_buffer w) 0 (length bytes) (position w)
        ≡ some (record {
          device_buffer = splice (device_buffer w) o bytes;
          offset = pos (o + length bytes);
          ret = pos (length bytes);
        })
  driver_write bytes o w size at some_bytes fits =
      let k = memory bytes in
      let lawful_k = memory-IsUserAccess bytes in
      let n = length bytes in
      let all_in = no_fault_in bytes n (omega arith) in
      let copied : (k.copy_from_user 0 n).0 ≡ bytes =
        copy_from_user_all k lawful_k 0 n all_in ∙ user_bytes_of k bytes (holds bytes) in
      ground
        (arith, char_write_lem k lawful_k (device_buffer w) 0 n o size (omega arith) some_bytes)

  pub write_device_lem :
      (bytes : List ℕ) (w : W)
      → length (device_buffer w) ≡ driver_size
      → 0 < length bytes
      → length bytes ≤ driver_size
      → let (code, w') = write_device sys bytes w in
        (code ≡ pos 0) × (device_buffer w' ≡ splice (device_buffer w) 0 bytes)
  unfolding write_device
  write_device_lem bytes w size some_bytes fits =
      let (fd, w1) = sys.sys_open wronly w in
      let n = length bytes in
      let r : WriteResult = record {
        device_buffer = splice (device_buffer w1) 0 bytes;
        offset = pos n;
        ret = pos n;
      } in
      ground (
        arith,
        opens wronly w size,
        driver_write bytes 0 w1,
        writes fd bytes w1 r,
        closes fd (sys.sys_write fd bytes w1).1,
      )

  -- Data of 1 to 1023 bytes that `write_device` puts into the driver's buffer are what `read_device`
  -- with offset 0 and their length shows; both return 0.
  pub read_device-write_device :
      (bytes : List ℕ) (w : W)
      → length (device_buffer w) ≡ driver_size
      → 0 < length bytes
      → length bytes < driver_size
      → let (code, w') = write_device sys bytes w in
        (code ≡ pos 0)
        × ((read_device sys (pos 0) (pos (length bytes)) w').0
            ≡ record { code = pos 0; shown = display bytes })
  unfolding clamp_length
  read_device-write_device bytes w size some_bytes fits =
      let n = length bytes in
      let w' = (write_device sys bytes w).1 in
      let fits' : 0 + n ≤ length (device_buffer w) = omega arith in
      ground (
        arith,
        write_device_lem bytes w size some_bytes (omega arith),
        length-splice (device_buffer w) 0 bytes fits',
        take-drop-splice (device_buffer w) 0 bytes fits',
        read_device_lem (pos 0) (pos n) w',
      )
