-- ===== src/TestChar.antt =====
-- tutorial-02/test_char.c: reading and writing the device from user space. The system calls are a
-- parameter over a world W; what the program prints of the data is kept.
pub mod Output
pub mod OverDriver
pub mod Suite
pub mod CommandLine
mod Tests
use utsavbalar_linux_kernel.Base.{
  ℕ, suc, ◌+◌, ◌-◌, ◌*◌, ◌%◌, Bool, ◌&&◌, ◌||◌, List, [], ◌∷◌, ltb, leb, ◌==◌, if◌then◌else◌,
  length, pos_part, ltb_ℤ, leb_ℤ, is_neg, ℤ, pos,
}
use utsavbalar_linux_kernel.Process.{M, ◌>>=◌, pure, Mode, Syscalls, rdonly, wronly}

-- BUFFER_SIZE, the size of the array that receives the data.
abbrev pub buffer_size : ℕ
buffer_size = 1024

-- One call of `printf` in the hex dump.
pub data Token : Type 0 where
  hex : ℕ → Token
  newline : Token

pub data Display : Type 0 where
  nothing : Display
  as_text : List ℕ → Display
  hex_dump : List Token → Display

pub record Report : Type 0 where
  pub code : ℤ
  pub shown : Display

abbrev pub is_printable : ℕ → Bool
is_printable b = leb 32 b && leb b 126

-- The first loop.
unfoldable pub count_printable : List ℕ → ℕ
count_printable [] = 0
count_printable (b ∷ bytes) =
    let rest = count_printable bytes in if is_printable b then suc rest else rest

-- The second loop, from index i on.
unfoldable pub dump_from : ℕ → List ℕ → List Token
dump_from i [] = []
dump_from i (b ∷ bytes) =
    let rest = dump_from (i + 1) bytes in
    if (i + 1) % 16 == 0 then hex b ∷ newline ∷ rest else hex b ∷ rest

-- `%s` of the buffer, whose bytes end in the terminator that the program wrote.
unfoldable pub text_of : List ℕ → List ℕ
text_of [] = []
text_of (b ∷ bytes) = if b == 0 then [] else b ∷ text_of bytes

-- `printable_chars > bytes_read * 0.8`, in fifths: for the at most 1023 bytes of a read the product
-- of doubles is exact where it is a whole number, and falls between the same whole numbers elsewhere.
unfoldable pub display : List ℕ → Display
display bytes =
    if ltb (4 * length bytes) (5 * count_printable bytes)
    then as_text (text_of bytes)
    else hex_dump (dump_from 0 bytes)

-- `length` as the call of `read` gets it.
unfoldable pub clamp_length : ℤ → ℕ
clamp_length len =
    if leb_ℤ len (pos 0) || ltb_ℤ (pos (buffer_size - 1)) len then buffer_size - 1 else pos_part len

abbrev pub failed : Report
failed = record { code = pos 1; shown = nothing }

module _ {W : Type 0} (sys : Syscalls W) where
  open sys use {sys_open, sys_lseek, sys_read, sys_write, sys_close}

  -- The part of `read_device` after the seek.
  unfoldable pub read_and_show : ℤ → ℤ → M W Report
  read_and_show fd len = do
    (n, bytes) ← sys_read fd (clamp_length len)
    _ ← sys_close fd
    pure (if is_neg n then failed else record { code = pos 0; shown = display bytes })

  unfoldable pub read_device : ℤ → ℤ → M W Report
  unfolding read_and_show
  read_device offset len = do
    fd ← sys_open rdonly
    if is_neg fd
        then pure failed
        else (if ltb_ℤ (pos 0) offset
            then (do
              at ← sys_lseek fd offset
              if is_neg at then (do _ ← sys_close fd; pure failed) else read_and_show fd len)
            else read_and_show fd len)

  -- The exit code.
  unfoldable pub write_device : List ℕ → M W ℤ
  write_device bytes = do
    fd ← sys_open wronly
    if is_neg fd
        then pure (pos 1)
        else (do n ← sys_write fd bytes; _ ← sys_close fd; pure (if is_neg n then pos 1 else pos 0))
